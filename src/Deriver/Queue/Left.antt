-- ===== src/Deriver/Queue/Left.antt =====
-- The requests that a pass over a queue has not attempted yet (deriver/requests.py).
use notchstave.Common.{
  ℕ, ◌+◌, ◌<◌, ◌≤◌, ◌≡◌, refl, ap, ◌⊎◌, inl, inr, Bool, true, false, none, some, List, [], ◌∷◌,
  ◌==◌, if◌then◌else◌, arith, Bool-cases, Option-cases, map,
}
use notchstave.Common.Rows.{filter}
use notchstave.Common.Tables.{
  All, All-map, All-zip, All-filter, filter-passes, first-IsPicked, update_where,
}
use notchstave.Deriver.Queue.{
  Request, Queue, mem, is_claimable, next_pending, claimed, change, claim_next,
}

abbrev pub ids_of : {P R : Type 0} → Queue P R → List ℕ
ids_of {P} {R} q = map (λ (r : Request P R). r.id) q.requests

-- The ids of the list that have not been attempted.
unfoldable pub count_left : List ℕ → List ℕ → ℕ
unfolding mem
count_left attempted [] = 0
count_left attempted (i ∷ ids) = (if mem i attempted then 0 else 1) + count_left attempted ids

pub count_left-le :
    (i : ℕ) (attempted ids : List ℕ) → count_left (i ∷ attempted) ids ≤ count_left attempted ids
unfolding count_left mem
count_left-le i attempted [] = omega arith
count_left-le i attempted (j ∷ ids) = ground (arith, count_left-le i attempted ids)

pub count_left-lt :
    (i : ℕ) (attempted ids : List ℕ)
    → mem i ids ≡ true
    → mem i attempted ≡ false
    → count_left (i ∷ attempted) ids < count_left attempted ids
unfolding count_left mem
count_left-lt i attempted [] has new = cc
count_left-lt i attempted (j ∷ ids) has new = elim (Bool-cases (j == i)) [
  | inl same ↦
      let e : j ≡ i = ground arith in
      ground (arith, ap (λ (k : ℕ). mem k attempted) e, count_left-le i attempted ids)
  | inr other ↦ ground (arith, other, count_left-lt i attempted ids (rw other at has) new)
]

pub mem_head : (i : ℕ) (ids : List ℕ) → mem i (i ∷ ids) ≡ true
unfolding mem
mem_head i ids = ground arith

module _ {P R : Type 0} where
  ids-update_where :
      (test : Request P R → Bool) (f : Request P R → Request P R) (rows : List (Request P R))
      → ((r : Request P R) → (f r).id ≡ r.id)
      → map (λ (r : Request P R). r.id) (update_where test f rows)
        ≡ map (λ (r : Request P R). r.id) rows
  unfolding update_where
  ids-update_where test f [] same = refl
  ids-update_where test f (r ∷ rows) same =
      ground (arith, same r, ids-update_where test f rows same)

  -- A statement that updates rows leaves the ids as they are.
  pub ids-change :
      (test : Request P R → Bool) (f : Request P R → Request P R) (q : Queue P R)
      → ((r : Request P R) → (f r).id ≡ r.id)
      → ids_of (change test f q) ≡ ids_of q
  ids-change test f q same = ids-update_where test f q.requests same

  weaken-mem :
      (j : ℕ) (ids : List ℕ) (rows : List (Request P R))
      → All (λ r. mem r.id ids ≡ true) rows
      → All (λ r. mem r.id (j ∷ ids) ≡ true) rows
  unfolding mem
  weaken-mem j ids rows h = All-map (λ r e. ground arith) rows h

  all-mem :
      (rows : List (Request P R))
      → All (λ r. mem r.id (map (λ (r : Request P R). r.id) rows) ≡ true) rows
  all-mem [] = tt
  all-mem (r ∷ rows) = (
    mem_head r.id (map (λ (r : Request P R). r.id) rows),
    weaken-mem r.id (map (λ (r : Request P R). r.id) rows) rows (all-mem rows),
  )

  claim-new :
      (attempted : List ℕ) (q : Queue P R) (r : Request P R)
      → next_pending attempted (λ i. false) q ≡ some r
      → (mem r.id (ids_of q) ≡ true) × (mem r.id attempted ≡ false)
  unfolding next_pending
  claim-new attempted q r e =
      let test = is_claimable attempted (λ i. false) in
      first-IsPicked (λ (p : Request P R). p.requested_at)
        (λ p. (mem p.id (ids_of q) ≡ true) × (mem p.id attempted ≡ false)) test q.requests r
        (All-zip (λ p h k. (k, claimable-new p h)) (filter test q.requests)
          (filter-passes test q.requests)
          (All-filter (λ p. mem p.id (ids_of q) ≡ true) test q.requests (all-mem q.requests)))
        e
    where
      claimable-new :
          (p : Request P R)
          → is_claimable attempted (λ i. false) p ≡ true
          → mem p.id attempted ≡ false
      claimable-new p h = ground arith

pub claim-cases :
    {P R : Type 0} (attempted : List ℕ) (q : Queue P R)
    → (claim_next attempted (λ i. false) q ≡ (none, q))
      ⊎ ((r : Request P R) × (claim_next attempted (λ i. false) q ≡ (
        some (claimed q.now r),
        change (λ (p : Request P R). p.id == r.id) (claimed q.now) q,
      ))
          × (mem r.id (ids_of q) ≡ true)
          × (mem r.id attempted ≡ false))
unfolding claim_next
claim-cases {P} {R} attempted q = elim (Option-cases (next_pending attempted (λ i. false) q)) [
  | inl e ↦ inl (rw e)
  | inr (r, e) ↦ inr (r, rw e, (claim-new attempted q r e).0, (claim-new attempted q r e).1)
]
