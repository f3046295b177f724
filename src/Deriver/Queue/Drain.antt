-- ===== src/Deriver/Queue/Drain.antt =====
-- The pass over a request queue (`drain` of deriver/requests.py, and the loops of deriver/main.py over it).
use notchstave.Common.{
  ℕ, zero, suc, ◌<◌, ◌≡◌, refl, ◌∙◌, inl, inr, false, Option, none, some, List, [], ◌∷◌, ◌==◌,
  arith,
}
use notchstave.Deriver.Queue.{Request, Queue, mem, claimed, change, claim_next}
use notchstave.Deriver.Queue.Left.{ids-change, ids_of, count_left, count_left-lt, claim-cases}

module _ {P R W O : Type 0} (serve : Request P R → Queue P R × W → O × Queue P R × W) where
  abbrev served :
      Request P R
      → O
      → Option (List (Request P R × O) × Queue P R × W)
      → Option (List (Request P R × O) × Queue P R × W)
  served r o none = none
  served r o (some (rows, q, w)) = some ((r, o) ∷ rows, q, w)

  abbrev handled :
      Option (Request P R) × Queue P R
      → Queue P R
      → W
      → (ℕ → Queue P R → W → Option (List (Request P R × O) × Queue P R × W))
      → Option (List (Request P R × O) × Queue P R × W)
  handled (none, q1) q w rest = some ([], q, w)
  handled (some r, q1) q w rest = let (o, q2, w2) = serve r (q1, w) in served r o (rest r.id q2 w2)

  -- `drain` with what its caller does to each request it yields. No other transaction holds a row; `none`
  -- means that the fuel ran out.
  unfoldable pub drain :
      ℕ → List ℕ → Queue P R → W → Option (List (Request P R × O) × Queue P R × W)
  unfolding claim_next
  drain zero attempted q w = none
  drain (suc fuel) attempted q w =
      handled (claim_next attempted (λ i. false) q) q w (λ i. drain fuel (i ∷ attempted))

module _ {P R W O : Type 0} (serve : Request P R → Queue P R × W → O × Queue P R × W) where
  -- No request is served twice, and none that was attempted before.
  abbrev pub AreNew : List ℕ → List (Request P R × O) → Type 0
  AreNew attempted [] = Unit
  AreNew attempted ((r, o) ∷ rows) = (mem r.id attempted ≡ false) × AreNew (r.id ∷ attempted) rows

  -- The pass ends, and what it has served is new.
  abbrev pub Ends : List ℕ → Option (List (Request P R × O) × Queue P R × W) → Type 0
  Ends attempted none = ⊥
  Ends attempted (some (rows, q, w)) = AreNew attempted rows

  served-Ends :
      (r : Request P R) (o : O) (attempted : List ℕ)
      (rest : Option (List (Request P R × O) × Queue P R × W))
      → mem r.id attempted ≡ false
      → Ends (r.id ∷ attempted) rest
      → Ends attempted (served serve r o rest)
  served-Ends r o attempted (some (rows, q, w)) new h = (new, h)
  served-Ends r o attempted none new h = elim h [ ]

  -- Where what is done to a request leaves the ids of the queue as they are, a pass over the queue ends
  -- within one round more than the requests not attempted yet, and serves no request twice.
  pub drain-Ends :
      ((r : Request P R) (q : Queue P R) (w : W) → ids_of (serve r (q, w)).1 ≡ ids_of q)
      → (fuel : ℕ) (attempted : List ℕ) (q : Queue P R) (w : W)
      → count_left attempted (ids_of q) < fuel
      → Ends attempted (drain serve fuel attempted q w)
  unfolding drain
  drain-Ends keeps zero attempted q w enough = absurd (omega arith)
  drain-Ends keeps (suc fuel) attempted q w enough = elim (claim-cases attempted q) [
    | inl e ↦ rw e tt
    | inr (r, e, known, new) ↦
        let q1 = change (λ (p : Request P R). p.id == r.id) (claimed q.now) q in
        let next = serve (claimed q.now r) (q1, w) in
        let same : ids_of next.1 ≡ ids_of q =
          keeps (claimed q.now r) q1 w
          ∙ ids-change (λ (p : Request P R). p.id == r.id) (claimed q.now) q (λ p. refl) in
        rw e (
          served-Ends (claimed q.now r) next.0 attempted
            (drain serve fuel (r.id ∷ attempted) next.1 next.2) new
            (drain-Ends keeps fuel (r.id ∷ attempted) next.1 next.2
              (rw same (omega (arith, count_left-lt r.id attempted (ids_of q) known new)))))
  ]

  abbrev pub HoldsAfter : (W → Type 0) → Option (List (Request P R × O) × Queue P R × W) → Type 0
  HoldsAfter Q none = Unit
  HoldsAfter Q (some (rows, q, w)) = Q w

  served-HoldsAfter :
      (Q : W → Type 0) (r : Request P R) (o : O)
      (rest : Option (List (Request P R × O) × Queue P R × W))
      → HoldsAfter Q rest
      → HoldsAfter Q (served serve r o rest)
  served-HoldsAfter Q r o none h = tt
  served-HoldsAfter Q r o (some (rows, q, w)) h = h

  -- What each service keeps of the other tables, a pass keeps.
  pub drain-HoldsAfter :
      (Q : W → Type 0)
      → ((r : Request P R) (q : Queue P R) (w : W) → Q w → Q (serve r (q, w)).2)
      → (fuel : ℕ) (attempted : List ℕ) (q : Queue P R) (w : W) → Q w
      → HoldsAfter Q (drain serve fuel attempted q w)
  unfolding drain
  drain-HoldsAfter Q keeps zero attempted q w h = tt
  drain-HoldsAfter Q keeps (suc fuel) attempted q w h = elim (claim-cases attempted q) [
    | inl e ↦ rw e h
    | inr (r, e, known, new) ↦
        let q1 = change (λ (p : Request P R). p.id == r.id) (claimed q.now) q in
        let next = serve (claimed q.now r) (q1, w) in
        rw e (
          served-HoldsAfter Q (claimed q.now r) next.0
            (drain serve fuel (r.id ∷ attempted) next.1 next.2)
            (drain-HoldsAfter Q keeps fuel (r.id ∷ attempted) next.1 next.2
              (keeps (claimed q.now r) q1 w h)))
  ]
