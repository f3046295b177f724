-- ===== src/Watcher/Rpc/Pool/Walk.antt =====
-- The walk over the rotation: which errors it raises, what it keeps, and how much it sends.
use notchstave.Common.{
  ℕ, suc, ◌+◌, ◌*◌, ◌≤◌, ◌≡◌, refl, ap, inl, inr, true, false, List, [], ◌∷◌, ◌++◌, arith,
  Bool-cases, length,
}
use notchstave.Watcher.Rpc.Errors.{RpcErrorClass, RpcError, should_failover}
use notchstave.Watcher.Rpc.Pool.{
  Outcome, ok, err, Net, RetryPolicy, ProviderSlot, failure, call_slot, run,
}
use notchstave.Watcher.Rpc.Pool.Sent.{Counts, call_slot-sent}

module _ {W A : Type 0} (net : Net W A) (policy : RetryPolicy) where
  -- The ways in which the walk goes on from its first slot.
  pub run_cases {ℓ} :
      (P : Outcome A × List ProviderSlot × W → Type ℓ) (slot : ProviderSlot)
      (slots : List ProviderSlot) (w : W)
      → let (reply, slot', w') = call_slot net policy slot w in
        ((a : A) → reply ≡ ok a → P (ok a, slot' ∷ slots, w'))
        → ((e : RpcError)
            → reply ≡ err e
            → should_failover e ≡ false
            → P (err e, slot' ∷ slots, w'))
        → ((e : RpcError)
            → reply ≡ err e
            → should_failover e ≡ true
            → let (result, slots', w'') = run net policy slots w' in
              P (result, slot' ∷ slots', w''))
        → P (run net policy (slot ∷ slots) w)
  unfolding run
  run_cases P slot slots w answered ended on = go (call_slot net policy slot w).0 refl
    where
      go :
          (o : Outcome A)
          → (call_slot net policy slot w).0 ≡ o
          → P (run net policy (slot ∷ slots) w)
      go (ok a) r = rw (r, run) (answered a r)
      go (err e) r = elim (Bool-cases (should_failover e)) [
        | inl f ↦ rw (r, run) (rw f (on e r f))
        | inr f ↦ rw (r, run) (rw f (ended e r f))
      ]

  -- From a world on, the calls of these slots fail one after another with errors that ask for a
  -- failover, and leave the slots and the world so.
  pub data PassesOn : List ProviderSlot → W → List ProviderSlot → W → Type 0 where
    here : {w : W} → PassesOn [] w [] w
    over :
        (slot : ProviderSlot) (slots slots' : List ProviderSlot) (w w' : W) (e : RpcError)
        → (call_slot net policy slot w).0 ≡ err e
        → should_failover e ≡ true
        → PassesOn slots (call_slot net policy slot w).2 slots' w'
        → PassesOn (slot ∷ slots) w ((call_slot net policy slot w).1 ∷ slots') w'

  -- An answer, or an error that is no reason for a failover.
  abbrev pub IsDecisive : Outcome A → Type 0
  IsDecisive (ok a) = Unit
  IsDecisive (err e) = should_failover e ≡ false

  -- A walk as its provider-by-provider story: all of them failed with errors that ask for a failover, and
  -- `no_provider` is raised; or some did, the next one answered or failed with an error that is no reason for
  -- a failover, that is the result, and the rest were not asked.
  pub data Walk (slots : List ProviderSlot) (w : W)
      : Outcome A × List ProviderSlot × W → Type 0 where
    tried_all :
        (slots' : List ProviderSlot) (w' : W)
        → PassesOn slots w slots' w'
        → Walk slots w (err (failure RpcErrorClass.no_provider), slots', w')
    settled_by :
        (before before' after : List ProviderSlot) (slot slot' : ProviderSlot) (w1 w' : W)
        (reply : Outcome A)
        → slots ≡ before ++ slot ∷ after
        → PassesOn before w before' w1
        → call_slot net policy slot w1 ≡ (reply, slot', w')
        → IsDecisive reply
        → Walk slots w (reply, before' ++ slot' ∷ after, w')

  later-Walk :
      (slot : ProviderSlot) (slots : List ProviderSlot) (w : W) (e : RpcError)
      (r : Outcome A × List ProviderSlot × W)
      → (call_slot net policy slot w).0 ≡ err e
      → should_failover e ≡ true
      → Walk slots (call_slot net policy slot w).2 r
      → Walk (slot ∷ slots) w (r.0, (call_slot net policy slot w).1 ∷ r.1, r.2)
  later-Walk slot slots w e _ failed f (tried_all slots' w' p) =
      tried_all _ w' (over slot slots slots' w w' e failed f p)
  later-Walk slot slots w e _ failed f
        (settled_by before before' after s s' w1 w' reply same p called d) =
      settled_by (slot ∷ before) (_ ∷ before') after s s' w1 w' reply (ap (λ xs. slot ∷ xs) same)
        (over slot before before' w w1 e failed f p) called d

  -- Every walk passes over providers in the order of the rotation, each of which fails with an error that
  -- asks for a failover, from what the ones before it leave, up to the first that answers or fails with
  -- another error, whose outcome it returns without asking the rest; and it raises `no_provider` where it has
  -- so tried every provider.
  pub run-IsWalk : (slots : List ProviderSlot) (w : W) → Walk slots w (run net policy slots w)
  run-IsWalk [] w = unfold run in tried_all [] w here
  run-IsWalk (slot ∷ slots) w =
      run_cases (Walk (slot ∷ slots) w) slot slots w (λ a r. first (ok a) r tt)
        (λ e r f. first (err e) r f)
        (λ e failed f.
          later-Walk slot slots w e _ failed f (run-IsWalk slots (call_slot net policy slot w).2))
    where
      first :
          (o : Outcome A)
          → (call_slot net policy slot w).0 ≡ o
          → IsDecisive o
          → Walk
              (slot ∷ slots)
              w
              (o, (call_slot net policy slot w).1 ∷ slots, (call_slot net policy slot w).2)
      first o r d =
          settled_by [] [] slots slot (call_slot net policy slot w).1 w
            (call_slot net policy slot w).2 o refl here (rw r refl) d

  -- One walk sends at most `max_attempts_per_provider` requests for each provider, by a counter of the
  -- world that each request raises by one and no pause moves.
  pub run-sent :
      (sent : W → ℕ)
      → Counts net policy sent
      → (slots : List ProviderSlot) (w : W)
      → sent (run net policy slots w).2 ≤ sent w + length slots * policy.max_attempts_per_provider
  run-sent sent k [] w = unfold run in omega arith
  run-sent sent k (slot ∷ slots) w =
      let one = call_slot-sent net policy sent k slot w in
      run_cases (λ r. sent r.2 ≤ sent w + suc (length slots) * policy.max_attempts_per_provider)
        slot slots w (λ a _. grind (arith, one)) (λ e _ _. grind (arith, one))
        (λ e _ _. omega (arith, one, run-sent sent k slots (call_slot net policy slot w).2))
