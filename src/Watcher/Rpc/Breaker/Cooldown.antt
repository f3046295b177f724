-- ===== src/Watcher/Rpc/Breaker/Cooldown.antt =====
-- The cooldowns of successive trips (watcher/rpc/breaker.py, in `record_failure`).
use notchstave.Common.{ℕ, suc, ◌*◌, ◌^◌, ◌≤◌, ◌≡◌, true, arith, ◌-◌, min}
use native.Mathlib.Nat.{one-le-pow, pow-le-pow_right}
use notchstave.Watcher.Rpc.Breaker.{BreakerPolicy, policy_accepted, cooldown}

min_bounds :
    (x y m : ℕ) → 1 ≤ x → x ≤ y → 1 ≤ m → (1 ≤ min x m) × (min x m ≤ min y m) × (min y m ≤ m)
min_bounds x y m h k l = omega arith

mul_pos : (a b : ℕ) → 1 ≤ a → 1 ≤ b → 1 ≤ a * b
mul_pos a b h k = grind arith

mul_mono : (a b c : ℕ) → b ≤ c → a * b ≤ a * c
mul_mono a b c h = grind arith

policy_accepted_pos :
    (p : BreakerPolicy)
    → policy_accepted p ≡ true
    → (1 ≤ p.cooldown_seconds) × (1 ≤ p.cooldown_backoff_factor)
unfolding policy_accepted
policy_accepted_pos p h = ground arith

-- Under an accepted policy with a positive cap, the cooldowns of successive trips are positive, do
-- not fall, and stay within the cap.
pub cooldown_bounds :
    (p : BreakerPolicy) (k : ℕ)
    → policy_accepted p ≡ true
    → 1 ≤ p.max_cooldown_seconds
    → (1 ≤ cooldown p (suc k))
      × (cooldown p (suc k) ≤ cooldown p (suc (suc k)))
      × (cooldown p (suc (suc k)) ≤ p.max_cooldown_seconds)
unfolding cooldown
cooldown_bounds p k h m =
    let (seconds_pos, factor_pos) = policy_accepted_pos p h in
    let e : suc k - 1 ≡ k = omega arith in
    let e' : suc (suc k) - 1 ≡ suc k = omega arith in
    rw (e, e')
      (min_bounds _ _ _
        (mul_pos p.cooldown_seconds (p.cooldown_backoff_factor ^ k) seconds_pos
          (one-le-pow k p.cooldown_backoff_factor factor_pos))
        (mul_mono p.cooldown_seconds _ _ (pow-le-pow_right factor_pos (omega arith))) m)
