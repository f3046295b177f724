-- ===== src/Invoicing/Quotas/Lockout.antt =====
-- What the quotas admit (core/invoicing/quotas.py), and how long a streak of expired invoices locks a user
-- out.
use notchstave.Common.{◌⊎◌, ℕ, ◌≤◌, ◌<◌, ◌≡◌, ◌↔◌, false, Option, none, some, ◌∷◌, arith}
use notchstave.Invoicing.Quotas.{
  IssuedInvoice, QuotaTables, InvoicingPolicy, QuotaSnapshot, QuotaExceeded, count_active,
  in_future, expired_streak, recent_invoices, snapshot, enforce,
}

-- A user is admitted exactly where no cooldown is running, the streak of expired invoices is below its
-- limit, and the live and the recent invoices are below theirs.
enforce_iff :
    (snap : QuotaSnapshot) (policy : InvoicingPolicy) (now : ℕ) (db : QuotaTables)
    → ((enforce snap policy now db).0 ≡ none) ↔ (
        (in_future snap.cooldown_until now ≡ false)
        × (snap.expired_streak < policy.expired_streak_limit)
        × (snap.active_invoices < policy.max_active_invoices_per_user)
        × (snap.invoices_in_window < policy.max_invoices_per_hour))
unfolding enforce
enforce_iff snap policy now db = ground arith

-- A refusal that ends with a deadline, and is for the user's behaviour.
unfoldable pub IsLockedOut : Option QuotaExceeded → Type 0
IsLockedOut (some (QuotaExceeded.behavioural_cooldown limit observed retry_at)) = Unit
IsLockedOut _ = ⊥

-- An invoice that is issued to an admitted user keeps the user's live invoices within the limit, whatever
-- the rest of the tables.
pub enforce-active_bound :
    (policy : InvoicingPolicy) (now : ℕ) (r : IssuedInvoice) (db : QuotaTables)
    → (enforce (snapshot r.user_id policy now db) policy now db).0 ≡ none
    → count_active r.user_id (r ∷ db.issued) ≤ policy.max_active_invoices_per_user
unfolding snapshot count_active
enforce-active_bound policy now r db admitted =
    ground (arith, (enforce_iff (snapshot r.user_id policy now db) policy now db).0 admitted)

-- Once the streak of a user's expired invoices has reached its limit, every attempt of the user is refused
-- for it, at every time, long past the cooldown, and whatever `rate_limits` then says.
pub enforce-lockout :
    (user : ℕ) (policy : InvoicingPolicy) (later : ℕ) (db : QuotaTables)
    → policy.expired_streak_limit
      ≤ expired_streak (recent_invoices user policy.expired_streak_limit db.issued)
    → IsLockedOut (enforce (snapshot user policy later db) policy later db).0
unfolding enforce snapshot IsLockedOut
enforce-lockout user policy later db reached = ground arith

-- The time that a refusal tells the user to wait for.
unfoldable pub hourly_retry_at : Option QuotaExceeded → Option ℕ
hourly_retry_at (some (QuotaExceeded.hourly_quota limit observed retry_at)) = some retry_at
hourly_retry_at _ = none

-- An attempt that is refused for the hourly quota is told to try again at the time of the refusal itself;
-- no other answer is such a refusal.
pub enforce-hourly_retry_at :
    (user : ℕ) (policy : InvoicingPolicy) (now : ℕ) (db : QuotaTables)
    → policy.quota_window ≤ now
    → (hourly_retry_at (enforce (snapshot user policy now db) policy now db).0 ≡ none)
      ⊎ (hourly_retry_at (enforce (snapshot user policy now db) policy now db).0 ≡ some now)
unfolding enforce snapshot hourly_retry_at
enforce-hourly_retry_at user policy now db started = ground arith
