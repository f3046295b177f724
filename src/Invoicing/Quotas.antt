-- ===== src/Invoicing/Quotas.antt =====
-- The quotas on new invoices (core/invoicing/quotas.py), under the lock of the user that `lock_user` takes:
-- the numbers read, the decision, and the rows of `rate_limits`. The Redis cache, which may only refuse
-- earlier, is not modelled. Times are microseconds.
pub mod Lockout
use notchstave.Common.{
  ℕ, zero, suc, ◌+◌, ◌-◌, ◌%◌, max, Bool, true, false, ◌&&◌, ◌||◌, Option, none, some, List, [],
  ◌∷◌, leb, ltb, ◌==◌, if◌then◌else◌, take, length,
}
use notchstave.Common.Rows.{filter}
use notchstave.Enums.{InvoiceStatus, is_live}

-- The columns of `invoices` that the quotas read.
pub record IssuedInvoice : Type 0 where
  pub id : ℕ
  pub user_id : ℕ
  pub status : InvoiceStatus
  pub created_at : ℕ

pub record RateLimit : Type 0 where
  pub user_id : ℕ
  pub window_start : ℕ
  pub invoices_created : ℕ
  pub cooldown_until : Option ℕ
  pub consecutive_expired : ℕ

pub record QuotaTables : Type 0 where
  pub issued : List IssuedInvoice
  pub rate_limits : List RateLimit

-- `InvoicingPolicy` without the length of the public token.
pub record InvoicingPolicy : Type 0 where
  pub version : List ℕ
  pub invoice_ttl : ℕ
  pub rate_lock_ttl : ℕ
  pub topup_window : ℕ
  pub max_active_invoices_per_user : ℕ
  pub max_invoices_per_hour : ℕ
  pub quota_window : ℕ
  pub expired_streak_limit : ℕ
  pub cooldown : ℕ

pub record QuotaSnapshot : Type 0 where
  pub user_id : ℕ
  pub active_invoices : ℕ
  pub invoices_in_window : ℕ
  pub window_start : ℕ
  pub cooldown_until : Option ℕ
  pub expired_streak : ℕ

pub data QuotaExceeded : Type 0 where
  behavioural_cooldown : (limit observed retry_at : ℕ) → QuotaExceeded
  too_many_active : (limit observed : ℕ) → QuotaExceeded
  hourly_quota : (limit observed retry_at : ℕ) → QuotaExceeded

-- `SQL_COUNT_ACTIVE`
unfoldable pub count_active : ℕ → List IssuedInvoice → ℕ
count_active user [] = 0
count_active user (r ∷ rows) =
    (if (r.user_id == user) && is_live r.status then 1 else 0) + count_active user rows

-- `SQL_COUNT_IN_WINDOW`
unfoldable pub count_in_window : ℕ → ℕ → List IssuedInvoice → ℕ
count_in_window user start [] = 0
count_in_window user start (r ∷ rows) =
    (if (r.user_id == user) && leb start r.created_at then 1 else 0)
    + count_in_window user start rows

abbrev pub latest : Option ℕ → Option ℕ → Option ℕ
latest none b = b
latest (some a) none = some a
latest (some a) (some b) = some (max a b)

-- `SQL_COOLDOWN`
unfoldable pub cooldown_of : ℕ → List RateLimit → Option ℕ
cooldown_of user [] = none
cooldown_of user (r ∷ rows) =
    let rest = cooldown_of user rows in
    if r.user_id == user then latest r.cooldown_until rest else rest

-- `ORDER BY created_at DESC, id DESC`
abbrev pub is_newer : IssuedInvoice → IssuedInvoice → Bool
is_newer a b = ltb b.created_at a.created_at || (a.created_at == b.created_at && ltb b.id a.id)

unfoldable pub insert_newest : IssuedInvoice → List IssuedInvoice → List IssuedInvoice
insert_newest r [] = r ∷ []
insert_newest r (q ∷ rows) =
    let rest = insert_newest r rows in if is_newer r q then r ∷ q ∷ rows else q ∷ rest

unfoldable pub newest_first : List IssuedInvoice → List IssuedInvoice
unfolding insert_newest
newest_first [] = []
newest_first (r ∷ rows) = insert_newest r (newest_first rows)

-- `SQL_RECENT_STATUSES`
unfoldable pub recent_invoices : ℕ → ℕ → List IssuedInvoice → List IssuedInvoice
unfolding newest_first filter
recent_invoices user limit rows =
    take limit (newest_first (filter (λ (r : IssuedInvoice). r.user_id == user) rows))

abbrev pub is_expired : InvoiceStatus → Bool
is_expired InvoiceStatus.expired = true
is_expired _ = false

-- `_expired_streak`
unfoldable pub expired_streak : List IssuedInvoice → ℕ
expired_streak [] = 0
expired_streak (r ∷ rows) =
    let rest = expired_streak rows in if is_expired r.status then suc rest else 0

-- `snapshot`
unfoldable pub snapshot : ℕ → InvoicingPolicy → ℕ → QuotaTables → QuotaSnapshot
unfolding count_active count_in_window cooldown_of recent_invoices expired_streak
snapshot user policy now db =
    let start = now - policy.quota_window in
    record {
      user_id = user;
      active_invoices = count_active user db.issued;
      invoices_in_window = count_in_window user start db.issued;
      window_start = start;
      cooldown_until = cooldown_of user db.rate_limits;
      expired_streak = expired_streak (recent_invoices user policy.expired_streak_limit db.issued);
    }

-- `date_trunc('hour', now)`
abbrev pub hour_of : ℕ → ℕ
hour_of now = now - now % 3_600_000_000

abbrev pub is_row : ℕ → ℕ → RateLimit → Bool
is_row user start r = (r.user_id == user) && (r.window_start == start)

unfoldable pub has_row : ℕ → ℕ → List RateLimit → Bool
has_row user start [] = false
has_row user start (r ∷ rows) = if is_row user start r then true else has_row user start rows

unfoldable pub update_row : ℕ → ℕ → (RateLimit → RateLimit) → List RateLimit → List RateLimit
update_row user start f [] = []
update_row user start f (r ∷ rows) =
    (if is_row user start r then f r else r) ∷ update_row user start f rows

-- `INSERT … ON CONFLICT (user_id, window_start) DO UPDATE`
unfoldable pub upsert : RateLimit → (RateLimit → RateLimit) → List RateLimit → List RateLimit
unfolding has_row update_row
upsert row f rows =
    if has_row row.user_id row.window_start rows
    then update_row row.user_id row.window_start f rows
    else row ∷ rows

-- `SQL_SET_COOLDOWN`
unfoldable pub set_cooldown : ℕ → ℕ → ℕ → ℕ → QuotaTables → QuotaTables
unfolding upsert
set_cooldown user now until streak db = record db {
  rate_limits =
      upsert
        (record {
          user_id = user;
          window_start = hour_of now;
          invoices_created = 0;
          cooldown_until = some until;
          consecutive_expired = streak;
        })
        (λ r. record r {
          cooldown_until = latest r.cooldown_until (some until);
          consecutive_expired = streak;
        })
        db.rate_limits;
}

abbrev pub in_future : Option ℕ → ℕ → Bool
in_future none now = false
in_future (some t) now = ltb now t

abbrev pub or_else : Option ℕ → ℕ → ℕ
or_else none n = n
or_else (some t) n = t

abbrev cooldown_at : ℕ → ℕ → List RateLimit → Option ℕ
cooldown_at user start [] = none
cooldown_at user start (r ∷ rows) =
    let rest = cooldown_at user start rows in if is_row user start r then r.cooldown_until else rest

-- `enforce`: the error that it raises, where it raises one, and the tables that it leaves.
unfoldable pub enforce :
    QuotaSnapshot → InvoicingPolicy → ℕ → QuotaTables → Option QuotaExceeded × QuotaTables
unfolding set_cooldown
enforce snap policy now db =
    let until = now + policy.cooldown in
    let cooled = set_cooldown snap.user_id now until snap.expired_streak db in
    if in_future snap.cooldown_until now
    then (
      some (
          QuotaExceeded.behavioural_cooldown policy.expired_streak_limit snap.expired_streak
            (or_else snap.cooldown_until now)),
      db,
    )
    else if leb policy.expired_streak_limit snap.expired_streak
    then (
      some (
          QuotaExceeded.behavioural_cooldown policy.expired_streak_limit snap.expired_streak
            (or_else (cooldown_at snap.user_id (hour_of now) cooled.rate_limits) until)),
      cooled,
    )
    else if leb policy.max_active_invoices_per_user snap.active_invoices
    then (
      some (QuotaExceeded.too_many_active policy.max_active_invoices_per_user snap.active_invoices),
      db,
    )
    else if leb policy.max_invoices_per_hour snap.invoices_in_window
    then (
      some (
          QuotaExceeded.hourly_quota policy.max_invoices_per_hour snap.invoices_in_window
            (snap.window_start + policy.quota_window)),
      db,
    )
    else (none, db)

-- `record_issued`
unfoldable pub record_issued : ℕ → ℕ → ℕ → QuotaTables → QuotaTables
unfolding upsert
record_issued user now streak db = record db {
  rate_limits =
      upsert
        (record {
          user_id = user;
          window_start = hour_of now;
          invoices_created = 1;
          cooldown_until = none;
          consecutive_expired = streak;
        })
        (λ r. record r { invoices_created = r.invoices_created + 1; consecutive_expired = streak })
        db.rate_limits;
}
