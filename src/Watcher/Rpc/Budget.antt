-- ===== src/Watcher/Rpc/Budget.antt =====
-- The request budget of one provider (watcher/rpc/breaker.py, `RequestBudget`). The clock's reading
-- is an argument.
use mathlib.Core.Path.{subst}
use notchstave.Common.{
  sym, ◌∙◌, ℕ, ◌+◌, ◌-◌, ◌≤◌, ◌<◌, ◌≡◌, refl, Bool, true, false, Option, none, some, List, [], ◌∷◌,
  arith, leb, ltb, if◌then◌else◌,
}

pub record RequestBudget : Type 0 where
  pub limit : Option ℕ
  pub window_seconds : ℕ
  pub window_start : ℕ
  pub spent : ℕ
  pub total : ℕ

abbrev pub limit_accepted : Option ℕ → Bool
limit_accepted none = true
limit_accepted (some l) = leb 1 l

-- The constructor; `none` stands for its `ValueError`.
unfoldable pub new : Option ℕ → ℕ → ℕ → Option RequestBudget
new limit window now =
    if limit_accepted limit
    then (if leb 1 window
        then some (record {
          limit = limit;
          window_seconds = window;
          window_start = now;
          spent = 0;
          total = 0;
        })
        else none)
    else none

-- `now - _window_start >= window_seconds`
unfoldable pub roll : ℕ → RequestBudget → RequestBudget
roll now b =
    if leb (b.window_start + b.window_seconds) now
    then record b { window_start = now; spent = 0 }
    else b

abbrev pub exceeds : Option ℕ → ℕ → Bool
exceeds none n = false
exceeds (some l) n = ltb l n

unfoldable pub try_spend : ℕ → ℕ → RequestBudget → RequestBudget × Bool
unfolding roll
try_spend now cost b =
    let b' = roll now b in
    if exceeds b'.limit (b'.spent + cost)
    then (b', false)
    else (record b' { spent = b'.spent + cost; total = b'.total + cost }, true)

-- Without a limit the window is not rolled.
abbrev left_of : Option ℕ → RequestBudget → RequestBudget → RequestBudget × Option ℕ
left_of none b rolled = (b, none)
left_of (some l) b rolled = (rolled, some (l - rolled.spent))

-- The `remaining` property.
unfoldable pub remaining : ℕ → RequestBudget → RequestBudget × Option ℕ
unfolding roll
remaining now b = left_of b.limit b (roll now b)

abbrev pub FitsLimit : Option ℕ → ℕ → Type 0
FitsLimit none n = Unit
FitsLimit (some l) n = n ≤ l

abbrev pub IsWithin : RequestBudget → Type 0
IsWithin b = FitsLimit b.limit b.spent

try_spend-limit : (now cost : ℕ) (b : RequestBudget) → (try_spend now cost b).0.limit ≡ b.limit
unfolding try_spend
try_spend-limit now cost b = ground arith

pub try_spend-IsWithin :
    (now cost : ℕ) (b : RequestBudget) → IsWithin b → IsWithin (try_spend now cost b).0
unfolding try_spend
try_spend-IsWithin now cost b h = ground arith

-- A run of requests, each at its time and cost: the budget after it and the total cost granted.
pub spend_all : List (ℕ × ℕ) → RequestBudget → RequestBudget × ℕ
spend_all [] b = (b, 0)
spend_all ((now, cost) ∷ rs) b =
    let (b', granted) = try_spend now cost b in
    let (c, sum) = spend_all rs b' in (c, (if granted then cost else 0) + sum)

try_spend-total :
    (now cost : ℕ) (b : RequestBudget)
    → (try_spend now cost b).0.total ≡ b.total + (if (try_spend now cost b).1 then cost else 0)
unfolding try_spend
try_spend-total now cost b = ground arith

-- The counter `total` moves by exactly the cost that was granted, and the spending of the window
-- never passes the limit, whatever the times and costs of the requests.
pub spend_all-total :
    (rs : List (ℕ × ℕ)) (b : RequestBudget)
    → IsWithin b
    → ((spend_all rs b).0.total ≡ b.total + (spend_all rs b).1) × IsWithin (spend_all rs b).0
unfolding spend_all
spend_all-total [] b h = (omega arith, h)
spend_all-total ((now, cost) ∷ rs) b h =
    let (t, w) = spend_all-total rs (try_spend now cost b).0 (try_spend-IsWithin now cost b h) in
    (omega (arith, t, try_spend-total now cost b), w)

-- Requests at times inside a window.
abbrev pub AllInside : ℕ → List (ℕ × ℕ) → Type 0
AllInside stop [] = Unit
AllInside stop ((now, cost) ∷ rs) = (now < stop) × AllInside stop rs

try_spend-inside :
    (now cost : ℕ) (b : RequestBudget)
    → now < b.window_start + b.window_seconds
    → let (c, granted) = try_spend now cost b in
      (c.spent ≡ b.spent + (if granted then cost else 0))
      × (c.window_start ≡ b.window_start)
      × (c.window_seconds ≡ b.window_seconds)
unfolding try_spend
try_spend-inside now cost b h = ground arith

spend_all-inside :
    (rs : List (ℕ × ℕ)) (b : RequestBudget)
    → AllInside (b.window_start + b.window_seconds) rs
    → (spend_all rs b).0.spent ≡ b.spent + (spend_all rs b).1
unfolding spend_all
spend_all-inside [] b h = omega arith
spend_all-inside ((now, cost) ∷ rs) b h =
    let f = try_spend-inside now cost b h.0 in
    omega (arith, spend_all-inside rs (try_spend now cost b).0 (rw (f.1, f.2) h.1), f.0)

spend_all-limit : (rs : List (ℕ × ℕ)) (b : RequestBudget) → (spend_all rs b).0.limit ≡ b.limit
unfolding spend_all
spend_all-limit [] b = refl
spend_all-limit ((now, cost) ∷ rs) b =
    spend_all-limit rs (try_spend now cost b).0 ∙ try_spend-limit now cost b

-- Within one window the total cost granted, with what was spent before, is at most the limit.
pub window_cap :
    (rs : List (ℕ × ℕ)) (b : RequestBudget) (l : ℕ)
    → b.limit ≡ some l
    → b.spent ≤ l
    → AllInside (b.window_start + b.window_seconds) rs
    → b.spent + (spend_all rs b).1 ≤ l
window_cap rs b l e h inside =
    let after : FitsLimit (some l) (spend_all rs b).0.spent =
      subst (λ o. FitsLimit o (spend_all rs b).0.spent) (spend_all-limit rs b ∙ e)
        (spend_all-total rs b (subst (λ o. FitsLimit o b.spent) (sym e) h)).1 in
    omega (arith, spend_all-inside rs b inside, after)
