-- ===== src/Settler/Service/Facade.antt =====
-- `Settler` (settler/service.py): where the transactions begin and end.
use notchstave.Common.{Bool, ℕ, List, if◌then◌else◌}
use notchstave.Settler.Policy.{Outcome, MoneyPolicy}
use notchstave.Settler.Ledger.{Ledger}
use notchstave.Settler.Service.{Result, done, raised, SettlementResult, plain_result}
use notchstave.Settler.Service.Settle.{settle_invoice}

abbrev commit : {A : Type 0} → Result (A × Ledger) → Ledger → Result A × Ledger
commit (done (a, after)) db = (done a, after)
commit (raised e) db = (raised e, db)

-- `engine.begin()`: what raises is rolled back.
abbrev pub transaction : {A : Type 0} → (Ledger → Result (A × Ledger)) → Ledger → Result A × Ledger
transaction body db = commit (body db) db

module _ (policy : MoneyPolicy) (mac : List ℕ → List ℕ) where
  -- `Settler.settle`; `acquired` is the answer of the lock.
  unfoldable pub settle : Bool → ℕ → Ledger → Result SettlementResult × Ledger
  unfolding settle_invoice
  settle acquired i db =
      if acquired
      then transaction (settle_invoice policy mac i) db
      else (done (plain_result i Outcome.skipped_busy), db)
