-- ===== src/Settler/Loop.antt =====
-- `run_once` (settler/main.py): one pass of the settler over its tables. The answer of
-- `SQL_ENABLED_CHAINS` and those of the lock are arguments.
use notchstave.Common.{
  ℕ, Bool, true, false, ◌&&◌, Option, none, some, List, [], ◌∷◌, if◌then◌else◌, map, take,
}
use notchstave.Common.Rows.{filter, order_by}
use notchstave.Enums.{PaymentStatus, is_live}
use notchstave.Settler.Policy.{MoneyPolicy}
use notchstave.Settler.Ledger.{Invoice, Payment, Ledger}
use notchstave.Settler.Ledger.Invoices.{is_for}
use notchstave.Settler.Service.{SettlerError, Result, done, raised, SettlementResult}
use notchstave.Settler.Service.Reorg.{handle_reorg}
use notchstave.Settler.Service.Sweeps.{
  sweep_expired_invoices, expire_stale_invoices, notify_seen_payments, review_anomalous_payments,
}
use notchstave.Settler.Service.Addresses.{sync_address_lifecycle}
use notchstave.Settler.Service.Facade.{settle}
use notchstave.Settler.Service.Consistency.Runs.{Step, Run}

-- `open_statuses`
abbrev is_undecided : PaymentStatus → Bool
is_undecided PaymentStatus.seen = true
is_undecided PaymentStatus.confirmed = true
is_undecided _ = false

unfoldable pub has_open_payment : ℕ → List Payment → Bool
has_open_payment i [] = false
has_open_payment i (p ∷ ps) =
    if is_for i p.invoice_id && is_undecided p.status then true else has_open_payment i ps

-- `SQL_SETTLE_CANDIDATES`
unfoldable pub settle_candidates : ℕ → Ledger → List ℕ
unfolding filter order_by has_open_payment
settle_candidates limit db = take limit (
    map (λ (r : Invoice). r.id)
      (order_by (λ (r : Invoice). r.id)
        (filter (λ (r : Invoice). is_live r.status && has_open_payment r.id db.payments)
          db.invoices)))

-- The default of each pass's `limit`.
abbrev pub default_limit : ℕ
default_limit = 500

unfoldable pub reorg_chains : List ℕ → Ledger → Ledger
unfolding handle_reorg
reorg_chains [] db = db
reorg_chains (chain ∷ chains) db = reorg_chains chains (handle_reorg chain db).1

-- An exception ends the pass.
abbrev go_on :
    Result SettlementResult → Ledger → Option SettlerError × Ledger → Option SettlerError × Ledger
go_on (done settlement) db rest = rest
go_on (raised e) db rest = (some e, db)

-- The passes after the settlements.
unfoldable pub clean_up : ℕ → Ledger → Ledger
unfolding expire_stale_invoices sweep_expired_invoices review_anomalous_payments
    sync_address_lifecycle
clean_up cooldown db =
    let db1 = (expire_stale_invoices default_limit db).1 in
    let db2 = (sweep_expired_invoices default_limit db1).1 in
    let db3 = (review_anomalous_payments default_limit db2).1 in
    (sync_address_lifecycle cooldown default_limit db3).2

abbrev end_pass : ℕ → Option SettlerError × Ledger → Option SettlerError × Ledger
end_pass cooldown (none, db) = (none, clean_up cooldown db)
end_pass cooldown (some e, db) = (some e, db)

module _ (policy : MoneyPolicy) (mac : List ℕ → List ℕ) (acquired : ℕ → Bool) where
  unfoldable pub settle_all : List ℕ → Ledger → Option SettlerError × Ledger
  unfolding settle
  settle_all [] db = (none, db)
  settle_all (i ∷ is) db =
      let (settlement, db1) = settle policy mac (acquired i) i db in
      go_on settlement db1 (settle_all is db1)

  -- The error that ends the pass, if any, and the tables afterwards.
  unfoldable pub run_once : ℕ → ℕ → List ℕ → Ledger → Option SettlerError × Ledger
  unfolding reorg_chains notify_seen_payments settle_candidates settle_all clean_up
  run_once cooldown batch chain_ids db =
      let db1 = reorg_chains chain_ids db in
      let db2 = (notify_seen_payments default_limit db1).1 in
      end_pass cooldown (settle_all (settle_candidates batch db2) db2)

module _ (policy : MoneyPolicy) (mac : List ℕ → List ℕ) where
  extend : {a b c : Ledger} → Run policy mac a b → Step policy mac b c → Run policy mac a c
  extend {a} {b} {c} run step = Run.then_step a b c run step

  reorg_chains-Run :
      (first db : Ledger) (chains : List ℕ)
      → Run policy mac first db
      → Run policy mac first (reorg_chains chains db)
  unfolding reorg_chains
  reorg_chains-Run first db [] run = run
  reorg_chains-Run first db (chain ∷ chains) run =
      reorg_chains-Run first (handle_reorg chain db).1 chains (extend run (Step.reorged chain db))

  clean_up-Run :
      (first db : Ledger) (cooldown : ℕ)
      → Run policy mac first db
      → Run policy mac first (clean_up cooldown db)
  unfolding clean_up
  clean_up-Run first db cooldown run =
      let db1 = (expire_stale_invoices default_limit db).1 in
      let db2 = (sweep_expired_invoices default_limit db1).1 in
      let db3 = (review_anomalous_payments default_limit db2).1 in
      extend
        (extend (extend (extend run (Step.expired default_limit db)) (Step.swept default_limit db1))
          (Step.reviewed default_limit db2))
        (Step.synced cooldown default_limit db3)

  go_on-Run :
      (first db : Ledger) (s : Result SettlementResult) (rest : Option SettlerError × Ledger)
      → Run policy mac first db
      → Run policy mac first rest.1
      → Run policy mac first (go_on s db rest).1
  go_on-Run first db (done s) rest before after = after
  go_on-Run first db (raised e) rest before after = before

  end_pass-Run :
      (first : Ledger) (cooldown : ℕ) (rest : Option SettlerError × Ledger)
      → Run policy mac first rest.1
      → Run policy mac first (end_pass cooldown rest).1
  end_pass-Run first cooldown (none, db) run = clean_up-Run first db cooldown run
  end_pass-Run first cooldown (some e, db) run = run

  module _ (acquired : ℕ → Bool) where
    settle_all-Run :
        (first db : Ledger) (is : List ℕ)
        → Run policy mac first db
        → Run policy mac first (settle_all policy mac acquired is db).1
    unfolding settle_all
    settle_all-Run first db [] run = run
    settle_all-Run first db (i ∷ is) run =
        let next = settle policy mac (acquired i) i db in
        let run1 = extend run (Step.settled (acquired i) i db) in
        go_on-Run first next.1 next.0 (settle_all policy mac acquired is next.1) run1
          (settle_all-Run first next.1 is run1)

    -- A pass of the loop is a run of the settler's transactions, also one that an exception ends.
    pub run_once-Run :
        (cooldown batch : ℕ) (chain_ids : List ℕ) (db : Ledger)
        → Run policy mac db (run_once policy mac acquired cooldown batch chain_ids db).1
    unfolding run_once
    run_once-Run cooldown batch chain_ids db =
        let db1 = reorg_chains chain_ids db in
        let db2 = (notify_seen_payments default_limit db1).1 in
        let run1 = reorg_chains-Run db db chain_ids (Run.start db) in
        let run2 = extend run1 (Step.announced default_limit db1) in
        end_pass-Run db cooldown (settle_all policy mac acquired (settle_candidates batch db2) db2)
          (settle_all-Run db db2 (settle_candidates batch db2) run2)
