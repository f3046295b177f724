-- ===== src/Settler/Service/Consistency/Runs.antt =====
-- Runs of the settler's transactions (`Settler` of settler/service.py) in any order, between writes of the
-- other processes.
use notchstave.Common.{ℕ, Bool, true, List, ◌∷◌, none, ◌≡◌, arith}
use notchstave.Common.Rows.{find}
use notchstave.Enums.{is_live}
use notchstave.Settler.Ledger.Invoices.{find_invoice}
use notchstave.Settler.Policy.{MoneyPolicy}
use notchstave.Settler.Ledger.{
  Invoice, Chain, ReceiveAddress, Payment, Block, AddressRequest, Ledger,
}
use notchstave.Settler.Service.Reorg.{handle_reorg}
use notchstave.Settler.Service.Sweeps.{
  sweep_expired_invoices, expire_stale_invoices, notify_seen_payments, review_anomalous_payments,
}
use notchstave.Settler.Service.Addresses.{sync_address_lifecycle}
use notchstave.Settler.Service.Facade.{settle}
use notchstave.Settler.Service.Consistency.{IsConsistent, Agree, settled_row}
use notchstave.Settler.Service.Consistency.Settle.{settle-IsConsistent}
use notchstave.Settler.Service.Consistency.Passes.{
  handle_reorg-IsConsistent, sweep_expired_invoices-IsConsistent,
  expire_stale_invoices-IsConsistent, notify_seen_payments-IsConsistent,
  review_anomalous_payments-IsConsistent, sync_address_lifecycle-IsConsistent,
}

issued-IsConsistent :
    (r : Invoice) (db : Ledger)
    → find_invoice r.id db ≡ none
    → is_live r.status ≡ true
    → IsConsistent db
    → IsConsistent (record db { invoices = r ∷ db.invoices })
unfolding Agree settled_row find
issued-IsConsistent r db new live ok j = ground (arith, ok j)

module _ (policy : MoneyPolicy) (mac : List ℕ → List ℕ) where
  -- One transaction of the settler; or a live invoice is issued under a new id; or the watcher and the
  -- deriver write their tables, whatever they write, and time passes.
  pub data Step : Ledger → Ledger → Type 0 where
    settled : (acquired : Bool) (i : ℕ) (db : Ledger) → Step db (settle policy mac acquired i db).1
    reorged : (chain : ℕ) (db : Ledger) → Step db (handle_reorg chain db).1
    swept : (limit : ℕ) (db : Ledger) → Step db (sweep_expired_invoices limit db).1
    expired : (limit : ℕ) (db : Ledger) → Step db (expire_stale_invoices limit db).1
    announced : (limit : ℕ) (db : Ledger) → Step db (notify_seen_payments limit db).1
    reviewed : (limit : ℕ) (db : Ledger) → Step db (review_anomalous_payments limit db).1
    synced :
        (cooldown limit : ℕ) (db : Ledger) → Step db (sync_address_lifecycle cooldown limit db).2
    issued :
        (r : Invoice) (db : Ledger)
        → find_invoice r.id db ≡ none
        → is_live r.status ≡ true
        → Step db (record db { invoices = r ∷ db.invoices })
    written :
        (now : ℕ) (chains : List Chain) (addresses : List ReceiveAddress) (payments : List Payment)
        → (blocks : List Block) (requests : List AddressRequest) (db : Ledger)
        → Step db (record db {
          now = now;
          chains = chains;
          addresses = addresses;
          payments = payments;
          blocks = blocks;
          requests = requests;
        })

  pub data Run : Ledger → Ledger → Type 0 where
    start : (db : Ledger) → Run db db
    then_step : (first last end : Ledger) → Run first last → Step last end → Run first end

  Step-IsConsistent : (db after : Ledger) → Step db after → IsConsistent db → IsConsistent after
  Step-IsConsistent _ _ (settled acquired i db) ok = settle-IsConsistent policy mac acquired i db ok
  Step-IsConsistent _ _ (reorged chain db) ok = handle_reorg-IsConsistent chain db ok
  Step-IsConsistent _ _ (swept limit db) ok = sweep_expired_invoices-IsConsistent limit db ok
  Step-IsConsistent _ _ (expired limit db) ok = expire_stale_invoices-IsConsistent limit db ok
  Step-IsConsistent _ _ (announced limit db) ok = notify_seen_payments-IsConsistent limit db ok
  Step-IsConsistent _ _ (reviewed limit db) ok = review_anomalous_payments-IsConsistent limit db ok
  Step-IsConsistent _ _ (synced cooldown limit db) ok =
      sync_address_lifecycle-IsConsistent cooldown limit db ok
  Step-IsConsistent _ _ (issued r db new live) ok = issued-IsConsistent r db new live ok
  Step-IsConsistent _ _ (written now chains addresses payments blocks requests db) ok = ok

  -- From tables in which an invoice is settled exactly if it has an active grant, every run of the
  -- settler's transactions, in any order and with new invoices and any writes of the watcher and the deriver
  -- between them, leads to tables in which that holds.
  pub Run-IsConsistent :
      (first last : Ledger) → Run first last → IsConsistent first → IsConsistent last
  Run-IsConsistent _ _ (start db) ok = ok
  Run-IsConsistent _ _ (then_step first last end run step) ok =
      Step-IsConsistent last end step (Run-IsConsistent first last run ok)
