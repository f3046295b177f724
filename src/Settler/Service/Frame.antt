-- ===== src/Settler/Service/Frame.antt =====
-- What a settlement leaves alone once its payments are credited (settler/service.py): every fact about
-- the tables that it reads.
use notchstave.Common.{ℕ, Option, none, some, List, arith}
use notchstave.Enums.{ManualReviewKind}
use notchstave.Settler.Policy.{Outcome}
use notchstave.Settler.Ledger.{
  Invoice, Chain, Asset, Product, ReceiveAddress, Payment, NotificationKind, Ledger,
}
use notchstave.Settler.Ledger.Grants.{insert_entitlement, credit_internal_balance}
use notchstave.Settler.Ledger.Outbox.{
  enqueue_notification, open_manual_review, create_refund_request, write_audit,
}
use notchstave.Settler.Service.{Result, done, raised, ids_of}
use notchstave.Settler.Service.Apply.{
  Decided, Excess, credit_candidates, credit_once, credit_excess, refund_excess, settle_excess,
  finish_settlement, announce_grant, grant_access,
}

-- A fact about the tables that a settlement reads.
abbrev pub Fact : Type 1
Fact =
    ℕ
    → List Chain
    → List Asset
    → List Product
    → List ReceiveAddress
    → List Invoice
    → List Payment
    → Type 0

abbrev pub Holds : Fact → Ledger → Type 0
Holds P db = P db.now db.chains db.assets db.products db.addresses db.invoices db.payments

module _ (P : Fact) where
  -- A result with the tables in which a fact holds.
  unfoldable pub HoldsAfter : {A : Type 0} → Result (A × Ledger) → Type 0
  HoldsAfter (raised e) = Unit
  HoldsAfter (done (a, db)) = Holds P db

  pub enqueue_notification-Holds :
      (user : ℕ) (kind : NotificationKind) (ref key : ℕ) (db : Ledger)
      → Holds P db
      → Holds P (enqueue_notification user kind ref key db).1
  unfolding enqueue_notification
  enqueue_notification-Holds user kind ref key db ok = ground arith

  pub open_manual_review-Holds :
      (kind : ManualReviewKind) (i p : Option ℕ) (db : Ledger)
      → Holds P db
      → Holds P (open_manual_review kind i p db).1
  unfolding open_manual_review
  open_manual_review-Holds kind i p db ok = ground arith

  create_refund_request-Holds :
      (i amount asset : ℕ) (db : Ledger)
      → Holds P db
      → Holds P (create_refund_request i amount asset db).1
  unfolding create_refund_request
  create_refund_request-Holds i amount asset db ok = ground arith

  credit_once-Holds :
      (extra : Option ℕ) (user usd : ℕ) (db : Ledger)
      → Holds P db
      → Holds P (credit_once extra user usd db)
  unfolding credit_once credit_internal_balance write_audit
  credit_once-Holds extra user usd db ok = ground arith

  insert_entitlement-Holds :
      (user product i : ℕ) (days : Option ℕ) (db : Ledger)
      → Holds P db
      → Holds P (insert_entitlement user product i days db).1
  unfolding insert_entitlement
  insert_entitlement-Holds user product i days db ok = ground arith

  settle_excess-HoldsAfter :
      (o : Outcome) (s : Decided) (grant : ℕ) (db : Ledger)
      → Holds P db
      → HoldsAfter (settle_excess o s grant db)
  unfolding settle_excess credit_excess refund_excess HoldsAfter
  settle_excess-HoldsAfter o s grant db ok = grind (
    arith, enqueue_notification-Holds, open_manual_review-Holds, create_refund_request-Holds,
    credit_once-Holds,
  )

  finish_settlement-HoldsAfter :
      (s : Decided) (grant : ℕ) (credited ns : List ℕ) (extra : Result (Excess × Ledger))
      → HoldsAfter extra
      → HoldsAfter (finish_settlement s grant credited ns extra)
  unfolding finish_settlement HoldsAfter write_audit
  finish_settlement-HoldsAfter s grant credited ns (raised e) ok = tt
  finish_settlement-HoldsAfter s grant credited ns (done (extra, db)) ok = ok

  announce_grant-HoldsAfter :
      (s : Decided) (credited : List ℕ) (grant : Option ℕ) (db : Ledger)
      → Holds P db
      → HoldsAfter (announce_grant s credited grant db)
  unfolding announce_grant HoldsAfter write_audit
  announce_grant-HoldsAfter s credited none db ok = ok
  announce_grant-HoldsAfter s credited (some grant) db ok =
      let r = s.ctx.invoice in
      let (n, db1) =
        enqueue_notification r.user_id NotificationKind.invoice_settled r.id grant db in
      finish_settlement-HoldsAfter s grant credited (ids_of n)
        (settle_excess s.decision.outcome s grant db1)
        (settle_excess-HoldsAfter s.decision.outcome s grant db1
          (enqueue_notification-Holds r.user_id NotificationKind.invoice_settled r.id grant db ok))

  -- A fact that holds once the payments are credited holds at the end.
  pub grant_access-HoldsAfter :
      (s : Decided) (db : Ledger)
      → Holds P (credit_candidates s.ctx.chain.last_indexed_block s.cutoff s.candidates db).1
      → HoldsAfter (grant_access s db)
  unfolding grant_access
  grant_access-HoldsAfter s db ok =
      let r = s.ctx.invoice in
      let (credited, db1) =
        credit_candidates s.ctx.chain.last_indexed_block s.cutoff s.candidates db in
      let days = s.ctx.product.subscription_days in
      let (grant, db2) = insert_entitlement r.user_id r.product_id r.id days db1 in
      announce_grant-HoldsAfter s credited grant db2
        (insert_entitlement-Holds r.user_id r.product_id r.id days db1 ok)
