-- ===== src/System/Kept.antt =====
-- The invariant of the order tables under every call of the system.
use Prim.Native.String.{String}
use restaurant_qr_ordering_s.Base.{
  ℕ, ◌≡◌, refl, subst, sym, ◌∙◌, inl, inr, Bool, true, false, not, Option, none, some, List, [],
  ◌∷◌, ◌==◌, leb, Bool-cases, Option-cases, ap, find_by, All, All-find_by, update_where-missing,
}
use restaurant_qr_ordering_s.Errors.{AppError, Result, ok, err, ◌>>◌, throw_if, not_found, Reason}
use restaurant_qr_ordering_s.Status.{served, cancelled, needs_approval, status_eq}
use restaurant_qr_ordering_s.Store.{
  Db, Order, Payment, PaymentStatus, PaymentMethod, has_id, found, find_order, find_by_token,
  find_payment, update_order, collected, is_success,
}
use restaurant_qr_ordering_s.Orders.Gates.{is_paid}
use restaurant_qr_ordering_s.Orders.Validity.{
  IsBilled, IsSeated, IsValid, Keeps, commit-IsValid, Keeps->>=, Keeps-throw_if,
}
use restaurant_qr_ordering_s.Orders.Validity.Rows.{update_order-IsValid}
use restaurant_qr_ordering_s.Orders.Place.Laws.{place_order-IsValid}
use restaurant_qr_ordering_s.Orders.Change.{serve_order}
use restaurant_qr_ordering_s.Orders.Change.Laws.{
  found-ok, IsSettable, update_status-IsValid, cancel_order-IsValid, reject_order-IsValid,
  cancel_held_order_by_token-IsValid,
}
use restaurant_qr_ordering_s.Orders.Release.Laws.{approve_order-IsValid, add_items-IsValid}
use restaurant_qr_ordering_s.Payments.Provider.{
  Provider, verify_webhook, text_or_empty, create_intent,
}
use restaurant_qr_ordering_s.Payments.Reconcile.{Settlement}
use restaurant_qr_ordering_s.Payments.Counter.{
  record_cash_payment, record_cash_payment_tx, ledger_write, with_payment, settle_order_payment,
  settled_count, as_refunded, summarise_refund, refunded_row, refund_payment, refund_payment_tx,
}
use restaurant_qr_ordering_s.Payments.Online.{initiate_online_payment, target_of, failed_row}
use restaurant_qr_ordering_s.Payments.Webhook.{
  Event, Entity, is_failure, is_capture, matching_payment, handle_payment, handle_parsed,
  handle_razorpay_webhook,
}
use restaurant_qr_ordering_s.Payments.Validity.{
  record_cash_advance-IsValid, confirm_online_payment-IsValid, insert_payment-IsValid,
  update_payment-IsValid, reconcile_after_payment-IsValid, capture-IsValid,
}
use restaurant_qr_ordering_s.System.{Outside, Call, perform, run, reply_tx}

record_cash_payment-IsValid :
    (now receipt id : ℕ) (db : Db) → IsValid db → IsValid (record_cash_payment now receipt id db).1
unfolding record_cash_payment record_cash_payment_tx
record_cash_payment-IsValid now receipt id db v = commit-IsValid db _ _ v (
    Keeps->>= {B = Settlement} (found (find_order id db) (not_found Reason.order_not_found)) _
      λ o e. Keeps-throw_if (is_paid o.payment_status) _ _ λ unpaid.
        reconcile_after_payment-IsValid id PaymentMethod.cash _ (insert_payment-IsValid _ db v))

-- A change of the payment columns of one order.
payment_columns-IsValid :
    (id : ℕ) (status : PaymentStatus) (method : Option PaymentMethod) (o : Order) (db : Db)
    → find_order id db ≡ some o
    → IsValid db
    → IsValid (update_order id (with_payment status method) db)
payment_columns-IsValid id status method o db at v =
    let bill = All-find_by IsBilled (has_id id) db.orders o v.billed at in
    update_order-IsValid db id (with_payment status method) o v at (λ x. (refl, refl))
      (record {
        lines = bill.lines;
        sums = bill.sums;
        totals = bill.totals;
        advance_due = bill.advance_due;
      })
      (All-find_by (IsSeated db.tables) (has_id id) db.orders o v.seated at)

-- What is written to the ledger keeps the tables valid and the orders as they are.
abbrev KeepsOrders : Db → Result Db → Type 0
KeepsOrders db (ok after) = IsValid after × (after.orders ≡ db.orders)
KeepsOrders db (err e) = Unit

guarded-KeepsOrders :
    (db : Db) (b : Bool) (e : AppError) (r : Result Db)
    → KeepsOrders db r
    → KeepsOrders db (throw_if b e >> r)
guarded-KeepsOrders db true e r h = tt
guarded-KeepsOrders db false e r h = h

payments-IsValid :
    (payments : List Payment) (db : Db) → IsValid db → IsValid (record db { payments = payments })
payments-IsValid payments db v = record {
  billed = v.billed;
  seated = v.seated;
  issued = v.issued;
  distinct = v.distinct;
}

ledger_write-KeepsOrders :
    (now receipt : ℕ) (o : Order) (status : PaymentStatus) (method : Option PaymentMethod)
    (reason : Option String) (db : Db)
    → IsValid db
    → KeepsOrders db (ledger_write now receipt o status method reason db)
ledger_write-KeepsOrders now receipt o PaymentStatus.paid none reason db v =
    guarded-KeepsOrders db (not (settled_count o.id db == 0)) _ _ tt
ledger_write-KeepsOrders now receipt o PaymentStatus.paid (some method) reason db v =
    guarded-KeepsOrders db (not (settled_count o.id db == 0)) _ _
      (insert_payment-IsValid _ db v, refl)
ledger_write-KeepsOrders now receipt o PaymentStatus.refunded method reason db v =
    guarded-KeepsOrders db (settled_count o.id db == 0) _ _ (payments-IsValid _ db v, refl)
ledger_write-KeepsOrders now receipt o PaymentStatus.unpaid method reason db v =
    guarded-KeepsOrders db (not (settled_count o.id db == 0)) _ _ (v, refl)

settle_order_payment-Keeps :
    (now receipt id : ℕ) (status : PaymentStatus) (method : Option PaymentMethod)
    (reason : Option String) (db : Db)
    → IsValid db
    → Keeps (settle_order_payment now receipt id status method reason db)
unfolding settle_order_payment
settle_order_payment-Keeps now receipt id status method reason db v =
    Keeps->>= {B = Order} (found (find_order id db) (not_found Reason.order_not_found)) _ λ o e.
      Keeps->>= (ledger_write now receipt o status method reason db) _ λ after written.
        let (kept, same) =
          subst (KeepsOrders db) written
            (ledger_write-KeepsOrders now receipt o status method reason db v) in
        payment_columns-IsValid id status method o after
          (ap (λ os. find_by (has_id id) os) same ∙ found-ok (find_order id db) o e) kept

summarise_refund-IsValid : (id : ℕ) (db : Db) → IsValid db → IsValid (summarise_refund id db)
summarise_refund-IsValid id db v = elim (Bool-cases (settled_count id db == 0)) [
  | inr e ↦ rw e v
  | inl e ↦ rw e (elim (Option-cases (find_order id db)) [
    | inl gone ↦
        subst (λ os. IsValid (record db { orders = os }))
          (sym (update_where-missing (has_id id) as_refunded db.orders gone)) v
    | inr (o, at) ↦
        let bill = All-find_by IsBilled (has_id id) db.orders o v.billed at in
        update_order-IsValid db id as_refunded o v at (λ x. (refl, refl))
          (record {
            lines = bill.lines;
            sums = bill.sums;
            totals = bill.totals;
            advance_due = bill.advance_due;
          })
          (All-find_by (IsSeated db.tables) (has_id id) db.orders o v.seated at)
  ])
]

refund_payment-IsValid :
    (now id : ℕ) (reason : String) (db : Db)
    → IsValid db
    → IsValid (refund_payment now id reason db).1
unfolding refund_payment refund_payment_tx
refund_payment-IsValid now id reason db v = commit-IsValid db _ _ v (
    Keeps->>= {B = Settlement} (found (find_payment id db) (not_found Reason.payment_not_found)) _
      λ p e. Keeps-throw_if (not (is_success p.status)) _ _ λ success.
        summarise_refund-IsValid p.order_id _
          (update_payment-IsValid id (refunded_row now reason) db v))

initiate_online_payment-Keeps :
    (now : ℕ) (provider : Provider) (minted : String) (answer : Option String) (token : ℕ) (db : Db)
    → IsValid db
    → Keeps (initiate_online_payment now provider minted answer token db)
unfolding initiate_online_payment
initiate_online_payment-Keeps now provider minted answer token db v =
    Keeps->>= {B = Payment} (found (find_by_token token db) (not_found Reason.order_not_found)) _
      λ o e. Keeps-throw_if (is_paid o.payment_status) _ _ λ unpaid.
        Keeps-throw_if (status_eq o.status cancelled) _ _ λ alive.
          Keeps-throw_if (status_eq o.status needs_approval) _ _ λ approved.
            Keeps-throw_if (leb (target_of o) (collected o.id db.payments)) _ _ λ due.
              Keeps->>= (create_intent provider minted answer) _
                λ ref made. insert_payment-IsValid _ db v

handle_payment-IsValid :
    (now receipt : ℕ) (ev : Event) (e : Entity) (p : Payment) (db : Db)
    → IsValid db
    → IsValid (handle_payment now receipt ev e p db).1
handle_payment-IsValid now receipt ev e p db v = elim (Bool-cases (is_success p.status)) [
  | inl a ↦ rw a v
  | inr a ↦ rw a (elim (Bool-cases (is_failure ev e)) [
    | inl b ↦ rw b (update_payment-IsValid p.id failed_row db v)
    | inr b ↦ rw b (elim (Bool-cases (not (is_capture ev e))) [
      | inl g ↦ rw g v
      | inr g ↦ rw g (capture-IsValid now receipt (λ _. some e.id) p db v)
    ])
  ])
]

handle_parsed-IsValid :
    (now receipt : ℕ) (parsed : Option Event) (db : Db)
    → IsValid db
    → IsValid (handle_parsed now receipt parsed db).1
handle_parsed-IsValid now receipt none db v = v
handle_parsed-IsValid now receipt (some ev) db v = elim (Option-cases ev.entity) [
  | inl e ↦ rw e v
  | inr (entity, e) ↦ rw e (elim (Option-cases (matching_payment entity db.payments)) [
    | inl m ↦ rw m v
    | inr (p, m) ↦ rw m (handle_payment-IsValid now receipt ev entity p db v)
  ])
]

reply_tx-IsValid :
    {A : Type 0} (db : Db) (r : Result (A × Db)) → IsValid db → Keeps r → IsValid (reply_tx db r).1
reply_tx-IsValid db (ok (a, after)) v h = h
reply_tx-IsValid db (err e) v h = v

-- The route lets `updateStatus` set six statuses.
abbrev pub IsRouted : Call → Type 0
IsRouted (Call.update_status now id to actor) = IsSettable to
IsRouted _ = Unit

module _ (w : Outside) where
  perform-IsValid :
      (call : Call) (db : Db) → IsRouted call → IsValid db → IsValid (perform w call db).1
  unfolding serve_order handle_razorpay_webhook
  perform-IsValid (Call.place_order now token input) db r v =
      place_order-IsValid w.double now token input db v
  perform-IsValid (Call.add_items id requests) db r v = add_items-IsValid id requests db v
  perform-IsValid (Call.update_status now id to actor) db r v =
      update_status-IsValid now id to actor db r v
  perform-IsValid (Call.serve_order now id actor) db r v =
      update_status-IsValid now id served actor db refl v
  perform-IsValid (Call.cancel_order now id reason actor) db r v =
      cancel_order-IsValid now id reason actor db v
  perform-IsValid (Call.reject_order now id reason actor) db r v =
      reject_order-IsValid now id reason actor db v
  perform-IsValid (Call.cancel_held_order_by_token now token) db r v =
      cancel_held_order_by_token-IsValid now token db v
  perform-IsValid (Call.approve_order now id actor) db r v = approve_order-IsValid now id actor db v
  perform-IsValid (Call.record_cash_advance now receipt id actor) db r v =
      record_cash_advance-IsValid now receipt id actor db v
  perform-IsValid (Call.record_cash_payment now receipt id) db r v =
      record_cash_payment-IsValid now receipt id db v
  perform-IsValid (Call.settle_order_payment now receipt id status method reason) db r v =
      reply_tx-IsValid db _ v (settle_order_payment-Keeps now receipt id status method reason db v)
  perform-IsValid (Call.refund_payment now id reason) db r v =
      refund_payment-IsValid now id reason db v
  perform-IsValid (Call.initiate_online_payment now provider minted answer token) db r v =
      reply_tx-IsValid db _ v (initiate_online_payment-Keeps now provider minted answer token db v)
  perform-IsValid (Call.confirm_online_payment now receipt provider id c) db r v =
      confirm_online_payment-IsValid w.hmac now receipt provider c db id v
  perform-IsValid (Call.handle_razorpay_webhook now receipt provider body signature) db r v =
      elim (Bool-cases (not (verify_webhook w.hmac provider body (text_or_empty signature)))) [
        | inl e ↦ rw e v
        | inr e ↦ rw e (handle_parsed-IsValid now receipt (w.parse body) db v)
      ]

  -- From valid tables on, the tables stay valid under any sequence of calls of the services on orders and
  -- payments in which every `updateStatus` asks for one of the six statuses that its route lets through.
  -- Ids and numbers of orders are distinct, every bill is derived from its lines,
  -- an order that waits for an advance has one to pay, and the table of an open order is occupied.
  pub run-IsValid :
      (calls : List Call) (db : Db) → All IsRouted calls → IsValid db → IsValid (run w calls db)
  run-IsValid [] db routed v = v
  run-IsValid (call ∷ calls) db (r, routed) v =
      run-IsValid calls (perform w call db).1 routed (perform-IsValid call db r v)
