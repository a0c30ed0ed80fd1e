-- ===== src/System/Settles.antt =====
-- The services on payments move an order only by the release that its advance pays for.
use Prim.Native.String.{String}
use restaurant_qr_ordering_s.Base.{
  ℕ, ◌≡◌, refl, subst, inl, inr, Bool, true, false, not, ◌&&◌, Option, none, some, List, ◌==◌, leb,
  Bool-cases, Option-cases,
}
use restaurant_qr_ordering_s.Errors.{AppError, Result, ok, err, ◌>>◌, throw_if, not_found, Reason}
use restaurant_qr_ordering_s.Status.{awaiting_advance_payment, needs_approval, cancelled, status_eq}
use restaurant_qr_ordering_s.Store.{
  Db, Order, Payment, PaymentStatus, PaymentMethod, found, find_order, find_by_token, find_payment,
  update_order, update_payment, insert_payment, collected, is_success,
}
use restaurant_qr_ordering_s.Orders.Gates.{is_paid}
use restaurant_qr_ordering_s.Orders.Release.{release_after_payment, required_advance}
use restaurant_qr_ordering_s.Payments.Provider.{
  Provider, Confirmation, verify_confirmation, verify_webhook, is_demo, is_truthy, text_or_empty,
  create_intent,
}
use restaurant_qr_ordering_s.Payments.Reconcile.{Settlement, reconcile_after_payment, summarised}
use restaurant_qr_ordering_s.Payments.Counter.{
  allows_cash, record_cash_advance_tx, record_cash_advance, record_cash_payment_tx,
  record_cash_payment, ledger_write, with_payment, settle_order_payment, settled_count, as_refunded,
  summarise_refund, refunded_row, refund_payment_tx, refund_payment,
}
use restaurant_qr_ordering_s.Payments.Online.{
  initiate_online_payment, target_of, capture, captured_online, is_pending, new_ref,
  confirm_online_payment,
}
use restaurant_qr_ordering_s.Payments.Webhook.{
  Event, Entity, is_failure, is_capture, matching_payment, handle_payment, handle_parsed,
  handle_razorpay_webhook,
}
use restaurant_qr_ordering_s.System.Advances.{
  Advances, Advances-same, Rests-Advances, update_where-Rests, Commits, Commits->>=,
  Commits-throw_if, commit-Advances, update_where-Advances,
}
use restaurant_qr_ordering_s.System.Moves.{release_after_payment-Advances}

reconcile_after_payment-Advances :
    (id : ℕ) (method : PaymentMethod) (db : Db)
    → Advances db.orders (reconcile_after_payment id method db).orders
unfolding reconcile_after_payment
reconcile_after_payment-Advances id method db = elim (Option-cases (find_order id db)) [
  | inl e ↦ rw e (Advances-same db.orders)
  | inr (o, e) ↦
      let paid = update_order id (summarised method (collected id db.payments)) db in
      rw e (
        Rests-Advances db.orders paid.orders (release_after_payment id paid).orders
          (update_where-Rests id (summarised method (collected id db.payments)) db.orders
            (λ x. refl) (λ x. refl))
          (release_after_payment-Advances id paid))
]

pub record_cash_advance-Advances :
    (now receipt id : ℕ) (actor : Option ℕ) (db : Db)
    → Advances db.orders (record_cash_advance now receipt id actor db).1.orders
unfolding record_cash_advance record_cash_advance_tx
record_cash_advance-Advances now receipt id actor db = commit-Advances db _ _ (
    Commits-throw_if {B = Settlement} db.orders (not (allows_cash db.settings)) _ _ λ allowed.
      Commits->>= db.orders (found (find_order id db) (not_found Reason.order_not_found)) _ λ o e.
        Commits-throw_if db.orders (not (status_eq o.status awaiting_advance_payment)) _ _ λ waits.
          Commits-throw_if db.orders (leb (required_advance o) (collected id db.payments)) _ _
            λ due. reconcile_after_payment-Advances id PaymentMethod.cash (insert_payment _ db))

pub record_cash_payment-Advances :
    (now receipt id : ℕ) (db : Db)
    → Advances db.orders (record_cash_payment now receipt id db).1.orders
unfolding record_cash_payment record_cash_payment_tx
record_cash_payment-Advances now receipt id db = commit-Advances db _ _ (
    Commits->>= {B = Settlement} db.orders
      (found (find_order id db) (not_found Reason.order_not_found)) _
      λ o e.
        Commits-throw_if db.orders (is_paid o.payment_status) _ _
          λ unpaid. reconcile_after_payment-Advances id PaymentMethod.cash (insert_payment _ db))

-- What is written to the ledger leaves the orders as they are.
abbrev LeavesOrders : List Order → Result Db → Type 0
LeavesOrders os (ok db) = db.orders ≡ os
LeavesOrders os (err e) = Unit

guarded-LeavesOrders :
    (os : List Order) (b : Bool) (e : AppError) (r : Result Db)
    → LeavesOrders os r
    → LeavesOrders os (throw_if b e >> r)
guarded-LeavesOrders os true e r h = tt
guarded-LeavesOrders os false e r h = h

ledger_write-LeavesOrders :
    (now receipt : ℕ) (o : Order) (status : PaymentStatus) (method : Option PaymentMethod)
    (reason : Option String) (db : Db)
    → LeavesOrders db.orders (ledger_write now receipt o status method reason db)
ledger_write-LeavesOrders now receipt o PaymentStatus.paid none reason db =
    guarded-LeavesOrders db.orders (not (settled_count o.id db == 0)) _ _ tt
ledger_write-LeavesOrders now receipt o PaymentStatus.paid (some method) reason db =
    guarded-LeavesOrders db.orders (not (settled_count o.id db == 0)) _ _ refl
ledger_write-LeavesOrders now receipt o PaymentStatus.refunded method reason db =
    guarded-LeavesOrders db.orders (settled_count o.id db == 0) _ _ refl
ledger_write-LeavesOrders now receipt o PaymentStatus.unpaid method reason db =
    guarded-LeavesOrders db.orders (not (settled_count o.id db == 0)) _ _ refl

pub settle_order_payment-Commits :
    (now receipt id : ℕ) (status : PaymentStatus) (method : Option PaymentMethod)
    (reason : Option String) (db : Db)
    → Commits db.orders (settle_order_payment now receipt id status method reason db)
unfolding settle_order_payment
settle_order_payment-Commits now receipt id status method reason db =
    Commits->>= {B = Order} db.orders (found (find_order id db) (not_found Reason.order_not_found))
      _
      λ o e.
        Commits->>= db.orders (ledger_write now receipt o status method reason db) _
          λ after written.
            subst (λ os. Advances os (update_order id (with_payment status method) after).orders)
              (subst (LeavesOrders db.orders) written
                (ledger_write-LeavesOrders now receipt o status method reason db))
              (update_where-Advances id (with_payment status method) after.orders (λ x. refl)
                (λ p at. inl refl))

summarise_refund-Advances : (id : ℕ) (db : Db) → Advances db.orders (summarise_refund id db).orders
summarise_refund-Advances id db = elim (Bool-cases (settled_count id db == 0)) [
  | inl e ↦ rw e (update_where-Advances id as_refunded db.orders (λ x. refl) (λ p at. inl refl))
  | inr e ↦ rw e (Advances-same db.orders)
]

pub refund_payment-Advances :
    (now id : ℕ) (reason : String) (db : Db)
    → Advances db.orders (refund_payment now id reason db).1.orders
unfolding refund_payment refund_payment_tx
refund_payment-Advances now id reason db = commit-Advances db _ _ (
    Commits->>= {B = Settlement} db.orders
      (found (find_payment id db) (not_found Reason.payment_not_found)) _
      λ p e. Commits-throw_if db.orders (not (is_success p.status)) _ _ λ success.
        summarise_refund-Advances p.order_id (update_payment id (refunded_row now reason) db))

pub initiate_online_payment-Commits :
    (now : ℕ) (provider : Provider) (minted : String) (answer : Option String) (token : ℕ) (db : Db)
    → Commits db.orders (initiate_online_payment now provider minted answer token db)
unfolding initiate_online_payment
initiate_online_payment-Commits now provider minted answer token db =
    Commits->>= {B = Payment} db.orders
      (found (find_by_token token db) (not_found Reason.order_not_found)) _
      λ o e. Commits-throw_if db.orders (is_paid o.payment_status) _ _ λ unpaid.
        Commits-throw_if db.orders (status_eq o.status cancelled) _ _ λ alive.
          Commits-throw_if db.orders (status_eq o.status needs_approval) _ _ λ approved.
            Commits-throw_if db.orders (leb (target_of o) (collected o.id db.payments)) _ _ λ due.
              Commits->>= db.orders (create_intent provider minted answer) _
                λ ref made. Advances-same db.orders

capture-Advances :
    (now receipt : ℕ) (ref : Option String → Option String) (p : Payment) (db : Db)
    → Advances db.orders (capture now receipt ref p db).1.orders
capture-Advances now receipt ref p db =
    reconcile_after_payment-Advances p.order_id PaymentMethod.online
      (update_payment p.id (captured_online now receipt ref) db)

pub confirm_online_payment-Advances :
    (hmac : String → String → String) (now receipt : ℕ) (provider : Provider) (id : ℕ)
    (c : Confirmation) (db : Db)
    → Advances db.orders (confirm_online_payment hmac now receipt provider id c db).1.orders
unfolding confirm_online_payment
confirm_online_payment-Advances hmac now receipt provider id c db =
    elim (Option-cases (find_payment id db)) [
      | inl e ↦ rw e (Advances-same db.orders)
      | inr (p, e) ↦ rw e (elim (Bool-cases (not (is_pending p.status))) [
        | inl a ↦ rw a (Advances-same db.orders)
        | inr a ↦ rw a (elim (Bool-cases (not (is_demo provider) && not (is_truthy c.signature))) [
          | inl b ↦ rw b (Advances-same db.orders)
          | inr b ↦
              rw b
                (elim (Bool-cases
                  (verify_confirmation hmac provider (text_or_empty p.provider_ref) c)) [
                    | inl g ↦
                        rw g (capture-Advances now receipt (new_ref c.razorpay_payment_id) p db)
                    | inr g ↦ rw g (Advances-same db.orders)
                  ])
        ])
      ])
    ]

handle_payment-Advances :
    (now receipt : ℕ) (ev : Event) (e : Entity) (p : Payment) (db : Db)
    → Advances db.orders (handle_payment now receipt ev e p db).1.orders
handle_payment-Advances now receipt ev e p db = elim (Bool-cases (is_success p.status)) [
  | inl a ↦ rw a (Advances-same db.orders)
  | inr a ↦ rw a (elim (Bool-cases (is_failure ev e)) [
    | inl b ↦ rw b (Advances-same db.orders)
    | inr b ↦ rw b (elim (Bool-cases (not (is_capture ev e))) [
      | inl g ↦ rw g (Advances-same db.orders)
      | inr g ↦ rw g (capture-Advances now receipt (λ _. some e.id) p db)
    ])
  ])
]

handle_parsed-Advances :
    (now receipt : ℕ) (parsed : Option Event) (db : Db)
    → Advances db.orders (handle_parsed now receipt parsed db).1.orders
handle_parsed-Advances now receipt none db = Advances-same db.orders
handle_parsed-Advances now receipt (some ev) db = elim (Option-cases ev.entity) [
  | inl e ↦ rw e (Advances-same db.orders)
  | inr (entity, e) ↦ rw e (elim (Option-cases (matching_payment entity db.payments)) [
    | inl m ↦ rw m (Advances-same db.orders)
    | inr (p, m) ↦ rw m (handle_payment-Advances now receipt ev entity p db)
  ])
]

pub handle_razorpay_webhook-Advances :
    (hmac : String → String → String) (parse : String → Option Event) (now receipt : ℕ)
    (provider : Provider) (body : String) (signature : Option String) (db : Db)
    → Advances db.orders
        (handle_razorpay_webhook hmac parse now receipt provider body signature db).1.orders
unfolding handle_razorpay_webhook
handle_razorpay_webhook-Advances hmac parse now receipt provider body signature db =
    elim (Bool-cases (not (verify_webhook hmac provider body (text_or_empty signature)))) [
      | inl e ↦ rw e (Advances-same db.orders)
      | inr e ↦ rw e (handle_parsed-Advances now receipt (parse body) db)
    ]
