-- ===== src/Payments/Validity.antt =====
-- Money that lands keeps the invariant of the order tables.
use Prim.Native.String.{String}
use restaurant_qr_ordering_s.Base.{
  ℕ, ◌+◌, refl, inl, inr, not, ◌&&◌, Option, none, some, arith, Option-cases, Bool-cases, All-map,
  All-find_by, leb,
}
use restaurant_qr_ordering_s.Errors.{not_found, Reason}
use restaurant_qr_ordering_s.Status.{status_eq, awaiting_advance_payment}
use restaurant_qr_ordering_s.Store.{
  Db, Order, Payment, PaymentMethod, has_id, find_order, find_payment, update_order, update_payment,
  insert_payment, collected, found,
}
use restaurant_qr_ordering_s.Orders.Release.{required_advance}
use restaurant_qr_ordering_s.Orders.Release.Laws.{release_after_payment-IsValid}
use restaurant_qr_ordering_s.Orders.Validity.{
  IsBilled, IsSeated, IsIssued, IsValid, commit-IsValid, Keeps->>=, Keeps-throw_if,
}
use restaurant_qr_ordering_s.Orders.Validity.Rows.{update_order-IsValid}
use restaurant_qr_ordering_s.Payments.Provider.{
  Provider, Confirmation, is_demo, is_truthy, text_or_empty, verify_confirmation,
}
use restaurant_qr_ordering_s.Payments.Reconcile.{summarised, reconcile_after_payment}
use restaurant_qr_ordering_s.Payments.Counter.{
  allows_cash, record_cash_advance_tx, record_cash_advance,
}
use restaurant_qr_ordering_s.Payments.Online.{
  is_pending, new_ref, captured_online, failed_row, capture, confirm_found, confirm_online_payment,
}

summarised-IsBilled :
    (method : PaymentMethod) (captured : ℕ) (o : Order)
    → IsBilled o
    → IsBilled (summarised method captured o)
summarised-IsBilled method captured o b = record {
  lines = b.lines;
  sums = b.sums;
  totals = b.totals;
  advance_due = b.advance_due;
}

pub reconcile_after_payment-IsValid :
    (id : ℕ) (method : PaymentMethod) (db : Db)
    → IsValid db
    → IsValid (reconcile_after_payment id method db)
unfolding reconcile_after_payment
reconcile_after_payment-IsValid id method db v = elim (Option-cases (find_order id db)) [
  | inl e ↦ rw e v
  | inr (o, e) ↦ rw e (
      release_after_payment-IsValid id
        (update_order id (summarised method (collected id db.payments)) db)
        (update_order-IsValid db id (summarised method (collected id db.payments)) o v e
          (λ x. (refl, refl))
          (summarised-IsBilled method (collected id db.payments) o
            (All-find_by IsBilled (has_id id) db.orders o v.billed e))
          (All-find_by (IsSeated db.tables) (has_id id) db.orders o v.seated e)))
]

pub insert_payment-IsValid : (p : Payment) (db : Db) → IsValid db → IsValid (insert_payment p db)
insert_payment-IsValid p db v = record {
  billed = v.billed;
  seated = v.seated;
  issued =
      All-map (IsIssued db.next_id db.order_seq) (IsIssued (db.next_id + 1) db.order_seq)
        (λ o h. omega (arith, h)) db.orders v.issued;
  distinct = v.distinct;
}

pub update_payment-IsValid :
    (id : ℕ) (f : Payment → Payment) (db : Db) → IsValid db → IsValid (update_payment id f db)
update_payment-IsValid id f db v = record {
  billed = v.billed;
  seated = v.seated;
  issued = v.issued;
  distinct = v.distinct;
}

-- Taking an advance in cash keeps the invariant of the order tables, whether it is taken or refused.
pub record_cash_advance-IsValid :
    (now receipt id : ℕ) (actor : Option ℕ) (db : Db)
    → IsValid db
    → IsValid (record_cash_advance now receipt id actor db).1
unfolding record_cash_advance
record_cash_advance-IsValid now receipt id actor db v =
    commit-IsValid db _ (record_cash_advance_tx now receipt id db) v (
      Keeps-throw_if (not (allows_cash db.settings)) _ _ λ _.
        Keeps->>= (found (find_order id db) (not_found Reason.order_not_found)) _ λ o e.
          Keeps-throw_if (not (status_eq o.status awaiting_advance_payment)) _ _ λ _.
            Keeps-throw_if (leb (required_advance o) (collected id db.payments)) _ _ λ _.
              reconcile_after_payment-IsValid id PaymentMethod.cash _
                (insert_payment-IsValid _ db v))

pub capture-IsValid :
    (now receipt : ℕ) (ref : Option String → Option String) (p : Payment) (db : Db)
    → IsValid db
    → IsValid (capture now receipt ref p db).1
capture-IsValid now receipt ref p db v =
    reconcile_after_payment-IsValid p.order_id PaymentMethod.online _
      (update_payment-IsValid p.id (captured_online now receipt ref) db v)

module _ (hmac : String → String → String) (now receipt : ℕ) (provider : Provider)
    (c : Confirmation) (db : Db) where
  confirm_found-IsValid :
      (p : Option Payment) → IsValid db → IsValid (confirm_found hmac now receipt provider c db p).1
  confirm_found-IsValid none v = v
  confirm_found-IsValid (some p) v = elim (Bool-cases (not (is_pending p.status))) [
    | inl a ↦ rw a v
    | inr a ↦ elim (Bool-cases (not (is_demo provider) && not (is_truthy c.signature))) [
      | inl b ↦ rw (a, b) v
      | inr b ↦
          elim (Bool-cases (verify_confirmation hmac provider (text_or_empty p.provider_ref) c)) [
            | inl g ↦
                rw (a, b, g) (capture-IsValid now receipt (new_ref c.razorpay_payment_id) p db v)
            | inr g ↦ rw (a, b, g) (update_payment-IsValid p.id failed_row db v)
          ]
    ]
  ]

  -- A guest's confirmation keeps the invariant of the order tables, whether the payment is settled,
  -- fails or is refused.
  pub confirm_online_payment-IsValid :
      (id : ℕ) → IsValid db → IsValid (confirm_online_payment hmac now receipt provider id c db).1
  unfolding confirm_online_payment
  confirm_online_payment-IsValid id v = confirm_found-IsValid (find_payment id db) v
