-- ===== src/Payments/Counter/Settled.antt =====
-- What `settleOrderPayment` leaves in the ledger, for every status that it is asked to set.
use Prim.Native.String.{String}
use restaurant_qr_ordering_s.Base.{
  ℕ, ◌≡◌, refl, sym, inl, inr, Bool, true, false, not, Option, none, some, List, [], ◌∷◌, arith,
  ◌==◌, ==_iff, ==_refl, Bool-cases, find_by-holds, update_where, count_where,
}
use restaurant_qr_ordering_s.Errors.{Result, ok, err, ◌>>=◌}
use restaurant_qr_ordering_s.Store.{
  Db, Order, Payment, PaymentStatus, PaymentMethod, has_id, find_order, update_order, collected,
  is_settled,
}
use restaurant_qr_ordering_s.Payments.Reconcile.{success_row}
use restaurant_qr_ordering_s.Payments.Reconcile.Laws.{collected-insert, find_updated}
use restaurant_qr_ordering_s.Payments.Counter.{
  settled_count, ledger_write, reason_or, refunded_row, with_payment, settle_order_payment,
}

count-zero-collected :
    (id : ℕ) (payments : List Payment)
    → count_where (is_settled id) payments ≡ 0
    → collected id payments ≡ 0
count-zero-collected id [] h = refl
count-zero-collected id (p ∷ ps) h = ground (arith, count-zero-collected id ps)

refunded-collected :
    (now id : ℕ) (reason : String) (payments : List Payment)
    → collected id (update_where (is_settled id) (refunded_row now reason) payments) ≡ 0
refunded-collected now id reason [] = refl
refunded-collected now id reason (p ∷ ps) = ground (arith, refunded-collected now id reason ps)

-- What the ledger holds for a bill whose payment has been settled as asked.
abbrev pub due : PaymentStatus → ℕ → ℕ
due PaymentStatus.paid total = total
due _ total = 0

-- Whether a request goes through, given how many successful payments the order has.
abbrev pub accepts : PaymentStatus → Option PaymentMethod → ℕ → Bool
accepts PaymentStatus.paid none settled = false
accepts PaymentStatus.paid (some m) settled = settled == 0
accepts PaymentStatus.refunded method settled = not (settled == 0)
accepts PaymentStatus.unpaid method settled = settled == 0

abbrev pub Writes : Order → PaymentStatus → Option PaymentMethod → Db → Result Db → Type 0
Writes o status method db (err e) = accepts status method (settled_count o.id db) ≡ false
Writes o status method db (ok after) =
    (accepts status method (settled_count o.id db) ≡ true)
    × (collected o.id after.payments ≡ due status o.total_amount)
    × (after.orders ≡ db.orders)

ledger_write-Writes :
    (now receipt : ℕ) (o : Order) (status : PaymentStatus) (method : Option PaymentMethod)
    (reason : Option String) (db : Db)
    → Writes o status method db (ledger_write now receipt o status method reason db)
ledger_write-Writes now receipt o PaymentStatus.paid none reason db =
    elim (Bool-cases (settled_count o.id db == 0)) [
      | inl clear ↦ rw clear refl
      | inr taken ↦ rw taken refl
    ]
ledger_write-Writes now receipt o PaymentStatus.paid (some m) reason db =
    elim (Bool-cases (settled_count o.id db == 0)) [
      | inl clear ↦
          let row = success_row now receipt o.id o.total_amount m "manual" db in
          let empty = count-zero-collected o.id db.payments ((==_iff _ _).0 clear) in
          let grown = collected-insert o.id row db.payments (rw (==_refl o.id) refl) in
          rw clear (clear, omega (arith, grown, empty), refl)
      | inr taken ↦ rw taken taken
    ]
ledger_write-Writes now receipt o PaymentStatus.refunded method reason db =
    elim (Bool-cases (settled_count o.id db == 0)) [
      | inl clear ↦ rw clear (rw clear refl)
      | inr taken ↦
          rw taken (rw taken refl, refunded-collected now o.id (reason_or reason) db.payments, refl)
    ]
ledger_write-Writes now receipt o PaymentStatus.unpaid method reason db =
    elim (Bool-cases (settled_count o.id db == 0)) [
      | inl clear ↦
          rw clear (clear, count-zero-collected o.id db.payments ((==_iff _ _).0 clear), refl)
      | inr taken ↦ rw taken taken
    ]

-- The method on the order: none for UNPAID, and else the one that is given, or the old one.
abbrev pub method_after :
    PaymentStatus → Option PaymentMethod → Option PaymentMethod → Option PaymentMethod
method_after PaymentStatus.unpaid given old = none
method_after PaymentStatus.paid none old = old
method_after PaymentStatus.paid (some m) old = some m
method_after PaymentStatus.refunded none old = old
method_after PaymentStatus.refunded (some m) old = some m

abbrev pub Settles :
    ℕ → Order → PaymentStatus → Option PaymentMethod → Db → Result (Order × Db) → Type 0
Settles id o status method db (err e) = accepts status method (settled_count id db) ≡ false
Settles id o status method db (ok (answered, after)) =
    (accepts status method (settled_count id db) ≡ true)
    × (answered ≡ record o {
      payment_status = status;
      payment_method = method_after status method o.payment_method;
    })
    × (find_order id after ≡ some answered)
    × (collected id after.payments ≡ due status o.total_amount)

with_payment-method :
    (status : PaymentStatus) (method : Option PaymentMethod) (o : Order)
    → with_payment status method o ≡ record o {
      payment_status = status;
      payment_method = method_after status method o.payment_method;
    }
with_payment-method PaymentStatus.unpaid method o = refl
with_payment-method PaymentStatus.paid none o = refl
with_payment-method PaymentStatus.paid (some m) o = refl
with_payment-method PaymentStatus.refunded none o = refl
with_payment-method PaymentStatus.refunded (some m) o = refl

settle_written :
    (id : ℕ) (o : Order) (status : PaymentStatus) (method : Option PaymentMethod) (db : Db)
    (written : Result Db)
    → find_order id db ≡ some o
    → o.id ≡ id
    → Writes o status method db written
    → Settles id o status method db (
        written >>= λ after.
        ok (with_payment status method o, update_order id (with_payment status method) after))
settle_written id o status method db (err e) f i h = rw (sym i) h
settle_written id o status method db (ok after) f i (a, c, same) = (
  rw (sym i) a,
  with_payment-method status method o,
  find_updated id (with_payment status method) after o (λ x. refl) (rw same f),
  rw (sym i) c,
)

-- For an order that exists, settling by hand goes through exactly if the request fits the ledger (PAID
-- needs a method and no successful payment, UNPAID no successful payment, REFUNDED at least one); then
-- the order, stored and answered, has the status asked for, no method if that is UNPAID and else
-- the method given or the old one, and all else as before, and the ledger holds the whole bill for
-- PAID and nothing otherwise.
pub settle_order_payment-Settles :
    (now receipt id : ℕ) (status : PaymentStatus) (method : Option PaymentMethod)
    (reason : Option String) (db : Db) (o : Order)
    → find_order id db ≡ some o
    → Settles id o status method db (settle_order_payment now receipt id status method reason db)
unfolding settle_order_payment
settle_order_payment-Settles now receipt id status method reason db o e =
    let same : o.id ≡ id = (==_iff o.id id).0 (find_by-holds (has_id id) db.orders o e) in
    rw e (
      settle_written id o status method db _ e same
        (ledger_write-Writes now receipt o status method reason db))
