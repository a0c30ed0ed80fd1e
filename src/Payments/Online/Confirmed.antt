-- ===== src/Payments/Online/Confirmed.antt =====
-- What settling one payment row, and `confirmOnlinePayment`, leave in the ledger and on the order.
use Prim.Native.String.{String}
use restaurant_qr_ordering_s.Base.{
  ℕ, ◌+◌, ◌≡◌, refl, ◌∙◌, ap, inl, inr, Bool, true, false, not, ◌&&◌, Option, some, [], arith,
  ==_refl, Bool-cases,
}
use restaurant_qr_ordering_s.Errors.{ok, err}
use restaurant_qr_ordering_s.Store.{
  Db, Order, Payment, PaymentMethod, Outcome, find_order, find_payment, update_payment, collected,
  is_success,
}
use restaurant_qr_ordering_s.Payments.Provider.{
  Provider, Confirmation, is_demo, is_truthy, text_or_empty, verify_confirmation,
}
use restaurant_qr_ordering_s.Payments.Reconcile.{Settlement}
use restaurant_qr_ordering_s.Payments.Reconcile.Laws.{
  settled_order, reconcile_after_payment-find, reconcile_after_payment-payments,
}
use restaurant_qr_ordering_s.Payments.Ledger.{DistinctIds, counted, collected-update}
use restaurant_qr_ordering_s.Payments.Online.{
  captured_online, failed_row, is_pending, new_ref, capture, confirm_online_payment,
}

-- The ledger and the order after a payment has been captured.
abbrev pub Captured : Payment → Order → Db → Settlement × Db → Type 0
Captured p o db (s, after) =
    let total = collected p.order_id db.payments + p.amount in
    (collected p.order_id after.payments ≡ total)
    × (find_order p.order_id after ≡ some (settled_order PaymentMethod.online total o))
    × (s.1 ≡ some (settled_order PaymentMethod.online total o))

counted_success :
    (now receipt : ℕ) (ref : Option String → Option String) (p : Payment)
    → counted p.order_id (captured_online now receipt ref p) ≡ p.amount
counted_success now receipt ref p = rw (==_refl p.order_id) refl

counted_open : (id : ℕ) (p : Payment) → is_success p.status ≡ false → counted id p ≡ 0
counted_open id p h = ground arith

pub capture-Captured :
    (now receipt : ℕ) (ref : Option String → Option String) (p : Payment) (db : Db) (o : Order)
    → DistinctIds db.payments
    → find_payment p.id db ≡ some p
    → is_success p.status ≡ false
    → find_order p.order_id db ≡ some o
    → Captured p o db (capture now receipt ref p db)
capture-Captured now receipt ref p db o d f h e =
    let mid = update_payment p.id (captured_online now receipt ref) db in
    let grown : collected p.order_id mid.payments ≡ collected p.order_id db.payments + p.amount =
      omega (
        arith,
        collected-update p.order_id p.id (captured_online now receipt ref) db.payments p d f,
        counted_success now receipt ref p,
        counted_open p.order_id p h,
      ) in
    let order =
      reconcile_after_payment-find p.order_id PaymentMethod.online mid o e
      ∙ ap (λ c. some (settled_order PaymentMethod.online c o)) grown in
    (rw (reconcile_after_payment-payments p.order_id PaymentMethod.online mid) grown, order, order)

-- A failed attempt leaves what the ledger holds.
pub failed-collected :
    (p : Payment) (db : Db)
    → DistinctIds db.payments
    → find_payment p.id db ≡ some p
    → is_success p.status ≡ false
    → collected p.order_id (update_payment p.id failed_row db).payments
      ≡ collected p.order_id db.payments
failed-collected p db d f h = omega (
  arith,
  collected-update p.order_id p.id failed_row db.payments p d f,
  counted_open p.order_id (failed_row p) refl,
  counted_open p.order_id p h,
)

-- The outcome of a call that settles a payment exactly if it is `genuine`, and else changes no order
-- and no sum of money, and announces nothing.
abbrev pub Confirms : Bool → Payment → Order → Db → Outcome Settlement → Type 0
Confirms true p o db (ok s, after, effects) = Captured p o db (s, after)
Confirms true p o db (err e, after, effects) = ⊥
Confirms false p o db (ok s, after, effects) = ⊥
Confirms false p o db (err e, after, effects) =
    (after.orders ≡ db.orders)
    × (collected p.order_id after.payments ≡ collected p.order_id db.payments)
    × (effects ≡ [])

module _ (hmac : String → String → String) where
  -- A payment that is pending, with a proof that the gateway accepts.
  abbrev pub is_genuine : Provider → Confirmation → Payment → Bool
  is_genuine provider c p =
      is_pending p.status && verify_confirmation hmac provider (text_or_empty p.provider_ref) c

  signature_needed :
      (provider : Provider) (c : Confirmation) (ref : String)
      → (not (is_demo provider) && not (is_truthy c.signature)) ≡ true
      → verify_confirmation hmac provider ref c ≡ false
  unfolding verify_confirmation
  signature_needed Provider.demo c ref h = ground arith
  signature_needed (Provider.razorpay k s w) c ref h = ground arith

  pending_open : (p : Payment) → is_pending p.status ≡ true → is_success p.status ≡ false
  pending_open p h = ground arith

  -- A guest's confirmation of a payment settles it exactly if the payment is still pending and the
  -- gateway accepts the proof: its amount is added to what the ledger holds, and the order follows.
  -- Any other confirmation is refused, and changes no order and nothing that has been collected.
  pub confirm_online_payment-Confirms :
      (now receipt : ℕ) (provider : Provider) (c : Confirmation) (p : Payment) (db : Db) (o : Order)
      → DistinctIds db.payments
      → find_payment p.id db ≡ some p
      → find_order p.order_id db ≡ some o
      → Confirms
          (is_genuine provider c p)
          p
          o
          db
          (confirm_online_payment hmac now receipt provider p.id c db)
  unfolding confirm_online_payment
  confirm_online_payment-Confirms now receipt provider c p db o d f e =
      rw f (elim (Bool-cases (is_pending p.status)) [
        | inr closed ↦ rw closed (refl, refl, refl)
        | inl fresh ↦ elim (Bool-cases (not (is_demo provider) && not (is_truthy c.signature))) [
          | inl bare ↦
              rw (fresh, bare, signature_needed provider c (text_or_empty p.provider_ref) bare)
                (refl, refl, refl)
          | inr signed ↦
              elim (Bool-cases
                (verify_confirmation hmac provider (text_or_empty p.provider_ref) c)) [
                  | inl good ↦
                      rw (fresh, signed, good)
                        (capture-Captured now receipt (new_ref c.razorpay_payment_id) p db o d f
                          (pending_open p fresh) e)
                  | inr bad ↦
                      rw (fresh, signed, bad)
                        (refl, failed-collected p db d f (pending_open p fresh), refl)
                ]
        ]
      ])
