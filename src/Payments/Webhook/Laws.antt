-- ===== src/Payments/Webhook/Laws.antt =====
-- When a call of Razorpay's webhook settles a payment.
use Prim.Native.String.{String}
use restaurant_qr_ordering_s.Base.{
  ℕ, ◌≡◌, refl, inl, inr, Bool, true, false, not, ◌&&◌, Option, some, [], Bool-cases,
}
use restaurant_qr_ordering_s.Errors.{ok}
use restaurant_qr_ordering_s.Store.{
  Db, Order, Payment, Outcome, find_order, find_payment, collected, is_success,
}
use restaurant_qr_ordering_s.Payments.Provider.{Provider, text_or_empty, verify_webhook}
use restaurant_qr_ordering_s.Payments.Ledger.{DistinctIds}
use restaurant_qr_ordering_s.Payments.Online.Confirmed.{
  Captured, capture-Captured, failed-collected,
}
use restaurant_qr_ordering_s.Payments.Webhook.{
  Entity, Event, Answer, settled, is_failure, is_capture, handle_payment, matching_payment,
  handle_razorpay_webhook,
}

-- A call that settles the payment, or that changes no order and no sum and announces nothing.
abbrev pub Handles : Bool → Payment → Order → Db → Outcome Answer → Type 0
Handles true p o db (ok (settled s), after, effects) = Captured p o db (s, after)
Handles true p o db _ = ⊥
Handles false p o db (ok (settled s), after, effects) = ⊥
Handles false p o db (_, after, effects) =
    (after.orders ≡ db.orders)
    × (collected p.order_id after.payments ≡ collected p.order_id db.payments)
    × (effects ≡ [])

-- An event that says the money has arrived, for a payment that has not succeeded.
abbrev pub settles : Event → Entity → Payment → Bool
settles ev e p = not (is_success p.status) && not (is_failure ev e) && is_capture ev e

handle_payment-Handles :
    (now receipt : ℕ) (ev : Event) (e : Entity) (p : Payment) (db : Db) (o : Order)
    → DistinctIds db.payments
    → find_payment p.id db ≡ some p
    → find_order p.order_id db ≡ some o
    → Handles (settles ev e p) p o db (handle_payment now receipt ev e p db)
handle_payment-Handles now receipt ev e p db o d f k = elim (Bool-cases (is_success p.status)) [
  | inl a ↦ rw a (refl, refl, refl)
  | inr a ↦ elim (Bool-cases (is_failure ev e)) [
    | inl b ↦ rw (a, b) (refl, failed-collected p db d f a, refl)
    | inr b ↦ elim (Bool-cases (is_capture ev e)) [
      | inl c ↦ rw (a, b, c) (capture-Captured now receipt (λ _. some e.id) p db o d f a k)
      | inr c ↦ rw (a, b, c) (refl, refl, refl)
    ]
  ]
]

-- For a readable body about a payment of ours, the webhook settles that payment exactly if the
-- signature over the raw body is valid, the payment has not succeeded yet (a refunded one included),
-- and the event says captured and not failed: its amount is added to what the ledger holds for its
-- order, and the order follows. In every other case no order changes, nothing that has been collected
-- for that order changes, and nothing is announced.
pub handle_razorpay_webhook-Handles :
    (hmac : String → String → String) (parse : String → Option Event) (now receipt : ℕ)
    (provider : Provider) (body : String) (signature : Option String) (db : Db) (ev : Event)
    (e : Entity) (p : Payment) (o : Order)
    → parse body ≡ some ev
    → ev.entity ≡ some e
    → matching_payment e db.payments ≡ some p
    → DistinctIds db.payments
    → find_payment p.id db ≡ some p
    → find_order p.order_id db ≡ some o
    → Handles
        (verify_webhook hmac provider body (text_or_empty signature) && settles ev e p)
        p
        o
        db
        (handle_razorpay_webhook hmac parse now receipt provider body signature db)
unfolding handle_razorpay_webhook
handle_razorpay_webhook-Handles hmac parse now receipt provider body signature db ev e p o read
      about mine d f k =
    elim (Bool-cases (verify_webhook hmac provider body (text_or_empty signature))) [
      | inl valid ↦
          rw (valid, read, about, mine) (handle_payment-Handles now receipt ev e p db o d f k)
      | inr forged ↦ rw forged (refl, refl, refl)
    ]
