-- ===== src/Examples/PaymentTests.antt =====
-- The theorems on payments at concrete inputs.
use Prim.Native.String.{String}
use restaurant_qr_ordering_s.Base.{◌≡◌, refl, true, Option, none, some, [], ◌∷◌, arith}
use restaurant_qr_ordering_s.Status.{awaiting_advance_payment, pending, confirmed}
use restaurant_qr_ordering_s.Store.{Db, Order, PaymentStatus, PaymentMethod, TxnStatus, find_order}
use restaurant_qr_ordering_s.Orders.Release.{set_status}
use restaurant_qr_ordering_s.Payments.Provider.{
  Provider, Confirmation, create_intent, verify_confirmation, verify_webhook,
}
use restaurant_qr_ordering_s.Payments.Reconcile.{summarised, reconcile_after_payment}
use restaurant_qr_ordering_s.Payments.Reconcile.Laws.{
  IsReconciled, reconcile_after_payment-IsReconciled,
}
use restaurant_qr_ordering_s.Payments.Counter.{
  record_cash_advance_tx, record_cash_payment_tx, settle_order_payment, refund_payment_tx,
}
use restaurant_qr_ordering_s.Payments.Counter.Laws.{
  Answers, paid_in_cash, record_cash_advance_tx-releases, record_cash_payment_tx-adds,
}
use restaurant_qr_ordering_s.Payments.Counter.Settled.{Settles, settle_order_payment-Settles}
use restaurant_qr_ordering_s.Payments.Counter.Refunded.{Refunds, refund_payment_tx-Refunds}
use restaurant_qr_ordering_s.Payments.Online.{initiate_online_payment, confirm_online_payment}
use restaurant_qr_ordering_s.Payments.Online.Initiated.{Charges, initiate_online_payment-Charges}
use restaurant_qr_ordering_s.Payments.Online.Confirmed.{Confirms, confirm_online_payment-Confirms}
use restaurant_qr_ordering_s.Payments.Webhook.{
  Entity, Event, matching_payment, handle_razorpay_webhook,
}
use restaurant_qr_ordering_s.Payments.Webhook.Laws.{Handles, handle_razorpay_webhook-Handles}
use restaurant_qr_ordering_s.Examples.Data.{order_five, payment_seven, busy}

abbrev waiting : Db
waiting = busy awaiting_advance_payment (payment_seven TxnStatus.pending ∷ [])

abbrev advanced : Db
advanced = busy confirmed (payment_seven TxnStatus.success ∷ [])

reconcile_after_payment_example :
    (p : Order) × (find_order 5 (
        reconcile_after_payment 5 PaymentMethod.online
          (busy awaiting_advance_payment (payment_seven TxnStatus.success ∷ [])))
      ≡ some p)
    × IsReconciled PaymentMethod.online 126_000 (order_five awaiting_advance_payment) p
reconcile_after_payment_example =
    reconcile_after_payment-IsReconciled 5 PaymentMethod.online
      (busy awaiting_advance_payment (payment_seven TxnStatus.success ∷ []))
      (order_five awaiting_advance_payment) refl

record_cash_advance_example :
    Answers
      (some (
        set_status pending
          (summarised PaymentMethod.cash 126_000 (order_five awaiting_advance_payment))))
      (record_cash_advance_tx 7000 42 5 waiting)
      5
      126_000
record_cash_advance_example =
    record_cash_advance_tx-releases 7000 42 5 waiting (order_five awaiting_advance_payment) refl
      refl refl (omega arith)

-- The advance of 1260.00 was collected before, and the whole bill of 4200.00 is taken on top of it.
record_cash_payment_example :
    Answers
      (some (paid_in_cash 546_000 (order_five confirmed)))
      (record_cash_payment_tx 7000 42 5 advanced)
      5
      546_000
record_cash_payment_example =
    record_cash_payment_tx-adds 7000 42 5 advanced (order_five confirmed) refl refl

settle_order_payment_example :
    Settles 5
      (order_five confirmed)
      PaymentStatus.refunded
      none
      advanced
      (settle_order_payment 7000 42 5 PaymentStatus.refunded none none advanced)
settle_order_payment_example =
    settle_order_payment-Settles 7000 42 5 PaymentStatus.refunded none none advanced
      (order_five confirmed) refl

refund_payment_example :
    Refunds true
      (payment_seven TxnStatus.success)
      (order_five confirmed)
      advanced
      (refund_payment_tx 7000 7 "Spilled" advanced)
refund_payment_example =
    refund_payment_tx-Refunds 7000 "Spilled" (payment_seven TxnStatus.success) advanced
      (order_five confirmed) (tt, tt) refl refl

initiate_online_payment_example :
    Charges
      (order_five awaiting_advance_payment)
      waiting
      (create_intent Provider.demo "mock_2" none)
      (initiate_online_payment 7000 Provider.demo "mock_2" none 99 waiting)
initiate_online_payment_example =
    initiate_online_payment-Charges 7000 Provider.demo "mock_2" none 99 waiting
      (order_five awaiting_advance_payment) refl

abbrev constant_hmac : String → String → String
constant_hmac key text = "sealed"

abbrev accepted : Confirmation
accepted = record { outcome = some true; razorpay_payment_id = none; signature = none }

confirm_online_payment_example :
    Confirms true
      (payment_seven TxnStatus.pending)
      (order_five awaiting_advance_payment)
      waiting
      (confirm_online_payment constant_hmac 7000 42 Provider.demo 7 accepted waiting)
unfolding verify_confirmation
confirm_online_payment_example =
    confirm_online_payment-Confirms constant_hmac 7000 42 Provider.demo accepted
      (payment_seven TxnStatus.pending) waiting (order_five awaiting_advance_payment) (tt, tt) refl
      refl

abbrev entity : Entity
entity = record { id = "pay_1"; order_id = some "mock_1"; status = "captured" }

abbrev captured_event : Event
captured_event = record { name = "payment.captured"; entity = some entity }

abbrev parse_captured : String → Option Event
parse_captured body = some captured_event

abbrev live_gateway : Provider
live_gateway = Provider.razorpay "key" "secret" (some "hook")

handle_razorpay_webhook_example :
    Handles true (payment_seven TxnStatus.pending) (order_five awaiting_advance_payment) waiting (
      handle_razorpay_webhook constant_hmac parse_captured 7000 42 live_gateway "{}"
        (some "sealed")
        waiting)
unfolding verify_webhook matching_payment
handle_razorpay_webhook_example =
    handle_razorpay_webhook-Handles constant_hmac parse_captured 7000 42 live_gateway "{}"
      (some "sealed") waiting captured_event entity (payment_seven TxnStatus.pending)
      (order_five awaiting_advance_payment) refl refl refl (tt, tt) refl refl
