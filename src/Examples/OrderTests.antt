-- ===== src/Examples/OrderTests.antt =====
-- The theorems on orders at concrete inputs.
use restaurant_qr_ordering_s.Base.{◌≤◌, ◌≡◌, refl, true, false, [], ◌∷◌, arith}
use restaurant_qr_ordering_s.Status.{
  needs_approval, awaiting_advance_payment, pending, confirmed, can_transition,
}
use restaurant_qr_ordering_s.Status.Workflow.{Life, Life-bounded}
use restaurant_qr_ordering_s.Orders.Pricing.{GateSettings, price_items}
use restaurant_qr_ordering_s.Orders.Pricing.Lines.{Prices, price_items-Prices}
use restaurant_qr_ordering_s.Orders.Gates.{evaluate_hold, hundredths}
use restaurant_qr_ordering_s.Orders.Gates.Decision.{
  hundredths-IsExact, IsConsistent, evaluate_hold-IsConsistent, evaluate_hold-policy,
}
use restaurant_qr_ordering_s.Orders.Place.{place_order_tx}
use restaurant_qr_ordering_s.Orders.Place.Accepted.{Places, place_order_tx-Places}
use restaurant_qr_ordering_s.Examples.Data.{thali, busy, request, one_thali}

place_order_tx_example :
    Places hundredths 5000 request
      (busy confirmed [])
      (place_order_tx hundredths 5000 123 request (busy confirmed []))
place_order_tx_example = place_order_tx-Places hundredths 5000 request (busy confirmed []) 123

price_items_example : Prices (thali ∷ []) one_thali (price_items (thali ∷ []) one_thali)
price_items_example = price_items-Prices (thali ∷ []) one_thali

abbrev gates : GateSettings
gates = record {
  threshold_minor = 300_000;
  advance_percent = 20;
  approval_required = false;
  advance_required = true;
}

evaluate_hold-policy_example :
    (evaluate_hold hundredths 420_000 420_000 gates).status ≡ awaiting_advance_payment
evaluate_hold-policy_example =
    evaluate_hold-policy hundredths 1_000_000 (hundredths-IsExact 1_000_000) 420_000 420_000 gates
      (omega arith) (omega arith) (omega arith) (omega arith) (omega arith)

evaluate_hold-IsConsistent_example :
    IsConsistent 420_000 (evaluate_hold hundredths 420_000 420_000 gates)
evaluate_hold-IsConsistent_example = evaluate_hold-IsConsistent hundredths 420_000 420_000 gates

to_pending : Life needs_approval 1 pending
unfolding can_transition
to_pending = Life.next Life.here refl

to_confirmed : Life needs_approval 2 confirmed
unfolding can_transition
to_confirmed = Life.next to_pending refl

Life-bounded_example : 2 ≤ 6
Life-bounded_example = Life-bounded to_confirmed
