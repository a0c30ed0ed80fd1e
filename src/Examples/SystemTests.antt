-- ===== src/Examples/SystemTests.antt =====
-- The theorems on sequences of calls at concrete inputs.
use restaurant_qr_ordering_s.Base.{◌≡◌, refl, none, some, List, [], ◌∷◌}
use restaurant_qr_ordering_s.Errors.{conflict, Reason}
use restaurant_qr_ordering_s.Status.{
  needs_approval, pending, confirmed, served, can_transition, is_held,
}
use restaurant_qr_ordering_s.Store.{Order, find_order}
use restaurant_qr_ordering_s.Orders.Gates.{hundredths}
use restaurant_qr_ordering_s.Orders.Change.{
  changed, update_status, apply_status_change, release_table,
}
use restaurant_qr_ordering_s.Orders.Validity.{IsValid}
use restaurant_qr_ordering_s.System.{Outside, Call, perform, run}
use restaurant_qr_ordering_s.System.Kept.{run-IsValid}
use restaurant_qr_ordering_s.System.Life.{IsTrace, log, log-IsTrace, WasPending, run-WasPending}
use restaurant_qr_ordering_s.System.Served.{AllAccepted, by_hand, way_to_table, run-served}
use restaurant_qr_ordering_s.System.Refused.{perform-Harmless}
use restaurant_qr_ordering_s.Examples.Data.{order_five, busy, busy-IsValid, request, one_thali}

abbrev world : Outside
world = record { double = hundredths; hmac = λ key body. body; parse = λ body. none }

abbrev an_evening : List Call
an_evening =
    Call.place_order 5000 123 request
    ∷ Call.add_items 5 one_thali
    ∷ Call.update_status 6000 5 confirmed (some 2)
    ∷ Call.record_cash_payment 7000 1 5
    ∷ Call.cancel_order 8000 5 "Left" none
    ∷ []

run-IsValid_example : IsValid (run world an_evening (busy pending []))
run-IsValid_example =
    run-IsValid world an_evening (busy pending []) (tt, (tt, (refl, (tt, (tt, tt)))))
      (busy-IsValid pending [])

log-IsTrace_example : IsTrace pending (log world 5 an_evening (busy pending []))
log-IsTrace_example = log-IsTrace world an_evening (busy pending []) 5 (order_five pending) refl

abbrev release_by_hand : List Call
release_by_hand =
    Call.update_status 6000 5 pending none ∷ Call.update_status 7000 5 confirmed none ∷ []

abbrev released : Order
released =
    changed 7000 confirmed none none (changed 6000 pending none none (order_five needs_approval))

run-WasPending_example : WasPending world 5 release_by_hand (busy needs_approval [])
unfolding is_held update_status apply_status_change can_transition release_table
run-WasPending_example =
    run-WasPending world release_by_hand (busy needs_approval []) 5 (order_five needs_approval)
      released refl refl refl refl

run-served_example :
    let calls = by_hand 6000 5 none (way_to_table needs_approval) in
    AllAccepted world calls (busy needs_approval [])
    × ((p : Order) × (find_order 5 (run world calls (busy needs_approval [])) ≡ some p)
        × (p.status ≡ served))
run-served_example =
    run-served world 6000 5 none (busy needs_approval []) (order_five needs_approval) refl refl

-- A pending order cannot be served at once.
perform-Harmless_example :
    (perform world (Call.update_status 6000 5 served none) (busy pending [])).1 ≡ busy pending []
unfolding update_status apply_status_change can_transition
perform-Harmless_example =
    perform-Harmless world (Call.update_status 6000 5 served none) (busy pending [])
      (conflict Reason.illegal_transition) refl
