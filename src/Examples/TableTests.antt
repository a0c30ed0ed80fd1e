-- ===== src/Examples/TableTests.antt =====
-- The theorems on the administration of the tables, at a table with an open order.
use restaurant_qr_ordering_s.Base.{◌≡◌, refl, true, none, some, List, [], ◌∷◌, arith}
use restaurant_qr_ordering_s.Errors.{err, not_found, bad_request, Reason}
use restaurant_qr_ordering_s.Status.{pending}
use restaurant_qr_ordering_s.Store.{TableStatus}
use restaurant_qr_ordering_s.Orders.Place.{resolve_table}
use restaurant_qr_ordering_s.Tables.{CreateTableInput, UpdateTableInput, resolve_by_token}
use restaurant_qr_ordering_s.Tables.Calls.{Call, run}
use restaurant_qr_ordering_s.Tables.Codes.{rotate_qr_token-refused}
use restaurant_qr_ordering_s.Tables.Kept.{Stands, run-Stands}
use restaurant_qr_ordering_s.Examples.Data.{busy, table_three}

abbrev garden_table : CreateTableInput
garden_table = record { table_number = 14; capacity = none; status = none; is_active = none }

abbrev six_seats : UpdateTableInput
six_seats = record { table_number = none; capacity = some 6; status = none; is_active = none }

abbrev a_morning : List Call
a_morning =
    Call.create_table garden_table 90 "/uploads/qr-90.png"
    ∷ Call.update_table 3 six_seats
    ∷ Call.regenerate_qr_image 3 "/uploads/qr-88b.png"
    ∷ Call.delete_table 3
    ∷ Call.set_table_active 3 true
    ∷ []

rotate_qr_token-refused_example :
    let after =
      run (Call.rotate_qr_token 3 88 "/uploads/qr-88.png" ∷ a_morning) (busy pending []) in
    (resolve_by_token 77 after ≡ err (not_found Reason.qr_no_longer_valid))
    × (resolve_table after.tables (some 77) ≡ err (bad_request Reason.qr_not_valid))
rotate_qr_token-refused_example =
    rotate_qr_token-refused a_morning (busy pending []) 3 88 "/uploads/qr-88.png"
      (table_three TableStatus.occupied) refl (refl, tt) refl (refl, (tt, (tt, (tt, (tt, tt)))))

run-Stands_example : Stands (busy pending []).orders (run a_morning (busy pending []))
run-Stands_example = run-Stands a_morning (busy pending []) (λ t h. ground (arith, h), tt)
