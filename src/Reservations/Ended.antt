-- ===== src/Reservations/Ended.antt =====
-- The house is never overbooked as bookings run through their statuses.
use Prim.Native.String.{String}
use restaurant_qr_ordering_s.Base.{
  ℕ, ◌≤◌, ◌≡◌, refl, inl, inr, Bool, true, Option, none, some, List, [], ◌∷◌, arith, ◌==◌,
  Bool-cases, Option-cases, update_where,
}
use restaurant_qr_ordering_s.Store.{
  Db, Table, TableStatus, Reservation, ReservationStatus, set_table_status,
}
use restaurant_qr_ordering_s.Reservations.Capacity.{is_active, total_capacity}
use restaurant_qr_ordering_s.Reservations.Occupancy.{held}
use restaurant_qr_ordering_s.Reservations.Booking.{
  find_booking, update_booking, may_become, same_status, entered, follow_table,
  update_reservation_status,
}
use restaurant_qr_ordering_s.Reservations.Kept.{IsOrderly}
use restaurant_qr_ordering_s.Reservations.Moved.{still_fits, update_booking-IsOrderly, Leaves}

may_become-active :
    (from to : ReservationStatus)
    → may_become from to ≡ true
    → is_active to ≡ true
    → is_active from ≡ true
may_become-active from to h a = ground arith

held-entered :
    (t now : ℕ) (next : ReservationStatus) (reason : Option String) (r : Reservation)
    → may_become r.status next ≡ true
    → held t (entered now next reason r) ≤ held t r
held-entered t now next reason r h = ground (arith, may_become-active r.status next h)

total_capacity-status :
    (p : Table → Bool) (s : TableStatus) (tables : List Table)
    → total_capacity (update_where p (λ x. record x { status = s }) tables) ≡ total_capacity tables
unfolding total_capacity
total_capacity-status p s [] = refl
total_capacity-status p s (x ∷ xs) = ground (arith, total_capacity-status p s xs)

set_table_status-IsOrderly :
    (t : ℕ) (s : TableStatus) (db : Db) → IsOrderly db → IsOrderly (set_table_status t s db)
set_table_status-IsOrderly t s db v = record {
  short = v.short;
  distinct = v.distinct;
  issued = v.issued;
  within = λ u. rw (total_capacity-status (λ x. x.id == t) s db.tables) (v.within u);
}

follow_table-IsOrderly :
    (table : Option ℕ) (next : ReservationStatus) (db : Db)
    → IsOrderly db
    → IsOrderly (follow_table table next db)
follow_table-IsOrderly none next db v = v
follow_table-IsOrderly (some t) ReservationStatus.pending db v = v
follow_table-IsOrderly (some t) ReservationStatus.confirmed db v = v
follow_table-IsOrderly (some t) ReservationStatus.seated db v =
    set_table_status-IsOrderly t TableStatus.occupied db v
follow_table-IsOrderly (some t) ReservationStatus.completed db v =
    set_table_status-IsOrderly t TableStatus.available db v
follow_table-IsOrderly (some t) ReservationStatus.cancelled db v =
    set_table_status-IsOrderly t TableStatus.available db v
follow_table-IsOrderly (some t) ReservationStatus.no_show db v =
    set_table_status-IsOrderly t TableStatus.available db v

-- No change of a booking's status overbooks the house: a booking that has given up its seats never
-- takes them back.
pub update_reservation_status-IsOrderly :
    (now id : ℕ) (next : ReservationStatus) (reason : Option String) (db : Db)
    → IsOrderly db
    → Leaves (update_reservation_status now id next reason db)
unfolding update_reservation_status
update_reservation_status-IsOrderly now id next reason db v =
    elim (Option-cases (find_booking id db)) [
      | inl e ↦ rw e tt
      | inr (r, e) ↦ elim (Bool-cases (same_status r.status next)) [
        | inl a ↦ rw (e, a) tt
        | inr a ↦ elim (Bool-cases (may_become r.status next)) [
          | inr b ↦ rw (e, a, b) tt
          | inl b ↦
              rw (e, a, b)
                (follow_table-IsOrderly r.table_id next
                  (update_booking id (entered now next reason) db)
                  (update_booking-IsOrderly id (entered now next reason) db r v e (λ x. refl)
                    (λ x s. s)
                    (λ t.
                      still_fits id (entered now next reason r) db r t v e
                        (held-entered t now next reason r b))))
        ]
      ]
    ]
