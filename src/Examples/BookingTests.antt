-- ===== src/Examples/BookingTests.antt =====
-- The theorems on bookings at concrete inputs.
use restaurant_qr_ordering_s.Base.{◌≡◌, refl, inl, none, some, [], ◌∷◌, arith, sum_of}
use restaurant_qr_ordering_s.Status.{confirmed}
use restaurant_qr_ordering_s.Store.{Db, ReservationStatus}
use restaurant_qr_ordering_s.Reservations.Capacity.{total_capacity, seats_taken_during}
use restaurant_qr_ordering_s.Reservations.Occupancy.{overlapping_seats, seats_taken_during_complete}
use restaurant_qr_ordering_s.Reservations.Booking.{
  BookingChange, create_reservation, update_reservation, update_reservation_status,
}
use restaurant_qr_ordering_s.Reservations.Kept.{IsOrderly, create_reservation-IsOrderly}
use restaurant_qr_ordering_s.Reservations.Moved.{Leaves, update_reservation-IsOrderly}
use restaurant_qr_ordering_s.Reservations.Ended.{update_reservation_status-IsOrderly}
use restaurant_qr_ordering_s.Examples.Data.{busy, booking, booking_eight}

abbrev booked_house : Db
booked_house = busy confirmed []

booked_house-IsOrderly : IsOrderly booked_house
unfolding total_capacity
booked_house-IsOrderly = record {
  short = (omega arith, tt);
  distinct = (tt, tt);
  issued = (omega arith, tt);
  within = λ t. ground arith;
}

create_reservation_example : IsOrderly (create_reservation 9000 81 booking booked_house).1
create_reservation_example =
    create_reservation-IsOrderly 9000 81 booking booked_house booked_house-IsOrderly

-- Half an hour later, and three guests.
abbrev later : BookingChange
later = record {
  party_size = some 3;
  reserved_at = some 51_800_000;
  duration_minutes = some 120;
  table_id = none;
  occasion = none;
  notes = none;
}

update_reservation_example : Leaves (update_reservation 8 later booked_house)
update_reservation_example =
    update_reservation-IsOrderly 8 later booked_house booked_house-IsOrderly (omega arith)
      (inl refl)

update_reservation_status_example :
    Leaves (update_reservation_status 9000 8 ReservationStatus.confirmed none booked_house)
update_reservation_status_example =
    update_reservation_status-IsOrderly 9000 8 ReservationStatus.confirmed none booked_house
      booked_house-IsOrderly

seats_taken_during_example :
    seats_taken_during 51_800_000 90 none (booking_eight ∷ [])
    ≡ sum_of (overlapping_seats 51_800_000 90 none) (booking_eight ∷ [])
seats_taken_during_example =
    seats_taken_during_complete 51_800_000 90 none (booking_eight ∷ []) (omega arith, tt)
