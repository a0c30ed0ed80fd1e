-- ===== src/Reservations/Booking.antt =====
-- `createReservation`, `updateReservation`, `updateReservationStatus` and `cancelByReference` of
-- server/src/services/reservation.service.ts. The random reference and the instants are arguments.
use Prim.Native.String.{String}
use text.Mathlib.Text.{◌==◌ as str_eq}
use restaurant_qr_ordering_s.Base.{
  or_else, or_keep, ℕ, ◌+◌, Bool, true, false, not, ◌&&◌, ◌||◌, Option, none, some, List, [], ◌∷◌,
  ◌++◌, ltb, ◌==◌, if◌then◌else◌, find_by, update_where,
}
use restaurant_qr_ordering_s.Errors.{
  Result, ok, err, ◌>>=◌, ◌>>◌, throw_if, bad_request, conflict, not_found, Reason,
}
use restaurant_qr_ordering_s.Store.{
  Db, Table, TableStatus, Reservation, ReservationStatus, found, set_table_status,
}
use restaurant_qr_ordering_s.Orders.Place.{Guest, upsert_customer}
use restaurant_qr_ordering_s.Reservations.Capacity.{
  total_capacity, seats_taken_during, check_availability, default_duration, suggest_slots,
}

pub record BookingInput : Type 0 where
  pub guest : Guest
  pub party_size : ℕ
  pub reserved_at : ℕ
  pub occasion : Option String
  pub notes : Option String

abbrev pub has_booking_id : ℕ → Reservation → Bool
has_booking_id id r = r.id == id

abbrev pub find_booking : ℕ → Db → Option Reservation
find_booking id db = find_by (has_booking_id id) db.reservations

abbrev pub update_booking : ℕ → (Reservation → Reservation) → Db → Db
update_booking id f db = record db {
  reservations = update_where (has_booking_id id) f db.reservations;
}

abbrev pub new_booking : ℕ → BookingInput → ℕ → Db → Reservation
new_booking reference input customer db = record {
  id = db.next_id;
  reference = reference;
  name = input.guest.name;
  phone = input.guest.phone;
  email = input.guest.email;
  party_size = input.party_size;
  reserved_at = input.reserved_at;
  duration_minutes = default_duration;
  status = ReservationStatus.pending;
  occasion = input.occasion;
  notes = input.notes;
  table_id = none;
  customer_id = some customer;
  confirmed_at = none;
  seated_at = none;
  cancelled_at = none;
  cancel_reason = none;
}

abbrev pub insert_booking : Reservation → Db → Db
insert_booking r db = record db {
  reservations = db.reservations ++ (r ∷ []);
  next_id = db.next_id + 1;
}

abbrev pub booked : ℕ → BookingInput → ℕ × Db → Result Reservation × Db
booked reference input (customer, db) = (
  ok (new_booking reference input customer db),
  insert_booking (new_booking reference input customer db) db,
)

-- The locked transaction has made the booking; `later` is the instant of the search for other times
-- after it refused.
unfoldable pub create_reservation : ℕ → ℕ → BookingInput → Db → Result Reservation × Db
unfolding check_availability
create_reservation later reference input db =
    let availability = check_availability input.reserved_at input.party_size default_duration db in
    if availability.available then booked reference input (upsert_customer input.guest db) else (
      err (
          conflict (
            Reason.fully_booked availability.seats_remaining
              (suggest_slots later input.reserved_at input.party_size db))),
      db,
    )

pub record BookingChange : Type 0 where
  pub party_size : Option ℕ
  pub reserved_at : Option ℕ
  pub duration_minutes : Option ℕ
  pub table_id : Option ℕ
  pub occasion : Option String
  pub notes : Option String

-- `partySize || reservedAt` as a condition: a number that is there and not 0, or a date.
abbrev pub moves : BookingChange → Bool
moves c = ltb 0 (or_else c.party_size 0) || (elim c.reserved_at [ none ↦ false | some t ↦ true ])

abbrev pub moved : BookingChange → Reservation → Reservation
moved c r = record r {
  party_size = or_else c.party_size r.party_size;
  reserved_at = or_else c.reserved_at r.reserved_at;
  duration_minutes = or_else c.duration_minutes r.duration_minutes;
  table_id = or_keep c.table_id r.table_id;
  occasion = or_keep c.occasion r.occasion;
  notes = or_keep c.notes r.notes;
}

-- The seats that the changed booking would bring its window to.
abbrev pub seats_needed : BookingChange → Reservation → Db → ℕ
seats_needed c r db =
    seats_taken_during (moved c r).reserved_at (moved c r).duration_minutes (some r.id)
      db.reservations
    + (moved c r).party_size

abbrev pub check_table : Option ℕ → ℕ → List Table → Result (Unit {0})
check_table none size tables = ok tt
check_table (some id) size tables = do
  table ←
      found (find_by (λ t. t.id == id && t.is_active) tables)
        (bad_request Reason.table_not_available)
  throw_if (ltb table.capacity size) (bad_request Reason.table_too_small)

unfoldable pub update_reservation : ℕ → BookingChange → Db → Result (Reservation × Db)
update_reservation id c db = do
  existing ← found (find_booking id db) (not_found Reason.booking_not_found)
  throw_if (moves c && ltb (total_capacity db.tables) (seats_needed c existing db))
      (conflict Reason.no_seats)
  check_table c.table_id (moved c existing).party_size db.tables
  ok (moved c existing, update_booking id (moved c) db)

abbrev pub same_status : ReservationStatus → ReservationStatus → Bool
same_status ReservationStatus.pending ReservationStatus.pending = true
same_status ReservationStatus.confirmed ReservationStatus.confirmed = true
same_status ReservationStatus.seated ReservationStatus.seated = true
same_status ReservationStatus.completed ReservationStatus.completed = true
same_status ReservationStatus.cancelled ReservationStatus.cancelled = true
same_status ReservationStatus.no_show ReservationStatus.no_show = true
same_status _ _ = false

abbrev pub next_statuses : ReservationStatus → List ReservationStatus
next_statuses ReservationStatus.pending =
    ReservationStatus.confirmed ∷ ReservationStatus.cancelled ∷ []
next_statuses ReservationStatus.confirmed =
    ReservationStatus.seated ∷ ReservationStatus.cancelled ∷ ReservationStatus.no_show ∷ []
next_statuses ReservationStatus.seated =
    ReservationStatus.completed ∷ ReservationStatus.cancelled ∷ []
next_statuses _ = []

abbrev pub lists : List ReservationStatus → ReservationStatus → Bool
lists [] s = false
lists (x ∷ xs) s = same_status x s || lists xs s

abbrev pub may_become : ReservationStatus → ReservationStatus → Bool
may_become from to = lists (next_statuses from) to

abbrev pub stamp : ℕ → ReservationStatus → ReservationStatus → Option ℕ → Option ℕ
stamp now column next old = if same_status column next then some now else old

-- `reason ? { cancelReason: reason } : {}`
abbrev pub new_reason : Option String → Option String → Option String
new_reason none old = old
new_reason (some reason) old = if str_eq reason "" then old else some reason

abbrev pub entered : ℕ → ReservationStatus → Option String → Reservation → Reservation
entered now next reason r = record r {
  status = next;
  confirmed_at = stamp now ReservationStatus.confirmed next r.confirmed_at;
  seated_at = stamp now ReservationStatus.seated next r.seated_at;
  cancelled_at = stamp now ReservationStatus.cancelled next r.cancelled_at;
  cancel_reason = new_reason reason r.cancel_reason;
}

-- The floor plan: seating takes the table, an end frees it.
abbrev pub follow_table : Option ℕ → ReservationStatus → Db → Db
follow_table none next db = db
follow_table (some t) ReservationStatus.seated db = set_table_status t TableStatus.occupied db
follow_table (some t) ReservationStatus.completed db = set_table_status t TableStatus.available db
follow_table (some t) ReservationStatus.cancelled db = set_table_status t TableStatus.available db
follow_table (some t) ReservationStatus.no_show db = set_table_status t TableStatus.available db
follow_table (some t) _ db = db

abbrev pub dead_end : ReservationStatus → Reason
dead_end current = elim (next_statuses current) [
  | [] ↦ Reason.terminal_status
  | _ ∷ _ ↦ Reason.illegal_transition
]

unfoldable pub update_reservation_status :
    ℕ → ℕ → ReservationStatus → Option String → Db → Result (Reservation × Db)
update_reservation_status now id next reason db = do
  booking ← found (find_booking id db) (not_found Reason.booking_not_found)
  throw_if (same_status booking.status next) (conflict Reason.already_in_status)
  throw_if (not (may_become booking.status next)) (conflict (dead_end booking.status))
  ok (
    entered now next reason booking,
    follow_table booking.table_id next (update_booking id (entered now next reason) db),
  )

abbrev pub cancelled_by_guest : ℕ → Reservation → Reservation
cancelled_by_guest now r = record r {
  status = ReservationStatus.cancelled;
  cancelled_at = some now;
  cancel_reason = some "Cancelled by guest";
}

unfoldable pub cancel_by_reference : ℕ → ℕ → ℕ → Db → Result (Reservation × Db)
cancel_by_reference now reference phone db = do
  booking ←
      found (find_by (λ r. r.reference == reference) db.reservations)
        (not_found Reason.booking_not_found)
  throw_if (not (booking.phone == phone)) (not_found Reason.booking_not_found)
  throw_if (not (may_become booking.status ReservationStatus.cancelled))
      (conflict Reason.not_cancellable)
  ok (cancelled_by_guest now booking, update_booking booking.id (cancelled_by_guest now) db)
