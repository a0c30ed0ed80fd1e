-- ===== src/Reservations/Kept.antt =====
-- The house is never overbooked: what each operation on bookings keeps.
use restaurant_qr_ordering_s.Base.{
  ℕ, ◌+◌, ◌≤◌, ◌<◌, ◌≡◌, refl, inl, inr, true, false, Option, none, some, List, [], ◌∷◌, ◌++◌,
  arith, leb, ◌==◌, Bool-cases, All, All-append, All-map, find_by, sum_of-append, sum_of,
}
use restaurant_qr_ordering_s.Store.{Db, Reservation}
use restaurant_qr_ordering_s.Orders.Place.{Guest, upsert_found, upsert_customer}
use restaurant_qr_ordering_s.Reservations.Capacity.{
  minutes, total_capacity, seats_taken_during, default_duration,
}
use restaurant_qr_ordering_s.Reservations.Occupancy.{
  holds_at, held, held_beside, seats_at, IsShort, DistinctBookings, seats_beside-le,
}
use restaurant_qr_ordering_s.Reservations.Booking.{
  has_booking_id, BookingInput, new_booking, insert_booking, create_reservation,
}

-- No stay is longer than six hours, bookings are told apart by their ids, and at no instant do the
-- active bookings hold more seats than the active tables have.
pub record IsOrderly (db : Db) : Type 0 where
  pub short : All IsShort db.reservations
  pub distinct : DistinctBookings db.reservations
  pub issued : All (λ r. r.id < db.next_id) db.reservations
  pub within : (t : ℕ) → seats_at t db.reservations ≤ total_capacity db.tables

-- The tables and the bookings of a database, and its next id, which has not gone back.
abbrev SameHouse : Db → Db → Type 0
SameHouse db after =
    (after.reservations ≡ db.reservations)
    × (after.tables ≡ db.tables)
    × (db.next_id ≤ after.next_id)

upsert-SameHouse : (g : Guest) (db : Db) → SameHouse db (upsert_customer g db).1
unfolding upsert_customer
upsert-SameHouse g db =
    elim (find_by (λ c. c.phone == g.phone) db.customers)
      as (λ c. SameHouse db (upsert_found g db c).1) [
        | none ↦ (refl, refl, omega arith)
        | some c ↦ (refl, refl, omega arith)
      ]

holds_at-window :
    (t : ℕ) (r : Reservation)
    → holds_at t r ≡ true
    → (r.reserved_at ≤ t) × (t < r.reserved_at + minutes r.duration_minutes)
holds_at-window t r h = ground arith

-- A booking fits beside the others if what is counted in its window leaves room for it.
pub room :
    (t : ℕ) (r : Reservation) (exclude : Option ℕ) (rs : List Reservation) (capacity : ℕ)
    → All IsShort rs
    → sum_of (held_beside t exclude) rs ≤ capacity
    → seats_taken_during r.reserved_at r.duration_minutes exclude rs + r.party_size ≤ capacity
    → sum_of (held_beside t exclude) rs + held t r ≤ capacity
room t r exclude rs capacity short before fits = elim (Bool-cases (holds_at t r)) [
  | inl on ↦
      let (lo, hi) = holds_at-window t r on in
      rw on
        (omega (arith, seats_beside-le t r.reserved_at r.duration_minutes exclude rs short lo hi))
  | inr off ↦ rw off (omega arith)
]

DistinctBookings-append :
    (rs : List Reservation) (r : Reservation)
    → All (λ x. x.id < r.id) rs
    → DistinctBookings rs
    → DistinctBookings (rs ++ (r ∷ []))
DistinctBookings-append [] r h d = (tt, tt)
DistinctBookings-append (x ∷ xs) r (h, hs) (a, b) = (
  All-append (λ p. has_booking_id x.id p ≡ false) xs (r ∷ []) a (ground arith, tt),
  DistinctBookings-append xs r hs b,
)

-- A new booking that fits.
insert_booking-IsOrderly :
    (r : Reservation) (db : Db)
    → IsOrderly db
    → r.id ≡ db.next_id
    → r.duration_minutes ≤ 360
    → seats_taken_during r.reserved_at r.duration_minutes none db.reservations + r.party_size
      ≤ total_capacity db.tables
    → IsOrderly (insert_booking r db)
insert_booking-IsOrderly r db v i s fits = record {
  short = All-append IsShort db.reservations (r ∷ []) v.short (s, tt);
  distinct = DistinctBookings-append db.reservations r (rw i v.issued) v.distinct;
  issued =
      All-append (λ x. x.id < db.next_id + 1) db.reservations (r ∷ [])
        (All-map (λ x. x.id < db.next_id) (λ x. x.id < db.next_id + 1) (λ x h. omega arith)
          db.reservations v.issued)
        (omega arith, tt);
  within = λ t. rw (sum_of-append (held t) db.reservations (r ∷ [])) (
      omega (
        arith,
        room t r none db.reservations (total_capacity db.tables) v.short (v.within t) fits,
      ));
}

SameHouse-IsOrderly : (db after : Db) → SameHouse db after → IsOrderly db → IsOrderly after
SameHouse-IsOrderly db after (same, tables, later) v = record {
  short = rw same v.short;
  distinct = rw same v.distinct;
  issued = rw same (
      All-map (λ x. x.id < db.next_id) (λ x. x.id < after.next_id) (λ x h. omega arith)
        db.reservations v.issued);
  within = λ t. rw (same, tables) (v.within t);
}

-- Taking a booking never overbooks the house, at any instant, and keeps the bookings in order.
pub create_reservation-IsOrderly :
    (later reference : ℕ) (input : BookingInput) (db : Db)
    → IsOrderly db
    → IsOrderly (create_reservation later reference input db).1
unfolding create_reservation
create_reservation-IsOrderly later reference input db v =
    let made = upsert_customer input.guest db in
    let same = upsert-SameHouse input.guest db in
    elim (Bool-cases (
      leb
        (seats_taken_during input.reserved_at default_duration none db.reservations
          + input.party_size)
        (total_capacity db.tables))) [
          | inr full ↦ rw full v
          | inl free ↦ rw free (
              insert_booking-IsOrderly (new_booking reference input made.0 made.1) made.1
                (SameHouse-IsOrderly db made.1 same v) refl (omega arith)
                (rw (same.0, same.1) (ground arith)))
        ]
