-- ===== src/Reservations/Moved.antt =====
-- The house is never overbooked when bookings change: `updateReservation`, `updateReservationStatus`
-- and `cancelByReference`.
use restaurant_qr_ordering_s.Base.{
  or_else, ℕ, ◌+◌, ◌≤◌, ◌<◌, ◌≡◌, refl, sym, ◌∙◌, ap, ◌⊎◌, inl, inr, Bool, true, false, ◌&&◌, none,
  some, List, [], ◌∷◌, arith, ltb, ==_iff, Bool-cases, Option-cases, if◌then◌else◌,
  All-update_where, None, update_where, find_by-holds, sum_of, subst,
}
use restaurant_qr_ordering_s.Errors.{Result, ok, err, Result-cases}
use restaurant_qr_ordering_s.Store.{Db, Reservation}
use restaurant_qr_ordering_s.Reservations.Capacity.{total_capacity, seats_taken_during}
use restaurant_qr_ordering_s.Reservations.Occupancy.{
  held, held_beside, seats_at, IsShort, DistinctBookings, seats_at-beside, seats_at-update,
}
use restaurant_qr_ordering_s.Reservations.Booking.{
  has_booking_id, find_booking, update_booking, BookingChange, moves, moved, check_table,
  seats_needed, update_reservation,
}
use restaurant_qr_ordering_s.Reservations.Kept.{IsOrderly, room}

None-kept :
    (k : ℕ) (p : Reservation → Bool) (f : Reservation → Reservation)
    → ((x : Reservation) → (f x).id ≡ x.id)
    → (rs : List Reservation) → None (has_booking_id k) rs
    → None (has_booking_id k) (update_where p f rs)
None-kept k p f keep [] h = tt
None-kept k p f keep (x ∷ xs) (h, hs) = (ground (arith, keep x), None-kept k p f keep xs hs)

abbrev if_changed : (Reservation → Bool) → (Reservation → Reservation) → Reservation → Reservation
if_changed p f x = if p x then f x else x

same_id :
    (p : Reservation → Bool) (f : Reservation → Reservation) (x : Reservation)
    → (f x).id ≡ x.id
    → (if_changed p f x).id ≡ x.id
same_id p f x k = ground arith

DistinctBookings-update :
    (p : Reservation → Bool) (f : Reservation → Reservation)
    → ((x : Reservation) → (f x).id ≡ x.id)
    → (rs : List Reservation) → DistinctBookings rs
    → DistinctBookings (update_where p f rs)
DistinctBookings-update p f keep [] d = tt
DistinctBookings-update p f keep (x ∷ xs) (fresh, rest) = (
  subst (λ k. None (has_booking_id k) (update_where p f xs)) (sym (same_id p f x (keep x)))
      (None-kept x.id p f keep xs fresh),
  DistinctBookings-update p f keep xs rest,
)

-- A change that leaves the keys, keeps stays short and has room.
pub update_booking-IsOrderly :
    (id : ℕ) (f : Reservation → Reservation) (db : Db) (r : Reservation)
    → IsOrderly db
    → find_booking id db ≡ some r
    → ((x : Reservation) → (f x).id ≡ x.id)
    → ((x : Reservation) → IsShort x → IsShort (f x))
    → ((t : ℕ)
        → sum_of (held_beside t (some id)) db.reservations + held t (f r)
          ≤ total_capacity db.tables)
    → IsOrderly (update_booking id f db)
update_booking-IsOrderly id f db r v e keep brief fits = record {
  short =
      All-update_where IsShort (has_booking_id id) f (λ x _ h. brief x h) db.reservations v.short;
  distinct = DistinctBookings-update (has_booking_id id) f keep db.reservations v.distinct;
  issued =
      All-update_where (λ x. x.id < db.next_id) (has_booking_id id) f
        (λ x _ h. omega (arith, keep x)) db.reservations v.issued;
  within = λ t. rw (seats_at-update t id f db.reservations r v.distinct e) (fits t);
}

update_where-same :
    (p : Reservation → Bool) (rs : List Reservation) → update_where p (λ x. x) rs ≡ rs
update_where-same p [] = refl
update_where-same p (x ∷ xs) = elim (Bool-cases (p x)) [
  | inl e ↦ rw (e, update_where-same p xs) refl
  | inr e ↦ rw (e, update_where-same p xs) refl
]

-- A booking that holds no more than before needs no check.
pub still_fits :
    (id : ℕ) (next : Reservation) (db : Db) (r : Reservation) (t : ℕ)
    → IsOrderly db
    → find_booking id db ≡ some r
    → held t next ≤ held t r
    → sum_of (held_beside t (some id)) db.reservations + held t next ≤ total_capacity db.tables
still_fits id next db r t v e less =
    let split : seats_at t db.reservations
        ≡ sum_of (held_beside t (some id)) db.reservations + held t r =
      ap (seats_at t) (sym (update_where-same (has_booking_id id) db.reservations))
      ∙ seats_at-update t id (λ x. x) db.reservations r v.distinct e in
    omega (arith, split, v.within t)

-- A transaction that commits an orderly database, or refuses.
abbrev pub Leaves : Result (Reservation × Db) → Type 0
Leaves (ok (r, after)) = IsOrderly after
Leaves (err e) = Unit

-- The bound on the length of a stay that the request is validated against.
abbrev pub IsBrief : BookingChange → Type 0
IsBrief c = or_else c.duration_minutes 0 ≤ 360

-- The check of the seats is made, or the length of the stay stays.
abbrev pub IsChecked : BookingChange → Type 0
IsChecked c = (moves c ≡ true) ⊎ (c.duration_minutes ≡ none)

moved-IsShort : (c : BookingChange) (r : Reservation) → IsBrief c → IsShort r → IsShort (moved c r)
moved-IsShort c r b s = ground arith

held-unmoved :
    (t : ℕ) (c : BookingChange) (r : Reservation)
    → moves c ≡ false
    → c.duration_minutes ≡ none
    → held t (moved c r) ≤ held t r
held-unmoved t c r m d = ground arith

not_over : (a b : ℕ) → ltb a b ≡ false → b ≤ a
not_over a b h = ground arith

moved-fits :
    (id : ℕ) (c : BookingChange) (db : Db) (r : Reservation) (t : ℕ)
    → IsOrderly db
    → find_booking id db ≡ some r
    → IsChecked c
    → (moves c && ltb (total_capacity db.tables) (seats_needed c r db)) ≡ false
    → sum_of (held_beside t (some id)) db.reservations + held t (moved c r)
      ≤ total_capacity db.tables
moved-fits id c db r t v e checked passed = elim (Bool-cases (moves c)) [
  | inl m ↦
      let enough = not_over (total_capacity db.tables) (seats_needed c r db) (rw m at passed) in
      let i : r.id ≡ id =
        (==_iff r.id id).0 (find_by-holds (has_booking_id id) db.reservations r e) in
      room t (moved c r) (some id) db.reservations (total_capacity db.tables) v.short
        (omega (arith, seats_at-beside t (some id) db.reservations v.short, v.within t))
        (subst
          (λ k.
            seats_taken_during (moved c r).reserved_at (moved c r).duration_minutes (some k)
                db.reservations
              + (moved c r).party_size
            ≤ total_capacity db.tables)
          i enough)
  | inr m ↦ elim checked [
    | inl m' ↦ cc
    | inr d ↦ still_fits id (moved c r) db r t v e (held-unmoved t c r m d)
  ]
]

-- Changing a booking never overbooks the house, at any instant, as long as the length of the stay
-- is changed only together with the party or the time, and to six hours at most.
pub update_reservation-IsOrderly :
    (id : ℕ) (c : BookingChange) (db : Db)
    → IsOrderly db
    → IsBrief c
    → IsChecked c
    → Leaves (update_reservation id c db)
unfolding update_reservation
update_reservation-IsOrderly id c db v brief checked = elim (Option-cases (find_booking id db)) [
  | inl e ↦ rw e tt
  | inr (r, e) ↦
      elim (Bool-cases (moves c && ltb (total_capacity db.tables) (seats_needed c r db))) [
        | inl over ↦ rw (e, over) tt
        | inr fine ↦ elim (Result-cases (check_table c.table_id (moved c r).party_size db.tables)) [
          | inl (x, k) ↦ rw (e, fine, k) tt
          | inr (u, k) ↦
              rw (e, fine, k)
                (update_booking-IsOrderly id (moved c) db r v e (λ x. refl)
                  (λ x s. moved-IsShort c x brief s) (λ t. moved-fits id c db r t v e checked fine))
        ]
      ]
]
