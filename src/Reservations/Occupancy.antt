-- ===== src/Reservations/Occupancy.antt =====
-- The seats that are taken at one instant, and how they compare with what `seatsTakenDuring` counts.
use restaurant_qr_ordering_s.Base.{
  ℕ, ◌+◌, ◌≤◌, ◌<◌, ◌≡◌, refl, inl, inr, Bool, not, ◌&&◌, Option, some, some-injective, List, [],
  ◌∷◌, arith, ltb, leb, ◌==◌, ==_iff, Bool-cases, if◌then◌else◌, sum_of, All, None, find_by,
  update_where, update_where-None, subst,
}
use restaurant_qr_ordering_s.Store.{Reservation}
use restaurant_qr_ordering_s.Reservations.Capacity.{
  is_active, minutes, excluded, nearby, clashes, seats_taken_during,
}
use restaurant_qr_ordering_s.Reservations.Booking.{has_booking_id}

-- The booking holds its seats at this instant.
abbrev pub holds_at : ℕ → Reservation → Bool
holds_at t r =
    is_active r.status && leb r.reserved_at t && ltb t (r.reserved_at + minutes r.duration_minutes)

abbrev pub held : ℕ → Reservation → ℕ
held t r = if holds_at t r then r.party_size else 0

abbrev pub seats_at : ℕ → List Reservation → ℕ
seats_at t = sum_of (held t)

-- The longest stay that the requests allow.
abbrev pub IsShort : Reservation → Type 0
IsShort r = r.duration_minutes ≤ 360

-- Every other booking is counted.
abbrev pub held_beside : ℕ → Option ℕ → Reservation → ℕ
held_beside t exclude r = if excluded exclude r then 0 else held t r

abbrev pub found_seats : ℕ → ℕ → Option ℕ → Reservation → ℕ
found_seats start duration exclude r =
    if nearby start duration exclude r && clashes start duration r then r.party_size else 0

seats_taken_during-sum :
    (start duration : ℕ) (exclude : Option ℕ) (rs : List Reservation)
    → seats_taken_during start duration exclude rs ≡ sum_of (found_seats start duration exclude) rs
unfolding seats_taken_during
seats_taken_during-sum start duration exclude [] = refl
seats_taken_during-sum start duration exclude (r ∷ rs) =
    elim (Bool-cases (nearby start duration exclude r)) [
      | inl a ↦ elim (Bool-cases (clashes start duration r)) [
        | inl b ↦ rw (a, b) (omega (arith, seats_taken_during-sum start duration exclude rs))
        | inr b ↦ rw (a, b) (omega (arith, seats_taken_during-sum start duration exclude rs))
      ]
      | inr a ↦ rw a (omega (arith, seats_taken_during-sum start duration exclude rs))
    ]

held-found :
    (t start duration : ℕ) (exclude : Option ℕ) (r : Reservation)
    → IsShort r
    → start ≤ t
    → t < start + minutes duration
    → held_beside t exclude r ≤ found_seats start duration exclude r
held-found t start duration exclude r short lo hi = ground arith

sum_of-le :
    (f g : Reservation → ℕ)
    → ((r : Reservation) → IsShort r → f r ≤ g r)
    → (rs : List Reservation) → All IsShort rs
    → sum_of f rs ≤ sum_of g rs
sum_of-le f g h [] short = omega arith
sum_of-le f g h (r ∷ rs) (s, short) = omega (arith, h r s, sum_of-le f g h rs short)

-- The reference: every other active booking that overlaps, however far away it starts.
abbrev pub overlapping_seats : ℕ → ℕ → Option ℕ → Reservation → ℕ
overlapping_seats start duration exclude r =
    if is_active r.status && not (excluded exclude r) && clashes start duration r
    then r.party_size
    else 0

found_seats-overlapping :
    (start duration : ℕ) (exclude : Option ℕ) (r : Reservation)
    → IsShort r
    → found_seats start duration exclude r ≡ overlapping_seats start duration exclude r
found_seats-overlapping start duration exclude r short = ground arith

-- `seatsTakenDuring` misses no booking: as long as no stay is longer than six hours, the narrowed
-- query and its filter count the seats of exactly the other active bookings that overlap the window.
pub seats_taken_during_complete :
    (start duration : ℕ) (exclude : Option ℕ) (rs : List Reservation)
    → All IsShort rs
    → seats_taken_during start duration exclude rs
      ≡ sum_of (overlapping_seats start duration exclude) rs
unfolding seats_taken_during
seats_taken_during_complete start duration exclude [] short = refl
seats_taken_during_complete start duration exclude (r ∷ rs) (s, short) = omega (
  arith,
  seats_taken_during-sum start duration exclude (r ∷ rs),
  seats_taken_during-sum start duration exclude rs,
  found_seats-overlapping start duration exclude r s,
  seats_taken_during_complete start duration exclude rs short,
)

-- At every instant of the window, the seats that others hold are at most those that are counted.
pub seats_beside-le :
    (t start duration : ℕ) (exclude : Option ℕ) (rs : List Reservation)
    → All IsShort rs
    → start ≤ t
    → t < start + minutes duration
    → sum_of (held_beside t exclude) rs ≤ seats_taken_during start duration exclude rs
seats_beside-le t start duration exclude rs short lo hi =
    rw (seats_taken_during-sum start duration exclude rs) (
      sum_of-le (held_beside t exclude) (found_seats start duration exclude)
        (λ r s. held-found t start duration exclude r s lo hi) rs short)

pub seats_at-beside :
    (t : ℕ) (exclude : Option ℕ) (rs : List Reservation)
    → All IsShort rs
    → sum_of (held_beside t exclude) rs ≤ seats_at t rs
seats_at-beside t exclude = sum_of-le (held_beside t exclude) (held t) (λ r s. ground arith)

abbrev pub DistinctBookings : List Reservation → Type 0
DistinctBookings [] = Unit
DistinctBookings (r ∷ rs) = None (has_booking_id r.id) rs × DistinctBookings rs

beside-None :
    (t id : ℕ) (rs : List Reservation)
    → None (has_booking_id id) rs
    → sum_of (held_beside t (some id)) rs ≡ seats_at t rs
beside-None t id [] h = refl
beside-None t id (r ∷ rs) (h, hs) = rw h (omega (arith, beside-None t id rs hs))

-- A changed booking holds its new seats beside the others.
pub seats_at-update :
    (t id : ℕ) (f : Reservation → Reservation) (rs : List Reservation) (r : Reservation)
    → DistinctBookings rs
    → find_by (has_booking_id id) rs ≡ some r
    → seats_at t (update_where (has_booking_id id) f rs)
      ≡ sum_of (held_beside t (some id)) rs + held t (f r)
seats_at-update t id f [] r d e = cc
seats_at-update t id f (x ∷ xs) r (fresh, rest) e = elim (Bool-cases (x.id == id)) [
  | inl same ↦
      let e' : x ≡ r = some-injective _ _ (rw same at e) in
      let i : x.id ≡ id = (==_iff x.id id).0 same in
      let others = subst (λ k. None (has_booking_id k) xs) i fresh in
      rw (same, update_where-None (has_booking_id id) f xs others)
        (subst
          (λ y.
            held t (f x) + seats_at t xs ≡ 0 + sum_of (held_beside t (some id)) xs + held t (f y))
          e' (omega (arith, beside-None t id xs others)))
  | inr other ↦ rw other (omega (arith, seats_at-update t id f xs r rest (rw other at e)))
]
