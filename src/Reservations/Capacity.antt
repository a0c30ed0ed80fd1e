-- ===== src/Reservations/Capacity.antt =====
-- `totalCapacity`, `seatsTakenDuring`, `checkAvailability` and `suggestSlots` of
-- server/src/services/reservation.service.ts.
use restaurant_qr_ordering_s.Base.{
  ℕ, ◌+◌, ◌-◌, ◌*◌, Bool, true, false, not, ◌&&◌, Option, none, some, List, [], ◌∷◌, ◌++◌, ltb, leb,
  ◌==◌, if◌then◌else◌, select, sum_of, map,
}
use restaurant_qr_ordering_s.Store.{Db, Table, Reservation, ReservationStatus}

abbrev pub is_active : ReservationStatus → Bool
is_active ReservationStatus.pending = true
is_active ReservationStatus.confirmed = true
is_active ReservationStatus.seated = true
is_active _ = false

abbrev pub minutes : ℕ → ℕ
minutes n = n * 60_000

-- `windowStart`: the longest stay, in milliseconds.
abbrev pub widest : ℕ
widest = 6 * 3_600_000

unfoldable pub total_capacity : List Table → ℕ
total_capacity tables = sum_of (λ t. t.capacity) (select (λ t. t.is_active) tables)

abbrev pub excluded : Option ℕ → Reservation → Bool
excluded none r = false
excluded (some id) r = r.id == id

-- The `where` of the query: the candidates.
abbrev pub nearby : ℕ → ℕ → Option ℕ → Reservation → Bool
nearby start duration exclude r =
    is_active r.status
    && leb (start - widest) r.reserved_at
    && leb r.reserved_at (start + minutes duration)
    && not (excluded exclude r)

-- The filter on the candidates: each starts before the other ends.
abbrev pub clashes : ℕ → ℕ → Reservation → Bool
clashes start duration r =
    ltb r.reserved_at (start + minutes duration)
    && ltb start (r.reserved_at + minutes r.duration_minutes)

unfoldable pub seats_taken_during : ℕ → ℕ → Option ℕ → List Reservation → ℕ
seats_taken_during start duration exclude rs =
    sum_of (λ r. r.party_size)
      (select (clashes start duration) (select (nearby start duration exclude) rs))

pub record Availability : Type 0 where
  pub available : Bool
  pub seats_remaining : ℕ
  pub capacity : ℕ

-- `capacity - taken` may be negative: the test adds instead, and the seats are `Math.max(0, ...)`.
unfoldable pub check_availability : ℕ → ℕ → ℕ → Db → Availability
check_availability reserved_at party duration db =
    let capacity = total_capacity db.tables in
    let taken = seats_taken_during reserved_at duration none db.reservations in
    record {
      available = leb (taken + party) capacity;
      seats_remaining = capacity - taken;
      capacity = capacity;
    }

abbrev pub default_duration : ℕ
default_duration = 90

-- The offsets from -90 to 120.
abbrev pub slots_around : ℕ → List ℕ
slots_around t =
    map (λ n. t - minutes n) (90 ∷ 60 ∷ 30 ∷ [])
    ++ map (λ n. t + minutes n) (30 ∷ 60 ∷ 90 ∷ 120 ∷ [])

abbrev pub is_bookable : ℕ → ℕ → Db → ℕ → Bool
is_bookable now party db slot =
    if ltb slot now then false else (check_availability slot party default_duration db).available

unfoldable pub suggest_slots : ℕ → ℕ → ℕ → Db → List ℕ
unfolding check_availability
suggest_slots now around party db = select (is_bookable now party db) (slots_around around)
