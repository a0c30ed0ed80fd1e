-- ===== src/Orders/Gates.antt =====
-- The walk-out gates of server/src/services/order.service.ts: `openBalanceMinor`, `evaluateHold`.
-- `evaluateHold` compares and subtracts amounts in whole taka, `minor / 100`, which are doubles: the
-- type of these quotients and what the code does with them is the parameter `Double`.
pub mod Decision
use Prim.Native.Nat.{min}
use restaurant_qr_ordering_s.Base.{
  ℕ, ◌+◌, ◌-◌, ◌*◌, ◌/◌, ◌<◌, ◌≤◌, ◌≡◌, Bool, true, false, not, ◌&&◌, Option, none, some, List, [],
  ◌∷◌, ltb, leb, ◌==◌, if◌then◌else◌, select, sum_of,
}
use restaurant_qr_ordering_s.Money.{percent_of}
use restaurant_qr_ordering_s.Status.{
  OrderStatus, needs_approval, awaiting_advance_payment, pending, cancelled, status_eq,
}
use restaurant_qr_ordering_s.Store.{Order, Payment, PaymentStatus, collected}
use restaurant_qr_ordering_s.Orders.Pricing.{GateSettings}

-- Twelve hours, in milliseconds.
abbrev pub session_window : ℕ
session_window = 43_200_000

abbrev pub is_paid : PaymentStatus → Bool
is_paid PaymentStatus.paid = true
is_paid _ = false

abbrev pub refers_to : ℕ → Option ℕ → Bool
refers_to id none = false
refers_to id (some x) = x == id

abbrev pub in_scope : Option ℕ → Option ℕ → Order → Bool
in_scope (some t) customer o = refers_to t o.table_id
in_scope none (some c) o = refers_to c o.customer_id
in_scope none none o = false

abbrev pub counts_as_open : ℕ → Option ℕ → Option ℕ → Order → Bool
counts_as_open now table customer o =
    in_scope table customer o
    && not (status_eq o.status cancelled)
    && not (is_paid o.payment_status)
    && leb now (o.placed_at + session_window)

-- The difference stops at 0, as `Math.max(0, billed - collected)` does.
abbrev pub exposure_of : List Payment → Order → ℕ
exposure_of payments o = o.total_amount - collected o.id payments

unfoldable pub open_balance_minor : ℕ → Option ℕ → Option ℕ → List Order → List Payment → ℕ
open_balance_minor now table customer orders payments =
    sum_of (exposure_of payments) (select (counts_as_open now table customer) orders)

pub record Hold : Type 0 where
  pub status : OrderStatus
  pub advance_minor : ℕ
  pub is_high_value : Bool

pub record Double : Type 1 where
  pub W : Type 0
  -- `n / 100`
  pub hundredth : ℕ → W
  -- the constant 3000
  pub three_thousand : W
  pub gt : W → W → Bool
  pub ge : W → W → Bool
  pub minus : W → W → W
  -- `Math.floor(x / 1000)` where x is not negative
  pub floor_thousands : W → ℕ

module _ (d : Double) where
  open d use {W, hundredth, three_thousand, gt, ge, minus, floor_thousands}

  abbrev pub threshold_taka : GateSettings → W
  threshold_taka gates =
      if ltb 0 gates.threshold_minor then hundredth gates.threshold_minor else three_thousand

  unfoldable pub advance_percent_of : ℕ → GateSettings → ℕ
  advance_percent_of total gates =
      min (20 + floor_thousands (minus (hundredth total) (threshold_taka gates)) * 10) 100

  -- `applyPercent` reads the whole percentage in hundredths.
  abbrev pub advance_of : ℕ → GateSettings → ℕ
  advance_of total gates = percent_of total (advance_percent_of total gates * 100)

  abbrev pub is_over : ℕ → GateSettings → Bool
  is_over total gates = gates.advance_required && gt (hundredth total) (threshold_taka gates)

  abbrev below_advance : ℕ → GateSettings → Hold
  below_advance exposure gates =
      if gates.approval_required
        && ltb 0 gates.threshold_minor
        && ge (hundredth exposure) (threshold_taka gates)
      then record { status = needs_approval; advance_minor = 0; is_high_value = true }
      else record { status = pending; advance_minor = 0; is_high_value = false }

  abbrev with_advance : ℕ → GateSettings → Hold
  with_advance advance gates =
      if gates.approval_required
      then record { status = needs_approval; advance_minor = advance; is_high_value = true }
      else if ltb 0 advance
      then record {
        status = awaiting_advance_payment;
        advance_minor = advance;
        is_high_value = true;
      }
      else record { status = pending; advance_minor = 0; is_high_value = false }

  unfoldable pub evaluate_hold : ℕ → ℕ → GateSettings → Hold
  evaluate_hold exposure total gates =
      if is_over total gates
      then with_advance (advance_of total gates) gates
      else below_advance exposure gates

-- What IEEE 754 gives for amounts below `bound`: quotients by 100 order as the amounts do, and the
-- thousands above a whole number of taka are counted exactly.
pub record IsExact (d : Double) (bound : ℕ) : Type 0 where
  pub three_thousand_lem : d.three_thousand ≡ d.hundredth 300_000
  pub gt_lem : (a b : ℕ) → a < bound → b < bound → d.gt (d.hundredth a) (d.hundredth b) ≡ ltb b a
  pub ge_lem : (a b : ℕ) → a < bound → b < bound → d.ge (d.hundredth a) (d.hundredth b) ≡ leb b a
  pub floor_lem :
      (a taka : ℕ)
      → a < bound
      → 100 * taka ≤ a
      → d.floor_thousands (d.minus (d.hundredth a) (d.hundredth (100 * taka)))
        ≡ (a - 100 * taka) / 100_000

-- The laws can be met: a quotient is kept as its number of hundredths.
abbrev pub hundredths : Double
hundredths = record {
  W = ℕ;
  hundredth = λ n. n;
  three_thousand = 300_000;
  gt = λ a b. ltb b a;
  ge = λ a b. leb b a;
  minus = λ a b. a - b;
  floor_thousands = λ a. a / 100_000;
}
