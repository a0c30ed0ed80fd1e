-- ===== src/Orders/Gates/Decision.antt =====
-- What `evaluateHold` decides, for every bill and every configuration of the gates.
use Prim.Native.Nat.{min}
use restaurant_qr_ordering_s.Base.{
  ℕ, ◌+◌, ◌-◌, ◌*◌, ◌/◌, ◌≤◌, ◌<◌, ◌≡◌, refl, inl, inr, true, false, arith, ltb, leb, Bool-cases,
  if◌then◌else◌, ◌&&◌,
}
use restaurant_qr_ordering_s.Money.{percent_of}
use restaurant_qr_ordering_s.Money.Percent.{percent_of-le, percent_of_mono}
use restaurant_qr_ordering_s.Status.{
  OrderStatus, needs_approval, awaiting_advance_payment, pending, is_held,
}
use restaurant_qr_ordering_s.Orders.Pricing.{GateSettings}
use restaurant_qr_ordering_s.Orders.Gates.{
  Double, IsExact, Hold, threshold_taka, advance_percent_of, advance_of, evaluate_hold, hundredths,
}

pub hundredths-IsExact : (bound : ℕ) → IsExact hundredths bound
hundredths-IsExact bound = record {
  three_thousand_lem = refl;
  gt_lem = λ a b p q. refl;
  ge_lem = λ a b p q. refl;
  floor_lem = λ a taka p q. refl;
}

advance_percent_of-bounds :
    (d : Double) (total : ℕ) (g : GateSettings)
    → (20 ≤ advance_percent_of d total g) × (advance_percent_of d total g ≤ 100)
unfolding advance_percent_of
advance_percent_of-bounds d total g = omega arith

pub advance_of-bounds :
    (d : Double) (total : ℕ) (g : GateSettings)
    → (percent_of total 2000 ≤ advance_of d total g) × (advance_of d total g ≤ total)
advance_of-bounds d total g =
    let (low, high) = advance_percent_of-bounds d total g in
    (
      percent_of_mono total 2000 (advance_percent_of d total g * 100) (omega arith),
      percent_of-le total (advance_percent_of d total g * 100) (omega arith),
    )

twenty_percent_pos : (total : ℕ) → 3 ≤ total → 0 < percent_of total 2000
unfolding percent_of
twenty_percent_pos total h = omega arith

-- A decision is consistent: an order goes straight to the kitchen exactly if it is no high-value
-- order, and then nothing is asked in advance; an advance is asked for before payment opens, is
-- never more than the bill, and is at least a fifth of it, rounded, where there is one.
pub record IsConsistent (total : ℕ) (h : Hold) : Type 0 where
  pub kitchen : h.status ≡ pending → (h.is_high_value ≡ false) × (h.advance_minor ≡ 0)
  pub clear : h.is_high_value ≡ false → h.status ≡ pending
  pub held : h.is_high_value ≡ true → is_held h.status ≡ true
  pub advance_due : h.status ≡ awaiting_advance_payment → 0 < h.advance_minor
  pub within : h.advance_minor ≤ total
  pub substantial : 0 < h.advance_minor → percent_of total 2000 ≤ h.advance_minor

-- Every decision of `evaluateHold` is consistent, whatever the exposure, the bill and the settings, and
-- also where the quotients are rounded: an order goes straight to the kitchen exactly if it is no
-- high-value order, and then nothing is asked in advance; an order that waits for payment has an advance
-- to pay; an advance is at most the bill, and at least a fifth of it, whatever share is configured.
pub evaluate_hold-IsConsistent :
    (d : Double) (exposure total : ℕ) (g : GateSettings)
    → IsConsistent total (evaluate_hold d exposure total g)
unfolding evaluate_hold is_held
evaluate_hold-IsConsistent d exposure total g = ground (arith, advance_of-bounds d total g)

-- The threshold of the advance: 3000.00 where 0 is stored.
abbrev pub threshold_of : GateSettings → ℕ
threshold_of g = if ltb 0 g.threshold_minor then g.threshold_minor else 300_000

-- The policy in minor units, with no quotient.
abbrev pub policy : ℕ → ℕ → GateSettings → OrderStatus
policy exposure total g =
    if g.advance_required && ltb (threshold_of g) total
    then (if g.approval_required then needs_approval else awaiting_advance_payment)
    else if g.approval_required && ltb 0 g.threshold_minor && leb g.threshold_minor exposure
    then needs_approval
    else pending

-- 20%, and 10% more for each whole thousand above the threshold, up to 100%.
abbrev pub policy_percent : ℕ → GateSettings → ℕ
policy_percent total g = min (20 + (total - threshold_of g) / 100_000 * 10) 100

module _ (d : Double) (bound : ℕ) (exact : IsExact d bound) where
  gt-threshold :
      (total : ℕ) (g : GateSettings)
      → 300_000 < bound
      → total < bound
      → g.threshold_minor < bound
      → d.gt (d.hundredth total) (threshold_taka d g) ≡ ltb (threshold_of g) total
  gt-threshold total g base t h = elim (Bool-cases (ltb 0 g.threshold_minor)) [
    | inl set ↦ rw set (exact.gt_lem total g.threshold_minor t h)
    | inr unset ↦ rw (unset, exact.three_thousand_lem) (exact.gt_lem total 300_000 t base)
  ]

  -- With exact comparisons, bills of at least three minor units are gated as the policy says: the
  -- advance goes by this order's total alone, and strictly above the threshold, which is 3000.00 where
  -- 0 is stored; approval alone goes by the exposure, from the threshold on, and never where 0 is stored.
  pub evaluate_hold-policy :
      (exposure total : ℕ) (g : GateSettings)
      → 300_000 < bound
      → exposure < bound
      → total < bound
      → g.threshold_minor < bound
      → 3 ≤ total
      → (evaluate_hold d exposure total g).status ≡ policy exposure total g
  unfolding evaluate_hold
  evaluate_hold-policy exposure total g base e t h bill = ground (
    arith,
    gt-threshold total g base t h,
    exact.ge_lem exposure g.threshold_minor e h,
    advance_of-bounds d total g,
    twenty_percent_pos total bill,
  )

  advance_percent_of-policy :
      (total taka : ℕ) (g : GateSettings)
      → total < bound
      → g.threshold_minor ≡ 100 * taka
      → threshold_of g < total
      → advance_percent_of d total g ≡ policy_percent total g
  unfolding advance_percent_of
  advance_percent_of-policy total taka g t whole over =
      elim (Bool-cases (ltb 0 g.threshold_minor)) [
        | inl set ↦ ground (arith, exact.floor_lem total taka t)
        | inr unset ↦ ground (arith, exact.three_thousand_lem, exact.floor_lem total 3000 t)
      ]

  -- Where the advance gate fires at a threshold that is a whole number of taka, the advance is the
  -- bill at the percentage of the policy.
  evaluate_hold-advance :
      (exposure total taka : ℕ) (g : GateSettings)
      → 300_000 < bound
      → total < bound
      → g.threshold_minor ≡ 100 * taka
      → g.advance_required ≡ true
      → threshold_of g < total
      → (evaluate_hold d exposure total g).advance_minor
        ≡ percent_of total (policy_percent total g * 100)
  unfolding evaluate_hold
  evaluate_hold-advance exposure total taka g base t whole on over = ground (
    arith,
    gt-threshold total g base t (ground arith),
    advance_percent_of-policy total taka g t whole over,
  )
