-- ===== src/Client/Advance.antt =====
-- `calculateAdvanceDetails` of client/src/lib/money.ts, as the cart calls it: without a threshold of
-- its own, so at 3000. `x <= y` on quotients is the denial of `x > y`, and `Math.round` of a
-- hundredth part is the rounding of an amount in minor units.
use Prim.Native.Nat.{min}
use native.Mathlib.Nat.{mul_assoc}
use restaurant_qr_ordering_s.Base.{
  ℕ, ◌+◌, ◌-◌, ◌*◌, ◌/◌, ◌≡◌, refl, sym, ap, subst, ◌∙◌, ◌&&◌, ◌⊎◌, inl, inr, Bool, true, false,
  not, if◌then◌else◌, arith, Bool-cases, ltb,
}
use restaurant_qr_ordering_s.Money.{percent_of}
use restaurant_qr_ordering_s.Orders.Pricing.{GateSettings}
use restaurant_qr_ordering_s.Orders.Gates.{
  Double, IsExact, threshold_taka, advance_percent_of, advance_of, is_over, evaluate_hold,
}

pub record AdvanceDetails : Type 0 where
  pub is_advance_required : Bool
  pub advance_percent : ℕ
  pub advance_minor : ℕ
  pub remaining_minor : ℕ

module _ (d : Double) where
  open d use {hundredth, three_thousand, gt, minus, floor_thousands}

  abbrev pub details_at : ℕ → ℕ → AdvanceDetails
  details_at total percent =
      let advance = (total * percent + 50) / 100 in
      record {
        is_advance_required = true;
        advance_percent = percent;
        advance_minor = advance;
        remaining_minor = total - advance;
      }

  unfoldable pub calculate_advance_details : ℕ → AdvanceDetails
  calculate_advance_details total =
      if not (gt (hundredth total) three_thousand)
      then record {
        is_advance_required = false;
        advance_percent = 0;
        advance_minor = 0;
        remaining_minor = total;
      }
      else details_at total
          (min (20 + floor_thousands (minus (hundredth total) three_thousand) * 10) 100)

percent_of-whole :
    (total percent : ℕ) → percent_of total (percent * 100) ≡ (total * percent + 50) / 100
unfolding percent_of
percent_of-whole total percent = omega (arith, mul_assoc total percent 100)

-- What the server decides and asks at a threshold of `t`.
abbrev SameAdvance : (d : Double) → ℕ → GateSettings → d.W → Type 0
SameAdvance d total g t =
    let shown = calculate_advance_details d total in
    let over = g.advance_required && d.gt (d.hundredth total) t in
    (shown.is_advance_required ≡ over)
    × (over ≡ true
        → shown.advance_minor
          ≡ percent_of total
              (min (20 + d.floor_thousands (d.minus (d.hundredth total) t) * 10) 100 * 100))

at_three_thousand :
    (d : Double) (total : ℕ) (g : GateSettings)
    → g.advance_required ≡ true
    → SameAdvance d total g d.three_thousand
unfolding calculate_advance_details
at_three_thousand d total g required =
    elim (Bool-cases (d.gt (d.hundredth total) d.three_thousand)) [
      | inl over ↦ (rw (required, over) refl, λ h. rw over (sym (percent_of-whole total _)))
      | inr under ↦ (rw (required, under) refl, λ h. cc (rw (required, under) at h))
    ]

threshold_taka-three_thousand :
    (d : Double) (bound : ℕ) (g : GateSettings)
    → IsExact d bound
    → (g.threshold_minor ≡ 0) ⊎ (g.threshold_minor ≡ 300_000)
    → d.three_thousand ≡ threshold_taka d g
threshold_taka-three_thousand d bound g exact (inl unset) =
    ap (λ n. if ltb 0 n then d.hundredth n else d.three_thousand) (sym unset)
threshold_taka-three_thousand d bound g exact (inr set) =
    exact.three_thousand_lem
    ∙ ap (λ n. if ltb 0 n then d.hundredth n else d.three_thousand) (sym set)

details_agree :
    (d : Double) (bound total : ℕ) (g : GateSettings)
    → IsExact d bound
    → (g.threshold_minor ≡ 0) ⊎ (g.threshold_minor ≡ 300_000)
    → g.advance_required ≡ true
    → let shown = calculate_advance_details d total in
      (shown.is_advance_required ≡ is_over d total g)
      × (is_over d total g ≡ true → shown.advance_minor ≡ advance_of d total g)
unfolding advance_percent_of
details_agree d bound total g exact at_3000 required =
    subst (SameAdvance d total g) (threshold_taka-three_thousand d bound g exact at_3000)
      (at_three_thousand d total g required)

details_under :
    (d : Double) (total : ℕ)
    → (calculate_advance_details d total).is_advance_required ≡ false
    → (calculate_advance_details d total).advance_minor ≡ 0
unfolding calculate_advance_details
details_under d total h = elim (Bool-cases (d.gt (d.hundredth total) d.three_thousand)) [
  | inl over ↦ cc
  | inr under ↦ rw under refl
]

details_sum :
    (d : Double) (total : ℕ)
    → (calculate_advance_details d total).remaining_minor
      ≡ total - (calculate_advance_details d total).advance_minor
unfolding calculate_advance_details
details_sum d total = elim (Bool-cases (d.gt (d.hundredth total) d.three_thousand)) [
  | inl over ↦ rw over refl
  | inr under ↦ rw under (omega arith)
]

asked_over :
    (d : Double) (exposure total : ℕ) (g : GateSettings)
    → is_over d total g ≡ true
    → (evaluate_hold d exposure total g).advance_minor ≡ advance_of d total g
unfolding evaluate_hold
asked_over d exposure total g over = ground (arith, over)

asked_under :
    (d : Double) (exposure total : ℕ) (g : GateSettings)
    → is_over d total g ≡ false
    → (evaluate_hold d exposure total g).advance_minor ≡ 0
unfolding evaluate_hold
asked_under d exposure total g under = ground (arith, under)

-- With the advance switched on, and a threshold stored as 3000 or as 0, the advance that the cart
-- announces is the one that `evaluateHold` asks for, whatever else is open at the table and whether or
-- not approval comes first, and what the cart leaves to pay later is the rest of the bill.
pub calculate_advance_details-evaluate_hold :
    (d : Double) (bound exposure total : ℕ) (g : GateSettings)
    → IsExact d bound
    → (g.threshold_minor ≡ 0) ⊎ (g.threshold_minor ≡ 300_000)
    → g.advance_required ≡ true
    → let shown = calculate_advance_details d total in
      let asked = (evaluate_hold d exposure total g).advance_minor in
      (shown.advance_minor ≡ asked) × (shown.remaining_minor ≡ total - asked)
calculate_advance_details-evaluate_hold d bound exposure total g exact at_3000 required =
    let shown = calculate_advance_details d total in
    let (needed, amount) = details_agree d bound total g exact at_3000 required in
    let same : shown.advance_minor ≡ (evaluate_hold d exposure total g).advance_minor =
      elim (Bool-cases (is_over d total g)) [
        | inl over ↦ amount over ∙ sym (asked_over d exposure total g over)
        | inr under ↦
            details_under d total (needed ∙ under) ∙ sym (asked_under d exposure total g under)
      ] in
    (same, details_sum d total ∙ ap (λ n. total - n) same)
