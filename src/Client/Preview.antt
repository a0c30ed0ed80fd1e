-- ===== src/Client/Preview.antt =====
-- The offer form of the client against the write path of the server.
use Prim.Native.Nat.{min, max}
use restaurant_qr_ordering_s.Base.{
  ℕ, zero, suc, ◌-◌, ◌<◌, ◌≤◌, ◌≡◌, refl, sym, ◌∙◌, inl, inr, ◌↔◌, Bool, true, false, Option, none,
  some, [], ◌∷◌, leb, arith, Bool-cases, Option-cases, ap,
}
use mathlib.Core.Option.{some-injective}
use restaurant_qr_ordering_s.Base.Int.{pos, ◌-ℤ◌, leb_ℤ, min_ℤ, max_ℤ}
use restaurant_qr_ordering_s.Errors.{Result, ok, err, AppError, Result-cases}
use restaurant_qr_ordering_s.Money.{to_minor_units, from_minor_units}
use restaurant_qr_ordering_s.Money.Digits.{
  Text, trim, trim_start, trim_end, is_space, match_decimal, span_digits, is_digit, match_fraction,
}
use restaurant_qr_ordering_s.Offer.{
  OfferType, percentage, fixed, OfferInput, running, charge, discounted, discount_minor,
  raw_discount, derive_offer_price, check_running, check_value, assert_offer_is_coherent,
}
use restaurant_qr_ordering_s.Client.Offers.{
  typed_value, filled_in, raw_minor, preview_filled, preview_offer_price, Problem, value_problem,
  filled_problem, offer_problem,
}
use restaurant_qr_ordering_s.Client.Amounts.{to_minor}
use restaurant_qr_ordering_s.Client.Agreement.{
  readable-to_minor, unreadable-to_minor, apply_percent_minor-percent_of, typed_value-readable,
}

min_ℤ-pos : (a b : ℕ) → min_ℤ (pos a) (pos b) ≡ pos (min a b)
min_ℤ-pos a b = ground arith

max_ℤ-zero : (a : ℕ) → max_ℤ (pos a) (pos 0) ≡ pos (max a 0)
max_ℤ-zero a = ground arith

minus-pos : (a b : ℕ) → b ≤ a → pos a -ℤ pos b ≡ pos (a - b)
minus-pos a zero h = ground arith
minus-pos a (suc b) h = ground arith

clamped : (p r : ℕ) → pos p -ℤ min_ℤ (max_ℤ (pos r) (pos 0)) (pos p) ≡ pos (p - min (max r 0) p)
clamped p r =
    ap (λ m. pos p -ℤ min_ℤ m (pos p)) (max_ℤ-zero r)
    ∙ ap (λ m. pos p -ℤ m) (min_ℤ-pos (max r 0) p)
    ∙ minus-pos p (min (max r 0) p) (omega arith)

raw_minor-raw_discount :
    (p v : ℕ) (kind : OfferType) (value : Text)
    → to_minor value ≡ pos v
    → raw_minor (pos p) kind value ≡ pos (raw_discount p kind v)
raw_minor-raw_discount p v percentage value e = apply_percent_minor-percent_of p v value e
raw_minor-raw_discount p v fixed value e = e

charge-typed :
    (p v : ℕ) (kind : OfferType) (value : Text)
    → to_minor_units value ≡ ok v
    → charge p (some (kind, value)) ≡ p - discount_minor p kind v
charge-typed p v kind value e =
    ap (λ r. discounted p kind (elim r [ ok n ↦ some n | err x ↦ none ])) e

above_zero : (n : ℕ) → 0 < n → leb_ℤ (pos n) (pos 0) ≡ false
above_zero n h = ground arith

preview_filled-charge :
    (price value : Text) (p v : ℕ) (kind : OfferType)
    → to_minor_units price ≡ ok p
    → to_minor_units value ≡ ok v
    → 0 < p
    → 0 < v
    → preview_filled price (some (kind, value))
      ≡ some (from_minor_units (pos (charge p (some (kind, value)))))
unfolding discount_minor
preview_filled-charge price value p v kind readable typed above_p above_v =
    rw
      (
        readable-to_minor price p readable,
        readable-to_minor value v typed,
        above_zero p above_p,
        above_zero v above_v,
      )
      (ap (λ n. some (from_minor_units n))
        (ap (λ raw. pos p -ℤ min_ℤ (max_ℤ raw (pos 0)) (pos p))
            (raw_minor-raw_discount p v kind value (readable-to_minor value v typed))
          ∙ clamped p (raw_discount p kind v)
          ∙ ap pos (sym (charge-typed p v kind value typed))))

-- An active offer of a type and a value.
abbrev pub active : OfferType → Text → OfferInput
active kind value = record {
  is_offer_active = true;
  offer_type = some kind;
  offer_value = some value;
}

-- The price that the menu form previews for an offer being typed is the very text that the server
-- stores as the offer price on saving, for a readable price and a readable value, both above zero.
pub preview_offer_price-derive_offer_price :
    (price value : Text) (p v : ℕ) (kind : OfferType)
    → to_minor_units price ≡ ok p
    → to_minor_units value ≡ ok v
    → 0 < p
    → 0 < v
    → derive_offer_price price (active kind value)
      ≡ ok (preview_offer_price price (active kind value))
unfolding preview_offer_price derive_offer_price running
preview_offer_price-derive_offer_price price value p v kind readable typed above_p above_v =
    rw readable (
      ap ok (
        sym (
          ap (λ t. preview_filled price (filled_in (some kind) t))
            (typed_value-readable value v typed)
          ∙ preview_filled-charge price value p v kind readable typed above_p above_v)))

to_minor-hundred : to_minor (b'1' ∷ b'0' ∷ b'0' ∷ []) ≡ pos 10_000
unfolding to_minor trim trim_start trim_end is_space match_decimal span_digits is_digit
    match_fraction
to_minor-hundred = refl

abbrev SameVerdict : Option Problem → Result (Unit {0}) → Type 0
SameVerdict problem verdict = (problem ≡ none) ↔ (verdict ≡ ok tt)

value_problem-check_value :
    (price value : Text) (p v : ℕ) (kind : OfferType)
    → to_minor_units price ≡ ok p
    → to_minor value ≡ pos v
    → 0 < v
    → SameVerdict (value_problem price kind value) (check_value price kind v)
value_problem-check_value price value p v percentage readable typed above =
    rw (typed, to_minor-hundred) (ground arith)
value_problem-check_value price value p v fixed readable typed above =
    rw (typed, readable-to_minor price p readable, readable) (ground arith)

refused : (e : AppError) (why : Problem) → SameVerdict (some why) (err e)
refused e why = ((λ h. cc), λ h. cc)

filled_problem-check_running :
    (price : Text) (p : ℕ) (kind : OfferType) (value : Text)
    → to_minor_units price ≡ ok p
    → SameVerdict
        (filled_problem price (some (kind, value)))
        (check_running price (some (kind, value)))
filled_problem-check_running price p kind value readable =
    elim (Result-cases (to_minor_units value)) [
      | inl (e, unread) ↦
          rw (unread, unreadable-to_minor value e unread) (refused e Problem.not_above_zero)
      | inr (v, typed) ↦ elim (Bool-cases (leb v 0)) [
        | inl none_left ↦
            rw (typed, readable-to_minor value v typed, none_left)
              (refused _ Problem.not_above_zero)
        | inr above ↦
            rw (typed, readable-to_minor value v typed, above)
              (value_problem-check_value price value p v kind readable
                (readable-to_minor value v typed) (ground arith))
      ]
    ]

-- A value of white space only: the form asks for one, and the server reads no amount.
blank-unreadable :
    (value : Text)
    → typed_value (some value) ≡ none
    → (e : AppError) × (to_minor_units value ≡ err e)
blank-unreadable value blank = elim (Result-cases (to_minor_units value)) [
  | inl bad ↦ bad
  | inr (v, typed) ↦ cc (typed_value-readable value v typed, blank)
]

typed_value-same : (value t : Text) → typed_value (some value) ≡ some t → value ≡ t
typed_value-same value t e =
    elim (trim value)
        as (λ r.
          elim r as (λ _. Option Text) [ [] ↦ none | c ∷ cs ↦ some value ] ≡ some t → value ≡ t) [
            | [] ↦ λ h. cc
            | c ∷ cs ↦ λ h. some-injective _ _ h
          ]
      e

offered_problem :
    (price : Text) (p : ℕ) (kind : OfferType) (value : Text)
    → to_minor_units price ≡ ok p
    → SameVerdict
        (filled_problem price (filled_in (some kind) (typed_value (some value))))
        (check_running price (some (kind, value)))
offered_problem price p kind value readable = elim (Option-cases (typed_value (some value))) [
  | inl blank ↦
      let (e, unread) = blank-unreadable value blank in
      rw (blank, unread) (refused e Problem.choose_and_enter)
  | inr (t, e) ↦
      rw (e, sym (typed_value-same value t e))
        (filled_problem-check_running price p kind value readable)
]

offer_cases :
    (price : Text) (p : ℕ) (on : Bool) (kind : Option OfferType) (value : Option Text)
    → to_minor_units price ≡ ok p
    → let offer : OfferInput = record {
      is_offer_active = on;
      offer_type = kind;
      offer_value = value;
    } in
      SameVerdict (offer_problem price offer) (assert_offer_is_coherent price offer)
unfolding offer_problem assert_offer_is_coherent running
offer_cases price p false kind value readable = (λ h. refl, λ h. refl)
offer_cases price p true none value readable = refused _ Problem.choose_and_enter
offer_cases price p true (some kind) none readable = refused _ Problem.choose_and_enter
offer_cases price p true (some kind) (some value) readable =
    offered_problem price p kind value readable

-- For a dish with a readable price, the menu form reports no problem with the offer exactly if
-- `assertOfferIsCoherent` of the server accepts it, whatever was typed.
pub offer_problem-assert_offer_is_coherent :
    (price : Text) (p : ℕ) (offer : OfferInput)
    → to_minor_units price ≡ ok p
    → (offer_problem price offer ≡ none) ↔ (assert_offer_is_coherent price offer ≡ ok tt)
offer_problem-assert_offer_is_coherent price p offer readable =
    offer_cases price p offer.is_offer_active offer.offer_type offer.offer_value readable
