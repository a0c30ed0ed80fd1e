-- ===== src/Client/Agreement.antt =====
-- The client reads and rounds amounts as the server does.
use restaurant_qr_ordering_s.Base.{
  ℕ, zero, suc, ◌+◌, ◌*◌, ◌≡◌, refl, subst, sym, ◌∙◌, inl, inr, true, false, Option, none, some, [],
  ◌∷◌, ◌==◌, Bool-cases, ==_iff,
}
use restaurant_qr_ordering_s.Base.Int.{ℤ, pos, neg, leb_ℤ}
use restaurant_qr_ordering_s.Errors.{Result, ok, err, AppError, bad_request, Reason}
use restaurant_qr_ordering_s.Money.{to_minor_units, percent_of}
use restaurant_qr_ordering_s.Money.Digits.{
  Text, trim, match_decimal, span_digits, is_digit, number, pad_end,
}
use restaurant_qr_ordering_s.Client.Offers.{typed_value}
use restaurant_qr_ordering_s.Client.Amounts.{
  to_minor, strip_minus, amount_of, read_signed, apply_percent_minor,
}

-- What the server and the client read a text as: the same amount, or an error here and an amount
-- that is not above zero there.
abbrev Agree : ℤ → Result ℕ → Type 0
Agree shown (ok n) = shown ≡ pos n
Agree shown (err e) = leb_ℤ shown (pos 0) ≡ true

minus-unmatched : (cs : Text) → match_decimal (b'-' ∷ cs) ≡ none
unfolding match_decimal span_digits is_digit
minus-unmatched cs = refl

empty-unmatched : match_decimal [] ≡ none
unfolding match_decimal span_digits
empty-unmatched = refl

not_above : (n : ℕ) → leb_ℤ (neg (pos n)) (pos 0) ≡ true
not_above zero = refl
not_above (suc n) = refl

negative-not_above : (g : Option (Text × Text)) → leb_ℤ (amount_of true g) (pos 0) ≡ true
negative-not_above none = refl
negative-not_above (some (w, f)) = not_above _

abbrev minor_of : Option (Text × Text) → Result ℕ
minor_of none = err (bad_request Reason.invalid_monetary_value)
minor_of (some (w, f)) = ok (number w * 100 + number (pad_end 2 b'0' f))

matched-Agree : (g : Option (Text × Text)) → Agree (amount_of false g) (minor_of g)
matched-Agree none = refl
matched-Agree (some (w, f)) = refl

stripped-Agree : (t : Text) → Agree (read_signed (strip_minus t)) (minor_of (match_decimal t))
stripped-Agree [] = matched-Agree (match_decimal [])
stripped-Agree (c ∷ cs) = elim (Bool-cases (c == b'-')) [
  | inl e ↦
      let same : c ≡ b'-' = (==_iff c b'-').0 e in
      rw (e, same, minus-unmatched cs) (negative-not_above (match_decimal cs))
  | inr e ↦ rw e (matched-Agree (match_decimal (c ∷ cs)))
]

to_minor_units-minor_of : (text : Text) → to_minor_units text ≡ minor_of (match_decimal (trim text))
unfolding to_minor_units
to_minor_units-minor_of text =
    elim (match_decimal (trim text))
      as (λ g.
        elim g [
          | none ↦ err (bad_request Reason.invalid_monetary_value)
          | some (w, f) ↦ ok (number w * 100 + number (pad_end 2 b'0' f))
        ]
        ≡ minor_of g) [ none ↦ refl | some (w, f) ↦ refl ]

-- Whatever text the server accepts as an amount, the client reads as the same amount; and what the
-- server refuses, the client never reads as more than zero.
pub to_minor-Agree : (text : Text) → Agree (to_minor text) (to_minor_units text)
unfolding to_minor
to_minor-Agree text = rw (to_minor_units-minor_of text) (stripped-Agree (trim text))

pub readable-to_minor : (text : Text) (n : ℕ) → to_minor_units text ≡ ok n → to_minor text ≡ pos n
readable-to_minor text n e = subst (Agree (to_minor text)) e (to_minor-Agree text)

pub unreadable-to_minor :
    (text : Text) (x : AppError)
    → to_minor_units text ≡ err x
    → leb_ℤ (to_minor text) (pos 0) ≡ true
unreadable-to_minor text x e = subst (Agree (to_minor text)) e (to_minor-Agree text)

pub typed_value-readable :
    (value : Text) (v : ℕ) → to_minor_units value ≡ ok v → typed_value (some value) ≡ some value
typed_value-readable value v e =
    elim (trim value)
        as (λ t.
          minor_of (match_decimal t) ≡ ok v
          → elim t as (λ _. Option Text) [ [] ↦ none | c ∷ cs ↦ some value ] ≡ some value) [
            | [] ↦ λ h. cc (rw empty-unmatched at h)
            | c ∷ cs ↦ λ h. refl
          ]
      (sym (to_minor_units-minor_of value) ∙ e)

-- `applyPercent` on a readable percentage is the rounding of the server.
pub apply_percent_minor-percent_of :
    (n p : ℕ) (percent : Text)
    → to_minor percent ≡ pos p
    → apply_percent_minor (pos n) percent ≡ pos (percent_of n p)
unfolding apply_percent_minor percent_of
apply_percent_minor-percent_of n p percent e = rw e refl
