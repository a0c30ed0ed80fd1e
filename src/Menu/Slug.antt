-- ===== src/Menu/Slug.antt =====
-- server/src/utils/slug.ts. What `normalize("NFD")`, the removal of the combining marks and
-- `toLowerCase` make of a name comes as an argument, a text of code points.
use restaurant_qr_ordering_s.Base.{
  ℕ, zero, suc, Bool, ◌&&◌, ◌||◌, [], ◌∷◌, ◌++◌, leb, ◌==◌, if◌then◌else◌,
}
use restaurant_qr_ordering_s.Money.Digits.{Text, is_digit, trim, print}

-- `[a-z0-9]`
unfoldable pub is_plain : ℕ → Bool
unfolding is_digit
is_plain c = is_digit c || (leb b'a' c && leb c b'z')

-- A dash in front, unless one stands there.
abbrev pub cons_dash : Text → Text
cons_dash [] = b'-' ∷ []
cons_dash (c ∷ cs) = if c == b'-' then c ∷ cs else b'-' ∷ c ∷ cs

-- `replace(/[^a-z0-9]+/g, "-")`: every run of other characters, dashes among them, is one dash.
abbrev pub dashed : Text → Text
dashed [] = []
dashed (c ∷ cs) = if is_plain c then c ∷ dashed cs else cons_dash (dashed cs)

abbrev pub trim_dash : Text → Text
trim_dash [] = []
trim_dash (c ∷ cs) = if c == b'-' then trim_dash cs else c ∷ cs

abbrev pub drop_dash : ℕ → Text → Text
drop_dash c [] = if c == b'-' then [] else c ∷ []
drop_dash c (d ∷ ds) = c ∷ d ∷ ds

abbrev pub trim_end_dash : Text → Text
trim_end_dash [] = []
trim_end_dash (c ∷ cs) = drop_dash c (trim_end_dash cs)

unfoldable pub slugify : Text → Text
unfolding is_plain trim
slugify folded = trim_end_dash (trim_dash (dashed (trim folded)))

abbrev pub or_item : Text → Text
or_item [] = b'i' ∷ b't' ∷ b'e' ∷ b'm' ∷ []
or_item (c ∷ cs) = c ∷ cs

abbrev pub with_suffix : Text → ℕ → Text
with_suffix base n = base ++ (b'-' ∷ print n)

-- The suffixes from `n` on, `tries` of them, and then the instant.
abbrev pub try_suffixes : (Text → Bool) → Text → ℕ → ℕ → ℕ → Text
try_suffixes taken base now n zero = with_suffix base now
try_suffixes taken base now n (suc tries) =
    let rest = try_suffixes taken base now (suc n) tries in
    if taken (with_suffix base n) then rest else with_suffix base n

-- The suffixes from 2 to 99.
unfoldable pub unique_slug : ℕ → (Text → Bool) → Text → Text
unfolding slugify
unique_slug now taken folded =
    let base = or_item (slugify folded) in
    if taken base then try_suffixes taken base now 2 98 else base
