-- ===== src/Access/Guard.antt =====
-- server/src/middleware/authenticate.ts and authorize.ts. `verify` is the check of a signed token,
-- by server/src/utils/jwt.ts and its library; a guard that lets a request through answers `ok`.
use restaurant_qr_ordering_s.Base.{
  ℕ, ◌≡◌, refl, ◌↔◌, ◌⊎◌, inl, inr, true, not, Option, none, some, List, [], ◌∷◌, ◌==◌,
  if◌then◌else◌, Bool-cases, select, exists_where, includes, All,
}
use restaurant_qr_ordering_s.Errors.{
  Result, ok, err, ◌>>=◌, throw_if, unauthorized, forbidden, Reason,
}
use restaurant_qr_ordering_s.Money.Digits.{Text, trim}
use restaurant_qr_ordering_s.Store.{found}
use restaurant_qr_ordering_s.Access.Rows.{is_super_admin}

pub record Claims : Type 0 where
  pub sub : ℕ
  pub email : Text
  pub role_id : ℕ
  pub role_name : Text
  pub permissions : List Text

-- The rest of a text after a prefix.
abbrev pub after_prefix : Text → Text → Option Text
after_prefix [] t = some t
after_prefix (p ∷ ps) [] = none
after_prefix (p ∷ ps) (c ∷ cs) = if p == c then after_prefix ps cs else none

-- "Bearer "
abbrev pub bearer : Text
bearer = b'B' ∷ b'e' ∷ b'a' ∷ b'r' ∷ b'e' ∷ b'r' ∷ b' ' ∷ []

abbrev pub nonempty : Text → Option Text
nonempty [] = none
nonempty (c ∷ cs) = some (c ∷ cs)

abbrev pub token_in : Option Text → Option Text
token_in none = none
token_in (some rest) = nonempty (trim rest)

abbrev pub extract_token : Option Text → Option Text
extract_token none = none
extract_token (some header) = token_in (after_prefix bearer header)

module _ (verify : Text → Option Claims) where
  unfoldable pub authenticate : Option Text → Result Claims
  authenticate header = do
    token ← found (extract_token header) (unauthorized Reason.authentication_required)
    found (verify token) (unauthorized Reason.invalid_token)

  -- A bad token counts as none.
  unfoldable pub optional_authenticate : Option Text → Option Claims
  optional_authenticate header = elim (extract_token header) [
    | none ↦ none
    | some token ↦ verify token
  ]

abbrev pub missing_of : List Text → List Text → List Text
missing_of granted = select (λ key. not (includes key granted))

abbrev pub refuse_missing : List Text → Result (Unit {0})
refuse_missing [] = ok tt
refuse_missing (key ∷ keys) = err (forbidden (Reason.missing_permissions (key ∷ keys)))

unfoldable pub authorize : List Text → Option Claims → Result (Unit {0})
authorize required none = err (unauthorized Reason.authentication_required)
authorize required (some user) =
    if is_super_admin user.role_name
    then ok tt
    else refuse_missing (missing_of user.permissions required)

unfoldable pub authorize_any : List Text → Option Claims → Result (Unit {0})
authorize_any accepted none = err (unauthorized Reason.authentication_required)
authorize_any accepted (some user) =
    if is_super_admin user.role_name
    then ok tt
    else throw_if (not (exists_where (λ key. includes key user.permissions) accepted))
        (forbidden (Reason.requires_one_of accepted))

-- Who may pass: a super admin, or an account that has every key.
abbrev pub MayPass : List Text → Option Claims → Type 0
MayPass required none = ⊥
MayPass required (some user) =
    (is_super_admin user.role_name ≡ true)
    ⊎ All (λ key. includes key user.permissions ≡ true) required

nothing_missing :
    (granted required : List Text)
    → (refuse_missing (missing_of granted required) ≡ ok tt)
      ↔ All (λ key. includes key granted ≡ true) required
nothing_missing granted [] = (λ h. tt, λ h. refl)
nothing_missing granted (key ∷ keys) = elim (Bool-cases (includes key granted)) [
  | inl e ↦ let (to, from) = nothing_missing granted keys in rw e (λ h. (refl, to h), λ h. from h.1)
  | inr e ↦ rw e (λ h. cc, λ h. cc h.0)
]

-- `authorize` lets a request through exactly if it is authenticated as a super admin or as an account
-- that holds every required permission.
pub authorize-MayPass :
    (required : List Text) (user : Option Claims)
    → (authorize required user ≡ ok tt) ↔ MayPass required user
unfolding authorize
authorize-MayPass required none = (λ h. cc, λ h. absurd h)
authorize-MayPass required (some user) = elim (Bool-cases (is_super_admin user.role_name)) [
  | inl e ↦ rw e (λ h. inl refl, λ h. refl)
  | inr e ↦
      let (to, from) = nothing_missing user.permissions required in
      rw e (λ h. inr (to h), λ h. elim h [ inl bad ↦ cc bad | inr has ↦ from has ])
]
