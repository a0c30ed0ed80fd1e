-- ===== src/Access/Sessions.antt =====
-- server/src/services/auth.service.ts. The libraries for signed tokens and hashes are parameters.
use restaurant_qr_ordering_s.Base.{
  ℕ, ◌+◌, Bool, false, not, ◌&&◌, ◌||◌, Option, none, some, [], ◌∷◌, ◌++◌, ltb, ◌==◌, find_by,
  update_where, count_where, same_text,
}
use restaurant_qr_ordering_s.Errors.{
  Result, ok, ◌>>=◌, ◌>>◌, throw_if, unauthorized, forbidden, not_found, Reason,
}
use restaurant_qr_ordering_s.Money.Digits.{Text}
use restaurant_qr_ordering_s.Store.{found}
use restaurant_qr_ordering_s.Access.Rows.{
  Accounts, User, Role, RefreshToken, is_user, find_role, is_unrevoked, revoke_where,
  update_user_row,
}
use restaurant_qr_ordering_s.Access.Guard.{Claims}

-- What the payload of a refresh token says: the account, and the row of the token.
pub record RefreshClaims : Type 0 where
  pub sub : ℕ
  pub jti : ℕ

-- The libraries, and what the configuration says of the life of a refresh token.
pub record Crypto : Type 0 where
  pub verify_password : ℕ → ℕ → Bool
  -- the salt makes the hash of a password depend on the moment
  pub hash_password : ℕ → ℕ → ℕ
  pub sign_refresh : ℕ → RefreshClaims → ℕ
  pub verify_refresh : ℕ → ℕ → Option RefreshClaims
  pub hash_token : ℕ → ℕ
  pub refresh_lifetime : ℕ

pub record AuthTokens : Type 0 where
  -- the claims that the access token signs
  pub access : Claims
  pub refresh_token : ℕ

-- `findUserWithPermissions`; a user refers to a role that exists.
abbrev pub with_role : Accounts → Option User → Option (User × Role)
with_role a none = none
with_role a (some u) = elim (find_role u.role_id a) [ none ↦ none | some r ↦ some (u, r) ]

abbrev pub find_user_with_permissions : ℕ → Accounts → Option (User × Role)
find_user_with_permissions id a = with_role a (find_by (is_user id) a.users)

abbrev pub claims_of : User → Role → Claims
claims_of u r = record {
  sub = u.id;
  email = u.email;
  role_id = r.id;
  role_name = r.name;
  permissions = r.permissions;
}

abbrev pub pending_token : ℕ → ℕ → ℕ → ℕ → RefreshToken
pending_token id user_id expires context = record {
  id = id;
  token_hash = none;
  user_id = user_id;
  expires_at = expires;
  revoked_at = none;
  context = context;
}

abbrev pub insert_token : RefreshToken → Accounts → Accounts
insert_token t a = record a { tokens = a.tokens ++ (t ∷ []); next_id = a.next_id + 1 }

abbrev pub set_hash : ℕ → ℕ → Accounts → Accounts
set_hash id hash a = record a {
  tokens = update_where (λ t. t.id == id) (λ t. record t { token_hash = some hash }) a.tokens;
}

module _ (c : Crypto) where
  unfoldable pub issue_tokens : ℕ → ℕ → User → Role → Accounts → AuthTokens × Accounts
  issue_tokens now context u r a =
      let id = a.next_id in
      let token = c.sign_refresh now (record { sub = u.id; jti = id }) in
      (
        record { access = claims_of u r; refresh_token = token },
        set_hash id (c.hash_token token)
            (insert_token (pending_token id u.id (now + c.refresh_lifetime) context) a),
      )

  abbrev pub logged_in :
      ℕ → User → Claims → AuthTokens × Accounts → (Claims × AuthTokens) × Accounts
  logged_in now u claims (tokens, a) =
      ((claims, tokens), update_user_row u.id (λ x. record x { last_login_at = some now }) a)

  unfoldable pub login : ℕ → ℕ → Text → ℕ → Accounts → Result ((Claims × AuthTokens) × Accounts)
  login now context email password a = do
    (u, r) ←
        found (with_role a (find_by (λ x. same_text x.email email && not x.deleted) a.users))
          (unauthorized Reason.invalid_credentials)
    throw_if (not (c.verify_password password u.password_hash))
        (unauthorized Reason.invalid_credentials)
    throw_if (not u.is_active) (forbidden Reason.account_deactivated)
    ok (logged_in now u (claims_of u r) (issue_tokens now context u r a))

  abbrev pub has_hash : Option ℕ → ℕ → Bool
  has_hash none hash = false
  has_hash (some h) hash = h == hash

  abbrev pub is_refused : ℕ → ℕ → RefreshToken → Bool
  is_refused now token t =
      not (is_unrevoked t.revoked_at)
      || ltb t.expires_at now
      || not (has_hash t.token_hash (c.hash_token token))

  unfoldable pub refresh : ℕ → ℕ → ℕ → Accounts → Result (AuthTokens × Accounts)
  refresh now context token a = do
    payload ← found (c.verify_refresh now token) (unauthorized Reason.invalid_refresh_token)
    stored ←
        found (find_by (λ t. t.id == payload.jti) a.tokens)
          (unauthorized Reason.invalid_refresh_token)
    throw_if (is_refused now token stored) (unauthorized Reason.invalid_refresh_token)
    (u, r) ← found (find_user_with_permissions payload.sub a) (unauthorized Reason.account_inactive)
    throw_if (not u.is_active) (unauthorized Reason.account_inactive)
    let revoked = record a {
      tokens =
          update_where (λ t. t.id == stored.id) (λ t. record t { revoked_at = some now }) a.tokens;
    }
    ok (issue_tokens now context u r revoked)

  unfoldable pub logout : ℕ → ℕ → Accounts → Accounts
  logout now token = revoke_where (λ t. has_hash t.token_hash (c.hash_token token)) now

unfoldable pub logout_all : ℕ → ℕ → Accounts → ℕ × Accounts
logout_all now user_id a = (
  count_where (λ t. t.user_id == user_id && is_unrevoked t.revoked_at) a.tokens,
  revoke_where (λ t. t.user_id == user_id) now a,
)

unfoldable pub get_current_user : ℕ → Accounts → Result Claims
get_current_user id a = do
  (u, r) ← found (find_user_with_permissions id a) (not_found Reason.user_not_found)
  ok (claims_of u r)
