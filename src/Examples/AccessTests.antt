-- ===== src/Examples/AccessTests.antt =====
-- The theorems on staff accounts at concrete inputs.
use restaurant_qr_ordering_s.Base.{
  ℕ, ◌≡◌, refl, sym, ◌∙◌, ◌↔◌, true, false, none, some, some-injective, List, [], ◌∷◌, arith,
  update_where, ◌==◌,
}
use restaurant_qr_ordering_s.Errors.{ok, err, unauthorized, Reason}
use restaurant_qr_ordering_s.Access.Rows.{
  Accounts, User, Role, RefreshToken, super_admin, revoke_where, update_user_row,
}
use restaurant_qr_ordering_s.Access.Guard.{Claims, authorize, MayPass, authorize-MayPass}
use restaurant_qr_ordering_s.Access.Sessions.{Crypto, refresh, issue_tokens}
use restaurant_qr_ordering_s.Access.Users.{deactivate_user, deactivated}
use restaurant_qr_ordering_s.Access.Calls.{Call, run, Holds}
use restaurant_qr_ordering_s.Access.Revoked.{
  HasStablePayload, refresh_once, deactivate_user-refresh,
}
use restaurant_qr_ordering_s.Access.Administered.{IsAdministered, deactivate_user-IsAdministered}

-- A token is its own hash and says its number, of account 1.
abbrev crypto : Crypto
crypto = record {
  verify_password = λ password hash. true;
  hash_password = λ now password. password;
  sign_refresh = λ now p. p.jti;
  verify_refresh = λ now token. some (record { sub = 1; jti = token });
  hash_token = λ token. token;
  refresh_lifetime = 1000;
}

stable : (token : ℕ) → HasStablePayload crypto token
stable token now later p q e f = sym (some-injective _ _ e) ∙ some-injective _ _ f

abbrev waiter_role : Role
waiter_role = record {
  id = 8;
  name = b'S' ∷ b'T' ∷ b'A' ∷ b'F' ∷ b'F' ∷ [];
  description = none;
  is_system = true;
  permissions = (b'r' ∷ []) ∷ [];
}

abbrev admin_role : Role
admin_role = record {
  id = 9;
  name = super_admin;
  description = none;
  is_system = true;
  permissions = [];
}

abbrev account : ℕ → ℕ → User
account id role_id = record {
  id = id;
  email = id ∷ [];
  password_hash = 0;
  full_name = "Asha";
  phone = none;
  role_id = role_id;
  is_active = true;
  deleted = false;
  last_login_at = none;
}

abbrev session : RefreshToken
session = record {
  id = 3;
  token_hash = some 3;
  user_id = 1;
  expires_at = 9000;
  revoked_at = none;
  context = 0;
}

abbrev staff : Accounts
staff = record {
  users = account 1 8 ∷ account 2 9 ∷ [];
  roles = waiter_role ∷ admin_role ∷ [];
  catalogue = (b'r' ∷ []) ∷ [];
  tokens = session ∷ [];
  next_id = 10;
}

abbrev spent : Accounts
spent = record staff {
  tokens = update_where (λ t. t.id == 3) (λ t. record t { revoked_at = some 100 }) staff.tokens;
}

abbrev in_between : List Call
in_between = Call.login 200 0 (1 ∷ []) 7 ∷ Call.update_role 8 none none ∷ []

refresh_once_example :
    refresh crypto 300 0 3
      (run crypto in_between (issue_tokens crypto 100 0 (account 1 8) waiter_role spent).1)
    ≡ err (unauthorized Reason.invalid_refresh_token)
unfolding refresh
refresh_once_example =
    refresh_once crypto 100 0 3 staff (issue_tokens crypto 100 0 (account 1 8) waiter_role spent).1
      (issue_tokens crypto 100 0 (account 1 8) waiter_role spent).0 (stable 3) (omega arith, tt)
      refl in_between 300 0

abbrev dismissed : Accounts
dismissed = revoke_where (λ t. t.user_id == 1) 100 (update_user_row 1 deactivated staff)

deactivate_user-refresh_example :
    refresh crypto 300 0 3 (run crypto in_between dismissed)
    ≡ err (unauthorized Reason.invalid_refresh_token)
unfolding deactivate_user
deactivate_user-refresh_example =
    deactivate_user-refresh crypto 100 50 1 3 (some 2) (record { sub = 1; jti = 3 }) staff dismissed
      (stable 3) refl (omega arith) (λ same. refl, tt) refl in_between 300 0

deactivate_user-IsAdministered_example : Holds IsAdministered (deactivate_user 100 1 (some 2) staff)
deactivate_user-IsAdministered_example =
    deactivate_user-IsAdministered 100 1 (some 2) staff ((refl, tt), (tt, tt)) (omega arith)

abbrev waiter : Claims
waiter = record {
  sub = 1;
  email = 1 ∷ [];
  role_id = 8;
  role_name = waiter_role.name;
  permissions = waiter_role.permissions;
}

authorize-MayPass_example :
    (authorize ((b'r' ∷ []) ∷ []) (some waiter) ≡ ok tt) ↔ MayPass ((b'r' ∷ []) ∷ []) (some waiter)
authorize-MayPass_example = authorize-MayPass ((b'r' ∷ []) ∷ []) (some waiter)
