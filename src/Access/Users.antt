-- ===== src/Access/Users.antt =====
-- server/src/services/user.service.ts.
use Prim.Native.String.{String}
use restaurant_qr_ordering_s.Base.{
  ℕ, ◌+◌, Bool, true, false, not, ◌&&◌, Option, none, some, [], ◌∷◌, ◌++◌, leb, ◌==◌, or_else,
  or_keep, find_by, exists_where, count_where, same_text,
}
use restaurant_qr_ordering_s.Errors.{
  Result, ok, ◌>>=◌, ◌>>◌, throw_if, bad_request, not_found, conflict, Reason,
}
use restaurant_qr_ordering_s.Money.Digits.{Text}
use restaurant_qr_ordering_s.Store.{found}
use restaurant_qr_ordering_s.Access.Rows.{
  Accounts, User, Role, is_user, find_role, is_super_admin, revoke_where, update_user_row,
}

abbrev pub get_user : ℕ → Accounts → Result User
get_user id a = found (find_by (is_user id) a.users) (not_found Reason.user_not_found)

abbrev pub is_known {ℓ} : {A : Type ℓ} → Option A → Bool
is_known none = false
is_known (some x) = true

abbrev pub assert_role_exists : ℕ → Accounts → Result (Unit {0})
assert_role_exists id a =
    throw_if (not (is_known (find_role id a))) (bad_request Reason.role_missing)

pub record CreateUserInput : Type 0 where
  pub email : Text
  pub password : ℕ
  pub full_name : String
  pub phone : Option ℕ
  pub role_id : ℕ
  pub is_active : Option Bool

abbrev pub new_user : CreateUserInput → ℕ → ℕ → User
new_user input hash id = record {
  id = id;
  email = input.email;
  password_hash = hash;
  full_name = input.full_name;
  phone = input.phone;
  role_id = input.role_id;
  is_active = or_else input.is_active true;
  deleted = false;
  last_login_at = none;
}

abbrev pub insert_user : User → Accounts → Accounts
insert_user u a = record a { users = a.users ++ (u ∷ []); next_id = a.next_id + 1 }

-- The e-mail of an account is unique, deleted accounts included.
unfoldable pub create_user : (ℕ → ℕ → ℕ) → ℕ → CreateUserInput → Accounts → Result (User × Accounts)
create_user hash_password now input a = do
  throw_if (exists_where (λ u. same_text u.email input.email) a.users) (conflict Reason.email_taken)
  assert_role_exists input.role_id a
  let user = new_user input (hash_password now input.password) a.next_id
  ok (user, insert_user user a)

pub record UpdateUserInput : Type 0 where
  pub email : Option Text
  pub full_name : Option String
  pub phone : Option ℕ
  pub role_id : Option ℕ
  pub is_active : Option Bool

abbrev pub check_email : ℕ → Option Text → Accounts → Result (Unit {0})
check_email id none a = ok tt
check_email id (some email) a =
    throw_if (exists_where (λ u. same_text u.email email && not (u.id == id)) a.users)
      (conflict Reason.email_taken)

abbrev pub check_role : Option ℕ → Accounts → Result (Unit {0})
check_role none a = ok tt
check_role (some id) a = assert_role_exists id a

abbrev pub updated_user : UpdateUserInput → User → User
updated_user input u = record u {
  email = or_else input.email u.email;
  full_name = or_else input.full_name u.full_name;
  phone = or_keep input.phone u.phone;
  role_id = or_else input.role_id u.role_id;
  is_active = or_else input.is_active u.is_active;
}

unfoldable pub update_user : ℕ → UpdateUserInput → Accounts → Result (User × Accounts)
update_user id input a = do
  user ← get_user id a
  check_email id input.email a
  check_role input.role_id a
  ok (updated_user input user, update_user_row id (updated_user input) a)

unfoldable pub reset_password : (ℕ → ℕ → ℕ) → ℕ → ℕ → ℕ → Accounts → Result (Unit {0} × Accounts)
reset_password hash_password now id password a = do
  user ← get_user id a
  ok (
    tt,
    revoke_where (λ t. t.user_id == id) now
        (update_user_row id (λ u. record u { password_hash = hash_password now password }) a),
  )

-- An account whose role is the super admin's, that is active and not deleted.
abbrev pub has_admin_role : Option Role → Bool
has_admin_role none = false
has_admin_role (some r) = is_super_admin r.name

abbrev pub is_admin : Accounts → User → Bool
is_admin a u = has_admin_role (find_role u.role_id a) && (u.is_active && not u.deleted)

abbrev pub is_own : ℕ → Option ℕ → Bool
is_own id none = false
is_own id (some actor) = id == actor

abbrev pub deactivated : User → User
deactivated u = record u { is_active = false; deleted = true }

unfoldable pub deactivate_user : ℕ → ℕ → Option ℕ → Accounts → Result (Unit {0} × Accounts)
deactivate_user now id actor a = do
  user ← get_user id a
  throw_if (is_own id actor) (bad_request Reason.own_account)
  throw_if (has_admin_role (find_role user.role_id a) && leb (count_where (is_admin a) a.users) 1)
      (conflict Reason.last_super_admin)
  ok (tt, revoke_where (λ t. t.user_id == id) now (update_user_row id deactivated a))
