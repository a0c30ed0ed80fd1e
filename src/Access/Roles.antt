-- ===== src/Access/Roles.antt =====
-- The writes of server/src/services/role.service.ts.
use Prim.Native.String.{String}
use restaurant_qr_ordering_s.Base.{
  ℕ, ◌+◌, Bool, false, not, ◌&&◌, Option, none, some, List, [], ◌∷◌, ◌++◌, ltb, ◌==◌, if◌then◌else◌,
  length, or_else, or_keep, select, exists_where, count_where, same_text, includes,
}
use restaurant_qr_ordering_s.Errors.{
  Result, ok, ◌>>=◌, ◌>>◌, throw_if, bad_request, forbidden, not_found, conflict, Reason,
}
use restaurant_qr_ordering_s.Money.Digits.{Text}
use restaurant_qr_ordering_s.Store.{found}
use restaurant_qr_ordering_s.Access.Rows.{
  Accounts, Role, find_role, is_super_admin, update_role_row,
}

abbrev pub get_role : ℕ → Accounts → Result Role
get_role id a = found (find_role id a) (not_found Reason.role_not_found)

abbrev pub new_role : Text → Option String → ℕ → Role
new_role name description id = record {
  id = id;
  name = name;
  description = description;
  is_system = false;
  permissions = [];
}

unfoldable pub create_role : Text → Option String → Accounts → Result (Role × Accounts)
create_role name description a = do
  throw_if (exists_where (λ r. same_text r.name name) a.roles) (conflict Reason.role_name_taken)
  let role = new_role name description a.next_id
  ok (role, record a { roles = a.roles ++ (role ∷ []); next_id = a.next_id + 1 })

-- A built-in role under another name than its own.
abbrev pub renames_built_in : Role → Option Text → Bool
renames_built_in r none = false
renames_built_in r (some name) = r.is_system && not (same_text name r.name)

abbrev pub check_role_name : ℕ → Option Text → Accounts → Result (Unit {0})
check_role_name id none a = ok tt
check_role_name id (some name) a =
    throw_if (exists_where (λ r. same_text r.name name && not (r.id == id)) a.roles)
      (conflict Reason.role_name_taken)

abbrev pub updated_role : Option Text → Option String → Role → Role
updated_role name description r = record r {
  name = or_else name r.name;
  description = or_keep description r.description;
}

unfoldable pub update_role : ℕ → Option Text → Option String → Accounts → Result (Role × Accounts)
update_role id name description a = do
  role ← get_role id a
  throw_if (renames_built_in role name) (forbidden Reason.built_in_renamed)
  check_role_name id name a
  ok (updated_role name description role, update_role_row id (updated_role name description) a)

abbrev pub users_with : ℕ → Accounts → ℕ
users_with id a = count_where (λ u. u.role_id == id) a.users

unfoldable pub delete_role : ℕ → Accounts → Result (Unit {0} × Accounts)
delete_role id a = do
  role ← get_role id a
  throw_if role.is_system (forbidden Reason.built_in_deleted)
  throw_if (ltb 0 (users_with id a)) (conflict (Reason.role_in_use (users_with id a)))
  ok (tt, record a { roles = select (λ r. not (r.id == id)) a.roles })

-- The elements of `new Set(keys)`.
abbrev pub distinct_keys : List Text → List Text
distinct_keys [] = []
distinct_keys (k ∷ ks) = if includes k ks then distinct_keys ks else k ∷ distinct_keys ks

abbrev pub known_keys : List Text → List Text → List Text
known_keys keys = select (λ k. includes k keys)

abbrev pub unknown_keys : List Text → List Text → List Text
unknown_keys known = select (λ k. not (includes k known))

unfoldable pub set_role_permissions : ℕ → List Text → Accounts → Result (Role × Accounts)
set_role_permissions id keys a = do
  role ← get_role id a
  throw_if (is_super_admin role.name) (forbidden Reason.super_admin_fixed)
  let known = known_keys keys a.catalogue
  throw_if (not (length known == length (distinct_keys keys)))
      (bad_request (Reason.unknown_permissions (unknown_keys known keys)))
  ok (
    record role { permissions = known },
    update_role_row id (λ r. record r { permissions = known }) a,
  )
