-- ===== src/Access/Tokens.antt =====
-- What every call on the accounts keeps of the refresh tokens: a property of the ids given out and
-- the tokens that the four writes of tokens keep.
use Prim.Native.String.{String}
use restaurant_qr_ordering_s.Base.{
  ℕ, ◌+◌, ◌≡◌, refl, Bool, not, ◌&&◌, Option, some, List, [], ◌∷◌, ◌++◌, ltb, ◌==◌, find_by,
  same_text, leb, length, exists_where, count_where, update_where,
}
use restaurant_qr_ordering_s.Errors.{unauthorized, Reason}
use restaurant_qr_ordering_s.Money.Digits.{Text}
use restaurant_qr_ordering_s.Store.{found}
use restaurant_qr_ordering_s.Access.Rows.{
  Accounts, User, Role, RefreshToken, is_unrevoked, revoke_where, find_role, is_super_admin,
}
use restaurant_qr_ordering_s.Access.Guard.{Claims}
use restaurant_qr_ordering_s.Access.Sessions.{
  Crypto, AuthTokens, issue_tokens, login, refresh, logout, logout_all, is_refused, with_role,
  find_user_with_permissions,
}
use restaurant_qr_ordering_s.Access.Users.{
  CreateUserInput, UpdateUserInput, create_user, update_user, reset_password, deactivate_user,
  get_user, assert_role_exists, check_email, check_role, is_own, has_admin_role, is_admin,
}
use restaurant_qr_ordering_s.Access.Roles.{
  create_role, update_role, delete_role, set_role_permissions, get_role, renames_built_in,
  check_role_name, users_with, known_keys, distinct_keys,
}
use restaurant_qr_ordering_s.Access.Calls.{
  Call, step, run, Holds, Holds->>=, Holds-throw_if, after-Holds,
}

pub record IsClosed (P : ℕ → List RefreshToken → Type 0) : Type 0 where
  pub grows : {n : ℕ} {ts : List RefreshToken} → P n ts → P (n + 1) ts
  pub inserted :
      {n : ℕ} {ts : List RefreshToken} (t : RefreshToken)
      → t.id ≡ n
      → P n ts
      → P (n + 1) (ts ++ (t ∷ []))
  pub hashed :
      {n : ℕ} {ts : List RefreshToken} (p : RefreshToken → Bool) (hash : ℕ)
      → P n ts
      → P n (update_where p (λ t. record t { token_hash = some hash }) ts)
  pub revoked :
      {n : ℕ} {ts : List RefreshToken} (p : RefreshToken → Bool) (now : ℕ)
      → P n ts
      → P n (update_where p (λ t. record t { revoked_at = some now }) ts)

module _ (P : ℕ → List RefreshToken → Type 0) (s : IsClosed P) where
  abbrev Q : Accounts → Type 0
  Q a = P a.next_id a.tokens

  pub revoke_where-Q :
      (p : RefreshToken → Bool) (now : ℕ) (a : Accounts) → Q a → Q (revoke_where p now a)
  revoke_where-Q p now a v = s.revoked (λ t. p t && is_unrevoked t.revoked_at) now v

  pub issue_tokens-Q :
      (c : Crypto) (now context : ℕ) (u : User) (r : Role) (a : Accounts)
      → Q a
      → Q (issue_tokens c now context u r a).1
  unfolding issue_tokens
  issue_tokens-Q c now context u r a v = s.hashed (λ t. t.id == a.next_id) _ (s.inserted _ refl v)

  login-Holds :
      (c : Crypto) (now context : ℕ) (email : Text) (password : ℕ) (a : Accounts)
      → Q a
      → Holds Q (login c now context email password a)
  unfolding login
  login-Holds c now context email password a v =
      Holds->>= Q {B = Claims × AuthTokens}
        (found (with_role a (find_by (λ x. same_text x.email email && not x.deleted) a.users))
          (unauthorized Reason.invalid_credentials))
        _
        λ (u, r) known.
          Holds-throw_if Q (not (c.verify_password password u.password_hash)) _ _ λ matches.
            Holds-throw_if Q (not u.is_active) _ _ λ active. issue_tokens-Q c now context u r a v

  refresh-Holds :
      (c : Crypto) (now context token : ℕ) (a : Accounts)
      → Q a
      → Holds Q (refresh c now context token a)
  unfolding refresh
  refresh-Holds c now context token a v =
      Holds->>= Q {B = AuthTokens} (found (c.verify_refresh now token) _) _ λ payload verified.
        Holds->>= Q (found (find_by (λ t. t.id == payload.jti) a.tokens) _) _ λ stored at.
          Holds-throw_if Q (is_refused c now token stored) _ _ λ accepted.
            Holds->>= Q (found (find_user_with_permissions payload.sub a) _) _ λ (u, r) known.
              Holds-throw_if Q (not u.is_active) _ _ λ active.
                issue_tokens-Q c now context u r _ (s.revoked (λ t. t.id == stored.id) now v)

  module _ (hash_password : ℕ → ℕ → ℕ) (a : Accounts) (v : Q a) where
    create_user-Holds :
        (now : ℕ) (input : CreateUserInput) → Holds Q (create_user hash_password now input a)
    unfolding create_user
    create_user-Holds now input =
        Holds-throw_if Q {B = User} (exists_where (λ u. same_text u.email input.email) a.users) _ _
          λ free. Holds->>= Q (assert_role_exists input.role_id a) _ λ done known. s.grows v

    update_user-Holds : (id : ℕ) (input : UpdateUserInput) → Holds Q (update_user id input a)
    unfolding update_user
    update_user-Holds id input = Holds->>= Q {B = User} (get_user id a) _ λ user known.
        Holds->>= Q (check_email id input.email a) _
          λ done free. Holds->>= Q (check_role input.role_id a) _ λ done known. v

    reset_password-Holds :
        (now id password : ℕ) → Holds Q (reset_password hash_password now id password a)
    unfolding reset_password
    reset_password-Holds now id password =
        Holds->>= Q {B = Unit {0}} (get_user id a) _
          λ user known. revoke_where-Q (λ t. t.user_id == id) now a v

    deactivate_user-Holds :
        (now id : ℕ) (actor : Option ℕ) → Holds Q (deactivate_user now id actor a)
    unfolding deactivate_user
    deactivate_user-Holds now id actor = Holds->>= Q {B = Unit {0}} (get_user id a) _ λ user known.
        Holds-throw_if Q (is_own id actor) _ _ λ other.
          Holds-throw_if Q
            (has_admin_role (find_role user.role_id a) && leb (count_where (is_admin a) a.users) 1)
            _ _ λ remain. revoke_where-Q (λ t. t.user_id == id) now a v

    create_role-Holds :
        (name : Text) (description : Option String) → Holds Q (create_role name description a)
    unfolding create_role
    create_role-Holds name description =
        Holds-throw_if Q {B = Role} (exists_where (λ r. same_text r.name name) a.roles) _ _
          λ free. s.grows v

    update_role-Holds :
        (id : ℕ) (name : Option Text) (description : Option String)
        → Holds Q (update_role id name description a)
    unfolding update_role
    update_role-Holds id name description = Holds->>= Q {B = Role} (get_role id a) _ λ role known.
        Holds-throw_if Q (renames_built_in role name) _ _
          λ free. Holds->>= Q (check_role_name id name a) _ λ done free. v

    delete_role-Holds : (id : ℕ) → Holds Q (delete_role id a)
    unfolding delete_role
    delete_role-Holds id = Holds->>= Q {B = Unit {0}} (get_role id a) _ λ role known.
        Holds-throw_if Q role.is_system _ _
          λ own. Holds-throw_if Q (ltb 0 (users_with id a)) _ _ λ unused. v

    set_role_permissions-Holds :
        (id : ℕ) (keys : List Text) → Holds Q (set_role_permissions id keys a)
    unfolding set_role_permissions
    set_role_permissions-Holds id keys = Holds->>= Q {B = Role} (get_role id a) _ λ role known.
        Holds-throw_if Q (is_super_admin role.name) _ _ λ ordinary.
          Holds-throw_if Q
            (not (length (known_keys keys a.catalogue) == length (distinct_keys keys))) _ _
            λ all_known. v

  module _ (c : Crypto) where
    step-Q : (call : Call) (a : Accounts) → Q a → Q (step c call a)
    unfolding logout logout_all
    step-Q (Call.login now context email password) a v =
        after-Holds Q a _ v (login-Holds c now context email password a v)
    step-Q (Call.refresh now context token) a v =
        after-Holds Q a _ v (refresh-Holds c now context token a v)
    step-Q (Call.logout now token) a v = revoke_where-Q _ now a v
    step-Q (Call.logout_all now user_id) a v = revoke_where-Q (λ t. t.user_id == user_id) now a v
    step-Q (Call.create_user now input) a v =
        after-Holds Q a _ v (create_user-Holds c.hash_password a v now input)
    step-Q (Call.update_user id input) a v =
        after-Holds Q a _ v (update_user-Holds c.hash_password a v id input)
    step-Q (Call.reset_password now id password) a v =
        after-Holds Q a _ v (reset_password-Holds c.hash_password a v now id password)
    step-Q (Call.deactivate_user now id actor) a v =
        after-Holds Q a _ v (deactivate_user-Holds c.hash_password a v now id actor)
    step-Q (Call.create_role name description) a v =
        after-Holds Q a _ v (create_role-Holds c.hash_password a v name description)
    step-Q (Call.update_role id name description) a v =
        after-Holds Q a _ v (update_role-Holds c.hash_password a v id name description)
    step-Q (Call.delete_role id) a v =
        after-Holds Q a _ v (delete_role-Holds c.hash_password a v id)
    step-Q (Call.set_role_permissions id keys) a v =
        after-Holds Q a _ v (set_role_permissions-Holds c.hash_password a v id keys)

    pub run-Q : (calls : List Call) (a : Accounts) → Q a → Q (run c calls a)
    run-Q [] a v = v
    run-Q (call ∷ calls) a v = run-Q calls (step c call a) (step-Q call a v)
