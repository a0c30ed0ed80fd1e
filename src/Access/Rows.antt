-- ===== src/Access/Rows.antt =====
-- The rows of the staff accounts. A password, a hash, a signed token and the context of a session are
-- opaque numbers; an e-mail, a role's name and a permission key are texts.
use Prim.Native.String.{String}
use restaurant_qr_ordering_s.Base.{
  ℕ, Bool, true, false, not, ◌&&◌, Option, none, some, List, [], ◌∷◌, ◌==◌, find_by, update_where,
  same_text,
}
use restaurant_qr_ordering_s.Money.Digits.{Text}

pub record Role : Type 0 where
  pub id : ℕ
  pub name : Text
  pub description : Option String
  pub is_system : Bool
  -- the keys that the join table gives
  pub permissions : List Text

pub record User : Type 0 where
  pub id : ℕ
  pub email : Text
  pub password_hash : ℕ
  pub full_name : String
  pub phone : Option ℕ
  pub role_id : ℕ
  pub is_active : Bool
  pub deleted : Bool
  pub last_login_at : Option ℕ

pub record RefreshToken : Type 0 where
  pub id : ℕ
  -- `none` is the text that holds the place of the hash
  pub token_hash : Option ℕ
  pub user_id : ℕ
  pub expires_at : ℕ
  pub revoked_at : Option ℕ
  pub context : ℕ

pub record Accounts : Type 0 where
  pub users : List User
  pub roles : List Role
  -- the catalogue of keys
  pub catalogue : List Text
  pub tokens : List RefreshToken
  pub next_id : ℕ

-- "SUPER_ADMIN"
abbrev pub super_admin : Text
super_admin = b'S' ∷ b'U' ∷ b'P' ∷ b'E' ∷ b'R' ∷ b'_' ∷ b'A' ∷ b'D' ∷ b'M' ∷ b'I' ∷ b'N' ∷ []

abbrev pub is_super_admin : Text → Bool
is_super_admin name = same_text name super_admin

abbrev pub is_user : ℕ → User → Bool
is_user id u = u.id == id && not u.deleted

abbrev pub find_role : ℕ → Accounts → Option Role
find_role id a = find_by (λ r. r.id == id) a.roles

abbrev pub is_unrevoked : Option ℕ → Bool
is_unrevoked none = true
is_unrevoked (some at) = false

-- `updateMany` of the tokens that are not revoked and pass the test.
abbrev pub revoke_where : (RefreshToken → Bool) → ℕ → Accounts → Accounts
revoke_where p now a = record a {
  tokens =
      update_where (λ t. p t && is_unrevoked t.revoked_at) (λ t. record t { revoked_at = some now })
        a.tokens;
}

abbrev pub update_user_row : ℕ → (User → User) → Accounts → Accounts
update_user_row id f a = record a { users = update_where (λ u. u.id == id) f a.users }

abbrev pub update_role_row : ℕ → (Role → Role) → Accounts → Accounts
update_role_row id f a = record a { roles = update_where (λ r. r.id == id) f a.roles }
