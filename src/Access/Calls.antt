-- ===== src/Access/Calls.antt =====
-- The calls that change the accounts, one for each service function that writes, and what a sequence
-- of them leaves behind. A call that throws writes nothing.
use Prim.Native.String.{String}
use restaurant_qr_ordering_s.Base.{
  ℕ, ◌≡◌, refl, Bool, true, false, Option, none, some, List, [], ◌∷◌,
}
use restaurant_qr_ordering_s.Errors.{Result, ok, err, AppError, ◌>>=◌, ◌>>◌, throw_if}
use restaurant_qr_ordering_s.Money.Digits.{Text}
use restaurant_qr_ordering_s.Store.{found}
use restaurant_qr_ordering_s.Access.Rows.{Accounts}
use restaurant_qr_ordering_s.Access.Sessions as Sessions
use restaurant_qr_ordering_s.Access.Sessions.{Crypto}
use restaurant_qr_ordering_s.Access.Users as Users
use restaurant_qr_ordering_s.Access.Users.{CreateUserInput, UpdateUserInput}
use restaurant_qr_ordering_s.Access.Roles as Roles

pub data Call : Type 0 where
  login : ℕ → ℕ → Text → ℕ → Call
  refresh : ℕ → ℕ → ℕ → Call
  logout logout_all : ℕ → ℕ → Call
  create_user : ℕ → CreateUserInput → Call
  update_user : ℕ → UpdateUserInput → Call
  reset_password : ℕ → ℕ → ℕ → Call
  deactivate_user : ℕ → ℕ → Option ℕ → Call
  create_role : Text → Option String → Call
  update_role : ℕ → Option Text → Option String → Call
  delete_role : ℕ → Call
  set_role_permissions : ℕ → List Text → Call

abbrev pub after {ℓ} : {A : Type ℓ} → Accounts → Result (A × Accounts) → Accounts
after a (ok (x, b)) = b
after a (err e) = a

pub found-some : {A : Type 0} (o : Option A) (x : A) (e : AppError) → found o e ≡ ok x → o ≡ some x
found-some none x e h = cc
found-some (some z) x e h = cc

-- A call that commits leaves a state with the property, and one that throws has no state.
module _ (P : Accounts → Type 0) where
  abbrev pub Holds : {A : Type 0} → Result (A × Accounts) → Type 0
  Holds (ok (x, a)) = P a
  Holds (err e) = Unit

  pub Holds->>= :
      {A B : Type 0} (m : Result A) (f : A → Result (B × Accounts))
      → ((a : A) → m ≡ ok a → Holds (f a))
      → Holds (m >>= f)
  Holds->>= (ok a) f h = h a refl
  Holds->>= (err e) f h = tt

  pub Holds-throw_if :
      {B : Type 0} (b : Bool) (e : AppError) (r : Result (B × Accounts))
      → (b ≡ false → Holds r)
      → Holds (throw_if b e >> r)
  Holds-throw_if true e r h = tt
  Holds-throw_if false e r h = h refl

  pub after-Holds :
      {A : Type 0} (a : Accounts) (r : Result (A × Accounts)) → P a → Holds r → P (after a r)
  after-Holds a (ok (x, b)) v h = h
  after-Holds a (err e) v h = v

module _ (c : Crypto) where
  abbrev pub step : Call → Accounts → Accounts
  step (Call.login now context email password) a =
      after a (Sessions.login c now context email password a)
  step (Call.refresh now context token) a = after a (Sessions.refresh c now context token a)
  step (Call.logout now token) a = Sessions.logout c now token a
  step (Call.logout_all now user_id) a = (Sessions.logout_all now user_id a).1
  step (Call.create_user now input) a = after a (Users.create_user c.hash_password now input a)
  step (Call.update_user id input) a = after a (Users.update_user id input a)
  step (Call.reset_password now id password) a =
      after a (Users.reset_password c.hash_password now id password a)
  step (Call.deactivate_user now id actor) a = after a (Users.deactivate_user now id actor a)
  step (Call.create_role name description) a = after a (Roles.create_role name description a)
  step (Call.update_role id name description) a = after a (Roles.update_role id name description a)
  step (Call.delete_role id) a = after a (Roles.delete_role id a)
  step (Call.set_role_permissions id keys) a = after a (Roles.set_role_permissions id keys a)

  -- The first call comes first.
  abbrev pub run : List Call → Accounts → Accounts
  run [] a = a
  run (call ∷ calls) a = run calls (step call a)
