-- ===== src/Access/Administered.antt =====
-- The system keeps a super admin who can sign in.
use restaurant_qr_ordering_s.Base.{
  ℕ, ◌+◌, ◌<◌, ◌≤◌, ◌≡◌, refl, sym, subst, Bool, true, false, ◌&&◌, Option, none, some, List, [],
  ◌∷◌, leb, ◌==◌, arith, inl, inr, Bool-cases, ==_iff, some-injective, All-map, update_where-None,
  find_by, update_where, count_where, All, None,
}
use restaurant_qr_ordering_s.Access.Rows.{Accounts, User, find_role, is_user}
use restaurant_qr_ordering_s.Access.Users.{
  deactivate_user, deactivated, get_user, is_own, has_admin_role, is_admin,
}
use restaurant_qr_ordering_s.Access.Calls.{found-some, Holds, Holds->>=, Holds-throw_if}

-- No two accounts share an id.
abbrev pub DistinctUsers : List User → Type 0
DistinctUsers [] = Unit
DistinctUsers (u ∷ us) = None (λ x. x.id == u.id) us × DistinctUsers us

-- Deactivating one account takes at most one from any count of accounts.
one_fewer :
    (p : User → Bool) (id : ℕ) (us : List User)
    → DistinctUsers us
    → count_where p us ≤ count_where p (update_where (λ u. u.id == id) deactivated us) + 1
one_fewer p id [] h = ground arith
one_fewer p id (u ∷ us) (h, hs) = elim (Bool-cases (u.id == id)) [
  | inl e ↦
      let others : None (λ x. x.id == id) us =
        subst (λ n. None (λ x. x.id == n) us) ((==_iff u.id id).0 e) h in
      rw (e, update_where-None (λ x. x.id == id) deactivated us others) (ground arith)
  | inr e ↦ rw e (ground (arith, one_fewer p id us hs))
]

-- With the id of no account that counts, it takes none.
none_fewer :
    (p : User → Bool) (id : ℕ) (us : List User)
    → All (λ u. (u.id == id) ≡ true → p u ≡ false) us
    → count_where p us ≤ count_where p (update_where (λ u. u.id == id) deactivated us)
none_fewer p id [] h = ground arith
none_fewer p id (u ∷ us) (h, hs) = elim (Bool-cases (u.id == id)) [
  | inl e ↦ rw (e, h e) (ground (arith, none_fewer p id us hs))
  | inr e ↦ rw e (ground (arith, none_fewer p id us hs))
]

none-found : (id : ℕ) (us : List User) → None (λ x. x.id == id) us → find_by (is_user id) us ≡ none
none-found id [] h = refl
none-found id (u ∷ us) (h, hs) = rw h (none-found id us hs)

only_row :
    (id : ℕ) (us : List User) (user : User)
    → DistinctUsers us
    → find_by (is_user id) us ≡ some user
    → All (λ u. (u.id == id) ≡ true → u ≡ user) us
only_row id [] user h e = tt
only_row id (u ∷ us) user (h, hs) e = elim (Bool-cases (u.id == id)) [
  | inr other ↦ ((λ same. cc (same, other)), only_row id us user hs (rw other at e))
  | inl same ↦
      let others : None (λ x. x.id == id) us =
        subst (λ n. None (λ x. x.id == n) us) ((==_iff u.id id).0 same) h in
      (
        (λ _. elim (Bool-cases (is_user id u)) [
          | inl there ↦ some-injective _ _ (rw there at e)
          | inr gone ↦ cc (none-found id us others, rw gone at e)
        ]),
        All-map (λ x. (x.id == id) ≡ false) _ (λ x differs equal. cc (differs, equal)) us others,
      )
]

-- Some account with the role of the super admin can sign in.
abbrev pub IsAdministered : Accounts → Type 0
IsAdministered a = 0 < count_where (is_admin a) a.users

-- Deactivating an account never takes away the last super admin who can sign in. No two accounts
-- share an id.
pub deactivate_user-IsAdministered :
    (now id : ℕ) (actor : Option ℕ) (a : Accounts)
    → DistinctUsers a.users
    → IsAdministered a
    → Holds IsAdministered (deactivate_user now id actor a)
unfolding deactivate_user
deactivate_user-IsAdministered now id actor a distinct v =
    Holds->>= IsAdministered {B = Unit {0}} (get_user id a) _ λ user known.
      Holds-throw_if IsAdministered (is_own id actor) _ _ λ other.
        Holds-throw_if IsAdministered
          (has_admin_role (find_role user.role_id a) && leb (count_where (is_admin a) a.users) 1) _
          _
          λ remain. elim (Bool-cases (has_admin_role (find_role user.role_id a))) [
            | inl admin ↦
                ground (arith, one_fewer (is_admin a) id a.users distinct, v, rw admin at remain)
            | inr ordinary ↦ ground (
              arith,
              none_fewer (is_admin a) id a.users (
                  All-map (λ u. (u.id == id) ≡ true → u ≡ user) _
                    (λ u only same.
                      subst (λ x. is_admin a x ≡ false) (sym (only same)) (rw ordinary refl))
                    a.users (only_row id a.users user distinct (found-some _ user _ known))),
              v,
            )
          ]
