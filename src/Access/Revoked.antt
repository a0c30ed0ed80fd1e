-- ===== src/Access/Revoked.antt =====
-- A refresh token that was used or revoked is never accepted again.
use restaurant_qr_ordering_s.Base.{
  ℕ, ◌+◌, ◌<◌, ◌≡◌, refl, sym, ◌∙◌, ap, subst, true, false, not, ◌&&◌, Option, none, some,
  some-injective, ==_iff, List, [], ◌∷◌, ◌==◌, arith, inl, inr, Bool-cases, Option-cases, find_by,
  find_by-holds, leb, count_where, update_where, All, All-append, All-map, All-update_where,
  All-find_by,
}
use restaurant_qr_ordering_s.Errors.{ok, err, unauthorized, Reason}
use restaurant_qr_ordering_s.Store.{found}
use restaurant_qr_ordering_s.Access.Rows.{Accounts, RefreshToken, is_unrevoked, find_role}
use restaurant_qr_ordering_s.Access.Sessions.{
  Crypto, RefreshClaims, AuthTokens, refresh, is_refused, find_user_with_permissions,
}
use restaurant_qr_ordering_s.Access.Users.{
  deactivate_user, get_user, is_own, has_admin_role, is_admin,
}
use restaurant_qr_ordering_s.Access.Tokens.{IsClosed, run-Q, issue_tokens-Q}
use restaurant_qr_ordering_s.Access.Calls.{Call, found-some, run, Holds, Holds->>=, Holds-throw_if}

-- The row with the id is revoked.
abbrev pub IsDead : ℕ → RefreshToken → Type 0
IsDead jti t = (t.id == jti) ≡ true → is_unrevoked t.revoked_at ≡ false

-- The row of the token, if there is one, is revoked, and its id is not given again.
abbrev pub IsRevoked : ℕ → ℕ → List RefreshToken → Type 0
IsRevoked jti next_id tokens = (jti < next_id) × All (IsDead jti) tokens

IsRevoked-IsClosed : (jti : ℕ) → IsClosed (IsRevoked jti)
IsRevoked-IsClosed jti = record {
  grows = λ v. (omega (arith, v.0), v.1);
  inserted = λ {n} {ts} t new v. (
    omega (arith, v.0),
    All-append (IsDead jti) ts _ v.1 ((λ same. absurd (ground (arith, new, same, v.0))), tt),
  );
  hashed = λ {n} {ts} p hash v. (v.0, All-update_where (IsDead jti) p _ (λ t same h. h) ts v.1);
  revoked =
      λ {n} {ts} p now v. (v.0, All-update_where (IsDead jti) p _ (λ t same h e. refl) ts v.1);
}

-- Every id of a token was given out.
abbrev pub IsNumbered : ℕ → List RefreshToken → Type 0
IsNumbered next_id tokens = All (λ t. t.id < next_id) tokens

IsNumbered-IsClosed : IsClosed IsNumbered
IsNumbered-IsClosed = record {
  grows = λ {n} {ts} v. All-map _ _ (λ t h. omega arith) ts v;
  inserted = λ {n} {ts} t new v.
      All-append (λ x. x.id < n + 1) ts _ (All-map _ _ (λ x h. omega arith) ts v) (omega arith, tt);
  hashed = λ {n} {ts} p hash v. All-update_where (λ t. t.id < n) p _ (λ t same h. h) ts v;
  revoked = λ {n} {ts} p now v. All-update_where (λ t. t.id < n) p _ (λ t same h. h) ts v;
}

-- A refresh with a revoked token is refused.
refresh-refused :
    (c : Crypto) (now context token : ℕ) (p : RefreshClaims) (a : Accounts)
    → c.verify_refresh now token ≡ some p
    → IsRevoked p.jti a.next_id a.tokens
    → refresh c now context token a ≡ err (unauthorized Reason.invalid_refresh_token)
unfolding refresh
refresh-refused c now context token p a verified (issued, dead) =
    elim (Option-cases (find_by (λ t. t.id == p.jti) a.tokens)) [
      | inl gone ↦ rw (verified, gone) refl
      | inr (t, at) ↦
          let revoked : is_unrevoked t.revoked_at ≡ false =
            All-find_by (IsDead p.jti) _ a.tokens t dead at
              (find_by-holds (λ x. x.id == p.jti) a.tokens t at) in
          rw (verified, at, revoked) refl
    ]

unread-refused :
    (c : Crypto) (now context token : ℕ) (a : Accounts)
    → c.verify_refresh now token ≡ none
    → refresh c now context token a ≡ err (unauthorized Reason.invalid_refresh_token)
unfolding refresh
unread-refused c now context token a unread = rw unread refl

killed :
    (jti now : ℕ) (ts : List RefreshToken)
    → All
        (IsDead jti)
        (update_where (λ t. t.id == jti) (λ t. record t { revoked_at = some now }) ts)
killed jti now [] = tt
killed jti now (t ∷ ts) = elim (Bool-cases (t.id == jti)) [
  | inl e ↦ (rw e (λ same. refl), killed jti now ts)
  | inr e ↦ (rw e (λ same. cc), killed jti now ts)
]

-- A refresh that succeeds leaves its token revoked.
refresh-spends :
    (c : Crypto) (now context token : ℕ) (p : RefreshClaims) (a : Accounts)
    → c.verify_refresh now token ≡ some p
    → IsNumbered a.next_id a.tokens
    → Holds (λ b. IsRevoked p.jti b.next_id b.tokens) (refresh c now context token a)
unfolding refresh
refresh-spends c now context token p a verified numbered =
    let Q : Accounts → Type 0 = λ b. IsRevoked p.jti b.next_id b.tokens in
    Holds->>= Q {B = AuthTokens} (found (c.verify_refresh now token) _) _ λ payload e.
      Holds->>= Q (found (find_by (λ t. t.id == payload.jti) a.tokens) _) _ λ stored at.
        Holds-throw_if Q (is_refused c now token stored) _ _ λ accepted.
          Holds->>= Q (found (find_user_with_permissions payload.sub a) _) _ λ (u, r) known.
            Holds-throw_if Q (not u.is_active) _ _ λ active.
              issue_tokens-Q (IsRevoked p.jti) (IsRevoked-IsClosed p.jti) c now context u r _ (
                let at' = found-some (find_by (λ t. t.id == payload.jti) a.tokens) stored _ at in
                let same : payload ≡ p =
                  some-injective _ _
                    (sym (found-some (c.verify_refresh now token) payload _ e) ∙ verified) in
                let id : stored.id ≡ p.jti =
                  (==_iff stored.id payload.jti).0
                    (find_by-holds (λ t. t.id == payload.jti) a.tokens stored at')
                  ∙ ap (λ q. q.jti) same in
                (
                  subst (λ n. n < a.next_id) id
                      (All-find_by (λ t. t.id < a.next_id) (λ t. t.id == payload.jti) a.tokens
                        stored numbered at'),
                  subst
                      (λ n. All (IsDead p.jti) (
                        update_where (λ t. t.id == n) (λ t. record t { revoked_at = some now })
                          a.tokens))
                      (sym id) (killed p.jti now a.tokens),
                ))

-- The payload of a refresh token is part of it: at two moments it is not read as two payloads.
abbrev pub HasStablePayload : Crypto → ℕ → Type 0
HasStablePayload c token =
    (now later : ℕ) (p q : RefreshClaims)
    → c.verify_refresh now token ≡ some p
    → c.verify_refresh later token ≡ some q
    → p ≡ q

refused_forever :
    (c : Crypto) (now token : ℕ) (p : RefreshClaims) (a : Accounts)
    → HasStablePayload c token
    → c.verify_refresh now token ≡ some p
    → IsRevoked p.jti a.next_id a.tokens
    → (calls : List Call) (later context : ℕ)
    → refresh c later context token (run c calls a)
      ≡ err (unauthorized Reason.invalid_refresh_token)
refused_forever c now token p a stable verified revoked calls later context =
    elim (Option-cases (c.verify_refresh later token)) [
      | inl unread ↦ unread-refused c later context token (run c calls a) unread
      | inr (q, read) ↦ refresh-refused c later context token q (run c calls a) read (
          subst (λ r. IsRevoked r.jti (run c calls a).next_id (run c calls a).tokens)
            (stable now later p q verified read)
            (run-Q (IsRevoked p.jti) (IsRevoked-IsClosed p.jti) c calls a revoked))
    ]

-- A refresh token works once: after a refresh that succeeded, every later refresh with the same token
-- is refused, whatever calls on the accounts came in between. The ids of the stored tokens were all
-- given out, and a token is not read as two payloads.
pub refresh_once :
    (c : Crypto) (now context token : ℕ) (a b : Accounts) (tokens : AuthTokens)
    → HasStablePayload c token
    → IsNumbered a.next_id a.tokens
    → refresh c now context token a ≡ ok (tokens, b)
    → (calls : List Call) (later again : ℕ)
    → refresh c later again token (run c calls b) ≡ err (unauthorized Reason.invalid_refresh_token)
refresh_once c now context token a b tokens stable numbered e calls later again =
    elim (Option-cases (c.verify_refresh now token)) [
      | inl unread ↦ cc (unread-refused c now context token a unread, e)
      | inr (p, verified) ↦
          refused_forever c now token p b stable verified
            (subst (Holds (λ x. IsRevoked p.jti x.next_id x.tokens)) e
              (refresh-spends c now context token p a verified numbered))
            calls later again
    ]

killed_for :
    (jti user_id now : ℕ) (ts : List RefreshToken)
    → All (λ t. (t.id == jti) ≡ true → (t.user_id == user_id) ≡ true) ts
    → All (IsDead jti) (
        update_where
          (λ t. t.user_id == user_id && is_unrevoked t.revoked_at)
          (λ t. record t { revoked_at = some now })
          ts)
killed_for jti user_id now [] h = tt
killed_for jti user_id now (t ∷ ts) (h, hs) =
    elim (Bool-cases (t.user_id == user_id && is_unrevoked t.revoked_at)) [
      | inl e ↦ (rw e (λ same. refl), killed_for jti user_id now ts hs)
      | inr e ↦ (rw e (λ same. rw (h same) at e), killed_for jti user_id now ts hs)
    ]

-- Every row of the token is a session of the account.
abbrev pub IsSessionOf : ℕ → ℕ → List RefreshToken → Type 0
IsSessionOf user_id jti = All (λ t. (t.id == jti) ≡ true → (t.user_id == user_id) ≡ true)

deactivate_user-ends :
    (now id jti : ℕ) (actor : Option ℕ) (a : Accounts)
    → jti < a.next_id
    → IsSessionOf id jti a.tokens
    → Holds (λ b. IsRevoked jti b.next_id b.tokens) (deactivate_user now id actor a)
unfolding deactivate_user
deactivate_user-ends now id jti actor a issued own =
    let Q : Accounts → Type 0 = λ b. IsRevoked jti b.next_id b.tokens in
    Holds->>= Q {B = Unit {0}} (get_user id a) _ λ user known.
      Holds-throw_if Q (is_own id actor) _ _ λ other.
        Holds-throw_if Q
          (has_admin_role (find_role user.role_id a) && leb (count_where (is_admin a) a.users) 1) _
          _ λ remain. (issued, killed_for jti id now a.tokens own)

-- Deactivating an account ends its sessions: a refresh token of the account, whose row was given an
-- id, is refused ever after, whatever calls on the accounts come in between. A token is not read as
-- two payloads.
pub deactivate_user-refresh :
    (c : Crypto) (now before id token : ℕ) (actor : Option ℕ) (p : RefreshClaims) (a b : Accounts)
    → HasStablePayload c token
    → c.verify_refresh before token ≡ some p
    → p.jti < a.next_id
    → IsSessionOf id p.jti a.tokens
    → deactivate_user now id actor a ≡ ok (tt, b)
    → (calls : List Call) (later again : ℕ)
    → refresh c later again token (run c calls b) ≡ err (unauthorized Reason.invalid_refresh_token)
deactivate_user-refresh c now before id token actor p a b stable verified issued own e =
    refused_forever c before token p b stable verified (
      subst (Holds (λ x. IsRevoked p.jti x.next_id x.tokens)) e
        (deactivate_user-ends now id p.jti actor a issued own))
