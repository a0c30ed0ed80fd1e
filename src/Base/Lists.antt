-- ===== src/Base/Lists.antt =====
-- Lists of rows: length, sums, predicates over all elements, and the queries of a table
-- (`findUnique`, `findMany`, `update`, `count`), with the lemmas that the components share.
use Prim.Native.Nat.{ℕ, suc, ◌+◌}
use mathlib.Core.Path.{◌≡◌, refl, ap, ap₂, subst}
use mathlib.Core.Logic.{inl, inr}
use mathlib.Core.Bool.{Bool, true, false, ◌&&◌}
use mathlib.Core.Option.{Option, none, some, some-injective}
use mathlib.Core.List.{List, [], ◌∷◌, ◌++◌}
use native.Mathlib.Omega.{arith}
use restaurant_qr_ordering_s.Base.Tests.{if◌then◌else◌, Bool-cases, ◌==◌, ==_iff, ==_refl}

module _ {ℓ} {A : Type ℓ} where
  abbrev pub length : List A → ℕ
  length [] = 0
  length (x ∷ xs) = suc (length xs)

  pub length-append : (xs ys : List A) → length (xs ++ ys) ≡ length xs + length ys
  length-append [] ys = omega arith
  length-append (x ∷ xs) ys = omega (arith, length-append xs ys)

  abbrev pub All {κ} : (A → Type κ) → List A → Type κ
  All P [] = Unit
  All P (x ∷ xs) = P x × All P xs

  pub All-append {κ} : (P : A → Type κ) (xs ys : List A) → All P xs → All P ys → All P (xs ++ ys)
  All-append P [] ys _ q = q
  All-append P (x ∷ xs) ys (p, ps) q = (p, All-append P xs ys ps q)

  pub All-map {κ μ} :
      (P : A → Type κ) (Q : A → Type μ)
      → ((x : A) → P x → Q x)
      → (xs : List A) → All P xs
      → All Q xs
  All-map P Q f [] h = tt
  All-map P Q f (x ∷ xs) (p, ps) = (f x p, All-map P Q f xs ps)

  -- The total of a number over all rows.
  abbrev pub sum_of : (A → ℕ) → List A → ℕ
  sum_of f [] = 0
  sum_of f (x ∷ xs) = f x + sum_of f xs

  pub sum_of-append : (f : A → ℕ) (xs ys : List A) → sum_of f (xs ++ ys) ≡ sum_of f xs + sum_of f ys
  sum_of-append f [] ys = omega arith
  sum_of-append f (x ∷ xs) ys = omega (arith, sum_of-append f xs ys)

  -- The first row that passes the test.
  abbrev pub find_by : (A → Bool) → List A → Option A
  find_by p [] = none
  find_by p (x ∷ xs) = if p x then some x else find_by p xs

  -- Every row that passes the test is changed.
  abbrev pub update_where : (A → Bool) → (A → A) → List A → List A
  update_where p f [] = []
  update_where p f (x ∷ xs) = (if p x then f x else x) ∷ update_where p f xs

  abbrev pub select : (A → Bool) → List A → List A
  select p [] = []
  select p (x ∷ xs) = if p x then x ∷ select p xs else select p xs

  -- Some row passes the test.
  abbrev pub exists_where : (A → Bool) → List A → Bool
  exists_where p [] = false
  exists_where p (x ∷ xs) = if p x then true else exists_where p xs

  abbrev pub count_where : (A → Bool) → List A → ℕ
  count_where p xs = length (select p xs)

  pub find_by-holds : (p : A → Bool) (xs : List A) (x : A) → find_by p xs ≡ some x → p x ≡ true
  find_by-holds p [] x e = cc
  find_by-holds p (y ∷ ys) x e = ground (arith, find_by-holds p ys x)

  pub All-find_by {κ} :
      (P : A → Type κ) (p : A → Bool) (xs : List A) (x : A) → All P xs → find_by p xs ≡ some x → P x
  All-find_by P p [] x h e = cc
  All-find_by P p (y ∷ ys) x h e = elim (Bool-cases (p y)) [
    | inl yes_y ↦ subst P (some-injective _ _ (rw yes_y at e)) h.0
    | inr no_y ↦ All-find_by P p ys x h.1 (rw no_y at e)
  ]

  pub All-update_where {κ} :
      (P : A → Type κ) (p : A → Bool) (f : A → A)
      → ((x : A) → p x ≡ true → P x → P (f x))
      → (xs : List A) → All P xs
      → All P (update_where p f xs)
  All-update_where P p f keep [] h = tt
  All-update_where P p f keep (x ∷ xs) h =
      (ground (arith, keep x, h.0), All-update_where P p f keep xs h.1)

  pub All-select {κ μ} :
      (P : A → Type κ) (Q : A → Type μ) (p : A → Bool)
      → ((x : A) → p x ≡ true → P x → Q x)
      → (xs : List A) → All P xs
      → All Q (select p xs)
  All-select P Q p f [] h = tt
  All-select P Q p f (x ∷ xs) h = elim (Bool-cases (p x)) [
    | inl e ↦ rw e (f x e h.0, All-select P Q p f xs h.1)
    | inr e ↦ rw e (All-select P Q p f xs h.1)
  ]

  pub length-update_where :
      (p : A → Bool) (f : A → A) (xs : List A) → length (update_where p f xs) ≡ length xs
  length-update_where p f [] = refl
  length-update_where p f (x ∷ xs) = omega (arith, length-update_where p f xs)

  pub All-zip {κ μ ν} :
      (P : A → Type κ) (Q : A → Type μ) (R : A → Type ν)
      → ((x : A) → P x → Q x → R x)
      → (xs : List A) → All P xs
      → All Q xs
      → All R xs
  All-zip P Q R f [] h k = tt
  All-zip P Q R f (x ∷ xs) (h, hs) (k, ks) = (f x h k, All-zip P Q R f xs hs ks)

  -- No row passes the test.
  abbrev pub None : (A → Bool) → List A → Type 0
  None p = All (λ x. p x ≡ false)

  pub count_where-zero : (p : A → Bool) (xs : List A) → count_where p xs ≡ 0 → None p xs
  count_where-zero p [] h = tt
  count_where-zero p (x ∷ xs) h = elim (Bool-cases (p x)) [
    | inl e ↦ absurd (omega (arith, rw e at h))
    | inr e ↦ (e, count_where-zero p xs (rw e at h))
  ]

  pub exists_where-append :
      (p : A → Bool) (xs ys : List A) → exists_where p xs ≡ true → exists_where p (xs ++ ys) ≡ true
  exists_where-append p [] ys h = cc
  exists_where-append p (x ∷ xs) ys h = ground (arith, exists_where-append p xs ys)

  pub exists_where-update_where :
      (p q : A → Bool) (f : A → A) (xs : List A)
      → ((x : A) → q x ≡ true → p x ≡ true → p (f x) ≡ true)
      → exists_where p xs ≡ true
      → exists_where p (update_where q f xs) ≡ true
  exists_where-update_where p q f [] keep h = cc
  exists_where-update_where p q f (x ∷ xs) keep h =
      ground (arith, keep x, exists_where-update_where p q f xs keep)

  pub update_where-None :
      (p : A → Bool) (f : A → A) (xs : List A) → None p xs → update_where p f xs ≡ xs
  update_where-None p f [] h = refl
  update_where-None p f (x ∷ xs) (h, hs) = rw (h, update_where-None p f xs hs)

  pub find_by-update_where :
      (p : A → Bool) (f : A → A) (xs : List A) (x : A)
      → ((y : A) → p (f y) ≡ p y)
      → find_by p xs ≡ some x
      → find_by p (update_where p f xs) ≡ some (f x)
  find_by-update_where p f [] x keep e = cc
  find_by-update_where p f (y ∷ ys) x keep e = elim (Bool-cases (p y)) [
    | inl h ↦
        let same : y ≡ x = some-injective _ _ (rw h at e) in
        rw (h, keep y, h) (ap (λ z. some (f z)) same)
    | inr h ↦ rw (h, h) (find_by-update_where p f ys x keep (rw h at e))
  ]

  pub update_where-missing :
      (p : A → Bool) (f : A → A) (xs : List A) → find_by p xs ≡ none → update_where p f xs ≡ xs
  update_where-missing p f [] e = refl
  update_where-missing p f (x ∷ xs) e = elim (Bool-cases (p x)) [
    | inl h ↦ cc (rw h at e)
    | inr h ↦ rw h (ap (λ ys. x ∷ ys) (update_where-missing p f xs (rw h at e)))
  ]

  pub sum_of-select-append :
      (f : A → ℕ) (p : A → Bool) (xs : List A) (y : A)
      → sum_of f (select p (xs ++ (y ∷ []))) ≡ sum_of f (select p xs) + (if p y then f y else 0)
  sum_of-select-append f p [] y = ground arith
  sum_of-select-append f p (x ∷ xs) y = ground (arith, sum_of-select-append f p xs y)

  pub count_where-append :
      (p : A → Bool) (xs : List A) (y : A)
      → count_where p (xs ++ (y ∷ [])) ≡ count_where p xs + (if p y then 1 else 0)
  count_where-append p [] y = ground arith
  count_where-append p (x ∷ xs) y = ground (arith, count_where-append p xs y)

both-true : (a b : Bool) → (a && b) ≡ true → (a ≡ true) × (b ≡ true)
both-true true true h = (refl, refl)
both-true true false h = cc
both-true false b h = cc

-- Texts, as lists of code points.
abbrev pub same_text : List ℕ → List ℕ → Bool
same_text [] [] = true
same_text [] (d ∷ ds) = false
same_text (c ∷ cs) [] = false
same_text (c ∷ cs) (d ∷ ds) = c == d && same_text cs ds

pub same_text-equal : (a b : List ℕ) → same_text a b ≡ true → a ≡ b
same_text-equal [] [] h = refl
same_text-equal [] (d ∷ ds) h = cc
same_text-equal (c ∷ cs) [] h = cc
same_text-equal (c ∷ cs) (d ∷ ds) h =
    let (first, rest) = both-true (c == d) (same_text cs ds) h in
    ap₂ ◌∷◌ ((==_iff c d).0 first) (same_text-equal cs ds rest)

pub same_text-same : (a : List ℕ) → same_text a a ≡ true
same_text-same [] = refl
same_text-same (c ∷ cs) = rw (==_refl c) (same_text-same cs)

abbrev pub includes : List ℕ → List (List ℕ) → Bool
includes key = exists_where (λ k. same_text k key)
