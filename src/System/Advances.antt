-- ===== src/System/Advances.antt =====
-- What a write to the orders may do to the status of each of them: follow the table of transitions.
use restaurant_qr_ordering_s.Base.{
  ℕ, ◌≡◌, refl, sym, subst, ◌∙◌, inl, inr, ◌⊎◌, Bool, true, false, some, List, [], ◌∷◌, ◌++◌, ◌==◌,
  ==_iff, arith, Bool-cases, find_by, update_where, find_by-update_where,
}
use restaurant_qr_ordering_s.Status.{OrderStatus, can_transition}
use restaurant_qr_ordering_s.Errors.{Result, ok, err, AppError, ◌>>=◌, ◌>>◌, throw_if}
use restaurant_qr_ordering_s.Store.{Db, Order, Effect, commit, has_id}

-- One step of the table of transitions, or none.
abbrev pub Steps : OrderStatus → OrderStatus → Type 0
Steps s t = (t ≡ s) ⊎ (can_transition s t ≡ true)

abbrev pub Moved : Order → Order → Type 0
Moved o p = Steps o.status p.status

-- Every order is still there, under the same id, and its status took one step at most.
abbrev pub Advances : List Order → List Order → Type 0
Advances before after =
    (id : ℕ) (o : Order)
    → find_by (has_id id) before ≡ some o
    → (p : Order) × (find_by (has_id id) after ≡ some p) × Moved o p

pub Advances-same : (os : List Order) → Advances os os
Advances-same os id o e = (o, e, inl refl)

-- Every order is still there, and has the status it had.
abbrev pub Rests : List Order → List Order → Type 0
Rests before after =
    (id : ℕ) (o : Order)
    → find_by (has_id id) before ≡ some o
    → (p : Order) × (find_by (has_id id) after ≡ some p) × (p.status ≡ o.status)

pub Rests-Advances : (a b c : List Order) → Rests a b → Advances b c → Advances a c
Rests-Advances a b c f g id o e =
    let (p, at_p, same) = f id o e in
    let (q, at_q, moved) = g id p at_p in (q, at_q, subst (λ s. Steps s q.status) same moved)

-- A transaction that commits lets the orders advance, and one that throws has no orders.
abbrev pub Commits : {A : Type 0} → List Order → Result (A × Db) → Type 0
Commits before (ok (a, db)) = Advances before db.orders
Commits before (err e) = Unit

pub Commits->>= :
    {A B : Type 0} (os : List Order) (m : Result A) (f : A → Result (B × Db))
    → ((a : A) → m ≡ ok a → Commits os (f a))
    → Commits os (m >>= f)
Commits->>= os (ok a) f h = h a refl
Commits->>= os (err e) f h = tt

pub Commits-throw_if :
    {B : Type 0} (os : List Order) (b : Bool) (e : AppError) (r : Result (B × Db))
    → (b ≡ false → Commits os r)
    → Commits os (throw_if b e >> r)
Commits-throw_if os true e r h = tt
Commits-throw_if os false e r h = h refl

pub commit-Advances :
    {A : Type 0} (db : Db) (f : A → List Effect) (r : Result (A × Db))
    → Commits db.orders r
    → Advances db.orders (commit db f r).1.orders
commit-Advances db f (ok (a, after)) h = h
commit-Advances db f (err e) h = Advances-same db.orders

find_by-append :
    (id : ℕ) (os qs : List Order) (o : Order)
    → find_by (has_id id) os ≡ some o
    → find_by (has_id id) (os ++ qs) ≡ some o
find_by-append id [] qs o e = cc
find_by-append id (x ∷ xs) qs o e = ground (arith, find_by-append id xs qs o)

pub append-Advances : (os qs : List Order) → Advances os (os ++ qs)
append-Advances os qs id o e = (o, find_by-append id os qs o e, inl refl)

find_by-other :
    (id other : ℕ) (f : Order → Order) (os : List Order)
    → ((x : Order) → (f x).id ≡ x.id)
    → (id == other) ≡ false
    → find_by (has_id id) (update_where (has_id other) f os) ≡ find_by (has_id id) os
find_by-other id other f [] keeps differ = refl
find_by-other id other f (x ∷ xs) keeps differ =
    ground (arith, keeps x, differ, find_by-other id other f xs keeps differ)

-- What a change of one row relates, it relates for all the rows.
update_where-related :
    (R : Order → Order → Type 0) (id : ℕ) (f : Order → Order) (os : List Order)
    → ((x : Order) → R x x)
    → ((x : Order) → (f x).id ≡ x.id)
    → ((o : Order) → find_by (has_id id) os ≡ some o → R o (f o))
    → (k : ℕ) (o : Order) → find_by (has_id k) os ≡ some o
    → (p : Order) × (find_by (has_id k) (update_where (has_id id) f os) ≡ some p) × R o p
update_where-related R id f os same keeps moves k o e = elim (Bool-cases (k == id)) [
  | inl is ↦
      let at : find_by (has_id id) os ≡ some o =
        subst (λ n. find_by (has_id n) os ≡ some o) ((==_iff k id).0 is) e in
      (
        f o,
        subst (λ n. find_by (has_id n) (update_where (has_id id) f os) ≡ some (f o))
            (sym ((==_iff k id).0 is))
            (find_by-update_where (has_id id) f os o (λ y. rw (keeps y) refl) at),
        moves o at,
      )
  | inr differ ↦ (o, find_by-other k id f os keeps differ ∙ e, same o)
]

pub update_where-Advances :
    (id : ℕ) (f : Order → Order) (os : List Order)
    → ((x : Order) → (f x).id ≡ x.id)
    → ((o : Order) → find_by (has_id id) os ≡ some o → Moved o (f o))
    → Advances os (update_where (has_id id) f os)
update_where-Advances id f os = update_where-related Moved id f os (λ x. inl refl)

pub update_where-Rests :
    (id : ℕ) (f : Order → Order) (os : List Order)
    → ((x : Order) → (f x).id ≡ x.id)
    → ((x : Order) → (f x).status ≡ x.status)
    → Rests os (update_where (has_id id) f os)
update_where-Rests id f os keeps rests =
    update_where-related (λ o p. p.status ≡ o.status) id f os (λ x. refl) keeps (λ o e. rests o)
