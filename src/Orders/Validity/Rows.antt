-- ===== src/Orders/Validity/Rows.antt =====
-- How the invariant fares under the writes: a changed order, a new one, a table taken or freed.
use restaurant_qr_ordering_s.Base.{
  ℕ, ◌+◌, ◌≡◌, refl, sym, subst, inl, inr, Bool, true, false, Option, none, some, some-injective,
  List, [], ◌∷◌, ◌++◌, arith, ◌==◌, ==_iff, Bool-cases, if◌then◌else◌, All, All-append, All-map,
  All-zip, All-update_where, None, update_where-None, count_where, count_where-zero, find_by,
  update_where,
}
use restaurant_qr_ordering_s.Store.{
  Db, Order, Table, TableStatus, has_id, find_order, update_order, set_table_status,
}
use restaurant_qr_ordering_s.Orders.Gates.{refers_to}
use restaurant_qr_ordering_s.Orders.Change.{keeps_table}
use restaurant_qr_ordering_s.Orders.Place.{insert_order, occupy}
use restaurant_qr_ordering_s.Orders.Validity.{IsBilled, Seat, IsSeated, IsIssued, Distinct, IsValid}

-- A change of the one row that a query found.
pub All-update_found {κ} :
    (P : Order → Type κ) (id : ℕ) (f : Order → Order) (xs : List Order) (o : Order)
    → Distinct xs
    → find_by (has_id id) xs ≡ some o
    → P (f o)
    → All P xs
    → All P (update_where (has_id id) f xs)
All-update_found P id f [] o d e p h = tt
All-update_found P id f (x ∷ xs) o (fresh, _, rest) e p (h, hs) = elim (Bool-cases (x.id == id)) [
  | inl same ↦
      let e' : x ≡ o = some-injective _ _ (rw same at e) in
      let i : x.id ≡ id = (==_iff x.id id).0 same in
      rw (same, update_where-None (has_id id) f xs (subst (λ k. None (has_id k) xs) i fresh))
        (subst (λ y. P (f y)) (sym e') p, hs)
  | inr other ↦ rw other (h, All-update_found P id f xs o rest (rw other at e) p hs)
]

-- The id and the number of every row stay.
abbrev pub KeepsKeys : (Order → Order) → Type 0
KeepsKeys f = (o : Order) → ((f o).id ≡ o.id) × ((f o).order_number ≡ o.order_number)

None-update :
    (key : Order → ℕ) (p : Order → Bool) (f : Order → Order) (k : ℕ)
    → ((o : Order) → key (f o) ≡ key o)
    → (xs : List Order) → None (λ o. key o == k) xs
    → None (λ o. key o == k) (update_where p f xs)
None-update key p f k keep [] h = tt
None-update key p f k keep (x ∷ xs) (h, hs) =
    (ground (arith, keep x), None-update key p f k keep xs hs)

abbrev if_changed : (Order → Bool) → (Order → Order) → Order → Order
if_changed p f x = if p x then f x else x

Distinct-cons :
    (x y : Order) (xs : List Order)
    → (y.id ≡ x.id) × (y.order_number ≡ x.order_number)
    → None (has_id x.id) xs × None (λ p. p.order_number == x.order_number) xs × Distinct xs
    → Distinct (y ∷ xs)
Distinct-cons x y xs (i, n) (a, b, c) = (
  subst (λ k. None (has_id k) xs) (sym i) a,
  subst (λ k. None (λ p. p.order_number == k) xs) (sym n) b,
  c,
)

KeepsKeys-if :
    (p : Order → Bool) (f : Order → Order) (x : Order)
    → (((f x).id ≡ x.id) × ((f x).order_number ≡ x.order_number))
    → ((if_changed p f x).id ≡ x.id) × ((if_changed p f x).order_number ≡ x.order_number)
KeepsKeys-if p f x k = ground arith

Distinct-update :
    (p : Order → Bool) (f : Order → Order)
    → KeepsKeys f
    → (xs : List Order) → Distinct xs
    → Distinct (update_where p f xs)
Distinct-update p f keep [] h = tt
Distinct-update p f keep (x ∷ xs) (a, b, c) =
    Distinct-cons x (if_changed p f x) (update_where p f xs) (KeepsKeys-if p f x (keep x)) (
      None-update (λ o. o.id) p f x.id (λ o. (keep o).0) xs a,
      None-update (λ o. o.order_number) p f x.order_number (λ o. (keep o).1) xs b,
      Distinct-update p f keep xs c,
    )

IsIssued-changed :
    (next_id order_seq : ℕ) (f : Order → Order) (o : Order)
    → KeepsKeys f
    → IsIssued next_id order_seq o
    → IsIssued next_id order_seq (f o)
IsIssued-changed next_id order_seq f o keep h = omega (arith, keep o)

-- A change of one order that keeps its keys, its bill and its table in order.
pub update_order-IsValid :
    (db : Db) (id : ℕ) (f : Order → Order) (o : Order)
    → IsValid db
    → find_order id db ≡ some o
    → KeepsKeys f
    → IsBilled (f o)
    → IsSeated db.tables (f o)
    → IsValid (update_order id f db)
update_order-IsValid db id f o v e keep bill seat = record {
  billed = All-update_found IsBilled id f db.orders o v.distinct e bill v.billed;
  seated = All-update_found (IsSeated db.tables) id f db.orders o v.distinct e seat v.seated;
  issued =
      All-update_where (IsIssued db.next_id db.order_seq) (has_id id) f
        (λ x _ h. IsIssued-changed db.next_id db.order_seq f x keep h) db.orders v.issued;
  distinct = Distinct-update (has_id id) f keep db.orders v.distinct;
}

abbrev with_status : TableStatus → Table → Table
with_status s x = record x { status = s }

abbrev tables_with : ℕ → TableStatus → List Table → List Table
tables_with t s = update_where (λ x. x.id == t) (with_status s)

Seat-occupy :
    (t : ℕ) (tables : List Table) (u : Option ℕ)
    → Seat tables u
    → Seat (tables_with t TableStatus.occupied tables) u
Seat-occupy t tables none h = tt
Seat-occupy t tables (some u) h =
    All-update_where (λ x. (x.id == u) ≡ true → x.status ≡ TableStatus.occupied) (λ x. x.id == t)
      (with_status TableStatus.occupied) (λ x _ _ _. refl) tables h

Seat-taken :
    (t : ℕ) (tables : List Table) → Seat (tables_with t TableStatus.occupied tables) (some t)
Seat-taken t [] = tt
Seat-taken t (x ∷ xs) = (λ e. ground arith, Seat-taken t xs)

-- Taking a table leaves every order seated.
occupy-IsSeated :
    (t : ℕ) (tables : List Table) (os : List Order)
    → All (IsSeated tables) os
    → All (IsSeated (tables_with t TableStatus.occupied tables)) os
occupy-IsSeated t tables os =
    All-map (IsSeated tables) (IsSeated (tables_with t TableStatus.occupied tables))
      (λ o h live. Seat-occupy t tables o.table_id (h live)) os

Seat-free :
    (t : ℕ) (tables : List Table) (u : Option ℕ)
    → refers_to t u ≡ false
    → Seat tables u
    → Seat (tables_with t TableStatus.available tables) u
Seat-free t tables none r h = tt
Seat-free t tables (some u) r h =
    All-update_where (λ x. (x.id == u) ≡ true → x.status ≡ TableStatus.occupied) (λ x. x.id == t)
      (with_status TableStatus.available) (λ x e _ e'. ground arith) tables h

IsSeated-free :
    (t : ℕ) (tables : List Table) (o : Order)
    → IsSeated tables o
    → keeps_table t o ≡ false
    → IsSeated (tables_with t TableStatus.available tables) o
IsSeated-free t tables o h k live = Seat-free t tables o.table_id (ground arith) (h live)

-- Freeing a table on which no open order stands leaves every order seated.
pub free-IsValid :
    (db : Db) (t : ℕ)
    → IsValid db
    → count_where (keeps_table t) db.orders ≡ 0
    → IsValid (set_table_status t TableStatus.available db)
free-IsValid db t v none_left = record {
  billed = v.billed;
  seated =
      All-zip (IsSeated db.tables) (λ o. keeps_table t o ≡ false)
        (IsSeated (tables_with t TableStatus.available db.tables)) (IsSeated-free t db.tables)
        db.orders v.seated (count_where-zero (keeps_table t) db.orders none_left);
  issued = v.issued;
  distinct = v.distinct;
}

Distinct-append :
    (os : List Order) (o : Order)
    → All (IsIssued o.id o.order_number) os
    → Distinct os
    → Distinct (os ++ (o ∷ []))
Distinct-append [] o h d = (tt, tt, tt)
Distinct-append (x ∷ xs) o (h, hs) (a, b, c) = (
  All-append (λ p. has_id x.id p ≡ false) xs (o ∷ []) a (ground (arith, h), tt),
  All-append (λ p. (p.order_number == x.order_number) ≡ false) xs (o ∷ []) b
      (ground (arith, h), tt),
  Distinct-append xs o hs c,
)

IsIssued-later : (n k : ℕ) (o : Order) → IsIssued n k o → IsIssued (n + 1) (k + 1) o
IsIssued-later n k o h = omega arith

occupied_tables : Option ℕ → List Table → List Table
occupied_tables none tables = tables
occupied_tables (some t) tables = tables_with t TableStatus.occupied tables

IsSeated-after_occupy :
    (u : Option ℕ) (tables : List Table) (os : List Order)
    → All (IsSeated tables) os
    → All (IsSeated (occupied_tables u tables)) os
unfolding occupied_tables
IsSeated-after_occupy none tables os h = h
IsSeated-after_occupy (some t) tables os h = occupy-IsSeated t tables os h

Seat-after_occupy : (u : Option ℕ) (tables : List Table) → Seat (occupied_tables u tables) u
unfolding occupied_tables
Seat-after_occupy none tables = tt
Seat-after_occupy (some t) tables = Seat-taken t tables

insert-IsBilled :
    (db : Db) (o : Order) → IsValid db → IsBilled o → All IsBilled (db.orders ++ (o ∷ []))
insert-IsBilled db o v bill = All-append IsBilled db.orders (o ∷ []) v.billed (bill, tt)

occupy-IsValid :
    (u : Option ℕ) (db : Db)
    → All IsBilled db.orders
    → All (IsIssued db.next_id db.order_seq) db.orders
    → Distinct db.orders
    → All (IsSeated (occupied_tables u db.tables)) db.orders
    → IsValid (occupy u db)
unfolding occupied_tables
occupy-IsValid none db b i d s = record { billed = b; seated = s; issued = i; distinct = d }
occupy-IsValid (some t) db b i d s = record { billed = b; seated = s; issued = i; distinct = d }

-- A new order, under the next id and number, with its table taken.
pub insert_order-IsValid :
    (db : Db) (o : Order)
    → IsValid db
    → IsBilled o
    → o.id ≡ db.next_id
    → o.order_number ≡ db.order_seq
    → IsValid (occupy o.table_id (insert_order o db))
insert_order-IsValid db o v bill i n =
    let fresh : All (IsIssued o.id o.order_number) db.orders = rw (i, n) v.issued in
    occupy-IsValid o.table_id (insert_order o db) (insert-IsBilled db o v bill)
      (All-append (IsIssued (db.next_id + 1) (db.order_seq + 1)) db.orders (o ∷ [])
        (All-map (IsIssued db.next_id db.order_seq) (IsIssued (db.next_id + 1) (db.order_seq + 1))
          (IsIssued-later db.next_id db.order_seq) db.orders v.issued)
        (omega arith, tt))
      (Distinct-append db.orders o fresh v.distinct)
      (All-append (IsSeated (occupied_tables o.table_id db.tables)) db.orders (o ∷ [])
        (IsSeated-after_occupy o.table_id db.tables db.orders v.seated)
        (λ _. Seat-after_occupy o.table_id db.tables, tt))
