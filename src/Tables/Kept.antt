-- ===== src/Tables/Kept.antt =====
-- What the administration of the tables keeps, over any sequence of calls.
use restaurant_qr_ordering_s.Base.{
  ℕ, ◌≡◌, refl, true, false, not, Option, none, some, List, [], ◌∷◌, ◌==◌, All, None, update_where,
  All-map, All-zip, subst, ◌∙◌, exists_where, exists_where-append, exists_where-update_where,
  update_where-None, count_where-zero, select, arith,
}
use restaurant_qr_ordering_s.Store.{Db, Table, Order}
use restaurant_qr_ordering_s.Orders.Gates.{refers_to}
use restaurant_qr_ordering_s.Tables.{
  is_table, insert_table, update_table_row, updated_table, with_code, with_image, with_activity,
  delete_table_row, new_table,
}
use restaurant_qr_ordering_s.Tables.Calls.{
  Call, answer, written, run, create_table-keeps, update_table-keeps, rotate_qr_token-keeps,
  regenerate_qr_image-keeps, delete_table-keeps, set_table_active-keeps,
}

-- The table that an order names is on file.
abbrev pub HasTable : List Table → Order → Type 0
HasTable tables o =
    (t : ℕ) → refers_to t o.table_id ≡ true → exists_where (is_table t) tables ≡ true

abbrev pub Stands : List Order → Db → Type 0
Stands os db = (db.orders ≡ os) × All (HasTable db.tables) os

HasTable-row :
    (id : ℕ) (f : Table → Table) (tables : List Table) (o : Order)
    → ((t : Table) (u : ℕ) → is_table u t ≡ true → is_table u (f t) ≡ true)
    → HasTable tables o
    → HasTable (update_where (is_table id) f tables) o
HasTable-row id f tables o keep h u at =
    exists_where-update_where (is_table u) (is_table id) f tables (λ t _ e. keep t u e) (h u at)

update_table_row-Stands :
    (os : List Order) (id : ℕ) (f : Table → Table) (db : Db)
    → ((t : Table) (u : ℕ) → is_table u t ≡ true → is_table u (f t) ≡ true)
    → Stands os db
    → Stands os (update_table_row id f db)
update_table_row-Stands os id f db keep (same, h) = (
  same,
  All-map (HasTable db.tables) (HasTable (update_where (is_table id) f db.tables))
      (λ o. HasTable-row id f db.tables o keep) os h,
)

insert_table-Stands :
    (os : List Order) (t : Table) (db : Db) → Stands os db → Stands os (insert_table t db)
insert_table-Stands os t db (same, h) = (
  same,
  All-map (HasTable db.tables) _
      (λ o has u at. exists_where-append (is_table u) db.tables (t ∷ []) (has u at)) os h,
)

exists_where-deleted :
    (id u : ℕ) (ts : List Table)
    → (u == id) ≡ false
    → exists_where (is_table u) ts ≡ true
    → exists_where (is_table u) (select (λ t. not (is_table id t)) ts) ≡ true
exists_where-deleted id u [] other h = cc
exists_where-deleted id u (t ∷ ts) other h = ground (arith, exists_where-deleted id u ts other)

other_table :
    (u id : ℕ) (at : Option ℕ) → refers_to u at ≡ true → refers_to id at ≡ false → (u == id) ≡ false
other_table u id none h k = cc
other_table u id (some x) h k = ground (arith, h, k)

-- An order at another table keeps it.
HasTable-deleted :
    (id : ℕ) (tables : List Table) (o : Order)
    → HasTable tables o
    → refers_to id o.table_id ≡ false
    → HasTable (select (λ t. not (is_table id t)) tables) o
HasTable-deleted id tables o h elsewhere u at =
    exists_where-deleted id u tables (other_table u id o.table_id at elsewhere) (h u at)

delete_table_row-Stands :
    (os : List Order) (id : ℕ) (db : Db)
    → None (λ o. refers_to id o.table_id) db.orders
    → Stands os db
    → Stands os (delete_table_row id db)
delete_table_row-Stands os id db unused (same, h) = (
  update_where-None (λ o. refers_to id o.table_id) (λ o. record o { table_id = none }) db.orders
        unused
      ∙ same,
  All-zip (HasTable db.tables) (λ o. refers_to id o.table_id ≡ false) _
      (HasTable-deleted id db.tables) os h
      (subst (None (λ o. refers_to id o.table_id)) same unused),
)

answer-Stands :
    (os : List Order) (call : Call) (db : Db)
    → Stands os db
    → Stands os (written db (answer call db))
answer-Stands os (Call.create_table input token image) db v =
    create_table-keeps (Stands os) input token image db v
      (insert_table-Stands os (new_table input token image db.next_id) db v)
answer-Stands os (Call.update_table id input) db v =
    update_table-keeps (Stands os) id input db v
      (update_table_row-Stands os id (updated_table input) db (λ t u h. h) v)
answer-Stands os (Call.rotate_qr_token id token image) db v =
    rotate_qr_token-keeps (Stands os) id token image db v
      (update_table_row-Stands os id (with_code token image) db (λ t u h. h) v)
answer-Stands os (Call.regenerate_qr_image id image) db v =
    regenerate_qr_image-keeps (Stands os) id image db v
      (update_table_row-Stands os id (with_image image) db (λ t u h. h) v)
answer-Stands os (Call.delete_table id) db v = delete_table-keeps (Stands os) id db v (λ e.
    delete_table_row-Stands os id db
      (count_where-zero (λ o. refers_to id o.table_id) db.orders (ground (arith, e))) v)
answer-Stands os (Call.set_table_active id active) db v =
    set_table_active-keeps (Stands os) id active db v
      (update_table_row-Stands os id (with_activity active) db (λ t u h. h) v)

run-keeps :
    (os : List Order) (calls : List Call) (db : Db) → Stands os db → Stands os (run calls db)
run-keeps os [] db v = v
run-keeps os (call ∷ calls) db v =
    run-keeps os calls (written db (answer call db)) (answer-Stands os call db v)

-- Whatever calls manage the tables, no order is touched, and no order loses its table: if every order's
-- table is on file before, the orders are the same after, and every order's table is still on file.
pub run-Stands :
    (calls : List Call) (db : Db)
    → All (HasTable db.tables) db.orders
    → Stands db.orders (run calls db)
run-Stands calls db v = run-keeps db.orders calls db (refl, v)
