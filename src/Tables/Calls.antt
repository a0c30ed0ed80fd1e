-- ===== src/Tables/Calls.antt =====
-- Every call of server/src/services/table.service.ts that changes the tables, as one data type, and its step.
use Prim.Native.String.{String}
use restaurant_qr_ordering_s.Base.{
  ℕ, ◌≡◌, Bool, false, List, [], ◌∷◌, ◌==◌, exists_where, find_by, ltb, inl, inr, Bool-cases,
  Option-cases,
}
use restaurant_qr_ordering_s.Errors.{Result, ok, err}
use restaurant_qr_ordering_s.Store.{Db, Table, Effect}
use restaurant_qr_ordering_s.Tables as Tables
use restaurant_qr_ordering_s.Tables.{
  CreateTableInput, UpdateTableInput, is_table, insert_table, new_table, update_table_row,
  updated_table, number_clashes, with_code, with_image, with_activity, orders_at, delete_table_row,
}

-- Every call that changes the tables, with the token and the address that it draws.
pub data Call : Type 0 where
  create_table : CreateTableInput → ℕ → String → Call
  update_table : ℕ → UpdateTableInput → Call
  rotate_qr_token : ℕ → ℕ → String → Call
  regenerate_qr_image : ℕ → String → Call
  delete_table : ℕ → Call
  set_table_active : ℕ → Bool → Call

abbrev pub answer : Call → Db → Result ((Table × List Effect) × Db)
answer (Call.create_table input token image) db = Tables.create_table input token image db
answer (Call.update_table id input) db = Tables.update_table id input db
answer (Call.rotate_qr_token id token image) db = Tables.rotate_qr_token id token image db
answer (Call.regenerate_qr_image id image) db = Tables.regenerate_qr_image id image db
answer (Call.delete_table id) db = Tables.delete_table id db
answer (Call.set_table_active id active) db = Tables.set_table_active id active db

-- A throw leaves no write behind.
abbrev pub written : {A : Type 0} → Db → Result (A × Db) → Db
written before (ok (a, after)) = after
written before (err e) = before

abbrev pub run : List Call → Db → Db
run [] db = db
run (call ∷ calls) db = run calls (written db (answer call db))

-- A property of databases that the writes of a call keep; a throw leaves the database as it was.
module _ (P : Db → Type 0) where
  pub create_table-keeps :
      (input : CreateTableInput) (token : ℕ) (image : String) (db : Db)
      → P db
      → P (insert_table (new_table input token image db.next_id) db)
      → P (written db (Tables.create_table input token image db))
  unfolding Tables.create_table
  create_table-keeps input token image db v h =
      elim (Bool-cases (exists_where (λ t. t.table_number == input.table_number) db.tables)) [
        | inl e ↦ rw e v
        | inr e ↦ rw e h
      ]

  pub update_table-keeps :
      (id : ℕ) (input : UpdateTableInput) (db : Db)
      → P db
      → P (update_table_row id (updated_table input) db)
      → P (written db (Tables.update_table id input db))
  unfolding Tables.update_table
  update_table-keeps id input db v h = elim (Option-cases (find_by (is_table id) db.tables)) [
    | inl e ↦ rw e v
    | inr (t, e) ↦ elim (Bool-cases (number_clashes id input.table_number db.tables)) [
      | inl e2 ↦ rw (e, e2) v
      | inr e2 ↦ rw (e, e2) h
    ]
  ]

  pub rotate_qr_token-keeps :
      (id token : ℕ) (image : String) (db : Db)
      → P db
      → P (update_table_row id (with_code token image) db)
      → P (written db (Tables.rotate_qr_token id token image db))
  unfolding Tables.rotate_qr_token
  rotate_qr_token-keeps id token image db v h =
      elim (Option-cases (find_by (is_table id) db.tables)) [ inl e ↦ rw e v | inr (t, e) ↦ rw e h ]

  pub regenerate_qr_image-keeps :
      (id : ℕ) (image : String) (db : Db)
      → P db
      → P (update_table_row id (with_image image) db)
      → P (written db (Tables.regenerate_qr_image id image db))
  unfolding Tables.regenerate_qr_image
  regenerate_qr_image-keeps id image db v h =
      elim (Option-cases (find_by (is_table id) db.tables)) [ inl e ↦ rw e v | inr (t, e) ↦ rw e h ]

  pub delete_table-keeps :
      (id : ℕ) (db : Db)
      → P db
      → (ltb 0 (orders_at id db) ≡ false → P (delete_table_row id db))
      → P (written db (Tables.delete_table id db))
  unfolding Tables.delete_table
  delete_table-keeps id db v h = elim (Option-cases (find_by (is_table id) db.tables)) [
    | inl e ↦ rw e v
    | inr (t, e) ↦ elim (Bool-cases (ltb 0 (orders_at id db))) [
      | inl e2 ↦ rw (e, e2) v
      | inr e2 ↦ rw (e, e2) (h e2)
    ]
  ]

  pub set_table_active-keeps :
      (id : ℕ) (active : Bool) (db : Db)
      → P db
      → P (update_table_row id (with_activity active) db)
      → P (written db (Tables.set_table_active id active db))
  unfolding Tables.set_table_active
  set_table_active-keeps id active db v h = elim (Option-cases (find_by (is_table id) db.tables)) [
    | inl e ↦ rw e v
    | inr (t, e) ↦ rw e h
  ]
