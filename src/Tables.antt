-- ===== src/Tables.antt =====
-- server/src/services/table.service.ts, with the inputs of server/src/validations/table.validation.ts. A table
-- number is only compared, and is a number. The token that `generateQrToken` draws and the address under which
-- `generateQrImage` stores the picture are arguments. A write answers with the row and with what is done after it.
pub mod Calls
pub mod Codes
pub mod Kept
use Prim.Native.String.{String}
use restaurant_qr_ordering_s.Base.{
  ℕ, ◌+◌, Bool, true, false, not, ◌&&◌, ◌||◌, if◌then◌else◌, Option, none, some, List, [], ◌∷◌,
  ◌++◌, ◌==◌, find_by, update_where, select, exists_where, count_where, ltb, or_else,
}
use restaurant_qr_ordering_s.Errors.{
  Result, ok, err, ◌>>=◌, ◌>>◌, throw_if, not_found, conflict, Reason,
}
use restaurant_qr_ordering_s.Store.{Db, Table, TableStatus, Effect, found}
use restaurant_qr_ordering_s.Orders.Place.{is_inactive}
use restaurant_qr_ordering_s.Orders.Gates.{refers_to}

abbrev pub is_table : ℕ → Table → Bool
is_table id t = t.id == id

abbrev pub get_table_by_id : ℕ → Db → Result Table
get_table_by_id id db = found (find_by (is_table id) db.tables) (not_found Reason.table_missing)

pub record PublicTable : Type 0 where
  pub id : ℕ
  pub table_number : ℕ
  pub capacity : ℕ
  pub status : TableStatus

abbrev pub public_fields : Table → PublicTable
public_fields t = record {
  id = t.id;
  table_number = t.table_number;
  capacity = t.capacity;
  status = t.status;
}

abbrev pub has_token : ℕ → Table → Bool
has_token token t = t.qr_token == token

unfoldable pub resolve_by_token : ℕ → Db → Result PublicTable
resolve_by_token token db = do
  t ← found (find_by (has_token token) db.tables) (not_found Reason.qr_no_longer_valid)
  throw_if (not t.is_active || is_inactive t.status) (not_found Reason.table_out_of_service)
  ok (public_fields t)

pub record CreateTableInput : Type 0 where
  pub table_number : ℕ
  pub capacity : Option ℕ
  pub status : Option TableStatus
  pub is_active : Option Bool

pub record UpdateTableInput : Type 0 where
  pub table_number : Option ℕ
  pub capacity : Option ℕ
  pub status : Option TableStatus
  pub is_active : Option Bool

abbrev pub new_table : CreateTableInput → ℕ → String → ℕ → Table
new_table input token image id = record {
  id = id;
  table_number = input.table_number;
  qr_token = token;
  qr_image_url = some image;
  is_active = or_else input.is_active true;
  status = or_else input.status TableStatus.available;
  capacity = or_else input.capacity 4;
}

abbrev pub insert_table : Table → Db → Db
insert_table t db = record db { tables = db.tables ++ (t ∷ []); next_id = db.next_id + 1 }

unfoldable pub create_table :
    CreateTableInput → ℕ → String → Db → Result ((Table × List Effect) × Db)
create_table input token image db = do
  throw_if (exists_where (λ t. t.table_number == input.table_number) db.tables)
      (conflict Reason.table_number_taken)
  let table = new_table input token image db.next_id
  ok ((table, []), insert_table table db)

-- Another table has the number.
abbrev pub number_clashes : ℕ → Option ℕ → List Table → Bool
number_clashes id none tables = false
number_clashes id (some number) tables =
    exists_where (λ t. t.table_number == number && not (t.id == id)) tables

abbrev pub updated_table : UpdateTableInput → Table → Table
updated_table input t = record t {
  table_number = or_else input.table_number t.table_number;
  capacity = or_else input.capacity t.capacity;
  status = or_else input.status t.status;
  is_active = or_else input.is_active t.is_active;
}

abbrev pub update_table_row : ℕ → (Table → Table) → Db → Db
update_table_row id f db = record db { tables = update_where (is_table id) f db.tables }

unfoldable pub update_table : ℕ → UpdateTableInput → Db → Result ((Table × List Effect) × Db)
update_table id input db = do
  table ← get_table_by_id id db
  throw_if (number_clashes id input.table_number db.tables) (conflict Reason.table_number_taken)
  ok ((updated_table input table, []), update_table_row id (updated_table input) db)

-- `storage.remove`, which does nothing without an address.
abbrev pub remove_image : Option String → List Effect
remove_image none = []
remove_image (some image) = Effect.remove_file image ∷ []

abbrev pub with_code : ℕ → String → Table → Table
with_code token image t = record t { qr_token = token; qr_image_url = some image }

unfoldable pub rotate_qr_token : ℕ → ℕ → String → Db → Result ((Table × List Effect) × Db)
rotate_qr_token id token image db = do
  table ← get_table_by_id id db
  ok (
    (with_code token image table, remove_image table.qr_image_url),
    update_table_row id (with_code token image) db,
  )

abbrev pub with_image : String → Table → Table
with_image image t = record t { qr_image_url = some image }

unfoldable pub regenerate_qr_image : ℕ → String → Db → Result ((Table × List Effect) × Db)
regenerate_qr_image id image db = do
  table ← get_table_by_id id db
  ok (
    (with_image image table, remove_image table.qr_image_url),
    update_table_row id (with_image image) db,
  )

abbrev pub orders_at : ℕ → Db → ℕ
orders_at id db = count_where (λ o. refers_to id o.table_id) db.orders

-- `onDelete: SetNull` of the orders and the bookings that point at the row.
abbrev pub delete_table_row : ℕ → Db → Db
delete_table_row id db = record db {
  tables = select (λ t. not (is_table id t)) db.tables;
  orders =
      update_where (λ o. refers_to id o.table_id) (λ o. record o { table_id = none }) db.orders;
  reservations =
      update_where (λ r. refers_to id r.table_id) (λ r. record r { table_id = none })
        db.reservations;
}

unfoldable pub delete_table : ℕ → Db → Result ((Table × List Effect) × Db)
delete_table id db = do
  table ← get_table_by_id id db
  throw_if (ltb 0 (orders_at id db)) (conflict (Reason.table_has_orders (orders_at id db)))
  ok ((table, remove_image table.qr_image_url), delete_table_row id db)

abbrev pub with_activity : Bool → Table → Table
with_activity active t = record t {
  is_active = active;
  status = if active then TableStatus.available else TableStatus.inactive;
}

unfoldable pub set_table_active : ℕ → Bool → Db → Result ((Table × List Effect) × Db)
set_table_active id active db = do
  table ← get_table_by_id id db
  ok ((with_activity active table, []), update_table_row id (with_activity active) db)
