-- ===== src/Tables/Codes.antt =====
-- The code of a table: once it is rotated, the old one is refused.
use Prim.Native.String.{String}
use restaurant_qr_ordering_s.Base.{
  ℕ, ◌≡◌, refl, Bool, false, not, none, some, List, [], ◌∷◌, ◌==◌, All, None, All-select,
  All-append, All-update_where, update_where, ◌&&◌, find_by, inl, inr, Bool-cases, arith,
}
use restaurant_qr_ordering_s.Errors.{err, not_found, bad_request, Reason}
use restaurant_qr_ordering_s.Store.{Db, Table}
use restaurant_qr_ordering_s.Orders.Place.{resolve_table}
use restaurant_qr_ordering_s.Tables.{
  is_table, has_token, resolve_by_token, rotate_qr_token, update_table_row, updated_table,
  with_code, with_image, with_activity, new_table,
}
use restaurant_qr_ordering_s.Tables.Calls.{
  Call, answer, written, run, create_table-keeps, update_table-keeps, rotate_qr_token-keeps,
  regenerate_qr_image-keeps, delete_table-keeps, set_table_active-keeps,
}

-- No table has the token.
abbrev pub IsRetired : ℕ → Db → Type 0
IsRetired token db = None (has_token token) db.tables

-- The call does not draw the token again.
abbrev pub Avoids : ℕ → Call → Type 0
Avoids old (Call.create_table input token image) = (token == old) ≡ false
Avoids old (Call.rotate_qr_token id token image) = (token == old) ≡ false
Avoids old _ = Unit

update_table_row-IsRetired :
    (old id : ℕ) (f : Table → Table) (db : Db)
    → ((t : Table) → has_token old t ≡ false → has_token old (f t) ≡ false)
    → IsRetired old db
    → IsRetired old (update_table_row id f db)
update_table_row-IsRetired old id f db keep v =
    All-update_where (λ t. has_token old t ≡ false) (is_table id) f (λ t _ h. keep t h) db.tables v

answer-IsRetired :
    (old : ℕ) (call : Call) (db : Db)
    → Avoids old call
    → IsRetired old db
    → IsRetired old (written db (answer call db))
answer-IsRetired old (Call.create_table input token image) db fresh v =
    create_table-keeps (IsRetired old) input token image db v (
      All-append (λ t. has_token old t ≡ false) db.tables
        (new_table input token image db.next_id ∷ []) v (fresh, tt))
answer-IsRetired old (Call.update_table id input) db fresh v =
    update_table-keeps (IsRetired old) id input db v
      (update_table_row-IsRetired old id (updated_table input) db (λ t h. h) v)
answer-IsRetired old (Call.rotate_qr_token id token image) db fresh v =
    rotate_qr_token-keeps (IsRetired old) id token image db v
      (update_table_row-IsRetired old id (with_code token image) db (λ t h. fresh) v)
answer-IsRetired old (Call.regenerate_qr_image id image) db fresh v =
    regenerate_qr_image-keeps (IsRetired old) id image db v
      (update_table_row-IsRetired old id (with_image image) db (λ t h. h) v)
answer-IsRetired old (Call.delete_table id) db fresh v =
    delete_table-keeps (IsRetired old) id db v (λ _.
      All-select (λ t. has_token old t ≡ false) (λ t. has_token old t ≡ false)
        (λ t. not (is_table id t)) (λ t _ h. h) db.tables v)
answer-IsRetired old (Call.set_table_active id active) db fresh v =
    set_table_active-keeps (IsRetired old) id active db v
      (update_table_row-IsRetired old id (with_activity active) db (λ t h. h) v)

run-IsRetired :
    (old : ℕ) (calls : List Call) (db : Db)
    → All (Avoids old) calls
    → IsRetired old db
    → IsRetired old (run calls db)
run-IsRetired old [] db fresh v = v
run-IsRetired old (call ∷ calls) db (fresh, more) v =
    run-IsRetired old calls (written db (answer call db)) more
      (answer-IsRetired old call db fresh v)

find_by-None : (p : Table → Bool) (ts : List Table) → None p ts → find_by p ts ≡ none
find_by-None p [] h = refl
find_by-None p (t ∷ ts) (h, hs) = rw h (find_by-None p ts hs)

IsRetired-refused :
    (old : ℕ) (db : Db)
    → IsRetired old db
    → (resolve_by_token old db ≡ err (not_found Reason.qr_no_longer_valid))
      × (resolve_table db.tables (some old) ≡ err (bad_request Reason.qr_not_valid))
unfolding resolve_by_token resolve_table
IsRetired-refused old db v = rw (find_by-None (has_token old) db.tables v) (refl, refl)

rotated-IsRetired :
    (id old fresh : ℕ) (image : String) (ts : List Table)
    → (fresh == old) ≡ false
    → None (λ x. has_token old x && not (is_table id x)) ts
    → None (has_token old) (update_where (is_table id) (with_code fresh image) ts)
rotated-IsRetired id old fresh image [] new alone = tt
rotated-IsRetired id old fresh image (t ∷ ts) new (h, hs) = elim (Bool-cases (is_table id t)) [
  | inl e ↦ rw e (new, rotated-IsRetired id old fresh image ts new hs)
  | inr e ↦ rw e (ground (arith, h, e), rotated-IsRetired id old fresh image ts new hs)
]

-- Once a table's QR code is rotated, the old code is refused for good, both when it is scanned and when
-- an order is placed with it, whatever calls on the tables follow: tokens are unique, and the ones drawn
-- for the rotation and by the later calls are not the old one.
pub rotate_qr_token-refused :
    (calls : List Call) (db : Db) (id fresh : ℕ) (image : String) (t : Table)
    → find_by (is_table id) db.tables ≡ some t
    → None (λ x. has_token t.qr_token x && not (is_table id x)) db.tables
    → (fresh == t.qr_token) ≡ false
    → All (Avoids t.qr_token) calls
    → let after = run (Call.rotate_qr_token id fresh image ∷ calls) db in
      (resolve_by_token t.qr_token after ≡ err (not_found Reason.qr_no_longer_valid))
      × (resolve_table after.tables (some t.qr_token) ≡ err (bad_request Reason.qr_not_valid))
unfolding rotate_qr_token
rotate_qr_token-refused calls db id fresh image t there alone new avoided =
    IsRetired-refused t.qr_token _ (
      run-IsRetired t.qr_token calls _ avoided
        (rw there (rotated-IsRetired id t.qr_token fresh image db.tables new alone)))
