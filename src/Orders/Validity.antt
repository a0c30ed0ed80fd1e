-- ===== src/Orders/Validity.antt =====
-- The invariant of the order tables: ids and numbers are distinct, bills are derived from their lines,
-- an order that waits for an advance has one to pay, and the table of an open order is occupied.
pub mod Rows
use restaurant_qr_ordering_s.Base.{
  ℕ, suc, ◌+◌, ◌-◌, ◌*◌, ◌≤◌, ◌<◌, ◌≡◌, refl, Bool, true, false, Option, none, some, List, [], ◌∷◌,
  ◌==◌, All, None,
}
use restaurant_qr_ordering_s.Errors.{Result, ok, err, AppError, ◌>>=◌, ◌>>◌, throw_if}
use restaurant_qr_ordering_s.Status.{OrderStatus, awaiting_advance_payment, is_open}
use restaurant_qr_ordering_s.Store.{
  Db, Order, Item, Table, TableStatus, Outcome, Effect, commit, has_id,
}
use restaurant_qr_ordering_s.Orders.Release.{required_advance, lines_total}

pub record IsBilled (o : Order) : Type 0 where
  pub lines : All (λ i. i.line_total ≡ i.unit_price * i.quantity) o.items
  pub sums : o.subtotal ≡ lines_total o.items
  pub totals : o.total_amount ≡ o.subtotal + o.tax_amount - o.discount_amount
  pub advance_due : o.status ≡ awaiting_advance_payment → 0 < required_advance o

abbrev pub Seat : List Table → Option ℕ → Type 0
Seat tables none = Unit
Seat tables (some t) = All (λ x. (x.id == t) ≡ true → x.status ≡ TableStatus.occupied) tables

abbrev pub IsSeated : List Table → Order → Type 0
IsSeated tables o = is_open o.status ≡ true → Seat tables o.table_id

abbrev pub IsIssued : ℕ → ℕ → Order → Type 0
IsIssued next_id order_seq o = (o.id < next_id) × (o.order_number < order_seq)

-- No later row has the id or the number of an earlier one.
abbrev pub Distinct : List Order → Type 0
Distinct [] = Unit
Distinct (o ∷ os) =
    None (has_id o.id) os × None (λ p. p.order_number == o.order_number) os × Distinct os

pub record IsValid (db : Db) : Type 0 where
  pub billed : All IsBilled db.orders
  pub seated : All (IsSeated db.tables) db.orders
  pub issued : All (IsIssued db.next_id db.order_seq) db.orders
  pub distinct : Distinct db.orders

-- A transaction keeps the invariant if it commits a valid database, or throws.
abbrev pub Keeps : {A : Type 0} → Result (A × Db) → Type 0
Keeps (ok (a, db)) = IsValid db
Keeps (err e) = Unit

pub commit-IsValid :
    {A : Type 0} (db : Db) (f : A → List Effect) (r : Result (A × Db))
    → IsValid db
    → Keeps r
    → IsValid (commit db f r).1
commit-IsValid db f (ok (a, after)) v k = k
commit-IsValid db f (err e) v k = v

pub Keeps->>= :
    {A B : Type 0} (m : Result A) (f : A → Result (B × Db))
    → ((a : A) → m ≡ ok a → Keeps (f a))
    → Keeps (m >>= f)
Keeps->>= (ok a) f h = h a refl
Keeps->>= (err e) f h = tt

pub Keeps-throw_if :
    {B : Type 0} (b : Bool) (e : AppError) (r : Result (B × Db))
    → (b ≡ false → Keeps r)
    → Keeps (throw_if b e >> r)
Keeps-throw_if true e r h = tt
Keeps-throw_if false e r h = h refl
