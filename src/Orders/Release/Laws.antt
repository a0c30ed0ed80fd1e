-- ===== src/Orders/Release/Laws.antt =====
-- Leaving a hold and adding items keep the invariant of the order tables, and a hold is left only
-- for what it waited for.
use restaurant_qr_ordering_s.Base.{
  ℕ, ◌+◌, ◌*◌, ◌<◌, ◌≡◌, refl, subst, inl, inr, true, false, not, Option, some, List, [], ◌∷◌, ◌++◌,
  arith, ltb, Bool-cases, Option-cases, All, All-append, All-find_by, sum_of-append,
}
use restaurant_qr_ordering_s.Errors.{ok, not_found, Reason}
use restaurant_qr_ordering_s.Status.{
  OrderStatus, needs_approval, awaiting_advance_payment, pending, includes, editable_statuses,
  status_eq, is_open, is_held,
}
use restaurant_qr_ordering_s.Store.{Db, Order, Item, found, find_order, has_id, collected}
use restaurant_qr_ordering_s.Orders.Pricing.{Request, price_items, compute_totals, load_charges}
use restaurant_qr_ordering_s.Orders.Pricing.Lines.{ArePriced, Prices, price_items-Prices}
use restaurant_qr_ordering_s.Orders.Release.{
  required_advance, set_status, release_found, release_after_payment, approved_status, approved,
  approve_order_tx, approve_order, lines_total, extended, add_items_tx, add_items,
}
use restaurant_qr_ordering_s.Orders.Change.Laws.{found-ok}
use restaurant_qr_ordering_s.Orders.Validity.{
  IsBilled, IsSeated, IsValid, commit-IsValid, Keeps->>=, Keeps-throw_if,
}
use restaurant_qr_ordering_s.Orders.Validity.Rows.{update_order-IsValid}

-- A status that is open, on an order that was open, leaves it billed and seated.
set_status-IsBilled :
    (next : OrderStatus) (o : Order)
    → (next ≡ awaiting_advance_payment → 0 < required_advance o)
    → IsBilled o
    → IsBilled (set_status next o)
set_status-IsBilled next o due b = record {
  lines = b.lines;
  sums = b.sums;
  totals = b.totals;
  advance_due = due;
}

open_of_eq : (s t : OrderStatus) → status_eq s t ≡ true → is_open t ≡ true → is_open s ≡ true
open_of_eq s t e h = ground arith

release_found-IsValid :
    (id : ℕ) (db : Db) (o : Order)
    → IsValid db
    → find_order id db ≡ some o
    → IsValid (release_found id db (some o))
release_found-IsValid id db o v e =
    elim (Bool-cases (status_eq o.status awaiting_advance_payment)) [
      | inr other ↦ rw other v
      | inl waiting ↦ elim (Bool-cases (ltb (collected id db.payments) (required_advance o))) [
        | inl short ↦ rw (waiting, short) v
        | inr paid ↦
            rw (waiting, paid)
              (update_order-IsValid db id (set_status pending) o v e (λ x. (refl, refl))
                (set_status-IsBilled pending o (λ h. cc)
                  (All-find_by IsBilled (has_id id) db.orders o v.billed e))
                (λ _.
                  All-find_by (IsSeated db.tables) (has_id id) db.orders o v.seated e
                    (open_of_eq o.status awaiting_advance_payment waiting refl)))
      ]
    ]

pub release_after_payment-IsValid :
    (id : ℕ) (db : Db) → IsValid db → IsValid (release_after_payment id db)
unfolding release_after_payment
release_after_payment-IsValid id db v = elim (Option-cases (find_order id db)) [
  | inl e ↦ rw e v
  | inr (o, e) ↦ rw e (release_found-IsValid id db o v e)
]

approved-IsBilled :
    (now : ℕ) (actor : Option ℕ) (o : Order) (db : Db)
    → IsBilled o
    → IsBilled (approved now actor (approved_status o db) o)
approved-IsBilled now actor o db b = record {
  lines = b.lines;
  sums = b.sums;
  totals = b.totals;
  advance_due = λ e. ground arith;
}

-- Approving an order keeps the invariant of the order tables; above all, an approved order waits for
-- an advance only if it has one to pay.
pub approve_order-IsValid :
    (now id : ℕ) (actor : Option ℕ) (db : Db)
    → IsValid db
    → IsValid (approve_order now id actor db).1
unfolding approve_order
approve_order-IsValid now id actor db v = commit-IsValid db _ (approve_order_tx now id actor db) v (
    Keeps->>= (found (find_order id db) (not_found Reason.order_not_found)) _ λ o e.
      Keeps-throw_if (status_eq o.status awaiting_advance_payment) _ _ λ _.
        Keeps-throw_if (not (status_eq o.status needs_approval)) _ _ λ held.
          let e' = found-ok (find_order id db) o e in
          update_order-IsValid db id (approved now actor (approved_status o db)) o v e'
            (λ x. (refl, refl))
            (approved-IsBilled now actor o db
              (All-find_by IsBilled (has_id id) db.orders o v.billed e'))
            (λ _.
              All-find_by (IsSeated db.tables) (has_id id) db.orders o v.seated e'
                (open_of_eq o.status needs_approval (ground arith) refl)))

pub ArePriced-lines :
    (db : Db) (rs : List Request) (lines : List Item)
    → ArePriced db.foods rs lines
    → All (λ i. i.line_total ≡ i.unit_price * i.quantity) lines
ArePriced-lines db [] [] h = tt
ArePriced-lines db [] (i ∷ is) h = absurd h
ArePriced-lines db (r ∷ rs) [] h = absurd h
ArePriced-lines db (r ∷ rs) (i ∷ is) ((f, _, _, e), hs) = (rw e refl, ArePriced-lines db rs is hs)

pub Prices-ok :
    (db : Db) (rs : List Request) (p : List Item × ℕ)
    → price_items db.foods rs ≡ ok p
    → ArePriced db.foods rs p.0 × (p.1 ≡ lines_total p.0)
Prices-ok db rs p e = subst (Prices db.foods rs) e (price_items-Prices db.foods rs)

lines_total-append : (xs ys : List Item) → lines_total (xs ++ ys) ≡ lines_total xs + lines_total ys
lines_total-append xs ys = sum_of-append (λ i. i.line_total) xs ys

extended-IsBilled :
    (db : Db) (rs : List Request) (o : Order) (lines : List Item) (added tax service : ℕ)
    → is_held o.status ≡ false
    → ArePriced db.foods rs lines
    → added ≡ lines_total lines
    → IsBilled o
    → IsBilled (
        extended
          (compute_totals (lines_total o.items + added) tax service o.discount_amount)
          lines
          o)
unfolding compute_totals is_held
extended-IsBilled db rs o lines added tax service free priced sum b = record {
  lines =
      All-append (λ i. i.line_total ≡ i.unit_price * i.quantity) o.items lines b.lines
        (ArePriced-lines db rs lines priced);
  sums = omega (arith, lines_total-append o.items lines);
  totals = omega arith;
  advance_due = b.advance_due;
}

-- Adding lines to an order keeps the invariant of the order tables: the bill is again the one of all
-- its lines.
pub add_items-IsValid :
    (id : ℕ) (requests : List Request) (db : Db) → IsValid db → IsValid (add_items id requests db).1
unfolding add_items
add_items-IsValid id requests db v = commit-IsValid db _ (add_items_tx id requests db) v (
    Keeps->>= (found (find_order id db) (not_found Reason.order_not_found)) _ λ o e.
      Keeps-throw_if (is_held o.status) _ _ λ free.
        Keeps-throw_if (not (includes editable_statuses o.status)) _ _ λ _.
          Keeps->>= (price_items db.foods requests) _ λ p priced.
            let e' = found-ok (find_order id db) o e in
            let charges = load_charges db.settings in
            let (lines_ok, sum_ok) = Prices-ok db requests p priced in
            update_order-IsValid db id
              (extended
                (compute_totals (lines_total o.items + p.1) charges.tax_percent
                  charges.service_percent o.discount_amount)
                p.0)
              o v e' (λ x. (refl, refl))
              (extended-IsBilled db requests o p.0 p.1 charges.tax_percent charges.service_percent
                free lines_ok sum_ok (All-find_by IsBilled (has_id id) db.orders o v.billed e'))
              (All-find_by (IsSeated db.tables) (has_id id) db.orders o v.seated e'))
