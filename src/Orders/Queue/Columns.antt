-- ===== src/Orders/Queue/Columns.antt =====
-- The kitchen's columns: every cooking order stands in exactly one, oldest first.
use restaurant_qr_ordering_s.Base.{
  ℕ, ◌+◌, ◌≤◌, ◌≡◌, refl, ap, sym, ◌∙◌, subst, inl, inr, Bool, true, false, if◌then◌else◌, List, [],
  ◌∷◌, length, select, count_where, count_where-zero, ◌&&◌, not, All, All-select, All-map, arith,
  Bool-cases,
}
use restaurant_qr_ordering_s.Status.{
  OrderStatus, pending, confirmed, preparing, ready, status_eq, includes,
}
use restaurant_qr_ordering_s.Store.{Db, Food, Item, Order}
use restaurant_qr_ordering_s.Orders.Queue.{
  in_kitchen, kitchen_statuses, preparation_of, longest, estimated_minutes, Ticket, with_estimates,
  Queue, column, get_kitchen_queue,
}

abbrev pub AreOldestFirst : List Order → Type 0
AreOldestFirst [] = Unit
AreOldestFirst (o ∷ os) = All (λ p. o.placed_at ≤ p.placed_at) os × AreOldestFirst os

abbrev pub orders_of : List Ticket → List Order
orders_of [] = []
orders_of (t ∷ ts) = t.order ∷ orders_of ts

-- The least number of minutes that is at least 10 and enough for every dish of the order.
pub record IsEstimate (foods : List Food) (t : Ticket) : Type 0 where
  pub minimum : 10 ≤ t.estimate
  pub enough : All (λ i. preparation_of foods i.food_id ≤ t.estimate) t.order.items
  pub least :
      (n : ℕ)
      → 10 ≤ n
      → All (λ i. preparation_of foods i.food_id ≤ n) t.order.items
      → t.estimate ≤ n

-- What the kitchen display relies on.
abbrev pub IsColumn : List Food → OrderStatus → List Ticket → Type 0
IsColumn foods s ts =
    All (λ t. status_eq t.order.status s ≡ true) ts
    × All (IsEstimate foods) ts
    × AreOldestFirst (orders_of ts)

pub record IsQueue (db : Db) (q : Queue) : Type 0 where
  pub pending_column : IsColumn db.foods pending q.pending
  pub confirmed_column : IsColumn db.foods confirmed q.confirmed
  pub preparing_column : IsColumn db.foods preparing q.preparing
  pub ready_column : IsColumn db.foods ready q.ready
  pub all_shown :
      (p : Order → Bool)
      → count_where p (orders_of q.pending)
          + count_where p (orders_of q.confirmed)
          + count_where p (orders_of q.preparing)
          + count_where p (orders_of q.ready)
        ≡ count_where (λ o. in_kitchen o && p o) db.orders
  pub total_right : q.total ≡ count_where in_kitchen db.orders

longest-enough :
    (foods : List Food) (n : ℕ) (is : List Item)
    → longest foods is ≤ n
    → All (λ i. preparation_of foods i.food_id ≤ n) is
longest-enough foods n [] h = tt
longest-enough foods n (i ∷ is) h = (omega arith, longest-enough foods n is (omega arith))

longest-least :
    (foods : List Food) (n : ℕ) (is : List Item)
    → All (λ i. preparation_of foods i.food_id ≤ n) is
    → longest foods is ≤ n
longest-least foods n [] h = omega arith
longest-least foods n (i ∷ is) (h, hs) = omega (arith, longest-least foods n is hs)

estimated : (foods : List Food) (os : List Order) → All (IsEstimate foods) (with_estimates foods os)
estimated foods [] = tt
estimated foods (o ∷ os) = (
  record {
    minimum = omega arith;
    enough = longest-enough foods (estimated_minutes foods o) o.items (omega arith);
    least = λ n low h. omega (arith, longest-least foods n o.items h);
  },
  estimated foods os,
)

orders_of-with_estimates :
    (foods : List Food) (os : List Order) → orders_of (with_estimates foods os) ≡ os
orders_of-with_estimates foods [] = refl
orders_of-with_estimates foods (o ∷ os) = ap (λ ps. o ∷ ps) (orders_of-with_estimates foods os)

length-with_estimates :
    (foods : List Food) (os : List Order) → length (with_estimates foods os) ≡ length os
length-with_estimates foods [] = refl
length-with_estimates foods (o ∷ os) = omega (arith, length-with_estimates foods os)

later_in_column :
    (P : Order → Type 0) (s : OrderStatus) (ts : List Ticket)
    → All P (orders_of ts)
    → All P (orders_of (column s ts))
later_in_column P s [] h = tt
later_in_column P s (t ∷ ts) (h, hs) = elim (Bool-cases (status_eq t.order.status s)) [
  | inl e ↦ rw e (h, later_in_column P s ts hs)
  | inr e ↦ rw e (later_in_column P s ts hs)
]

column-AreOldestFirst :
    (s : OrderStatus) (ts : List Ticket)
    → AreOldestFirst (orders_of ts)
    → AreOldestFirst (orders_of (column s ts))
column-AreOldestFirst s [] h = tt
column-AreOldestFirst s (t ∷ ts) (h, hs) = elim (Bool-cases (status_eq t.order.status s)) [
  | inl e ↦
      rw e (
        later_in_column (λ p. t.order.placed_at ≤ p.placed_at) s ts h,
        column-AreOldestFirst s ts hs,
      )
  | inr e ↦ rw e (column-AreOldestFirst s ts hs)
]

column-IsColumn :
    (foods : List Food) (s : OrderStatus) (os : List Order)
    → AreOldestFirst os
    → IsColumn foods s (column s (with_estimates foods os))
column-IsColumn foods s os sorted =
    let ts = with_estimates foods os in
    (
      All-select (IsEstimate foods) (λ t. status_eq t.order.status s ≡ true) _ (λ t e h. e) ts
          (estimated foods os),
      All-select (IsEstimate foods) (IsEstimate foods) _ (λ t e h. h) ts (estimated foods os),
      column-AreOldestFirst s ts
          (subst AreOldestFirst (sym (orders_of-with_estimates foods os)) sorted),
    )

abbrev one_if : Bool → ℕ
one_if b = if b then 1 else 0

one_column :
    (x : OrderStatus)
    → includes kitchen_statuses x ≡ true
    → one_if (status_eq x pending)
        + one_if (status_eq x confirmed)
        + one_if (status_eq x preparing)
        + one_if (status_eq x ready)
      ≡ 1
one_column x h = ground arith

count_where-column :
    (p : Order → Bool) (s : OrderStatus) (t : Ticket) (ts : List Ticket)
    → count_where p (orders_of (column s (t ∷ ts)))
      ≡ one_if (p t.order && status_eq t.order.status s) + count_where p (orders_of (column s ts))
count_where-column p s t ts = elim (Bool-cases (status_eq t.order.status s)) [
  | inl e ↦ rw e (ground arith)
  | inr e ↦ rw e (ground arith)
]

counted_once :
    (b : Bool) (x : OrderStatus)
    → includes kitchen_statuses x ≡ true
    → one_if (b && status_eq x pending)
        + one_if (b && status_eq x confirmed)
        + one_if (b && status_eq x preparing)
        + one_if (b && status_eq x ready)
      ≡ one_if b
counted_once true x h = one_column x h
counted_once false x h = refl

count_where-cons :
    (p : Order → Bool) (o : Order) (os : List Order)
    → count_where p (o ∷ os) ≡ one_if (p o) + count_where p os
count_where-cons p o os = ground arith

count_where-columns :
    (p : Order → Bool) (ts : List Ticket)
    → All (λ o. in_kitchen o ≡ true) (orders_of ts)
    → count_where p (orders_of (column pending ts))
        + count_where p (orders_of (column confirmed ts))
        + count_where p (orders_of (column preparing ts))
        + count_where p (orders_of (column ready ts))
      ≡ count_where p (orders_of ts)
count_where-columns p [] h = omega arith
count_where-columns p (t ∷ ts) (h, hs) = omega (
  arith,
  count_where-columns p ts hs,
  counted_once (p t.order) t.order.status h,
  count_where-cons p t.order (orders_of ts),
  count_where-column p pending t ts,
  count_where-column p confirmed t ts,
  count_where-column p preparing t ts,
  count_where-column p ready t ts,
)

selected : (p : Order → Bool) (os : List Order) → count_where (λ o. not (p o)) (select p os) ≡ 0
selected p [] = refl
selected p (o ∷ os) = elim (Bool-cases (p o)) [
  | inl e ↦ rw (e, e) (selected p os)
  | inr e ↦ rw e (selected p os)
]

count_where-select :
    (p q : Order → Bool) (os : List Order)
    → count_where p (select q os) ≡ count_where (λ o. q o && p o) os
count_where-select p q [] = refl
count_where-select p q (o ∷ os) = elim (Bool-cases (q o)) [
  | inl e ↦ rw e (ground (arith, count_where-select p q os))
  | inr e ↦ rw e (count_where-select p q os)
]

count_where-true : (os : List Order) → count_where (λ o. true) os ≡ length os
count_where-true [] = refl
count_where-true (o ∷ os) = omega (arith, count_where-true os)

module _ (oldest_first : List Order → List Order)
    (sorts : (os : List Order) → AreOldestFirst (oldest_first os))
    (keeps : (p : Order → Bool) (os : List Order)
      → count_where p (oldest_first os) ≡ count_where p os) where
  still_in_kitchen :
      (db : Db) → All (λ o. in_kitchen o ≡ true) (oldest_first (select in_kitchen db.orders))
  still_in_kitchen db =
      All-map (λ o. not (in_kitchen o) ≡ false) _ (λ o h. ground (arith, h)) _
        (count_where-zero (λ o. not (in_kitchen o)) _
          (keeps (λ o. not (in_kitchen o)) (select in_kitchen db.orders)
            ∙ selected in_kitchen db.orders))

  -- The kitchen queue shows the orders that are to be cooked, each as often as it is on file and in the
  -- column of its status, every column oldest first, and its total is their number; the estimate of an
  -- order is the least number of minutes that is 10 at least and enough for each of its dishes. The
  -- database sorts by `placedAt`, and neither drops nor doubles a row.
  pub get_kitchen_queue-IsQueue : (db : Db) → IsQueue db (get_kitchen_queue oldest_first db)
  unfolding get_kitchen_queue
  get_kitchen_queue-IsQueue db =
      let kitchen = select in_kitchen db.orders in
      let os = oldest_first kitchen in
      record {
        pending_column = column-IsColumn db.foods pending os (sorts _);
        confirmed_column = column-IsColumn db.foods confirmed os (sorts _);
        preparing_column = column-IsColumn db.foods preparing os (sorts _);
        ready_column = column-IsColumn db.foods ready os (sorts _);
        all_shown = λ p.
            count_where-columns p (with_estimates db.foods os) (
              subst (All (λ o. in_kitchen o ≡ true)) (sym (orders_of-with_estimates db.foods os))
                (still_in_kitchen db))
            ∙ ap (count_where p) (orders_of-with_estimates db.foods os)
            ∙ keeps p kitchen
            ∙ count_where-select p in_kitchen db.orders;
        total_right =
            length-with_estimates db.foods os
            ∙ sym (count_where-true os)
            ∙ keeps (λ o. true) kitchen
            ∙ count_where-true kitchen;
      }
