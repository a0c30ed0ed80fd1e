-- ===== src/Examples/QueueTests.antt =====
-- The theorem on the kitchen queue, with insertion sort for the order of the database.
use restaurant_qr_ordering_s.Base.{
  ◌≤◌, ◌≡◌, refl, inl, inr, Bool, List, [], ◌∷◌, leb, if◌then◌else◌, All, All-map, count_where,
  arith, Bool-cases,
}
use restaurant_qr_ordering_s.Status.{pending}
use restaurant_qr_ordering_s.Store.{Order}
use restaurant_qr_ordering_s.Orders.Queue.{get_kitchen_queue}
use restaurant_qr_ordering_s.Orders.Queue.Columns.{
  AreOldestFirst, IsQueue, get_kitchen_queue-IsQueue,
}
use restaurant_qr_ordering_s.Examples.Data.{busy}

abbrev insert : Order → List Order → List Order
insert o [] = o ∷ []
insert o (p ∷ ps) = if leb o.placed_at p.placed_at then o ∷ p ∷ ps else p ∷ insert o ps

abbrev sort : List Order → List Order
sort [] = []
sort (o ∷ os) = insert o (sort os)

insert-All :
    (P : Order → Type 0) (o : Order) (os : List Order) → P o → All P os → All P (insert o os)
insert-All P o [] h hs = (h, tt)
insert-All P o (p ∷ ps) h (k, ks) = elim (Bool-cases (leb o.placed_at p.placed_at)) [
  | inl e ↦ rw e (h, (k, ks))
  | inr e ↦ rw e (k, insert-All P o ps h ks)
]

insert-AreOldestFirst :
    (o : Order) (os : List Order) → AreOldestFirst os → AreOldestFirst (insert o os)
insert-AreOldestFirst o [] h = (tt, tt)
insert-AreOldestFirst o (p ∷ ps) (h, hs) = elim (Bool-cases (leb o.placed_at p.placed_at)) [
  | inl e ↦ rw e (
    (
      ground (arith, e),
      All-map (λ x. p.placed_at ≤ x.placed_at) _ (λ x le. ground (arith, e, le)) ps h,
    ),
    (h, hs),
  )
  | inr e ↦ rw e (
    insert-All (λ x. p.placed_at ≤ x.placed_at) o ps (ground (arith, e)) h,
    insert-AreOldestFirst o ps hs,
  )
]

sort-AreOldestFirst : (os : List Order) → AreOldestFirst (sort os)
sort-AreOldestFirst [] = tt
sort-AreOldestFirst (o ∷ os) = insert-AreOldestFirst o (sort os) (sort-AreOldestFirst os)

count_where-insert :
    (p : Order → Bool) (o : Order) (os : List Order)
    → count_where p (insert o os) ≡ count_where p (o ∷ os)
count_where-insert p o [] = refl
count_where-insert p o (q ∷ qs) = elim (Bool-cases (leb o.placed_at q.placed_at)) [
  | inl e ↦ rw e refl
  | inr e ↦ rw e (ground (arith, count_where-insert p o qs))
]

count_where-sort : (p : Order → Bool) (os : List Order) → count_where p (sort os) ≡ count_where p os
count_where-sort p [] = refl
count_where-sort p (o ∷ os) =
    ground (arith, count_where-insert p o (sort os), count_where-sort p os)

get_kitchen_queue_example : IsQueue (busy pending []) (get_kitchen_queue sort (busy pending []))
get_kitchen_queue_example =
    get_kitchen_queue-IsQueue sort sort-AreOldestFirst count_where-sort (busy pending [])
