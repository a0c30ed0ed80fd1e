-- ===== src/Payments/Ledger.antt =====
-- How a change of one row of the ledger shows in what it holds for an order.
use restaurant_qr_ordering_s.Base.{
  ℕ, ◌+◌, ◌≡◌, subst, inl, inr, Bool, some, some-injective, List, [], ◌∷◌, arith, ◌==◌, ==_iff,
  Bool-cases, if◌then◌else◌, find_by, update_where, None, update_where-None,
}
use restaurant_qr_ordering_s.Store.{Payment, collected, is_settled}

abbrev pub has_payment_id : ℕ → Payment → Bool
has_payment_id id p = p.id == id

-- No later row has the id of an earlier one.
abbrev pub DistinctIds : List Payment → Type 0
DistinctIds [] = Unit
DistinctIds (p ∷ ps) = None (has_payment_id p.id) ps × DistinctIds ps

-- What a row counts for an order.
abbrev pub counted : ℕ → Payment → ℕ
counted id p = if is_settled id p then p.amount else 0

collected-cons :
    (id : ℕ) (p : Payment) (ps : List Payment)
    → collected id (p ∷ ps) ≡ counted id p + collected id ps
collected-cons id p ps = ground arith

-- The ledger holds as much more, or less, as the changed row counts.
pub collected-update :
    (order_id key : ℕ) (f : Payment → Payment) (ps : List Payment) (p : Payment)
    → DistinctIds ps
    → find_by (has_payment_id key) ps ≡ some p
    → collected order_id (update_where (has_payment_id key) f ps) + counted order_id p
      ≡ collected order_id ps + counted order_id (f p)
collected-update order_id key f [] p d e = cc
collected-update order_id key f (x ∷ xs) p (fresh, rest) e = elim (Bool-cases (x.id == key)) [
  | inl same ↦
      let e' : x ≡ p = some-injective _ _ (rw same at e) in
      let i : x.id ≡ key = (==_iff x.id key).0 same in
      let still =
        update_where-None (has_payment_id key) f xs
          (subst (λ k. None (has_payment_id k) xs) i fresh) in
      rw (same, still)
        (subst
          (λ y.
            collected order_id (f x ∷ xs) + counted order_id y
            ≡ collected order_id (x ∷ xs) + counted order_id (f y))
          e' (omega (arith, collected-cons order_id (f x) xs, collected-cons order_id x xs)))
  | inr other ↦ rw other (
      omega (
        arith,
        collected-update order_id key f xs p rest (rw other at e),
        collected-cons order_id x xs,
        collected-cons order_id x (update_where (has_payment_id key) f xs),
      ))
]
