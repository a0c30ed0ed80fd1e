-- ===== src/System/Moves.antt =====
-- The services on orders follow the table of transitions.
use Prim.Native.String.{String}
use restaurant_qr_ordering_s.Base.{
  ℕ, ◌≡◌, refl, subst, sym, inl, inr, Bool, true, not, ◌&&◌, Option, none, some, some-injective,
  ◌∙◌, List, ◌==◌, ltb, arith, Bool-cases, Option-cases, count_where, if◌then◌else◌,
}
use restaurant_qr_ordering_s.Errors.{not_found, Reason}
use restaurant_qr_ordering_s.Status.{
  OrderStatus, needs_approval, awaiting_advance_payment, pending, cancelled, can_transition,
  status_eq, is_held, is_open, includes, editable_statuses,
}
use restaurant_qr_ordering_s.Store.{
  Db, Order, found, find_order, find_by_token, update_order, collected,
}
use restaurant_qr_ordering_s.Orders.Pricing.{Request, price_items}
use restaurant_qr_ordering_s.Orders.Change.{
  changed, release_table, keeps_table, apply_status_change, update_status, cancel_order,
  reject_order, cancel_held_order_by_token, guest_reason,
}
use restaurant_qr_ordering_s.Orders.Change.Laws.{found-ok}
use restaurant_qr_ordering_s.Orders.Release.{
  set_status, release_after_payment, required_advance, approved, approved_status, approve_order_tx,
  approve_order, add_items_tx, add_items,
}
use restaurant_qr_ordering_s.System.Advances.{
  Advances, Advances-same, Commits, Commits->>=, Commits-throw_if, commit-Advances,
  update_where-Advances,
}

pub release_table-orders :
    (t : Option ℕ) (to : OrderStatus) (db : Db) → (release_table t to db).orders ≡ db.orders
unfolding release_table
release_table-orders none to db = refl
release_table-orders (some t) to db =
    elim (Bool-cases (not (is_open to) && count_where (keeps_table t) db.orders == 0)) [
      | inl e ↦ rw e refl
      | inr e ↦ rw e refl
    ]

approved-legal :
    (s : OrderStatus) (short : Bool)
    → status_eq s needs_approval ≡ true
    → can_transition s (if short then awaiting_advance_payment else pending) ≡ true
unfolding can_transition
approved-legal s short h = ground arith

advance-legal :
    (s : OrderStatus)
    → status_eq s awaiting_advance_payment ≡ true
    → can_transition s pending ≡ true
unfolding can_transition
advance-legal s h = ground arith

apply_status_change-Commits :
    (now id : ℕ) (to : OrderStatus) (actor : Option ℕ) (reason : Option String) (db : Db)
    → Commits db.orders (apply_status_change now id to actor reason db)
unfolding apply_status_change
apply_status_change-Commits now id to actor reason db =
    Commits->>= {B = Order} db.orders (found (find_order id db) (not_found Reason.order_not_found))
      _
      λ o e. Commits-throw_if db.orders (status_eq o.status to) _ _ λ differs.
        Commits-throw_if db.orders (not (can_transition o.status to)) _ _ λ legal.
          subst (Advances db.orders)
            (sym (
              release_table-orders o.table_id to
                (update_order id (changed now to actor reason) db)))
            (update_where-Advances id (changed now to actor reason) db.orders (λ x. refl)
              (λ p at. inr (
                subst (λ q. can_transition q.status to ≡ true)
                  (some-injective _ _ (sym (found-ok (find_order id db) o e) ∙ at))
                  (ground arith))))

pub update_status-Advances :
    (now id : ℕ) (to : OrderStatus) (actor : Option ℕ) (db : Db)
    → Advances db.orders (update_status now id to actor db).1.orders
unfolding update_status
update_status-Advances now id to actor db =
    commit-Advances db _ _ (apply_status_change-Commits now id to actor none db)

pub cancel_order-Advances :
    (now id : ℕ) (reason : String) (actor : Option ℕ) (db : Db)
    → Advances db.orders (cancel_order now id reason actor db).1.orders
unfolding cancel_order
cancel_order-Advances now id reason actor db =
    commit-Advances db _ _ (apply_status_change-Commits now id cancelled actor (some reason) db)

pub reject_order-Advances :
    (now id : ℕ) (reason : String) (actor : Option ℕ) (db : Db)
    → Advances db.orders (reject_order now id reason actor db).1.orders
unfolding reject_order
reject_order-Advances now id reason actor db = commit-Advances db _ _ (
    Commits->>= {B = Order} db.orders (found (find_order id db) (not_found Reason.order_not_found))
      _
      λ o e.
        Commits-throw_if db.orders (not (is_held o.status)) _ _
          λ held. apply_status_change-Commits now id cancelled actor (some reason) db)

pub cancel_held_order_by_token-Advances :
    (now token : ℕ) (db : Db)
    → Advances db.orders (cancel_held_order_by_token now token db).1.orders
unfolding cancel_held_order_by_token
cancel_held_order_by_token-Advances now token db = commit-Advances db _ _ (
    Commits->>= {B = Order} db.orders
      (found (find_by_token token db) (not_found Reason.order_not_found)) _
      λ o e.
        Commits-throw_if db.orders (not (is_held o.status)) _ _
          λ held. apply_status_change-Commits now o.id cancelled none guest_reason db)

pub approve_order-Advances :
    (now id : ℕ) (actor : Option ℕ) (db : Db)
    → Advances db.orders (approve_order now id actor db).1.orders
unfolding approve_order approve_order_tx
approve_order-Advances now id actor db = commit-Advances db _ _ (
    Commits->>= {B = Order} db.orders (found (find_order id db) (not_found Reason.order_not_found))
      _
      λ o e.
        Commits-throw_if db.orders (status_eq o.status awaiting_advance_payment) _ _ λ unapproved.
          Commits-throw_if db.orders (not (status_eq o.status needs_approval)) _ _ λ held.
            update_where-Advances id (approved now actor (approved_status o db)) db.orders
              (λ x. refl)
              (λ p at. inr (
                subst (λ q. can_transition q.status (approved_status o db) ≡ true)
                  (some-injective _ _ (sym (found-ok (find_order id db) o e) ∙ at))
                  (approved-legal o.status
                    (ltb 0 (required_advance o)
                      && ltb (collected o.id db.payments) (required_advance o))
                    (ground arith)))))

pub add_items-Advances :
    (id : ℕ) (requests : List Request) (db : Db)
    → Advances db.orders (add_items id requests db).1.orders
unfolding add_items add_items_tx
add_items-Advances id requests db = commit-Advances db _ _ (
    Commits->>= {B = Order} db.orders (found (find_order id db) (not_found Reason.order_not_found))
      _
      λ o e. Commits-throw_if db.orders (is_held o.status) _ _ λ free.
        Commits-throw_if db.orders (not (includes editable_statuses o.status)) _ _ λ editable.
          Commits->>= db.orders (price_items db.foods requests) _
            λ p priced. update_where-Advances id _ db.orders (λ x. refl) (λ q at. inl refl))

pub release_after_payment-Advances :
    (id : ℕ) (db : Db) → Advances db.orders (release_after_payment id db).orders
unfolding release_after_payment
release_after_payment-Advances id db = elim (Option-cases (find_order id db)) [
  | inl e ↦ rw e (Advances-same db.orders)
  | inr (o, e) ↦ rw e (elim (Bool-cases (status_eq o.status awaiting_advance_payment)) [
    | inr other ↦ rw other (Advances-same db.orders)
    | inl waits ↦
        rw waits (elim (Bool-cases (ltb (collected id db.payments) (required_advance o))) [
          | inl short ↦ rw short (Advances-same db.orders)
          | inr paid ↦ rw paid (
              update_where-Advances id (set_status pending) db.orders (λ x. refl)
                (λ p at. inr (
                  subst (λ q. can_transition q.status pending ≡ true)
                    (some-injective _ _ (sym e ∙ at)) (advance-legal o.status waits))))
        ])
  ])
]
