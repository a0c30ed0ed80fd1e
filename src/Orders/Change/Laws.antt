-- ===== src/Orders/Change/Laws.antt =====
-- What a status change does, and that every caller keeps the invariant of the order tables.
use Prim.Native.String.{String}
use restaurant_qr_ordering_s.Base.{
  ℕ, ◌≡◌, ◌≢◌, refl, inl, inr, true, not, ◌&&◌, Option, none, some, arith, ◌==◌, Bool-cases,
  count_where, All-find_by,
}
use restaurant_qr_ordering_s.Errors.{ok, not_found, Reason}
use restaurant_qr_ordering_s.Status.{
  OrderStatus, awaiting_advance_payment, cancelled, includes, settable_statuses, status_eq,
  can_transition, is_open, is_held,
}
use restaurant_qr_ordering_s.Store.{
  Db, Order, found, find_order, find_by_token, has_id, update_order,
}
use restaurant_qr_ordering_s.Orders.Change.{
  guest_reason, changed, keeps_table, release_table, apply_status_change, update_status,
  cancel_order, reject_order, cancel_held_order_by_token,
}
use restaurant_qr_ordering_s.Orders.Validity.{
  IsBilled, IsSeated, IsValid, Keeps, commit-IsValid, Keeps->>=, Keeps-throw_if,
}
use restaurant_qr_ordering_s.Orders.Validity.Rows.{update_order-IsValid, free-IsValid}

pub release_table-IsValid :
    (t : Option ℕ) (next : OrderStatus) (db : Db) → IsValid db → IsValid (release_table t next db)
unfolding release_table
release_table-IsValid none next db v = v
release_table-IsValid (some t) next db v =
    elim (Bool-cases (not (is_open next) && count_where (keeps_table t) db.orders == 0)) [
      | inl free ↦ rw free (free-IsValid db t v (ground arith))
      | inr kept ↦ rw kept v
    ]

pub found-ok :
    (o : Option Order) (x : Order) → found o (not_found Reason.order_not_found) ≡ ok x → o ≡ some x
found-ok none x h = cc
found-ok (some y) x h = cc

can_transition-open : (s next : OrderStatus) → can_transition s next ≡ true → is_open s ≡ true
unfolding can_transition
can_transition-open s next h = ground arith

changed-IsBilled :
    (now : ℕ) (next : OrderStatus) (actor : Option ℕ) (reason : Option String) (o : Order)
    → next ≢ awaiting_advance_payment
    → IsBilled o
    → IsBilled (changed now next actor reason o)
changed-IsBilled now next actor reason o ne b = record {
  lines = b.lines;
  sums = b.sums;
  totals = b.totals;
  advance_due = λ e. absurd (ne e);
}

pub apply_status_change-Keeps :
    (now id : ℕ) (next : OrderStatus) (actor : Option ℕ) (reason : Option String) (db : Db)
    → next ≢ awaiting_advance_payment
    → IsValid db
    → Keeps (apply_status_change now id next actor reason db)
unfolding apply_status_change
apply_status_change-Keeps now id next actor reason db ne v =
    Keeps->>= (found (find_order id db) (not_found Reason.order_not_found)) _ λ o e.
      Keeps-throw_if (status_eq o.status next) _ _ λ _.
        Keeps-throw_if (not (can_transition o.status next)) _ _ λ legal.
          let e' = found-ok (find_order id db) o e in
          release_table-IsValid o.table_id next (update_order id (changed now next actor reason) db)
            (update_order-IsValid db id (changed now next actor reason) o v e' (λ x. (refl, refl))
              (changed-IsBilled now next actor reason o ne
                (All-find_by IsBilled (has_id id) db.orders o v.billed e'))
              (λ _.
                All-find_by (IsSeated db.tables) (has_id id) db.orders o v.seated e'
                  (can_transition-open o.status next (ground arith))))

-- The validation of the route keeps `updateStatus` from the two held statuses.
abbrev pub IsSettable : OrderStatus → Type 0
IsSettable next = includes settable_statuses next ≡ true

settable_not_awaiting : (s : OrderStatus) → IsSettable s → s ≢ awaiting_advance_payment
settable_not_awaiting s h e = ground arith

-- Setting a status by hand, one that the route accepts, keeps the invariant of the order tables,
-- whether the change is made or refused.
pub update_status-IsValid :
    (now id : ℕ) (next : OrderStatus) (actor : Option ℕ) (db : Db)
    → IsSettable next
    → IsValid db
    → IsValid (update_status now id next actor db).1
unfolding update_status
update_status-IsValid now id next actor db h v =
    commit-IsValid db _ (apply_status_change now id next actor none db) v
      (apply_status_change-Keeps now id next actor none db (settable_not_awaiting next h) v)

-- Cancelling an order keeps the invariant of the order tables, whether it is cancelled or refused; a
-- table is freed only if no open order is left on it.
pub cancel_order-IsValid :
    (now id : ℕ) (reason : String) (actor : Option ℕ) (db : Db)
    → IsValid db
    → IsValid (cancel_order now id reason actor db).1
unfolding cancel_order
cancel_order-IsValid now id reason actor db v =
    commit-IsValid db _ (apply_status_change now id cancelled actor (some reason) db) v
      (apply_status_change-Keeps now id cancelled actor (some reason) db (ground arith) v)

-- Rejecting an order keeps the invariant of the order tables, whether it is held or not.
pub reject_order-IsValid :
    (now id : ℕ) (reason : String) (actor : Option ℕ) (db : Db)
    → IsValid db
    → IsValid (reject_order now id reason actor db).1
unfolding reject_order
reject_order-IsValid now id reason actor db v = commit-IsValid db _ _ v (
    Keeps->>= (found (find_order id db) (not_found Reason.order_not_found)) _ λ o e.
      Keeps-throw_if (not (is_held o.status)) _ _
        λ _. apply_status_change-Keeps now id cancelled actor (some reason) db (ground arith) v)

-- A guest's cancellation by token keeps the invariant of the order tables.
pub cancel_held_order_by_token-IsValid :
    (now token : ℕ) (db : Db) → IsValid db → IsValid (cancel_held_order_by_token now token db).1
unfolding cancel_held_order_by_token
cancel_held_order_by_token-IsValid now token db v = commit-IsValid db _ _ v (
    Keeps->>= (found (find_by_token token db) (not_found Reason.order_not_found)) _ λ o e.
      Keeps-throw_if (not (is_held o.status)) _ _
        λ _. apply_status_change-Keeps now o.id cancelled none guest_reason db (ground arith) v)
