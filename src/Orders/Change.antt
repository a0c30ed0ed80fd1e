-- ===== src/Orders/Change.antt =====
-- The status changes of server/src/services/order.service.ts: `applyStatusChange` and its callers.
pub mod Laws
use Prim.Native.String.{String}
use restaurant_qr_ordering_s.Base.{
  ℕ, Bool, true, false, not, ◌&&◌, Option, none, some, List, [], ◌∷◌, ◌++◌, ◌==◌, if◌then◌else◌,
  count_where,
}
use restaurant_qr_ordering_s.Errors.{
  Result, ok, err, ◌>>=◌, ◌>>◌, throw_if, conflict, not_found, Reason,
}
use restaurant_qr_ordering_s.Status.{
  OrderStatus, needs_approval, awaiting_advance_payment, pending, confirmed, preparing, ready,
  served, cancelled, status_eq, is_held, can_transition, allowed_transitions, is_open,
}
use restaurant_qr_ordering_s.Store.{
  Db, Order, TableStatus, Outcome, Effect, AuditAction, commit, found, find_order, find_by_token,
  update_order, set_table_status,
}
use restaurant_qr_ordering_s.Orders.Gates.{refers_to}

-- `STATUS_TIMESTAMP`: the column named for a status is stamped when that status is entered.
abbrev pub stamped : ℕ → OrderStatus → OrderStatus → Option ℕ → Option ℕ
stamped now column next old = if status_eq column next then some now else old

-- Only the first member of staff is recorded.
abbrev pub first_actor : Option ℕ → Option ℕ → Option ℕ
first_actor (some a) none = some a
first_actor _ old = old

-- The columns of `extra`: a cancellation reason, where there is one.
abbrev pub with_reason : Option String → Option String → Option String
with_reason none old = old
with_reason (some r) old = some r

abbrev pub changed : ℕ → OrderStatus → Option ℕ → Option String → Order → Order
changed now next actor reason o = record o {
  status = next;
  handled_by = first_actor actor o.handled_by;
  confirmed_at = stamped now confirmed next o.confirmed_at;
  prepared_at = stamped now preparing next o.prepared_at;
  ready_at = stamped now ready next o.ready_at;
  served_at = stamped now served next o.served_at;
  cancelled_at = stamped now cancelled next o.cancelled_at;
  cancel_reason = with_reason reason o.cancel_reason;
}

abbrev pub keeps_table : ℕ → Order → Bool
keeps_table t o = refers_to t o.table_id && is_open o.status

-- Frees the table of a closed order, unless another open order stands on it.
unfoldable pub release_table : Option ℕ → OrderStatus → Db → Db
release_table none next db = db
release_table (some t) next db =
    if not (is_open next) && count_where (keeps_table t) db.orders == 0
    then set_table_status t TableStatus.available db
    else db

abbrev pub refusal : OrderStatus → Reason
refusal current = elim (allowed_transitions current) [
  | [] ↦ Reason.terminal_status
  | _ ∷ _ ↦ Reason.illegal_transition
]

unfoldable pub apply_status_change :
    ℕ → ℕ → OrderStatus → Option ℕ → Option String → Db → Result (Order × Db)
unfolding release_table
apply_status_change now id next actor reason db = do
  order ← found (find_order id db) (not_found Reason.order_not_found)
  throw_if (status_eq order.status next) (conflict Reason.already_in_status)
  throw_if (not (can_transition order.status next)) (conflict (refusal order.status))
  ok (
    changed now next actor reason order,
    release_table order.table_id next (update_order id (changed now next actor reason) db),
  )

abbrev ready_effect : OrderStatus → ℕ → List Effect
ready_effect ready id = Effect.emit_waiter_order_ready id ∷ []
ready_effect _ id = []

unfoldable pub update_status : ℕ → ℕ → OrderStatus → Option ℕ → Db → Outcome Order
unfolding apply_status_change
update_status now id next actor db =
    commit db
      (λ o.
        (Effect.emit_order_status_changed o.id ∷ Effect.notify_order_status o.id ∷ [])
        ++ ready_effect next o.id)
      (apply_status_change now id next actor none db)

unfoldable pub serve_order : ℕ → ℕ → Option ℕ → Db → Outcome Order
unfolding update_status
serve_order now id actor db = update_status now id served actor db

abbrev pub cancel_effects : Order → List Effect
cancel_effects o = Effect.emit_order_cancelled o.id ∷ Effect.notify_order_status o.id ∷ []

unfoldable pub cancel_order : ℕ → ℕ → String → Option ℕ → Db → Outcome Order
unfolding apply_status_change
cancel_order now id reason actor db =
    commit db cancel_effects (apply_status_change now id cancelled actor (some reason) db)

-- The read and the guard stand before the transaction.
unfoldable pub reject_order : ℕ → ℕ → String → Option ℕ → Db → Outcome Order
unfolding apply_status_change
reject_order now id reason actor db =
    commit db (λ o. cancel_effects o ++ (Effect.audit AuditAction.order_reject o.id actor ∷ []))
      (do
        order ← found (find_order id db) (not_found Reason.order_not_found)
        throw_if (not (is_held order.status)) (conflict Reason.not_held)
        apply_status_change now id cancelled actor (some reason) db)

abbrev pub guest_reason : Option String
guest_reason = some "Cancelled by the guest before payment"

unfoldable pub cancel_held_order_by_token : ℕ → ℕ → Db → Outcome Order
unfolding apply_status_change
cancel_held_order_by_token now token db =
    commit db
      (λ o. cancel_effects o ++ (Effect.audit AuditAction.order_cancel_by_guest o.id none ∷ []))
      (do
        order ← found (find_by_token token db) (not_found Reason.order_not_found)
        throw_if (not (is_held order.status)) (conflict Reason.gone_to_kitchen)
        apply_status_change now order.id cancelled none guest_reason db)
