-- ===== src/Payments/Online.antt =====
-- `initiateOnlinePayment` and `confirmOnlinePayment` of server/src/services/payment.service.ts.
pub mod Initiated
pub mod Confirmed
use Prim.Native.String.{String}
use restaurant_qr_ordering_s.Base.{
  ℕ, ◌-◌, Bool, true, false, not, ◌&&◌, Option, none, some, List, [], ◌∷◌, leb, if◌then◌else◌,
}
use restaurant_qr_ordering_s.Errors.{
  Result, ok, err, ◌>>=◌, ◌>>◌, throw_if, bad_request, conflict, not_found, Reason,
}
use restaurant_qr_ordering_s.Status.{
  OrderStatus, needs_approval, awaiting_advance_payment, cancelled, status_eq,
}
use restaurant_qr_ordering_s.Store.{
  Db, Order, Payment, PaymentMethod, TxnStatus, Outcome, Effect, commit, found, find_by_token,
  find_payment, update_payment, insert_payment, collected,
}
use restaurant_qr_ordering_s.Orders.Gates.{is_paid}
use restaurant_qr_ordering_s.Orders.Release.{required_advance}
use restaurant_qr_ordering_s.Payments.Provider.{
  Provider, Confirmation, is_demo, provider_name, create_intent, verify_confirmation, is_truthy,
  text_or_empty,
}
use restaurant_qr_ordering_s.Payments.Reconcile.{
  reconcile_after_payment, Settlement, loaded, settled_effects,
}

abbrev pub is_deposit : Order → Bool
is_deposit o = status_eq o.status awaiting_advance_payment

-- An order that waits for its advance is charged the advance, any other its bill.
abbrev pub target_of : Order → ℕ
target_of o = if is_deposit o then required_advance o else o.total_amount

-- A row written with status PENDING.
abbrev pub pending_row : ℕ → Provider → String → ℕ → ℕ → Db → Payment
pending_row now provider ref order_id amount db = record {
  id = db.next_id;
  order_id = order_id;
  amount = amount;
  method = PaymentMethod.online;
  status = TxnStatus.pending;
  provider = provider_name provider;
  provider_ref = some ref;
  receipt_number = none;
  refunded_at = none;
  refund_reason = none;
  paid_at = none;
  created_at = now;
}

-- `minted` is the random reference of the demo gateway and `reply` what Razorpay answers.
unfoldable pub initiate_online_payment :
    ℕ → Provider → String → Option String → ℕ → Db → Result (Payment × Db)
initiate_online_payment now provider minted reply token db = do
  order ← found (find_by_token token db) (not_found Reason.order_not_found)
  throw_if (is_paid order.payment_status) (conflict Reason.already_paid)
  throw_if (status_eq order.status cancelled) (conflict Reason.order_cancelled)
  throw_if (status_eq order.status needs_approval) (conflict Reason.awaits_approval)
  let already = collected order.id db.payments
  throw_if (leb (target_of order) already) (conflict Reason.nothing_left_to_pay)
  ref ← create_intent provider minted reply
  let payment = pending_row now provider ref order.id (target_of order - already) db
  ok (payment, insert_payment payment db)

abbrev pub is_pending : TxnStatus → Bool
is_pending TxnStatus.pending = true
is_pending _ = false

-- `...(razorpayPaymentId ? { providerRef } : {})`
abbrev pub new_ref : Option String → Option String → Option String
new_ref id old = if is_truthy id then id else old

abbrev pub captured_online : ℕ → ℕ → (Option String → Option String) → Payment → Payment
captured_online now receipt ref p = record p {
  status = TxnStatus.success;
  provider_ref = ref p.provider_ref;
  receipt_number = some receipt;
  paid_at = some now;
}

abbrev pub failed_row : Payment → Payment
failed_row p = record p { status = TxnStatus.failed }

-- The transaction that settles one payment row; `ref` is what becomes of its reference.
abbrev pub capture : ℕ → ℕ → (Option String → Option String) → Payment → Db → Settlement × Db
capture now receipt ref p db = loaded p.order_id (captured_online now receipt ref p) (
    reconcile_after_payment p.order_id PaymentMethod.online
      (update_payment p.id (captured_online now receipt ref) db))

module _ (hmac : String → String → String) where
  abbrev pub confirm_found :
      ℕ → ℕ → Provider → Confirmation → Db → Option Payment → Outcome Settlement
  confirm_found now receipt provider c db none = (err (not_found Reason.payment_not_found), db, [])
  confirm_found now receipt provider c db (some p) =
      if not (is_pending p.status)
      then (err (conflict Reason.already_completed), db, [])
      else if not (is_demo provider) && not (is_truthy c.signature)
      then (err (bad_request Reason.gateway_checkout_required), db, [])
      else if verify_confirmation hmac provider (text_or_empty p.provider_ref) c
      then commit db (settled_effects PaymentMethod.online (Effect.notify_payment p.order_id ∷ []))
          (ok (capture now receipt (new_ref c.razorpay_payment_id) p db))
      else (err (bad_request Reason.payment_not_completed), update_payment p.id failed_row db, [])

  unfoldable pub confirm_online_payment :
      ℕ → ℕ → Provider → ℕ → Confirmation → Db → Outcome Settlement
  confirm_online_payment now receipt provider payment_id c db =
      confirm_found now receipt provider c db (find_payment payment_id db)
