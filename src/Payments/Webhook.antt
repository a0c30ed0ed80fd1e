-- ===== src/Payments/Webhook.antt =====
-- `handleRazorpayWebhook` of server/src/services/payment.service.ts. Reading the raw body as JSON is a
-- parameter, which may throw.
pub mod Laws
use Prim.Native.String.{String}
use text.Mathlib.Text.{◌==◌ as str_eq}
use restaurant_qr_ordering_s.Base.{
  ℕ, Bool, true, false, not, ◌&&◌, ◌||◌, Option, none, some, List, [], ◌∷◌, ltb, if◌then◌else◌,
  select,
}
use restaurant_qr_ordering_s.Errors.{Result, ok, err, unauthorized, internal, Reason}
use restaurant_qr_ordering_s.Store.{
  Db, Order, Payment, PaymentMethod, Outcome, Effect, commit, update_payment, is_success,
}
use restaurant_qr_ordering_s.Payments.Provider.{Provider, verify_webhook, is_truthy, text_or_empty}
use restaurant_qr_ordering_s.Payments.Reconcile.{Settlement, settled_effects}
use restaurant_qr_ordering_s.Payments.Online.{capture, failed_row}

pub record Entity : Type 0 where
  pub id : String
  pub order_id : Option String
  pub status : String

pub record Event : Type 0 where
  pub name : String
  pub entity : Option Entity

pub data Answer : Type 0 where
  no_entity no_match already_processed gateway_failed ignored : Answer
  settled : Settlement → Answer

-- `[order_id, id].filter(Boolean)` and the rows that carry one of them.
abbrev refers : Entity → Payment → Bool
refers e p =
    is_truthy p.provider_ref
    && (str_eq (text_or_empty p.provider_ref) (text_or_empty e.order_id)
        || str_eq (text_or_empty p.provider_ref) e.id)

-- `orderBy: { createdAt: "desc" }`, first row.
abbrev newer : Payment → Option Payment → Option Payment
newer p none = some p
newer p (some q) = if ltb p.created_at q.created_at then some q else some p

abbrev newest : List Payment → Option Payment
newest [] = none
newest (p ∷ ps) = newer p (newest ps)

unfoldable pub matching_payment : Entity → List Payment → Option Payment
matching_payment e payments = newest (select (refers e) payments)

abbrev pub is_failure : Event → Entity → Bool
is_failure ev e = str_eq ev.name "payment.failed" || str_eq e.status "failed"

abbrev pub is_capture : Event → Entity → Bool
is_capture ev e =
    str_eq e.status "captured" || str_eq ev.name "payment.captured" || str_eq ev.name "order.paid"

abbrev pub webhook_effects : Answer → List Effect
webhook_effects (settled s) = settled_effects PaymentMethod.online [] s
webhook_effects _ = []

-- `providerRef: paymentId`, whatever it is.
abbrev pub handle_payment : ℕ → ℕ → Event → Entity → Payment → Db → Outcome Answer
handle_payment now receipt ev e p db =
    if is_success p.status
    then (ok already_processed, db, [])
    else if is_failure ev e
    then (ok gateway_failed, update_payment p.id failed_row db, [])
    else if not (is_capture ev e)
    then (ok ignored, db, [])
    else let (s, after) = capture now receipt (λ _. some e.id) p db in
      (ok (settled s), after, webhook_effects (settled s))

abbrev pub handle_match : ℕ → ℕ → Event → Entity → Option Payment → Db → Outcome Answer
handle_match now receipt ev e none db = (ok no_match, db, [])
handle_match now receipt ev e (some p) db = handle_payment now receipt ev e p db

abbrev pub handle_entity : ℕ → ℕ → Event → Option Entity → Db → Outcome Answer
handle_entity now receipt ev none db = (ok no_entity, db, [])
handle_entity now receipt ev (some e) db =
    handle_match now receipt ev e (matching_payment e db.payments) db

abbrev pub handle_parsed : ℕ → ℕ → Option Event → Db → Outcome Answer
handle_parsed now receipt none db = (err (internal Reason.unreadable_body), db, [])
handle_parsed now receipt (some ev) db = handle_entity now receipt ev ev.entity db

module _ (hmac : String → String → String) (parse : String → Option Event) where
  unfoldable pub handle_razorpay_webhook :
      ℕ → ℕ → Provider → String → Option String → Db → Outcome Answer
  handle_razorpay_webhook now receipt provider body signature db =
      if not (verify_webhook hmac provider body (text_or_empty signature))
      then (err (unauthorized Reason.invalid_signature), db, [])
      else handle_parsed now receipt (parse body) db
