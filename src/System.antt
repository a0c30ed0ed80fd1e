-- ===== src/System.antt =====
-- The services that change orders and payments, as the calls of one system. A call gives the error
-- that it answers, if any, and the database after it.
pub mod Advances
pub mod Moves
pub mod Settles
pub mod Steps
pub mod Life
pub mod Served
pub mod Refused
pub mod Kept
use Prim.Native.String.{String}
use restaurant_qr_ordering_s.Base.{ℕ, Option, none, some, List, [], ◌∷◌}
use restaurant_qr_ordering_s.Errors.{Result, ok, err, AppError}
use restaurant_qr_ordering_s.Status.{OrderStatus}
use restaurant_qr_ordering_s.Store.{Db, Outcome, PaymentStatus, PaymentMethod}
use restaurant_qr_ordering_s.Orders.Pricing.{Request}
use restaurant_qr_ordering_s.Orders.Gates.{Double}
use restaurant_qr_ordering_s.Orders.Place as Place
use restaurant_qr_ordering_s.Orders.Place.{PlaceOrderInput}
use restaurant_qr_ordering_s.Orders.Change as Change
use restaurant_qr_ordering_s.Orders.Release as Release
use restaurant_qr_ordering_s.Payments.Provider.{Provider, Confirmation}
use restaurant_qr_ordering_s.Payments.Counter as Counter
use restaurant_qr_ordering_s.Payments.Online as Online
use restaurant_qr_ordering_s.Payments.Webhook as Webhook
use restaurant_qr_ordering_s.Payments.Webhook.{Event}

-- What the services take from outside: the doubles, the signatures, and the parser of a body.
pub record Outside : Type 1 where
  pub double : Double
  pub hmac : String → String → String
  pub parse : String → Option Event

pub data Call : Type 0 where
  place_order : ℕ → ℕ → PlaceOrderInput → Call
  add_items : ℕ → List Request → Call
  update_status : ℕ → ℕ → OrderStatus → Option ℕ → Call
  serve_order : ℕ → ℕ → Option ℕ → Call
  cancel_order reject_order : ℕ → ℕ → String → Option ℕ → Call
  cancel_held_order_by_token : ℕ → ℕ → Call
  approve_order : ℕ → ℕ → Option ℕ → Call
  record_cash_advance : ℕ → ℕ → ℕ → Option ℕ → Call
  record_cash_payment : ℕ → ℕ → ℕ → Call
  settle_order_payment : ℕ → ℕ → ℕ → PaymentStatus → Option PaymentMethod → Option String → Call
  refund_payment : ℕ → ℕ → String → Call
  initiate_online_payment : ℕ → Provider → String → Option String → ℕ → Call
  confirm_online_payment : ℕ → ℕ → Provider → ℕ → Confirmation → Call
  handle_razorpay_webhook : ℕ → ℕ → Provider → String → Option String → Call

abbrev pub error_of : {A : Type 0} → Result A → Option AppError
error_of (ok a) = none
error_of (err e) = some e

abbrev pub reply : {A : Type 0} → Outcome A → Option AppError × Db
reply (r, db, effects) = (error_of r, db)

abbrev pub reply_tx : {A : Type 0} → Db → Result (A × Db) → Option AppError × Db
reply_tx db (ok (a, after)) = (none, after)
reply_tx db (err e) = (some e, db)

module _ (w : Outside) where
  abbrev pub perform : Call → Db → Option AppError × Db
  perform (Call.place_order now token input) db =
      reply (Place.place_order w.double now token input db)
  perform (Call.add_items id requests) db = reply (Release.add_items id requests db)
  perform (Call.update_status now id next actor) db =
      reply (Change.update_status now id next actor db)
  perform (Call.serve_order now id actor) db = reply (Change.serve_order now id actor db)
  perform (Call.cancel_order now id reason actor) db =
      reply (Change.cancel_order now id reason actor db)
  perform (Call.reject_order now id reason actor) db =
      reply (Change.reject_order now id reason actor db)
  perform (Call.cancel_held_order_by_token now token) db =
      reply (Change.cancel_held_order_by_token now token db)
  perform (Call.approve_order now id actor) db = reply (Release.approve_order now id actor db)
  perform (Call.record_cash_advance now receipt id actor) db =
      reply (Counter.record_cash_advance now receipt id actor db)
  perform (Call.record_cash_payment now receipt id) db =
      reply (Counter.record_cash_payment now receipt id db)
  perform (Call.settle_order_payment now receipt id status method reason) db =
      reply_tx db (Counter.settle_order_payment now receipt id status method reason db)
  perform (Call.refund_payment now id reason) db = reply (Counter.refund_payment now id reason db)
  perform (Call.initiate_online_payment now provider minted answer token) db =
      reply_tx db (Online.initiate_online_payment now provider minted answer token db)
  perform (Call.confirm_online_payment now receipt provider id c) db =
      reply (Online.confirm_online_payment w.hmac now receipt provider id c db)
  perform (Call.handle_razorpay_webhook now receipt provider body signature) db =
      reply (Webhook.handle_razorpay_webhook w.hmac w.parse now receipt provider body signature db)

  -- The first call comes first.
  abbrev pub run : List Call → Db → Db
  run [] db = db
  run (call ∷ calls) db = run calls (perform call db).1
