-- ===== src/System/Refused.antt =====
-- A call that answers an error writes nothing, except the failure of a payment that was confirmed.
use Prim.Native.String.{String}
use restaurant_qr_ordering_s.Base.{
  ℕ, ◌≡◌, refl, ◌⊎◌, inl, inr, true, not, ◌&&◌, Option, none, some, List, arith, Bool-cases,
  Option-cases,
}
use restaurant_qr_ordering_s.Errors.{Result, ok, err, AppError}
use restaurant_qr_ordering_s.Store.{
  Db, Payment, Effect, commit, find_payment, update_payment, is_success,
}
use restaurant_qr_ordering_s.Orders.Place.{place_order}
use restaurant_qr_ordering_s.Orders.Change.{
  update_status, serve_order, cancel_order, reject_order, cancel_held_order_by_token,
}
use restaurant_qr_ordering_s.Orders.Release.{add_items, approve_order}
use restaurant_qr_ordering_s.Payments.Provider.{
  Provider, Confirmation, verify_confirmation, verify_webhook, is_demo, is_truthy, text_or_empty,
}
use restaurant_qr_ordering_s.Payments.Counter.{
  record_cash_advance, record_cash_payment, refund_payment,
}
use restaurant_qr_ordering_s.Payments.Online.{confirm_online_payment, is_pending, failed_row}
use restaurant_qr_ordering_s.Payments.Webhook.{
  Event, Entity, is_failure, is_capture, matching_payment, handle_payment, handle_parsed,
  handle_razorpay_webhook,
}
use restaurant_qr_ordering_s.System.{Outside, Call, perform, error_of, reply_tx}

-- What a refused call may leave behind.
abbrev pub Harmless : Call → Db → Db → Type 0
Harmless (Call.confirm_online_payment now receipt provider id c) db after =
    (after ≡ db)
    ⊎ ((p : Payment) × (find_payment id db ≡ some p)
        × (is_pending p.status ≡ true)
        × (after ≡ update_payment p.id failed_row db))
Harmless _ db after = after ≡ db

commit-refused :
    {A : Type 0} (db : Db) (f : A → List Effect) (r : Result (A × Db)) (e : AppError)
    → error_of (commit db f r).0 ≡ some e
    → (commit db f r).1 ≡ db
commit-refused db f (ok (a, after)) e h = cc
commit-refused db f (err x) e h = refl

reply_tx-refused :
    {A : Type 0} (db : Db) (r : Result (A × Db)) (e : AppError)
    → (reply_tx db r).0 ≡ some e
    → (reply_tx db r).1 ≡ db
reply_tx-refused db (ok (a, after)) e h = cc
reply_tx-refused db (err x) e h = refl

confirm-refused :
    (w : Outside) (now receipt : ℕ) (provider : Provider) (id : ℕ) (c : Confirmation) (db : Db)
    (e : AppError)
    → (perform w (Call.confirm_online_payment now receipt provider id c) db).0 ≡ some e
    → Harmless
        (Call.confirm_online_payment now receipt provider id c)
        db
        (perform w (Call.confirm_online_payment now receipt provider id c) db).1
unfolding confirm_online_payment
confirm-refused w now receipt provider id c db e h = elim (Option-cases (find_payment id db)) [
  | inl gone ↦ rw gone (inl refl)
  | inr (p, at) ↦ elim (Bool-cases (not (is_pending p.status))) [
    | inl a ↦ rw (at, a) (inl refl)
    | inr a ↦ elim (Bool-cases (not (is_demo provider) && not (is_truthy c.signature))) [
      | inl b ↦ rw (at, a, b) (inl refl)
      | inr b ↦
          elim (Bool-cases (verify_confirmation w.hmac provider (text_or_empty p.provider_ref) c)) [
            | inl g ↦ cc (rw (at, a, b, g) at h)
            | inr g ↦ rw (at, a, b, g) (inr (p, refl, ground (arith, a), refl))
          ]
    ]
  ]
]

handled_without_error :
    (now receipt : ℕ) (ev : Event) (x : Entity) (p : Payment) (db : Db)
    → error_of (handle_payment now receipt ev x p db).0 ≡ none
handled_without_error now receipt ev x p db = elim (Bool-cases (is_success p.status)) [
  | inl a ↦ rw a refl
  | inr a ↦ elim (Bool-cases (is_failure ev x)) [
    | inl b ↦ rw (a, b) refl
    | inr b ↦ elim (Bool-cases (not (is_capture ev x))) [
      | inl g ↦ rw (a, b, g) refl
      | inr g ↦ rw (a, b, g) refl
    ]
  ]
]

parsed-refused :
    (now receipt : ℕ) (parsed : Option Event) (db : Db) (e : AppError)
    → error_of (handle_parsed now receipt parsed db).0 ≡ some e
    → (handle_parsed now receipt parsed db).1 ≡ db
parsed-refused now receipt none db e h = refl
parsed-refused now receipt (some ev) db e h = elim (Option-cases ev.entity) [
  | inl none_sent ↦ rw none_sent refl
  | inr (x, sent) ↦ elim (Option-cases (matching_payment x db.payments)) [
    | inl unmatched ↦ rw (sent, unmatched) refl
    | inr (p, matched) ↦ cc (handled_without_error now receipt ev x p db)
  ]
]

webhook-refused :
    (w : Outside) (now receipt : ℕ) (provider : Provider) (body : String)
    (signature : Option String) (db : Db) (e : AppError)
    → (perform w (Call.handle_razorpay_webhook now receipt provider body signature) db).0 ≡ some e
    → (perform w (Call.handle_razorpay_webhook now receipt provider body signature) db).1 ≡ db
unfolding handle_razorpay_webhook
webhook-refused w now receipt provider body signature db e h =
    elim (Bool-cases (not (verify_webhook w.hmac provider body (text_or_empty signature)))) [
      | inl bad ↦ rw bad refl
      | inr good ↦ rw good (parsed-refused now receipt (w.parse body) db e (rw good at h))
    ]

-- A call that is answered with an error leaves the database as it was. The one exception is a
-- confirmation that the gateway does not bear out: it marks the pending payment as failed, and
-- nothing else.
pub perform-Harmless :
    (w : Outside) (call : Call) (db : Db) (e : AppError)
    → (perform w call db).0 ≡ some e
    → Harmless call db (perform w call db).1
unfolding place_order add_items update_status serve_order cancel_order reject_order
    cancel_held_order_by_token approve_order record_cash_advance record_cash_payment refund_payment
perform-Harmless w (Call.place_order now token input) db e h = commit-refused db _ _ e h
perform-Harmless w (Call.add_items id requests) db e h = commit-refused db _ _ e h
perform-Harmless w (Call.update_status now id to actor) db e h = commit-refused db _ _ e h
perform-Harmless w (Call.serve_order now id actor) db e h = commit-refused db _ _ e h
perform-Harmless w (Call.cancel_order now id reason actor) db e h = commit-refused db _ _ e h
perform-Harmless w (Call.reject_order now id reason actor) db e h = commit-refused db _ _ e h
perform-Harmless w (Call.cancel_held_order_by_token now token) db e h = commit-refused db _ _ e h
perform-Harmless w (Call.approve_order now id actor) db e h = commit-refused db _ _ e h
perform-Harmless w (Call.record_cash_advance now receipt id actor) db e h =
    commit-refused db _ _ e h
perform-Harmless w (Call.record_cash_payment now receipt id) db e h = commit-refused db _ _ e h
perform-Harmless w (Call.settle_order_payment now receipt id status method reason) db e h =
    reply_tx-refused db _ e h
perform-Harmless w (Call.refund_payment now id reason) db e h = commit-refused db _ _ e h
perform-Harmless w (Call.initiate_online_payment now provider minted answer token) db e h =
    reply_tx-refused db _ e h
perform-Harmless w (Call.confirm_online_payment now receipt provider id c) db e h =
    confirm-refused w now receipt provider id c db e h
perform-Harmless w (Call.handle_razorpay_webhook now receipt provider body signature) db e h =
    webhook-refused w now receipt provider body signature db e h
