-- ===== src/Errors.antt =====
-- server/src/utils/AppError.ts: the operational errors, and the results of the code that throws
-- them. A constructor of `AppError` is one of the static makers with its HTTP status; a constructor
-- of `Reason` stands for the message of one `throw`.
use restaurant_qr_ordering_s.Base.{ℕ, List, Bool, true, false, ◌≡◌, refl, ◌⊎◌, inl, inr}

pub data Reason : Type 0 where
  invalid_monetary_value offer_incomplete discount_not_positive percentage_over_100 : Reason
  discount_over_price : ℕ → ℕ → Reason
  menu_item_not_found sold_out : ℕ → Reason
  not_accepting_orders qr_not_valid dine_in_needs_table order_not_found : Reason
  already_approved nothing_to_approve not_held gone_to_kitchen order_is_held not_editable : Reason
  already_in_status terminal_status illegal_transition : Reason
  payment_not_found already_paid order_cancelled awaits_approval nothing_left_to_pay : Reason
  already_completed gateway_checkout_required payment_not_completed : Reason
  no_cash_advance not_awaiting_advance advance_already_paid method_missing : Reason
  nothing_to_refund has_recorded_payment only_success_refundable invalid_signature : Reason
  booking_not_found no_seats table_not_available table_too_small not_cancellable : Reason
  -- the free seats and the other times that the answer carries
  fully_booked : ℕ → List ℕ → Reason
  menu_item_missing category_missing category_not_found category_name_taken : Reason
  category_has_foods : ℕ → Reason
  invalid_token invalid_credentials account_deactivated invalid_refresh_token account_inactive :
      Reason
  user_not_found email_taken role_missing own_account last_super_admin : Reason
  role_not_found role_name_taken built_in_renamed built_in_deleted super_admin_fixed : Reason
  role_in_use : ℕ → Reason
  unknown_permissions missing_permissions requires_one_of : List (List ℕ) → Reason
  table_missing qr_no_longer_valid table_out_of_service table_number_taken : Reason
  table_has_orders : ℕ → Reason
  authentication_required gateway_refused unreadable_body : Reason

pub data AppError : Type 0 where
  bad_request unauthorized forbidden not_found conflict : Reason → AppError
  -- what is no `AppError`, such as a syntax error, is answered as a server fault
  internal : Reason → AppError

unfoldable pub status_code : AppError → ℕ
status_code (bad_request r) = 400
status_code (unauthorized r) = 401
status_code (forbidden r) = 403
status_code (not_found r) = 404
status_code (conflict r) = 409
status_code (internal r) = 500

pub data Result {κ} (X : Type κ) : Type κ where
  err : AppError → Result X
  ok : X → Result X

-- `if (test) throw error`
abbrev pub throw_if : Bool → AppError → Result (Unit {0})
throw_if false error = ok tt
throw_if true error = err error

infixl 5 ◌>>=◌ ◌>>◌
abbrev pub ◌>>=◌ {κ μ} : {X : Type κ} {Y : Type μ} → Result X → (X → Result Y) → Result Y
err error >>= next = err error
ok value >>= next = next value

abbrev pub ◌>>◌ {κ} : {Y : Type κ} → Result (Unit {0}) → Result Y → Result Y
first >> second = first >>= (λ done. second)

-- To split on a computed result and keep the equation.
pub Result-cases {ℓ} :
    {A : Type ℓ} (r : Result A) → ((e : AppError) × (r ≡ err e)) ⊎ ((a : A) × (r ≡ ok a))
Result-cases (ok a) = inr (a, refl)
Result-cases (err e) = inl (e, refl)
