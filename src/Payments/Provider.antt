-- ===== src/Payments/Provider.antt =====
-- server/src/utils/paymentProvider.ts: the demo gateway, Razorpay, and which one is active. The keyed
-- hash of node:crypto is a parameter; two digests are compared as texts.
use Prim.Native.String.{String, ◌++◌}
use text.Mathlib.Text.{◌==◌ as str_eq}
use restaurant_qr_ordering_s.Base.{Bool, true, false, not, ◌&&◌, Option, none, some, if◌then◌else◌}
use restaurant_qr_ordering_s.Errors.{Result, ok, err, bad_request, Reason}

-- A text that is there and not empty, as a condition of JavaScript tests it.
abbrev pub is_truthy : Option String → Bool
is_truthy none = false
is_truthy (some s) = not (str_eq s "")

abbrev pub text_or_empty : Option String → String
text_or_empty none = ""
text_or_empty (some s) = s

pub record Confirmation : Type 0 where
  -- `outcome`, with `true` for "success"
  pub outcome : Option Bool
  pub razorpay_payment_id : Option String
  pub signature : Option String

pub data Provider : Type 0 where
  demo : Provider
  razorpay : (key_id key_secret : String) (webhook_secret : Option String) → Provider

abbrev pub is_demo : Provider → Bool
is_demo demo = true
is_demo (razorpay _ _ _) = false

abbrev pub provider_name : Provider → String
provider_name demo = "mock"
provider_name (razorpay _ _ _) = "razorpay"

-- The reference of a new intent: minted by the demo gateway, or Razorpay's answer, which may refuse.
abbrev pub create_intent : Provider → String → Option String → Result String
create_intent demo minted reply = ok minted
create_intent (razorpay _ _ _) minted none = err (bad_request Reason.gateway_refused)
create_intent (razorpay _ _ _) minted (some order_id) = ok order_id

abbrev says_success : Option Bool → Bool
says_success none = false
says_success (some b) = b

module _ (hmac : String → String → String) where
  unfoldable pub verify_confirmation : Provider → String → Confirmation → Bool
  verify_confirmation demo provider_ref c = says_success c.outcome
  verify_confirmation (razorpay _ secret _) provider_ref c =
      is_truthy c.signature
      && is_truthy c.razorpay_payment_id
      && str_eq (hmac secret (provider_ref ++ ("|" ++ text_or_empty c.razorpay_payment_id)))
          (text_or_empty c.signature)

  unfoldable pub verify_webhook : Provider → String → String → Bool
  verify_webhook demo body signature = false
  verify_webhook (razorpay _ _ secret) body signature =
      is_truthy secret
      && is_truthy (some signature)
      && str_eq (hmac (text_or_empty secret) body) signature

pub record GatewaySettings : Type 0 where
  pub chooses_razorpay : Bool
  pub key_id : Option String
  pub key_secret : Option String
  pub webhook_secret : Option String

-- What the read of the settings gave: it threw, or it found the row or none.
pub data SettingsRead : Type 0 where
  threw : SettingsRead
  row : Option GatewaySettings → SettingsRead

unfoldable pub get_active_payment_provider : SettingsRead → Provider
get_active_payment_provider threw = demo
get_active_payment_provider (row none) = demo
get_active_payment_provider (row (some s)) =
    if s.chooses_razorpay && is_truthy s.key_id && is_truthy s.key_secret
    then razorpay (text_or_empty s.key_id) (text_or_empty s.key_secret) s.webhook_secret
    else demo
