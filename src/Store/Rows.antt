-- ===== src/Store/Rows.antt =====
-- The rows of the database, with the columns that the modelled services use.
use Prim.Native.String.{String}
use restaurant_qr_ordering_s.Base.{ℕ, Bool, Option, List}
use restaurant_qr_ordering_s.Status.{OrderStatus}
use restaurant_qr_ordering_s.Money.Digits.{Text}
use restaurant_qr_ordering_s.Offer.{OfferInput}

pub data OrderType : Type 0 where
  dine_in takeaway : OrderType

pub data PaymentStatus : Type 0 where
  unpaid paid refunded : PaymentStatus

pub data PaymentMethod : Type 0 where
  cash card upi online : PaymentMethod

-- `PaymentTxnStatus`
pub data TxnStatus : Type 0 where
  pending success failed refunded : TxnStatus

pub data TableStatus : Type 0 where
  available occupied reserved inactive : TableStatus

pub record Food : Type 0 where
  pub id : ℕ
  pub name : String
  pub price : ℕ
  pub is_available : Bool
  pub deleted : Bool
  pub offer : OfferInput
  pub preparation_minutes : Option ℕ
  pub slug : Text
  pub description : Option String
  pub image_url : Option String
  pub category_id : ℕ
  pub is_vegetarian : Bool
  pub is_featured : Bool
  -- derived from `price` and `offer`
  pub offer_price : Option Text
  pub offer_label : Option Text

pub record Category : Type 0 where
  pub id : ℕ
  pub name : String
  pub slug : Text
  pub description : Option String
  pub sort_order : ℕ
  pub is_active : Bool
  pub deleted : Bool

pub record Table : Type 0 where
  pub id : ℕ
  pub table_number : ℕ
  pub qr_token : ℕ
  pub qr_image_url : Option String
  pub is_active : Bool
  pub status : TableStatus
  pub capacity : ℕ

pub record Customer : Type 0 where
  pub id : ℕ
  pub phone : ℕ
  pub name : String
  pub email : Option String

pub record Item : Type 0 where
  pub food_id : ℕ
  pub food_name : String
  pub unit_price : ℕ
  pub quantity : ℕ
  pub line_total : ℕ
  pub notes : Option String

pub record Order : Type 0 where
  pub id : ℕ
  pub order_number : ℕ
  pub tracking_token : ℕ
  pub status : OrderStatus
  pub kind : OrderType
  pub payment_status : PaymentStatus
  pub payment_method : Option PaymentMethod
  pub subtotal : ℕ
  pub tax_amount : ℕ
  pub discount_amount : ℕ
  pub total_amount : ℕ
  pub notes : Option String
  pub table_id : Option ℕ
  pub customer_id : Option ℕ
  pub handled_by : Option ℕ
  pub advance_amount : Option ℕ
  pub approved_by : Option ℕ
  pub approved_at : Option ℕ
  pub items : List Item
  pub placed_at : ℕ
  pub confirmed_at : Option ℕ
  pub prepared_at : Option ℕ
  pub ready_at : Option ℕ
  pub served_at : Option ℕ
  pub cancelled_at : Option ℕ
  pub cancel_reason : Option String

pub record Payment : Type 0 where
  pub id : ℕ
  pub order_id : ℕ
  pub amount : ℕ
  pub method : PaymentMethod
  pub status : TxnStatus
  pub provider : String
  pub provider_ref : Option String
  pub receipt_number : Option ℕ
  pub refunded_at : Option ℕ
  pub refund_reason : Option String
  pub paid_at : Option ℕ
  pub created_at : ℕ

pub data ReservationStatus : Type 0 where
  pending confirmed seated completed cancelled no_show : ReservationStatus

pub record Reservation : Type 0 where
  pub id : ℕ
  pub reference : ℕ
  pub name : String
  pub phone : ℕ
  pub email : Option String
  pub party_size : ℕ
  pub reserved_at : ℕ
  pub duration_minutes : ℕ
  pub status : ReservationStatus
  pub occasion : Option String
  pub notes : Option String
  pub table_id : Option ℕ
  pub customer_id : Option ℕ
  pub confirmed_at : Option ℕ
  pub seated_at : Option ℕ
  pub cancelled_at : Option ℕ
  pub cancel_reason : Option String

-- The singleton row. Percentages are in hundredths of a percent.
pub record Settings : Type 0 where
  pub tax_percent : ℕ
  pub service_charge_percent : ℕ
  pub is_accepting_orders : Bool
  pub high_value_threshold : ℕ
  pub advance_payment_percent : ℕ
  pub approval_required : Bool
  pub advance_payment_required : Bool
  pub allow_cash_advance : Bool

pub record Db : Type 0 where
  pub settings : Option Settings
  pub foods : List Food
  pub categories : List Category
  pub tables : List Table
  pub customers : List Customer
  pub orders : List Order
  pub payments : List Payment
  pub reservations : List Reservation
  pub next_id : ℕ
  pub order_seq : ℕ
