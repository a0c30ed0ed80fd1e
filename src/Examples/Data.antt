-- ===== src/Examples/Data.antt =====
-- The data of the tests.
use restaurant_qr_ordering_s.Base.{refl, true, false, none, some, List, [], ◌∷◌, arith}
use restaurant_qr_ordering_s.Status.{OrderStatus}
use restaurant_qr_ordering_s.Offer.{OfferInput}
use restaurant_qr_ordering_s.Store.{
  Db, Food, Category, Table, TableStatus, Order, OrderType, PaymentStatus, Payment, PaymentMethod,
  TxnStatus, Reservation, ReservationStatus, Settings,
}
use restaurant_qr_ordering_s.Orders.Pricing.{Request}
use restaurant_qr_ordering_s.Orders.Place.{PlaceOrderInput, Guest}
use restaurant_qr_ordering_s.Orders.Validity.{IsValid}
use restaurant_qr_ordering_s.Reservations.Booking.{BookingInput}

abbrev pub no_offer : OfferInput
no_offer = record { is_offer_active = false; offer_type = none; offer_value = none }

abbrev pub thali : Food
thali = record {
  id = 1;
  name = "Thali";
  price = 100_000;
  is_available = true;
  deleted = false;
  offer = no_offer;
  preparation_minutes = some 20;
  slug = b't' ∷ b'h' ∷ b'a' ∷ b'l' ∷ b'i' ∷ [];
  description = none;
  image_url = none;
  category_id = 2;
  is_vegetarian = true;
  is_featured = false;
  offer_price = none;
  offer_label = none;
}

abbrev pub mains : Category
mains = record {
  id = 2;
  name = "Mains";
  slug = b'm' ∷ b'a' ∷ b'i' ∷ b'n' ∷ b's' ∷ [];
  description = none;
  sort_order = 1;
  is_active = true;
  deleted = false;
}

abbrev pub table_three : TableStatus → Table
table_three s = record {
  id = 3;
  table_number = 12;
  qr_token = 77;
  qr_image_url = none;
  is_active = true;
  status = s;
  capacity = 4;
}

-- 5% tax, and an advance above 3000.00.
abbrev pub settings : Settings
settings = record {
  tax_percent = 500;
  service_charge_percent = 0;
  is_accepting_orders = true;
  high_value_threshold = 300_000;
  advance_payment_percent = 20;
  approval_required = false;
  advance_payment_required = true;
  allow_cash_advance = true;
}

-- 4 thalis and the tax, with 30% in advance.
abbrev pub order_five : OrderStatus → Order
order_five s = record {
  id = 5;
  order_number = 50;
  tracking_token = 99;
  status = s;
  kind = OrderType.dine_in;
  payment_status = PaymentStatus.unpaid;
  payment_method = none;
  subtotal = 400_000;
  tax_amount = 20_000;
  discount_amount = 0;
  total_amount = 420_000;
  notes = none;
  table_id = some 3;
  customer_id = none;
  handled_by = none;
  advance_amount = some 126_000;
  approved_by = none;
  approved_at = none;
  items =
      record {
        food_id = 1;
        food_name = "Thali";
        unit_price = 100_000;
        quantity = 4;
        line_total = 400_000;
        notes = none;
      }
      ∷ [];
  placed_at = 1000;
  confirmed_at = none;
  prepared_at = none;
  ready_at = none;
  served_at = none;
  cancelled_at = none;
  cancel_reason = none;
}

abbrev pub payment_seven : TxnStatus → Payment
payment_seven s = record {
  id = 7;
  order_id = 5;
  amount = 126_000;
  method = PaymentMethod.online;
  status = s;
  provider = "mock";
  provider_ref = some "mock_1";
  receipt_number = none;
  refunded_at = none;
  refund_reason = none;
  paid_at = none;
  created_at = 1500;
}

abbrev pub booking_eight : Reservation
booking_eight = record {
  id = 8;
  reference = 80;
  name = "Asha";
  phone = 555;
  email = none;
  party_size = 2;
  reserved_at = 50_000_000;
  duration_minutes = 90;
  status = ReservationStatus.pending;
  occasion = none;
  notes = none;
  table_id = some 3;
  customer_id = none;
  confirmed_at = none;
  seated_at = none;
  cancelled_at = none;
  cancel_reason = none;
}

abbrev pub house : List Table → List Order → List Payment → List Reservation → Db
house tables orders payments reservations = record {
  settings = some settings;
  foods = thali ∷ [];
  categories = mains ∷ [];
  tables = tables;
  customers = [];
  orders = orders;
  payments = payments;
  reservations = reservations;
  next_id = 10;
  order_seq = 100;
}

abbrev pub busy : OrderStatus → List Payment → Db
busy s payments =
    house (table_three TableStatus.occupied ∷ []) (order_five s ∷ []) payments (booking_eight ∷ [])

pub busy-IsValid : (s : OrderStatus) (payments : List Payment) → IsValid (busy s payments)
busy-IsValid s payments = record {
  billed = (
    record { lines = (refl, tt); sums = refl; totals = refl; advance_due = λ _. omega arith },
    tt,
  );
  seated = (λ _. (λ _. refl, tt), tt);
  issued = ((omega arith, omega arith), tt);
  distinct = (tt, tt, tt);
}

abbrev pub guest : Guest
guest = record { phone = 555; name = "Asha"; email = none }

abbrev pub one_thali : List Request
one_thali = record { food_id = 1; quantity = 1; notes = none } ∷ []

abbrev pub request : PlaceOrderInput
request = record { qr_token = some 77; kind = none; guest = guest; items = one_thali; notes = none }

abbrev pub booking : BookingInput
booking = record {
  guest = guest;
  party_size = 2;
  reserved_at = 50_000_000;
  occasion = none;
  notes = none;
}
