-- ===== src/Orders/Pricing.antt =====
-- `priceItems`, `loadCharges` and `computeTotals` of server/src/services/order.service.ts. The map
-- from ids to dishes is a search: an id stands on one row.
pub mod Lines
use Prim.Native.String.{String}
use restaurant_qr_ordering_s.Base.{
  ℕ, ◌+◌, ◌-◌, ◌*◌, Bool, true, false, not, ◌&&◌, Option, none, some, List, [], ◌∷◌, ◌==◌, find_by,
}
use restaurant_qr_ordering_s.Errors.{
  Result, ok, ◌>>=◌, ◌>>◌, throw_if, bad_request, conflict, Reason,
}
use restaurant_qr_ordering_s.Money.{percent_of}
use restaurant_qr_ordering_s.Offer.{effective_price_minor}
use restaurant_qr_ordering_s.Store.{Food, Item, Settings, found}

pub record Request : Type 0 where
  pub food_id : ℕ
  pub quantity : ℕ
  pub notes : Option String

-- `where: { id: { in: foodIds }, deletedAt: null }`
abbrev pub find_food : ℕ → List Food → Option Food
find_food id = find_by (λ f. f.id == id && not f.deleted)

abbrev pub line_of : Request → Food → Item
line_of r f =
    let unit = effective_price_minor f.price f.offer in
    record {
      food_id = f.id;
      food_name = f.name;
      unit_price = unit;
      quantity = r.quantity;
      line_total = unit * r.quantity;
      notes = r.notes;
    }

abbrev pub price_line : List Food → Request → Result Item
price_line foods r = do
  food ← found (find_food r.food_id foods) (bad_request (Reason.menu_item_not_found r.food_id))
  throw_if (not food.is_available) (conflict (Reason.sold_out r.food_id))
  ok (line_of r food)

-- The lines, and the subtotal.
unfoldable pub price_items : List Food → List Request → Result (List Item × ℕ)
price_items foods [] = ok ([], 0)
price_items foods (r ∷ rs) = do
  line ← price_line foods r
  (lines, subtotal) ← price_items foods rs
  ok (line ∷ lines, line.line_total + subtotal)

pub record GateSettings : Type 0 where
  pub threshold_minor : ℕ
  pub advance_percent : ℕ
  pub approval_required : Bool
  pub advance_required : Bool

pub record Charges : Type 0 where
  pub tax_percent : ℕ
  pub service_percent : ℕ
  pub is_accepting_orders : Bool
  pub gates : GateSettings

abbrev pub load_charges : Option Settings → Charges
load_charges none = record {
  tax_percent = 0;
  service_percent = 0;
  is_accepting_orders = true;
  gates = record {
    threshold_minor = 0;
    advance_percent = 0;
    approval_required = false;
    advance_required = false;
  };
}
load_charges (some s) = record {
  tax_percent = s.tax_percent;
  service_percent = s.service_charge_percent;
  is_accepting_orders = s.is_accepting_orders;
  gates = record {
    threshold_minor = s.high_value_threshold;
    advance_percent = s.advance_payment_percent;
    approval_required = s.approval_required;
    advance_required = s.advance_payment_required;
  };
}

pub record Totals : Type 0 where
  pub subtotal : ℕ
  pub tax_amount : ℕ
  pub discount_amount : ℕ
  pub total_amount : ℕ

-- The difference stops at 0, as `Math.max(0, totalMinor)` does.
unfoldable pub compute_totals : ℕ → ℕ → ℕ → ℕ → Totals
compute_totals subtotal tax_percent service_percent discount =
    let tax = percent_of subtotal tax_percent in
    let service = percent_of subtotal service_percent in
    record {
      subtotal = subtotal;
      tax_amount = tax + service;
      discount_amount = discount;
      total_amount = subtotal + tax + service - discount;
    }
