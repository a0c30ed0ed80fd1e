-- ===== src/Orders/Queue.antt =====
-- `getOrderById` and `getKitchenQueue` of server/src/services/order.service.ts. The database's order by
-- `placedAt` is a parameter: which of two orders of one instant comes first is not said.
pub mod Columns
use Prim.Native.Nat.{max}
use restaurant_qr_ordering_s.Base.{
  ℕ, Bool, true, false, Option, none, some, List, [], ◌∷◌, ◌==◌, length, or_else, find_by, select,
}
use restaurant_qr_ordering_s.Errors.{Result, not_found, Reason}
use restaurant_qr_ordering_s.Status.{
  OrderStatus, pending, confirmed, preparing, ready, status_eq, includes,
}
use restaurant_qr_ordering_s.Store.{Db, Food, Item, Order, found, find_order}

unfoldable pub get_order_by_id : ℕ → Db → Result Order
get_order_by_id id db = found (find_order id db) (not_found Reason.order_not_found)

abbrev pub kitchen_statuses : List OrderStatus
kitchen_statuses = pending ∷ confirmed ∷ preparing ∷ ready ∷ []

abbrev pub in_kitchen : Order → Bool
in_kitchen o = includes kitchen_statuses o.status

abbrev pub minutes_of : Option Food → ℕ
minutes_of none = 0
minutes_of (some f) = or_else f.preparation_minutes 0

-- `prepByFood`, with 0 for a dish that is not there.
abbrev pub preparation_of : List Food → ℕ → ℕ
preparation_of foods id = minutes_of (find_by (λ f. f.id == id) foods)

abbrev pub longest : List Food → List Item → ℕ
longest foods [] = 0
longest foods (i ∷ is) = max (preparation_of foods i.food_id) (longest foods is)

abbrev pub estimated_minutes : List Food → Order → ℕ
estimated_minutes foods o = max 10 (longest foods o.items)

pub record Ticket : Type 0 where
  pub order : Order
  pub estimate : ℕ

abbrev pub with_estimates : List Food → List Order → List Ticket
with_estimates foods [] = []
with_estimates foods (o ∷ os) =
    record { order = o; estimate = estimated_minutes foods o } ∷ with_estimates foods os

pub record Queue : Type 0 where
  pub pending : List Ticket
  pub confirmed : List Ticket
  pub preparing : List Ticket
  pub ready : List Ticket
  pub total : ℕ

abbrev pub column : OrderStatus → List Ticket → List Ticket
column s = select (λ t. status_eq t.order.status s)

abbrev pub grouped : List Ticket → Queue
grouped tickets = record {
  pending = column pending tickets;
  confirmed = column confirmed tickets;
  preparing = column preparing tickets;
  ready = column ready tickets;
  total = length tickets;
}

module _ (oldest_first : List Order → List Order) where
  unfoldable pub get_kitchen_queue : Db → Queue
  get_kitchen_queue db =
      grouped (with_estimates db.foods (oldest_first (select in_kitchen db.orders)))
