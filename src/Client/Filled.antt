-- ===== src/Client/Filled.antt =====
-- The cart after any actions of a visit: every line has a quantity and shows the present menu.
use restaurant_qr_ordering_s.Base.{
  ℕ, ◌<◌, ◌≡◌, ap, ◌∙◌, true, Option, some, List, [], ◌∷◌, arith, inl, inr, Bool-cases, All,
  All-append, All-map, ltb→lt, All-update_where, All-select, exists_where,
}
use restaurant_qr_ordering_s.Errors.{ok}
use restaurant_qr_ordering_s.Money.{to_minor_units}
use restaurant_qr_ordering_s.Money.Digits.{Text}
use restaurant_qr_ordering_s.Store.{Food}
use restaurant_qr_ordering_s.Orders.Pricing.{find_food}
use restaurant_qr_ordering_s.Client.Offers.{effective_price}
use restaurant_qr_ordering_s.Client.Cart.{
  MenuRow, CartItem, CartAction, act, act_all, add_item, increase, decrease, remove_item, set_notes,
  clear_cart, same_line, one_more, one_less, new_line,
}
use restaurant_qr_ordering_s.Client.Quote.{menu_row, IsCurrent}

-- What every action keeps: of each line, a property that no change of the notes and no quantity
-- above 0 touches, and that the line of an added dish has.
pub record IsStable (P : CartItem → Type 0) (Added : MenuRow → Type 0) : Type 0 where
  pub more : (i : CartItem) → P i → P (one_more i)
  pub less : (i : CartItem) → 0 < (one_less i).quantity → P i → P (one_less i)
  pub noted : (i : CartItem) (notes : Option Text) → P i → P (record i { notes = notes })
  pub added : (m : MenuRow) (notes : Option Text) → Added m → P (new_line m notes)

abbrev pub Allowed : (MenuRow → Type 0) → CartAction → Type 0
Allowed Added (CartAction.add m notes) = Added m
Allowed Added _ = Unit

module _ (P : CartItem → Type 0) (Added : MenuRow → Type 0) (s : IsStable P Added) where
  -- A line that is left has the property.
  abbrev Left : CartItem → Type 0
  Left i = 0 < i.quantity → P i

  act-All :
      (a : CartAction) (items : List CartItem) → Allowed Added a → All P items → All P (act a items)
  unfolding add_item remove_item increase decrease set_notes clear_cart
  act-All (CartAction.add m notes) items ok_m h =
      elim (Bool-cases (exists_where (same_line m.id notes) items)) [
        | inl e ↦ rw e (All-update_where P _ one_more (λ i same. s.more i) items h)
        | inr e ↦ rw e (All-append P items _ h (s.added m notes ok_m, tt))
      ]
  act-All (CartAction.remove id) items ok_a h = All-select P P _ (λ i kept p. p) items h
  act-All (CartAction.more id) items ok_a h =
      All-update_where P _ one_more (λ i same. s.more i) items h
  act-All (CartAction.less id) items ok_a h =
      All-select Left P _ (λ i left q. q (ltb→lt 0 i.quantity left)) _
        (All-update_where Left _ one_less (λ i same q left. s.less i left (q (omega arith))) items
          (All-map P Left (λ i p left. p) items h))
  act-All (CartAction.note id notes) items ok_a h =
      All-update_where P _ _ (λ i same. s.noted i (some notes)) items h
  act-All CartAction.clear items ok_a h = tt

  act_all-All :
      (actions : List CartAction) (items : List CartItem)
      → All (Allowed Added) actions
      → All P items
      → All P (act_all actions items)
  act_all-All [] items allowed h = h
  act_all-All (a ∷ rest) items (ok_a, allowed) h =
      act_all-All rest (act a items) allowed (act-All a items ok_a h)

module _ (decimal_text : ℕ → Text) (prints : (n : ℕ) → to_minor_units (decimal_text n) ≡ ok n) where
  -- The row of a dish that the menu shows as available.
  abbrev pub IsShown : List Food → MenuRow → Type 0
  IsShown foods m =
      (f : Food) × (find_food f.id foods ≡ some f)
      × (f.is_available ≡ true)
      × (m ≡ menu_row decimal_text prints f)

  abbrev pub IsCounted : List Food → CartItem → Type 0
  IsCounted foods i = (0 < i.quantity) × IsCurrent decimal_text prints foods i

  IsCounted-IsStable : (foods : List Food) → IsStable (IsCounted foods) (IsShown foods)
  IsCounted-IsStable foods = record {
    more = λ i h. (omega arith, h.1);
    less = λ i left h. (left, h.1);
    noted = λ i notes h. h;
    added = λ m notes (f, at, on, same). (
      omega arith,
      (f, ap (λ r. find_food r.id foods) same ∙ at, on, ap (λ r. effective_price r.priced) same),
    );
  }

  -- Whatever a guest does with a cart that starts empty, with dishes added from the present menu:
  -- every line has a quantity above 0 and shows the price of the present menu.
  pub act_all-IsCounted :
      (foods : List Food) (actions : List CartAction)
      → All (Allowed (IsShown foods)) actions
      → All (IsCounted foods) (act_all actions [])
  act_all-IsCounted foods actions allowed =
      act_all-All (IsCounted foods) (IsShown foods) (IsCounted-IsStable foods) actions [] allowed tt
