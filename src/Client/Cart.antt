-- ===== src/Client/Cart.antt =====
-- client/src/context/CartContext.tsx: the lines of the cart and the callbacks that change them. A
-- line without notes and a line with empty notes are one line.
use Prim.Native.String.{String}
use restaurant_qr_ordering_s.Base.{
  ℕ, ◌+◌, ◌-◌, Bool, not, ◌&&◌, Option, none, some, List, [], ◌∷◌, ◌++◌, ltb, ◌==◌, if◌then◌else◌,
  update_where, select, exists_where, same_text, sum_of,
}
use restaurant_qr_ordering_s.Base.Int.{ℤ}
use restaurant_qr_ordering_s.Money.Digits.{Text}
use restaurant_qr_ordering_s.Client.Amounts.{Line, sum_lines_minor}
use restaurant_qr_ordering_s.Client.Offers.{Priced, effective_price, strikethrough_price}

-- A dish as the menu sends it.
pub record MenuRow : Type 0 where
  pub id : ℕ
  pub name : String
  pub image_url : Option String
  pub priced : Priced

pub record CartItem : Type 0 where
  pub food_id : ℕ
  pub name : String
  pub price : Text
  pub list_price : Option Text
  pub image_url : Option String
  pub quantity : ℕ
  pub notes : Option Text

abbrev pub or_blank : Option Text → Text
or_blank none = []
or_blank (some t) = t

abbrev pub same_line : ℕ → Option Text → CartItem → Bool
same_line food_id notes i = i.food_id == food_id && same_text (or_blank i.notes) (or_blank notes)

abbrev pub one_more : CartItem → CartItem
one_more i = record i { quantity = i.quantity + 1 }

abbrev pub new_line : MenuRow → Option Text → CartItem
new_line f notes = record {
  food_id = f.id;
  name = f.name;
  price = effective_price f.priced;
  list_price = strikethrough_price f.priced;
  image_url = f.image_url;
  quantity = 1;
  notes = notes;
}

unfoldable pub add_item : MenuRow → Option Text → List CartItem → List CartItem
add_item f notes items =
    if exists_where (same_line f.id notes) items
    then update_where (same_line f.id notes) one_more items
    else items ++ (new_line f notes ∷ [])

abbrev pub is_dish : ℕ → CartItem → Bool
is_dish food_id i = i.food_id == food_id

unfoldable pub remove_item : ℕ → List CartItem → List CartItem
remove_item food_id = select (λ i. not (is_dish food_id i))

unfoldable pub increase : ℕ → List CartItem → List CartItem
increase food_id = update_where (is_dish food_id) one_more

-- The difference stops at 0, and a line with nothing left goes either way.
abbrev pub one_less : CartItem → CartItem
one_less i = record i { quantity = i.quantity - 1 }

unfoldable pub decrease : ℕ → List CartItem → List CartItem
decrease food_id items =
    select (λ i. ltb 0 i.quantity) (update_where (is_dish food_id) one_less items)

unfoldable pub set_notes : ℕ → Text → List CartItem → List CartItem
set_notes food_id notes = update_where (is_dish food_id) (λ i. record i { notes = some notes })

unfoldable pub clear_cart : List CartItem → List CartItem
clear_cart items = []

abbrev pub line_of_item : CartItem → Line
line_of_item i = record { price = i.price; quantity = i.quantity }

abbrev pub lines_of : List CartItem → List Line
lines_of [] = []
lines_of (i ∷ is) = line_of_item i ∷ lines_of is

abbrev pub subtotal_minor : List CartItem → ℤ
subtotal_minor items = sum_lines_minor (lines_of items)

abbrev pub item_count : List CartItem → ℕ
item_count = sum_of (λ i. i.quantity)

-- What a guest does with the cart.
pub data CartAction : Type 0 where
  add : MenuRow → Option Text → CartAction
  remove more less : ℕ → CartAction
  note : ℕ → Text → CartAction
  clear : CartAction

abbrev pub act : CartAction → List CartItem → List CartItem
act (CartAction.add f notes) = add_item f notes
act (CartAction.remove id) = remove_item id
act (CartAction.more id) = increase id
act (CartAction.less id) = decrease id
act (CartAction.note id notes) = set_notes id notes
act CartAction.clear = clear_cart

-- The actions of a visit, the first one first.
abbrev pub act_all : List CartAction → List CartItem → List CartItem
act_all [] items = items
act_all (a ∷ rest) items = act_all rest (act a items)
