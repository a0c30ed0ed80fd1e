-- ===== src/Examples/MenuTests.antt =====
-- The theorems on the menu and on pages at concrete inputs.
use restaurant_qr_ordering_s.Base.{
  ℕ, ◌≡◌, refl, true, none, some, List, [], ◌∷◌, arith, ltb, length,
}
use restaurant_qr_ordering_s.Base.Int.{pos}
use restaurant_qr_ordering_s.Money.{from_minor_units}
use restaurant_qr_ordering_s.Money.RoundTrip.{to_minor_units-from_minor_units}
use restaurant_qr_ordering_s.Offer.{OfferType, running}
use restaurant_qr_ordering_s.Store.{Db}
use restaurant_qr_ordering_s.Menu.Foods.{UpdateFoodInput, update_food}
use restaurant_qr_ordering_s.Menu.Categories.{delete_category}
use restaurant_qr_ordering_s.Menu.Validity.{IsMenu, Keeps}
use restaurant_qr_ordering_s.Menu.Kept.{update_food-IsMenu, delete_category-IsMenu}
use restaurant_qr_ordering_s.Pagination.{list_page}
use restaurant_qr_ordering_s.Pagination.Pages.{pages_from, list_page_covers}
use restaurant_qr_ordering_s.Examples.Data.{house}

abbrev open_house : Db
open_house = house [] [] [] []

open_house-IsMenu : IsMenu open_house
unfolding running
open_house-IsMenu = record { priced = ((refl, λ on. cc), tt); filed = (λ there. refl, tt) }

-- Switches on 20% off.
abbrev twenty_off : UpdateFoodInput
twenty_off = record {
  name = none;
  description = none;
  price = none;
  category_id = none;
  is_available = none;
  is_vegetarian = none;
  is_featured = none;
  preparation_minutes = none;
  offer = record {
    is_offer_active = some true;
    offer_type = some OfferType.percentage;
    offer_value = some (b'2' ∷ b'0' ∷ []);
    offer_label = none;
  };
}

update_food-IsMenu_example :
    Keeps (update_food (λ n. from_minor_units (pos n)) 5000 1 [] twenty_off none open_house)
update_food-IsMenu_example =
    update_food-IsMenu (λ n. from_minor_units (pos n)) to_minor_units-from_minor_units 5000 1 []
      twenty_off none open_house open_house-IsMenu

delete_category-IsMenu_example : Keeps (delete_category 2 open_house)
delete_category-IsMenu_example = delete_category-IsMenu 2 open_house open_house-IsMenu

abbrev three : List ℕ
three = 11 ∷ 12 ∷ 13 ∷ []

list_page_covers_example :
    (pages_from 2 three 0 (list_page (some 1) (some 2) three).1.total_pages ≡ three)
    × ((list_page (some 1) (some 2) three).1.has_next_page ≡ ltb 2 (length three))
list_page_covers_example = list_page_covers 2 three 0 (omega arith) (omega arith)
