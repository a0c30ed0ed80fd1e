-- ===== src/Menu/Kept.antt =====
-- Every write of the menu services keeps the menu consistent.
use Prim.Native.String.{String}
use restaurant_qr_ordering_s.Base.{
  ℕ, ◌≡◌, Bool, true, false, not, ◌&&◌, ◌==◌, Option, none, some, List, All-map, inl, inr,
  exists_where, exists_where-append, exists_where-update_where, count_where-zero, ltb, or_else,
  arith, subst,
}
use restaurant_qr_ordering_s.Errors.{ok, Result-cases}
use restaurant_qr_ordering_s.Money.{to_minor_units}
use restaurant_qr_ordering_s.Money.Digits.{Text}
use restaurant_qr_ordering_s.Offer.{assert_offer_is_coherent}
use restaurant_qr_ordering_s.Offer.Price.{
  Stores, IsExact, derive_offer_price-Stores, assert_offer_is_coherent-IsExact,
}
use restaurant_qr_ordering_s.Store.{Db, Food, Category, Effect}
use restaurant_qr_ordering_s.Menu.Foods.{
  is_category, get_food, assert_category_exists, OfferFields, OfferColumns, offer_columns, offer_of,
  CreateFoodInput, create_food, UpdateFoodInput, update_food, updated_food, check_category,
  next_offer, written_price, delete_food, withdrawn, set_availability, set_featured,
}
use restaurant_qr_ordering_s.Menu.Categories.{
  CreateCategoryInput, create_category, name_clashes, UpdateCategoryInput, update_category,
  get_category, check_new_name, updated_category, delete_category, foods_in, retired,
}
use restaurant_qr_ordering_s.Menu.Validity.{
  IsFiled, IsMenu, Keeps, Keeps->>=, Keeps-throw_if, insert_food-IsMenu, update_food_row-IsMenu,
  categories-IsMenu, commit-IsMenu,
}

-- What the columns of an accepted offer hold, for a price that reads as `price`.
abbrev HoldsOffer : ℕ → OfferColumns → Type 0
HoldsOffer price c =
    Stores price c.offer c.price × (c.offer.is_offer_active ≡ true → IsExact price c.offer)

ok-injective {ℓ} : {A : Type ℓ} (a b : A) → ok a ≡ ok b → a ≡ b
ok-injective a b e = cc

columns-HoldsOffer :
    (text : Text) (price : ℕ) (f : OfferFields) (c : OfferColumns)
    → to_minor_units text ≡ ok price
    → offer_columns text f ≡ ok c
    → HoldsOffer price c
unfolding offer_columns
columns-HoldsOffer text price f c readable e =
    elim (Result-cases (assert_offer_is_coherent text (offer_of f))) [
      | inl (x, bad) ↦ cc (rw bad at e)
      | inr (done, good) ↦
          let (stored, derived, stores) =
            derive_offer_price-Stores text price (offer_of f) readable in
          subst (HoldsOffer price) (ok-injective _ c (rw (good, derived) at e)) (
            stores,
            λ active. assert_offer_is_coherent-IsExact text price (offer_of f) readable active good,
          )
    ]

assert_category_exists-holds :
    (id : ℕ) (db : Db) (done : Unit {0})
    → assert_category_exists id db ≡ ok done
    → exists_where (is_category id) db.categories ≡ true
assert_category_exists-holds id db done e = ground arith

-- Creating a dish keeps the menu consistent: its category exists, the stored offer price reads back
-- as the price that is charged, and an active offer is charged exactly as written.
pub create_food-IsMenu :
    (now : ℕ) (folded : Text) (input : CreateFoodInput) (image : Option String) (db : Db)
    → IsMenu db
    → Keeps (create_food now folded input image db)
unfolding create_food
create_food-IsMenu now folded input image db v =
    Keeps->>= {B = Food} (assert_category_exists input.category_id db) _ λ done filed.
      Keeps->>= (offer_columns input.price input.offer) _ λ columns accepted.
        Keeps->>= (to_minor_units input.price) _ λ price readable.
          insert_food-IsMenu _ db
            (columns-HoldsOffer input.price price input.offer columns readable accepted)
            (λ on. assert_category_exists-holds input.category_id db done filed) v

check_category-IsFiled :
    (category : Option ℕ) (db : Db) (f : Food) (done : Unit {0})
    → check_category category db ≡ ok done
    → IsFiled db.categories f
    → f.deleted ≡ false
    → exists_where (is_category (or_else category f.category_id)) db.categories ≡ true
check_category-IsFiled none db f done e filed on = filed on
check_category-IsFiled (some id) db f done e filed on = assert_category_exists-holds id db done e

module _ (decimal_text : ℕ → Text) (prints : (n : ℕ) → to_minor_units (decimal_text n) ≡ ok n) where
  next_price-readable :
      (given : Option Text) (old price : ℕ)
      → written_price given old ≡ ok price
      → to_minor_units (or_else given (decimal_text old)) ≡ ok price
  next_price-readable none old price e = rw e at (prints old)
  next_price-readable (some text) old price e = e

  -- Updating a dish keeps the menu consistent, whatever subset of the fields the request carries: the
  -- offer is derived again from the merged row. A stored price is printed as a text of that amount.
  pub update_food-IsMenu :
      (now id : ℕ) (folded : Text) (input : UpdateFoodInput) (image : Option String) (db : Db)
      → IsMenu db
      → Keeps (update_food decimal_text now id folded input image db)
  unfolding update_food
  update_food-IsMenu now id folded input image db v =
      Keeps->>= {B = Food × List Effect} (get_food id db) _ λ f found.
        Keeps->>= (check_category input.category_id db) _ λ done filed.
          Keeps->>=
            (offer_columns (or_else input.price (decimal_text f.price)) (next_offer input f)) _
            λ columns accepted. Keeps->>= (written_price input.price f.price) _ λ price written.
              update_food_row-IsMenu id (updated_food input image price _ columns) db
                (λ x old.
                  columns-HoldsOffer _ price (next_offer input f) columns
                    (next_price-readable input.price f.price price written) accepted)
                (λ x old. check_category-IsFiled input.category_id db x done filed old) v

-- Taking a dish off the menu keeps the menu consistent.
pub delete_food-IsMenu : (id : ℕ) (db : Db) → IsMenu db → Keeps (delete_food id db)
unfolding delete_food
delete_food-IsMenu id db v =
    Keeps->>= {B = Unit {0}} (get_food id db) _
      λ f found. update_food_row-IsMenu id withdrawn db (λ x old. old) (λ x old on. cc) v

-- The switch for a sold-out dish keeps the menu consistent.
pub set_availability-IsMenu :
    (id : ℕ) (available : Bool) (db : Db) → IsMenu db → IsMenu (set_availability id available db).1
unfolding set_availability
set_availability-IsMenu id available db v = commit-IsMenu db _ _ v (
    Keeps->>= {B = Food} (get_food id db) _
      λ f found. update_food_row-IsMenu id _ db (λ x old. old) (λ x old. old) v)

-- The badge of a featured dish keeps the menu consistent.
pub set_featured-IsMenu :
    (id : ℕ) (featured : Bool) (db : Db) → IsMenu db → Keeps (set_featured id featured db)
unfolding set_featured
set_featured-IsMenu id featured db v =
    Keeps->>= {B = Food} (get_food id db) _
      λ f found. update_food_row-IsMenu id _ db (λ x old. old) (λ x old. old) v

module _ (same_name : String → String → Bool) where
  -- A new category keeps the menu consistent.
  pub create_category-IsMenu :
      (now : ℕ) (folded : Text) (input : CreateCategoryInput) (db : Db)
      → IsMenu db
      → Keeps (create_category same_name now folded input db)
  unfolding create_category
  create_category-IsMenu now folded input db v =
      Keeps-throw_if {B = Category} (name_clashes same_name none input.name db.categories) _ _
        λ free.
          categories-IsMenu _ _ db
            (All-map _ _ (λ f h filed on. exists_where-append _ db.categories _ (filed on)) db.foods
              v.filed)
            v

  -- An update of a category keeps the menu consistent.
  pub update_category-IsMenu :
      (now id : ℕ) (folded : Text) (input : UpdateCategoryInput) (db : Db)
      → IsMenu db
      → Keeps (update_category same_name now id folded input db)
  unfolding update_category
  update_category-IsMenu now id folded input db v =
      Keeps->>= {B = Category} (get_category id db) _ λ c found.
        Keeps->>= (check_new_name same_name id input.name db) _ λ done free.
          categories-IsMenu _ _ db
            (All-map _ _
              (λ f h filed on.
                exists_where-update_where _ _ (updated_category input _) db.categories
                  (λ c same e. e) (filed on))
              db.foods v.filed)
            v

-- No dish is left without its category: a category that still holds dishes is not deleted.
pub delete_category-IsMenu : (id : ℕ) (db : Db) → IsMenu db → Keeps (delete_category id db)
unfolding delete_category
delete_category-IsMenu id db v = Keeps->>= {B = Unit {0}} (get_category id db) _ λ c found.
    Keeps-throw_if (ltb 0 (foods_in id db)) _ _ λ empty.
      categories-IsMenu _ _ db
        (All-map _ _
          (λ f other filed on.
            exists_where-update_where (is_category f.category_id) (λ c. c.id == id) retired
              db.categories (λ c same e. ground (arith, other, on)) (filed on))
          db.foods
          (count_where-zero (λ f. f.category_id == id && not f.deleted) db.foods
            (ground (arith, empty))))
        v
