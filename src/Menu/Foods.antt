-- ===== src/Menu/Foods.antt =====
-- The writes of server/src/services/food.service.ts. An instant, the URL of an uploaded image and
-- what the name folds to are arguments; `decimal_text` is how Prisma prints a Decimal column.
use Prim.Native.String.{String}
use restaurant_qr_ordering_s.Base.{
  ℕ, ◌+◌, Bool, true, false, not, ◌&&◌, Option, none, some, List, [], ◌∷◌, ◌++◌, ◌==◌,
  if◌then◌else◌, or_else, or_keep, find_by, update_where, exists_where, same_text,
}
use restaurant_qr_ordering_s.Errors.{
  Result, ok, ◌>>=◌, ◌>>◌, throw_if, bad_request, not_found, Reason,
}
use restaurant_qr_ordering_s.Money.{to_minor_units}
use restaurant_qr_ordering_s.Money.Digits.{Text}
use restaurant_qr_ordering_s.Offer.{
  OfferInput, OfferType, custom_label, derive_offer_price, assert_offer_is_coherent,
}
use restaurant_qr_ordering_s.Store.{Db, Food, Category, Outcome, Effect, commit, found}
use restaurant_qr_ordering_s.Menu.Slug.{unique_slug}

abbrev pub is_food : ℕ → Food → Bool
is_food id f = f.id == id && not f.deleted

abbrev pub is_category : ℕ → Category → Bool
is_category id c = c.id == id && not c.deleted

abbrev pub update_food_row : ℕ → (Food → Food) → Db → Db
update_food_row id f db = record db { foods = update_where (λ x. x.id == id) f db.foods }

abbrev pub get_food : ℕ → Db → Result Food
get_food id db = found (find_by (is_food id) db.foods) (not_found Reason.menu_item_missing)

abbrev pub assert_category_exists : ℕ → Db → Result (Unit {0})
assert_category_exists id db =
    throw_if (not (exists_where (is_category id) db.categories))
      (bad_request Reason.category_missing)

pub record OfferFields : Type 0 where
  pub is_offer_active : Option Bool
  pub offer_type : Option OfferType
  pub offer_value : Option Text
  pub offer_label : Option Text

pub record OfferColumns : Type 0 where
  pub offer : OfferInput
  pub label : Option Text
  pub price : Option Text

abbrev pub offer_of : OfferFields → OfferInput
offer_of f = record {
  is_offer_active = or_else f.is_offer_active false;
  offer_type = f.offer_type;
  offer_value = f.offer_value;
}

unfoldable pub offer_columns : Text → OfferFields → Result OfferColumns
offer_columns price f = do
  assert_offer_is_coherent price (offer_of f)
  offer_price ← derive_offer_price price (offer_of f)
  ok (record { offer = offer_of f; label = custom_label f.offer_label; price = offer_price })

pub record CreateFoodInput : Type 0 where
  pub name : String
  pub description : Option String
  pub price : Text
  pub category_id : ℕ
  pub is_available : Option Bool
  pub is_vegetarian : Option Bool
  pub is_featured : Option Bool
  pub preparation_minutes : Option ℕ
  pub offer : OfferFields

abbrev pub slug_taken : Option ℕ → Db → Text → Bool
slug_taken none db slug = exists_where (λ f. same_text f.slug slug) db.foods
slug_taken (some id) db slug =
    exists_where (λ f. same_text f.slug slug && not (f.id == id)) db.foods

abbrev pub new_food : CreateFoodInput → Option String → ℕ → Text → OfferColumns → ℕ → Food
new_food input image price slug columns id = record {
  id = id;
  name = input.name;
  price = price;
  is_available = or_else input.is_available true;
  deleted = false;
  offer = columns.offer;
  preparation_minutes = input.preparation_minutes;
  slug = slug;
  description = input.description;
  image_url = image;
  category_id = input.category_id;
  is_vegetarian = or_else input.is_vegetarian false;
  is_featured = or_else input.is_featured false;
  offer_price = columns.price;
  offer_label = columns.label;
}

abbrev pub insert_food : Food → Db → Db
insert_food f db = record db { foods = db.foods ++ (f ∷ []); next_id = db.next_id + 1 }

-- The validation of the route lets only a readable price through.
unfoldable pub create_food : ℕ → Text → CreateFoodInput → Option String → Db → Result (Food × Db)
create_food now folded input image db = do
  assert_category_exists input.category_id db
  let slug = unique_slug now (slug_taken none db) folded
  columns ← offer_columns input.price input.offer
  price ← to_minor_units input.price
  let food = new_food input image price slug columns db.next_id
  ok (food, insert_food food db)

pub record UpdateFoodInput : Type 0 where
  pub name : Option String
  pub description : Option String
  pub price : Option Text
  pub category_id : Option ℕ
  pub is_available : Option Bool
  pub is_vegetarian : Option Bool
  pub is_featured : Option Bool
  pub preparation_minutes : Option ℕ
  pub offer : OfferFields

abbrev pub is_given {ℓ} : {A : Type ℓ} → Option A → Bool
is_given none = false
is_given (some a) = true

abbrev pub check_category : Option ℕ → Db → Result (Unit {0})
check_category none db = ok tt
check_category (some id) db = assert_category_exists id db

-- The offer after the update: what is given, and else what is stored.
abbrev pub next_offer : UpdateFoodInput → Food → OfferFields
next_offer input f = record {
  is_offer_active = some (or_else input.offer.is_offer_active f.offer.is_offer_active);
  offer_type = or_keep input.offer.offer_type f.offer.offer_type;
  offer_value = or_keep input.offer.offer_value f.offer.offer_value;
  offer_label = or_keep input.offer.offer_label f.offer_label;
}

abbrev pub updated_food : UpdateFoodInput → Option String → ℕ → Text → OfferColumns → Food → Food
updated_food input image price slug columns f = record f {
  name = or_else input.name f.name;
  price = price;
  is_available = or_else input.is_available f.is_available;
  offer = columns.offer;
  preparation_minutes = or_keep input.preparation_minutes f.preparation_minutes;
  slug = if is_given input.name then slug else f.slug;
  description = or_keep input.description f.description;
  image_url = or_keep image f.image_url;
  category_id = or_else input.category_id f.category_id;
  is_vegetarian = or_else input.is_vegetarian f.is_vegetarian;
  is_featured = or_else input.is_featured f.is_featured;
  offer_price = columns.price;
  offer_label = columns.label;
}

-- Without a new price the row keeps its own.
abbrev pub written_price : Option Text → ℕ → Result ℕ
written_price none old = ok old
written_price (some text) old = to_minor_units text

-- The old image goes once a new one is on the row.
abbrev pub replaced_image : Option String → Option String → List Effect
replaced_image (some new) (some old) = Effect.remove_file old ∷ []
replaced_image _ _ = []

-- The answer carries what is done once the row is written.
module _ (decimal_text : ℕ → Text) where
  unfoldable pub update_food :
      ℕ → ℕ → Text → UpdateFoodInput → Option String → Db → Result ((Food × List Effect) × Db)
  update_food now id folded input image db = do
    existing ← get_food id db
    check_category input.category_id db
    let slug = unique_slug now (slug_taken (some id) db) folded
    let next_price = or_else input.price (decimal_text existing.price)
    columns ← offer_columns next_price (next_offer input existing)
    price ← written_price input.price existing.price
    ok (
      (
        updated_food input image price slug columns existing,
        replaced_image image existing.image_url,
      ),
      update_food_row id (updated_food input image price slug columns) db,
    )

abbrev pub withdrawn : Food → Food
withdrawn f = record f { deleted = true; is_available = false }

-- A soft delete: past orders still point at the row.
unfoldable pub delete_food : ℕ → Db → Result (Unit {0} × Db)
delete_food id db = do food ← get_food id db; ok (tt, update_food_row id withdrawn db)

unfoldable pub set_availability : ℕ → Bool → Db → Outcome Food
set_availability id available db =
    commit db (λ f. Effect.emit_food_availability_changed f.id ∷ [])
      (do
        food ← get_food id db
        ok (
          record food { is_available = available },
          update_food_row id (λ f. record f { is_available = available }) db,
        ))

unfoldable pub set_featured : ℕ → Bool → Db → Result (Food × Db)
set_featured id featured db = do
  food ← get_food id db
  ok (
    record food { is_featured = featured },
    update_food_row id (λ f. record f { is_featured = featured }) db,
  )
