-- ===== src/Menu/Validity.antt =====
-- The invariant of the menu: the stored offer of a dish is the one that its columns describe, and a
-- dish that is on the menu stands in a category that exists.
use restaurant_qr_ordering_s.Base.{
  ℕ, ◌≡◌, refl, Bool, true, false, List, All, exists_where, All-append, All-update_where, All-zip,
}
use restaurant_qr_ordering_s.Errors.{Result, ok, err, AppError, ◌>>=◌, ◌>>◌, throw_if}
use restaurant_qr_ordering_s.Offer.Price.{Stores, IsExact}
use restaurant_qr_ordering_s.Store.{Db, Food, Category, Effect, commit}
use restaurant_qr_ordering_s.Menu.Foods.{is_category, insert_food, update_food_row}

abbrev pub IsPriced : Food → Type 0
IsPriced f =
    Stores f.price f.offer f.offer_price
    × (f.offer.is_offer_active ≡ true → IsExact f.price f.offer)

abbrev pub IsFiled : List Category → Food → Type 0
IsFiled categories f =
    f.deleted ≡ false → exists_where (is_category f.category_id) categories ≡ true

pub record IsMenu (db : Db) : Type 0 where
  pub priced : All IsPriced db.foods
  pub filed : All (IsFiled db.categories) db.foods

-- A write keeps the invariant if it commits a consistent menu, or throws.
abbrev pub Keeps : {A : Type 0} → Result (A × Db) → Type 0
Keeps (ok (a, db)) = IsMenu db
Keeps (err e) = Unit

pub Keeps->>= :
    {A B : Type 0} (m : Result A) (f : A → Result (B × Db))
    → ((a : A) → m ≡ ok a → Keeps (f a))
    → Keeps (m >>= f)
Keeps->>= (ok a) f h = h a refl
Keeps->>= (err e) f h = tt

pub Keeps-throw_if :
    {B : Type 0} (b : Bool) (e : AppError) (r : Result (B × Db))
    → (b ≡ false → Keeps r)
    → Keeps (throw_if b e >> r)
Keeps-throw_if true e r h = tt
Keeps-throw_if false e r h = h refl

pub commit-IsMenu :
    {A : Type 0} (db : Db) (f : A → List Effect) (r : Result (A × Db))
    → IsMenu db
    → Keeps r
    → IsMenu (commit db f r).1
commit-IsMenu db f (ok (a, after)) v k = k
commit-IsMenu db f (err e) v k = v

pub insert_food-IsMenu :
    (f : Food) (db : Db)
    → IsPriced f
    → IsFiled db.categories f
    → IsMenu db
    → IsMenu (insert_food f db)
insert_food-IsMenu f db priced filed v = record {
  priced = All-append IsPriced db.foods _ v.priced (priced, tt);
  filed = All-append (IsFiled db.categories) db.foods _ v.filed (filed, tt);
}

pub update_food_row-IsMenu :
    (id : ℕ) (g : Food → Food) (db : Db)
    → ((x : Food) → IsPriced x → IsPriced (g x))
    → ((x : Food) → IsFiled db.categories x → IsFiled db.categories (g x))
    → IsMenu db
    → IsMenu (update_food_row id g db)
update_food_row-IsMenu id g db priced filed v = record {
  priced = All-update_where IsPriced _ g (λ x same. priced x) db.foods v.priced;
  filed = All-update_where (IsFiled db.categories) _ g (λ x same. filed x) db.foods v.filed;
}

-- A write to the categories under which the category of every dish still exists.
pub categories-IsMenu :
    (categories : List Category) (next_id : ℕ) (db : Db)
    → All (λ f. IsFiled db.categories f → IsFiled categories f) db.foods
    → IsMenu db
    → IsMenu (record db { categories = categories; next_id = next_id })
categories-IsMenu categories next_id db still v = record {
  priced = v.priced;
  filed = All-zip _ _ (IsFiled categories) (λ f h k. h k) db.foods still v.filed;
}
