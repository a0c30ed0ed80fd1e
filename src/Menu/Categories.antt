-- ===== src/Menu/Categories.antt =====
-- The writes of server/src/services/category.service.ts.
use Prim.Native.String.{String}
use restaurant_qr_ordering_s.Base.{
  ℕ, ◌+◌, Bool, true, false, not, ◌&&◌, Option, none, some, List, [], ◌∷◌, ◌++◌, ltb, ◌==◌,
  if◌then◌else◌, or_else, or_keep, find_by, update_where, exists_where, same_text, count_where,
}
use restaurant_qr_ordering_s.Errors.{Result, ok, ◌>>=◌, ◌>>◌, throw_if, not_found, conflict, Reason}
use restaurant_qr_ordering_s.Money.Digits.{Text}
use restaurant_qr_ordering_s.Store.{Db, Category, found}
use restaurant_qr_ordering_s.Menu.Slug.{unique_slug}
use restaurant_qr_ordering_s.Menu.Foods.{is_category, is_given}

abbrev pub get_category : ℕ → Db → Result Category
get_category id db =
    found (find_by (is_category id) db.categories) (not_found Reason.category_not_found)

module _ (same_name : String → String → Bool) where
  -- Another category that is not deleted has the name.
  abbrev pub name_clashes : Option ℕ → String → List Category → Bool
  name_clashes none name = exists_where (λ c. same_name c.name name && not c.deleted)
  name_clashes (some id) name =
      exists_where (λ c. same_name c.name name && (not (c.id == id) && not c.deleted))

abbrev pub category_slug_taken : Option ℕ → List Category → Text → Bool
category_slug_taken none categories slug = exists_where (λ c. same_text c.slug slug) categories
category_slug_taken (some id) categories slug =
    exists_where (λ c. same_text c.slug slug && not (c.id == id)) categories

pub record CreateCategoryInput : Type 0 where
  pub name : String
  pub description : Option String
  pub sort_order : Option ℕ
  pub is_active : Option Bool

abbrev pub new_category : CreateCategoryInput → Text → ℕ → Category
new_category input slug id = record {
  id = id;
  name = input.name;
  slug = slug;
  description = input.description;
  sort_order = or_else input.sort_order 0;
  is_active = or_else input.is_active true;
  deleted = false;
}

abbrev pub insert_category : Category → Db → Db
insert_category c db = record db {
  categories = db.categories ++ (c ∷ []);
  next_id = db.next_id + 1;
}

pub record UpdateCategoryInput : Type 0 where
  pub name : Option String
  pub description : Option String
  pub sort_order : Option ℕ
  pub is_active : Option Bool

abbrev pub updated_category : UpdateCategoryInput → Text → Category → Category
updated_category input slug c = record c {
  name = or_else input.name c.name;
  slug = if is_given input.name then slug else c.slug;
  description = or_keep input.description c.description;
  sort_order = or_else input.sort_order c.sort_order;
  is_active = or_else input.is_active c.is_active;
}

abbrev pub update_category_row : ℕ → (Category → Category) → Db → Db
update_category_row id f db = record db {
  categories = update_where (λ c. c.id == id) f db.categories;
}

module _ (same_name : String → String → Bool) where
  unfoldable pub create_category : ℕ → Text → CreateCategoryInput → Db → Result (Category × Db)
  create_category now folded input db = do
    throw_if (name_clashes same_name none input.name db.categories)
        (conflict Reason.category_name_taken)
    let slug = unique_slug now (category_slug_taken none db.categories) folded
    let category = new_category input slug db.next_id
    ok (category, insert_category category db)

  abbrev pub check_new_name : ℕ → Option String → Db → Result (Unit {0})
  check_new_name id none db = ok tt
  check_new_name id (some name) db =
      throw_if (name_clashes same_name (some id) name db.categories)
        (conflict Reason.category_name_taken)

  unfoldable pub update_category : ℕ → ℕ → Text → UpdateCategoryInput → Db → Result (Category × Db)
  update_category now id folded input db = do
    category ← get_category id db
    check_new_name id input.name db
    let slug = unique_slug now (category_slug_taken (some id) db.categories) folded
    let next = updated_category input slug
    ok (next category, update_category_row id next db)

abbrev pub foods_in : ℕ → Db → ℕ
foods_in id db = count_where (λ f. f.category_id == id && not f.deleted) db.foods

abbrev pub retired : Category → Category
retired c = record c { deleted = true; is_active = false }

unfoldable pub delete_category : ℕ → Db → Result (Unit {0} × Db)
delete_category id db = do
  category ← get_category id db
  throw_if (ltb 0 (foods_in id db)) (conflict (Reason.category_has_foods (foods_in id db)))
  ok (tt, update_category_row id retired db)
