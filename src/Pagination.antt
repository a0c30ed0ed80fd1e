-- ===== src/Pagination.antt =====
-- server/src/utils/pagination.ts: the page that a list endpoint answers, and the block that describes
-- it. Page numbers and limits are natural numbers, as the validation of the query makes them.
pub mod Pages
use Prim.Native.Nat.{min, max}
use restaurant_qr_ordering_s.Base.{
  ℕ, ◌+◌, ◌-◌, ◌*◌, ◌/◌, Bool, Option, none, some, List, ltb, ◌==◌, if◌then◌else◌, length,
}
use restaurant_qr_ordering_s.Base.Slices.{take, drop}

pub record PaginationParams : Type 0 where
  pub page : ℕ
  pub limit : ℕ
  pub skip : ℕ

pub record PaginationMeta : Type 0 where
  pub page : ℕ
  pub limit : ℕ
  pub total : ℕ
  pub total_pages : ℕ
  pub has_next_page : Bool
  pub has_previous_page : Bool

abbrev pub max_limit : ℕ
max_limit = 100

abbrev pub default_limit : ℕ
default_limit = 20

abbrev pub or_default : Option ℕ → ℕ → ℕ
or_default none d = d
or_default (some n) d = n

unfoldable pub get_pagination : Option ℕ → Option ℕ → PaginationParams
get_pagination page limit =
    let safe_page = max 1 (or_default page 1) in
    let safe_limit = min max_limit (max 1 (or_default limit default_limit)) in
    record { page = safe_page; limit = safe_limit; skip = (safe_page - 1) * safe_limit }

-- `Math.ceil(total / limit)`, for a limit that is not 0.
abbrev pub ceil_div : ℕ → ℕ → ℕ
ceil_div total limit = (total + limit - 1) / limit

-- `pages || 1`
abbrev pub or_one : ℕ → ℕ
or_one pages = if pages == 0 then 1 else pages

unfoldable pub build_pagination_meta : PaginationParams → ℕ → PaginationMeta
build_pagination_meta p total =
    let total_pages = or_one (ceil_div total p.limit) in
    record {
      page = p.page;
      limit = p.limit;
      total = total;
      total_pages = total_pages;
      has_next_page = ltb p.page total_pages;
      has_previous_page = ltb 1 p.page;
    }

-- `skip` and `take` of a query, over the rows that its `where` and `orderBy` leave.
abbrev pub page_of {ℓ} : {A : Type ℓ} → PaginationParams → List A → List A
page_of p rows = take p.limit (drop p.skip rows)

-- What a list endpoint answers.
unfoldable pub list_page {ℓ} : {A : Type ℓ} → Option ℕ → Option ℕ → List A → List A × PaginationMeta
list_page page limit rows =
    let p = get_pagination page limit in (page_of p rows, build_pagination_meta p (length rows))
