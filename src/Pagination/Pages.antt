-- ===== src/Pagination/Pages.antt =====
-- The pages of a list, one after the other, are the list.
use Prim.Native.Nat.{min, max}
use restaurant_qr_ordering_s.Base.{
  ℕ, zero, suc, ◌+◌, ◌-◌, ◌*◌, ◌≤◌, ◌<◌, ◌≡◌, refl, sym, ap, ◌∙◌, some, List, [], ◌++◌, arith,
  length, ltb, leb, leb→le, Bool-cases, inl, inr,
}
use restaurant_qr_ordering_s.Base.Slices.{take, drop, take-drop, drop-drop, drop-all}
use restaurant_qr_ordering_s.Pagination.{
  PaginationParams, get_pagination, build_pagination_meta, ceil_div, or_one, list_page,
}

ceil_div_covers : (total limit : ℕ) → 0 < limit → total ≤ ceil_div total limit * limit
ceil_div_covers total limit h = grind arith

ceil_div_least : (total limit k : ℕ) → 0 < limit → total ≤ k * limit → ceil_div total limit ≤ k
ceil_div_least total limit k h le = grind arith

abbrev page_params : ℕ → ℕ → PaginationParams
page_params k limit = record { page = suc k; limit = limit; skip = k * limit }

get_pagination_lem :
    (k limit : ℕ)
    → 0 < limit
    → limit ≤ 100
    → get_pagination (some (suc k)) (some limit) ≡ page_params k limit
unfolding get_pagination
get_pagination_lem k limit lo hi =
    let l : min 100 (max 1 limit) ≡ limit = omega arith in
    let p : max 1 (suc k) ≡ suc k = omega arith in
    let q : suc k - 1 ≡ k = omega arith in rw (l, p, q) refl

mul_mono : (a b c : ℕ) → a ≤ b → a * c ≤ b * c
mul_mono a b c h = grind arith

-- A page is the last exactly if it reaches the end of the rows.
or_one_next :
    (k limit total c : ℕ)
    → (total ≤ suc k * limit → c ≤ suc k)
    → total ≤ c * limit
    → ltb (suc k) (or_one c) ≡ ltb (suc k * limit) total
or_one_next k limit total c least covers = elim (Bool-cases (leb c (suc k))) [
  | inl last ↦ ground (arith, mul_mono c (suc k) limit)
  | inr more ↦ elim (Bool-cases (leb total (suc k * limit))) [
    | inl e ↦ absurd (let h = least (leb→le total (suc k * limit) e) in ground arith)
    | inr e ↦ ground arith
  ]
]

or_one_covers : (total c limit : ℕ) → total ≤ c * limit → total ≤ (0 + or_one c) * limit
or_one_covers total c limit h =
    let more : c ≤ 0 + or_one c = ground arith in
    omega (arith, h, mul_mono c (0 + or_one c) limit more)

module _ {ℓ} {A : Type ℓ} (limit : ℕ) (rows : List A) where
  -- The rows of `n` pages from the page after the first `k` pages on.
  abbrev pub pages_from : ℕ → ℕ → List A
  pages_from k zero = []
  pages_from k (suc n) = (list_page (some (suc k)) (some limit) rows).0 ++ pages_from (suc k) n

  pages_from-drop :
      0 < limit
      → limit ≤ 100
      → (n k : ℕ) → length rows ≤ (k + n) * limit
      → pages_from k n ≡ drop (k * limit) rows
  unfolding list_page
  pages_from-drop lo hi zero k h = sym (drop-all (k * limit) rows (grind arith))
  pages_from-drop lo hi (suc n) k h = rw (get_pagination_lem k limit lo hi) (
      ap (λ rest. take limit (drop (k * limit) rows) ++ rest)
        (pages_from-drop lo hi n (suc k) (grind arith)
          ∙ sym (drop-drop (k * limit) limit (suc k * limit) rows (grind arith)))
      ∙ take-drop limit (drop (k * limit) rows))

  -- For a limit from 1 to 100, the pages from 1 to the `total_pages` that any page announces, put
  -- together, are all rows, each once and in order; and a page announces a next one exactly if rows are
  -- left after it.
  pub list_page_covers :
      (page : ℕ)
      → 0 < limit
      → limit ≤ 100
      → (pages_from 0 (list_page (some (suc page)) (some limit) rows).1.total_pages ≡ rows)
        × ((list_page (some (suc page)) (some limit) rows).1.has_next_page
            ≡ ltb (suc page * limit) (length rows))
  unfolding list_page build_pagination_meta
  list_page_covers page lo hi =
      let covers = ceil_div_covers (length rows) limit lo in
      let pages = or_one (ceil_div (length rows) limit) in
      let enough : length rows ≤ (0 + pages) * limit =
        or_one_covers (length rows) (ceil_div (length rows) limit) limit covers in
      let whole : drop (0 * limit) rows ≡ rows = ap (λ n. drop n rows) {y = 0} (omega arith) in
      rw (get_pagination_lem page limit lo hi) (
        pages_from-drop lo hi pages 0 enough ∙ whole,
        or_one_next page limit (length rows) (ceil_div (length rows) limit)
            (ceil_div_least (length rows) limit (suc page) lo) covers,
      )
