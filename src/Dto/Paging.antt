-- ===== src/Dto/Paging.antt =====
-- shared/dto/paging.dto.ts, with getUserList of module/user/user.service.ts.
use native.Mathlib.Nat.{lt-div-mul-add, div-mul-le_self}
use codebase_be_nestjs.Common.{
  ℕ, zero, suc, ◌+◌, ◌-◌, ◌*◌, ◌/◌, ◌≤◌, ◌<◌, ◌≡◌, refl, List, [], ◌∷◌, ◌++◌, arith, length, take,
  drop, String, ap, map, ◌∙◌, sym,
}

pub data Order : Type 0 where
  asc desc : Order

-- PAGING
abbrev pub default_page : ℕ
default_page = 1

abbrev pub default_page_size : ℕ
default_page_size = 15

pub record PagingRequest : Type 0 where
  pub page : ℕ
  pub page_size : ℕ
  pub order : Order
  pub order_by : String

-- The decorators Min and Max; a page is at least 1.
abbrev pub IsValid : PagingRequest → Type 0
IsValid request = (1 ≤ request.page) × (1 ≤ request.page_size) × (request.page_size ≤ 50)

-- get skip()
abbrev pub skip : PagingRequest → ℕ
skip request = (request.page - 1) * request.page_size

pub record PagingResponse (A : Type 0) : Type 0 where
  pub list : List A
  pub current_page : ℕ
  pub total_pages : ℕ
  pub total_items : ℕ

-- Math.ceil(totalItems / pageSize), for a size above 0
abbrev pub ceil_div : ℕ → ℕ → ℕ
ceil_div total size = (total + (size - 1)) / size

unfoldable pub new_paging_response : {A : Type 0} → List A → ℕ → ℕ → ℕ → PagingResponse A
new_paging_response list current_page total_items page_size = record {
  list = list;
  current_page = current_page;
  total_pages = ceil_div total_items page_size;
  total_items = total_items;
}

-- `findAndCount` with `skip` and `take`, over the rows that the condition and the order select.
abbrev pub find_and_count : {A : Type 0} → List A → ℕ → ℕ → List A × ℕ
find_and_count rows n size = (take size (drop n rows), length rows)

-- getUserList, on the selected rows
unfoldable pub get_user_list : {A B : Type 0} → (A → B) → List A → PagingRequest → PagingResponse B
unfolding new_paging_response
get_user_list to_item rows query =
    let (user_list, total_record) = find_and_count rows (skip query) query.page_size in
    new_paging_response (map to_item user_list) query.page total_record query.page_size

zero_plus : (n : ℕ) → n ≡ 0 + n
zero_plus n = omega arith

suc_plus : (m n : ℕ) → suc (m + n) ≡ suc m + n
suc_plus m n = omega arith

zero_mul : (size : ℕ) → 0 ≡ 0 * size
zero_mul size = omega arith

suc_mul : (n size : ℕ) → n * size + size ≡ suc n * size
suc_mul n size = omega arith

suc_sub : (n : ℕ) → suc n - 1 ≡ n
suc_sub n = omega arith

module _ {A : Type 0} where
  take-nil : (n : ℕ) → take {A = A} n [] ≡ []
  take-nil zero = refl
  take-nil (suc n) = refl

  take-split : (m n : ℕ) (xs : List A) → take m xs ++ take n (drop m xs) ≡ take (m + n) xs
  take-split zero n xs = ap (λ k. take k xs) (zero_plus n)
  take-split (suc m) n [] = take-nil n ∙ sym (take-nil (suc m + n))
  take-split (suc m) n (x ∷ xs) =
      ap (λ ys. x ∷ ys) (take-split m n xs) ∙ ap (λ k. take k (x ∷ xs)) (suc_plus m n)

  take-all : (n : ℕ) (xs : List A) → length xs ≤ n → take n xs ≡ xs
  take-all zero [] h = refl
  take-all zero (x ∷ xs) h = absurd (omega (arith, h))
  take-all (suc n) [] h = refl
  take-all (suc n) (x ∷ xs) h = ap (λ ys. x ∷ ys) (take-all n xs (omega (arith, h)))

-- The number of pages is the least one that has room for everything.
ceil_div-bounds :
    (total size : ℕ)
    → 1 ≤ size
    → (total ≤ ceil_div total size * size) × (ceil_div total size * size < total + size)
ceil_div-bounds total size h = (
  omega (arith, lt-div-mul-add {a = total + (size - 1)} {b = size} h),
  omega (arith, div-mul-le_self (total + (size - 1)) size, h),
)

module _ {A B : Type 0} (to_item : A → B) where
  map-append : (xs ys : List A) → map to_item (xs ++ ys) ≡ map to_item xs ++ map to_item ys
  map-append [] ys = refl
  map-append (x ∷ xs) ys = ap (λ zs. to_item x ∷ zs) (map-append xs ys)

  module _ (rows : List A) (query : PagingRequest) where
    -- The lists of the pages from 1 to `n`, one behind the other.
    unfoldable pub pages : ℕ → List B
    pages zero = []
    pages (suc n) = pages n ++ (get_user_list to_item rows (record query { page = suc n })).list

    pages-take : (n : ℕ) → pages n ≡ map to_item (take (n * query.page_size) rows)
    unfolding pages get_user_list
    pages-take zero = ap (λ k. map to_item (take k rows)) (zero_mul query.page_size)
    pages-take (suc n) =
        ap
          (λ ys.
            ys ++ map to_item (take query.page_size (drop ((suc n - 1) * query.page_size) rows)))
          (pages-take n)
        ∙ ap
            (λ k.
              map to_item (take (n * query.page_size) rows)
              ++ map to_item (take query.page_size (drop (k * query.page_size) rows)))
            (suc_sub n)
        ∙ sym (
            map-append (take (n * query.page_size) rows)
              (take query.page_size (drop (n * query.page_size) rows)))
        ∙ ap (map to_item) (take-split (n * query.page_size) query.page_size rows)
        ∙ ap (λ k. map to_item (take k rows)) (suc_mul n query.page_size)

    -- With a page size of at least 1, the answer to any page counts all rows; the lists of the
    -- pages from 1 to its number of pages, one behind the other, are all rows in order; and one
    -- page less would not have room for them.
    pub pages-total :
        (1 ≤ query.page_size)
        → let total = (get_user_list to_item rows query).total_pages in
          ((get_user_list to_item rows query).total_items ≡ length rows)
          × (pages total ≡ map to_item rows)
          × (total * query.page_size < length rows + query.page_size)
    unfolding get_user_list
    pages-total h =
        let bounds = ceil_div-bounds (length rows) query.page_size h in
        (
          refl,
          pages-take (ceil_div (length rows) query.page_size)
              ∙ ap (map to_item) (
                  take-all (ceil_div (length rows) query.page_size * query.page_size) rows
                    bounds.0),
          bounds.1,
        )
