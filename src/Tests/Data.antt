-- ===== src/Tests/Data.antt =====
-- Pages and addresses on concrete inputs.
use codebase_be_nestjs.Common.{ℕ, ◌+◌, ◌*◌, ◌<◌, ◌≡◌, none, some, List, [], ◌∷◌, map, length, arith}
use codebase_be_nestjs.Common.Text.{◌<>◌}
use codebase_be_nestjs.Dto.Paging.{PagingRequest, asc, get_user_list, pages, pages-total}
use codebase_be_nestjs.Dto.Url.{
  Properties, interpolated_url, joined, defined, params_of, interpolated_url-query,
}

abbrev rows : List ℕ
rows = 7 ∷ 8 ∷ 9 ∷ []

abbrev twos : PagingRequest
twos = record { page = 1; page_size = 2; order = asc; order_by = "id" }

abbrev item : ℕ → ℕ
item n = n + 1

pages-total_example :
    ((get_user_list item rows twos).total_items ≡ length rows)
    × (pages item rows twos (get_user_list item rows twos).total_pages ≡ map item rows)
    × ((get_user_list item rows twos).total_pages * 2 < length rows + 2)
pages-total_example = pages-total item rows twos (omega arith)

abbrev filters : Properties
filters = ("pageSize", some "15") ∷ []

interpolated_url-query_example :
    interpolated_url "/users" none (some (("page", none) ∷ filters))
    ≡ params_of none "/users" <> joined "&" (defined filters)
interpolated_url-query_example = interpolated_url-query "/users" "page" none filters none
