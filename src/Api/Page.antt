-- ===== src/Api/Page.antt =====
-- `paginate` of src/api/mod.rs: a page of a result and the offset of the next one. The offset of a
-- request is small enough for `saturating_add` to be the sum.
pub mod Walk
use Prim.Native.Nat.{min, max}
use evorule_rule.Prelude.{
  ℕ, ◌+◌, Option, none, some, List, length, drop, take, unwrap_or, ltb, if◌then◌else◌,
}

pub record Page {ℓ} (A : Type ℓ) : Type ℓ where
  pub items : List A
  pub next_cursor : Option ℕ

abbrev pub default_page_limit : ℕ
default_page_limit = 20

abbrev pub max_page_limit : ℕ
max_page_limit = 100

-- `unwrap_or(DEFAULT_PAGE_LIMIT).clamp(1, MAX_PAGE_LIMIT)`.
unfoldable pub page_limit : Option ℕ → ℕ
page_limit limit = min (max (unwrap_or limit default_page_limit) 1) max_page_limit

abbrev pub page_from {ℓ} : {A : Type ℓ} → List A → (limit offset : ℕ) → Page A
page_from items limit offset = record {
  items = take limit (drop offset items);
  next_cursor = if ltb (offset + limit) (length items) then some (offset + limit) else none;
}

unfoldable pub paginate {ℓ} : {A : Type ℓ} → List A → (limit offset : Option ℕ) → Page A
unfolding page_limit
paginate items limit offset = page_from items (page_limit limit) (unwrap_or offset 0)
