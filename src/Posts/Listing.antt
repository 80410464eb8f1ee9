-- ===== src/Posts/Listing.antt =====
-- libs/posts/src/queries/post-list-query.ts, and the page arithmetic of `list` in
-- libs/posts/src/application/posts.service.ts and libs/posts/src/repositories/posts.repository.ts
use native.Mathlib.Nat.{le-div_iff_mul-le}
use posts_media.Common.{
  ◌↔◌, ℕ, zero, suc, ◌+◌, ◌-◌, ◌*◌, ◌/◌, ◌≤◌, ◌<◌, String, Text, Bool, false, ◌&&◌, ◌||◌, Option,
  none, some, [], ◌∷◌, ◌==◌, nat_eq, string_eq, ltb, leb, or_else, if◌then◌else◌, arith, any,
}
use posts_media.Domain.Enums.{MediaType, ProcessingStatus}

pub data PostSortField : Type 0 where
  by_created_at by_updated_at by_title : PostSortField

pub data SortOrder : Type 0 where
  asc desc : SortOrder

-- a number of JavaScript: an integer that is not negative, or any other number
pub data Number : Type 0 where
  whole : ℕ → Number
  other : Number

pub record RawPostListQuery : Type 0 where
  pub page : Option Number
  pub page_size : Option Number
  pub search : Option Text
  pub media_type : Option MediaType
  pub processing_status : Option ProcessingStatus
  pub created_from : Option ℕ
  pub created_to : Option ℕ
  pub include_deleted : Option Bool
  pub sort_by : Option String
  pub sort_order : Option String

pub record PostListQuery : Type 0 where
  pub page : ℕ
  pub page_size : ℕ
  pub search : Option Text
  pub media_type : Option MediaType
  pub processing_status : Option ProcessingStatus
  pub created_from : Option ℕ
  pub created_to : Option ℕ
  pub include_deleted : Bool
  pub sort_by : PostSortField
  pub sort_order : SortOrder

abbrev pub normalize_page : Option Number → ℕ
normalize_page (some (whole n)) = if ltb n 1 then 1 else n
normalize_page _ = 1

abbrev pub normalize_page_size : Option Number → ℕ
normalize_page_size (some (whole n)) = if ltb n 1 then 20 else if leb n 100 then n else 100
normalize_page_size _ = 20

abbrev pub normalize_sort_by : Option String → PostSortField
normalize_sort_by none = by_created_at
normalize_sort_by (some t) =
    if t == "createdAt"
    then by_created_at
    else if t == "updatedAt"
    then by_updated_at
    else if t == "title"
    then by_title
    else by_created_at

abbrev pub normalize_sort_order : Option String → SortOrder
normalize_sort_order none = desc
normalize_sort_order (some t) = if t == "asc" then asc else desc

-- WhiteSpace and LineTerminator of ECMAScript
abbrev is_space : ℕ → Bool
is_space c =
    (leb 9 c && leb c 13)
    || ((leb 8192 c && leb c 8202)
        || any (λ w. c == w) (32 ∷ 160 ∷ 5760 ∷ 8232 ∷ 8233 ∷ 8239 ∷ 8287 ∷ 12288 ∷ 65279 ∷ []))

abbrev trim_start : Text → Text
trim_start [] = []
trim_start (c ∷ cs) = let rest = trim_start cs in if is_space c then rest else c ∷ cs

-- the text without the spaces at its end
abbrev trim_end : Text → Text
trim_end [] = []
trim_end (c ∷ cs) = elim (trim_end cs) [
  | [] ↦ if is_space c then [] else c ∷ []
  | d ∷ ds ↦ c ∷ d ∷ ds
]

unfoldable pub trim : Text → Text
trim t = trim_end (trim_start t)

unfoldable pub normalize_search : Option Text → Option Text
normalize_search none = none
normalize_search (some t) = elim (trim t) [ [] ↦ none | c ∷ cs ↦ some (c ∷ cs) ]

unfoldable pub normalize_post_list_query : RawPostListQuery → PostListQuery
normalize_post_list_query raw = record {
  page = normalize_page raw.page;
  page_size = normalize_page_size raw.page_size;
  search = normalize_search raw.search;
  media_type = raw.media_type;
  processing_status = raw.processing_status;
  created_from = raw.created_from;
  created_to = raw.created_to;
  include_deleted = or_else raw.include_deleted false;
  sort_by = normalize_sort_by raw.sort_by;
  sort_order = normalize_sort_order raw.sort_order;
}

-- `skip` of the repository
abbrev pub skip : PostListQuery → ℕ
skip q = (q.page - 1) * q.page_size

-- Math.ceil(totalItems / query.pageSize)
abbrev pub total_pages : ℕ → PostListQuery → ℕ
total_pages total_items q = (total_items + (q.page_size - 1)) / q.page_size

ceil_pages : (n p k : ℕ) → 1 ≤ p → 1 ≤ k → (p ≤ (n + (k - 1)) / k) ↔ ((p - 1) * k < n)
ceil_pages n zero k h l = omega (arith, h)
ceil_pages n (suc m) k h l =
    let i = le-div_iff_mul-le {k = k} {x = suc m} {y = n + (k - 1)} l in
    (λ a. grind (arith, i.0 a), λ b. i.1 (grind arith))

page-positive : (o : Option Number) → 1 ≤ normalize_page o
page-positive o = ground arith

page_size-bounds : (o : Option Number) → (1 ≤ normalize_page_size o) × (normalize_page_size o ≤ 100)
page_size-bounds o = ground arith

-- The page that is read is at least 1 and its size from 1 to 100, whatever the client sends, and
-- the pages up to `totalPages` are exactly those whose window starts before the end of the list.
pub normalize-page :
    (raw : RawPostListQuery) (total_items : ℕ)
    → let q = normalize_post_list_query raw in
      (1 ≤ q.page)
      × (1 ≤ q.page_size)
      × (q.page_size ≤ 100)
      × (q.page ≤ total_pages total_items q → skip q < total_items)
      × (skip q < total_items → q.page ≤ total_pages total_items q)
unfolding normalize_post_list_query
normalize-page raw total_items =
    let p = page-positive raw.page in
    let (positive, bounded) = page_size-bounds raw.page_size in
    let i =
      ceil_pages total_items (normalize_page raw.page) (normalize_page_size raw.page_size) p
        positive in
    (p, positive, bounded, i.0, i.1)
