-- ===== src/Api/Search.antt =====
-- apps/api/src/tags/tags.service.ts: `search`.
pub mod Rank
pub mod Laws
pub mod Order
use tagwise_identity_protoco.Prelude.{
  ℕ, Text, CaseMap, codes, Bool, true, false, ◌&&◌, ◌||◌, List, [], ◌∷◌, map, any, Option, none,
  some, text_eq, starts_with, trim, length, take, ltb, leb, ◌==◌, filter, sort, if◌then◌else◌,
}
use tagwise_identity_protoco.Mirror.{Identity, IdentityTable, is_active}
use tagwise_identity_protoco.Api.{present_tag}

abbrev pub search_result_limit : ℕ
search_result_limit = 10

abbrev pub search_over_fetch_limit : ℕ
search_over_fetch_limit = 50

pub record SearchResultItem : Type 0 where
  pub tag : Text
  pub display_name : Option Text
  pub avatar : Option Text
  pub verified : Bool

-- `row.displayName?.toLowerCase() ?? ""`
abbrev pub lowered_name : CaseMap → Option Text → Text
lowered_name u none = []
lowered_name u (some name) = u.lower name

unfoldable pub rank_of : CaseMap → Identity → Text → ℕ
rank_of u row query =
    if text_eq row.tag query
    then 0
    else if starts_with row.tag query
    then 1
    else if text_eq (lowered_name u row.display_name) query
    then 2
    else if starts_with (lowered_name u row.display_name) query
    then 3
    else 4

-- `contains_insensitive` is what the database makes of `contains` with `mode: "insensitive"`, the
-- column first; a column that is null does not match.
abbrev pub name_contains : (Text → Text → Bool) → Option Text → Text → Bool
name_contains contains_insensitive none query = false
name_contains contains_insensitive (some name) query = contains_insensitive name query

unfoldable pub search_where : (Text → Text → Bool) → Text → Identity → Bool
search_where contains_insensitive query row =
    is_active row
    && (starts_with row.tag query || name_contains contains_insensitive row.display_name query)

-- The comparison of `sort` is not positive: by rank, and then by the length of the tag.
abbrev pub ranks_before : Identity × ℕ → Identity × ℕ → Bool
ranks_before (row, rank) (row', rank') =
    if ltb rank rank'
    then true
    else if ltb rank' rank
    then false
    else leb (length row.tag) (length row'.tag)

abbrev pub with_rank : CaseMap → Text → Identity → Identity × ℕ
with_rank u query row = (row, rank_of u row query)

abbrev pub is_match : Identity × ℕ → Bool
is_match (row, rank) = ltb rank 4

abbrev pub to_item : Identity × ℕ → SearchResultItem
to_item (row, rank) = record {
  tag = present_tag row.tag;
  display_name = row.display_name;
  avatar = row.avatar;
  verified = row.verified;
}

-- The rows that are answered with, of those that were fetched.
unfoldable pub ranked : CaseMap → Text → List Identity → List (Identity × ℕ)
ranked u query rows =
    take search_result_limit (sort ranks_before (filter is_match (map (with_rank u query) rows)))

abbrev pub fetched : (d : IdentityTable) → (Text → Text → Bool) → Text → d.Table → List Identity
fetched d contains_insensitive query table =
    take search_over_fetch_limit (d.find_many (search_where contains_insensitive query) table)

unfoldable pub search :
    CaseMap → (d : IdentityTable) → (Text → Text → Bool) → Text → d.Table → List SearchResultItem
unfolding ranked
search u d contains_insensitive raw_query table =
    let query = u.lower (trim raw_query) in
    if length query == 0
    then []
    else map to_item (ranked u query (fetched d contains_insensitive query table))
