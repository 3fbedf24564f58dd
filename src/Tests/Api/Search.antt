-- ===== src/Tests/Api/Search.antt =====
-- Runs of the theorems on searching.
use tagwise_identity_protoco.Prelude.{
  ◌≤◌, Text, codes, true, List, [], ◌∷◌, length, some, ◌≡◌, ◌≢◌, refl, sym, arith, subst, text_eq,
  starts_with, trim, lower_unit, includes,
}
use tagwise_identity_protoco.Mirror.{Identity, is_active}
use tagwise_identity_protoco.Mirror.Memory
use tagwise_identity_protoco.Api.Search.{
  SearchResultItem, rank_of, search_where, ranked, to_item, search,
}
use tagwise_identity_protoco.Api.Search.Laws.{search-exact}
use tagwise_identity_protoco.Api.Search.Order.{Ranked, search-Ranked}
use tagwise_identity_protoco.Tests.{ascii_case, alice, alice_row}

abbrev rows : List Identity
rows = record alice_row { tag = codes "alice_2" } ∷ alice_row ∷ []

asked : ascii_case.lower (trim (codes " Alice ")) ≡ alice
unfolding trim lower_unit
asked = refl

searched :
    search ascii_case Memory.memory includes (codes " Alice ") rows
    ≡ to_item (alice_row, 0) ∷ to_item (record alice_row { tag = codes "alice_2" }, 1) ∷ []
unfolding search trim lower_unit ranked rank_of search_where is_active text_eq starts_with includes
    Memory.visible
searched = refl

named : length alice ≢ 0
named h = ground arith

given : length (ascii_case.lower (trim (codes " Alice "))) ≢ 0
given = subst (λ (t : Text). length t ≢ 0) (sym asked) named

search-Ranked_example :
    Ranked ascii_case Memory.memory includes
      (ascii_case.lower (trim (codes " Alice ")))
      rows
      (search ascii_case Memory.memory includes (codes " Alice ") rows)
search-Ranked_example = search-Ranked ascii_case Memory.memory includes (codes " Alice ") rows given

stored : Memory.find rows alice ≡ some alice_row
unfolding Memory.find text_eq
stored = refl

live : is_active alice_row ≡ true
unfolding is_active
live = refl

few :
    length (
      Memory.memory.find_many
        (search_where includes (ascii_case.lower (trim (codes " Alice "))))
        rows)
    ≤ 50
unfolding trim lower_unit search_where is_active text_eq starts_with includes Memory.visible
few = omega arith

search-exact_example :
    (rest : List SearchResultItem) × (search ascii_case Memory.memory includes
        (codes " Alice ")
        rows
      ≡ to_item (alice_row, 0) ∷ rest)
search-exact_example =
    search-exact ascii_case Memory.memory includes (codes " Alice ") rows alice_row given
      (sym asked) stored live few
