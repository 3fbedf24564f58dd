-- ===== src/Api/Search/Order.antt =====
-- tags.service.ts: the answer of a search, by what matches and in which order, without the ranks that
-- the code computes.
use tagwise_identity_protoco.Prelude.{
  ℕ, ◌≤◌, ◌<◌, Text, CaseMap, trim, Bool, true, false, List, [], ◌∷◌, map, Option, none, some,
  text_eq, text_eq_iff, starts_with, length, IsSorted, In, All, All-map, ◌≡◌, ◌≢◌, refl, sym, arith,
  ◌⊎◌, inl, inr, Bool-cases, subst,
}
use tagwise_identity_protoco.Mirror.{Identity, IdentityTable, is_active}
use tagwise_identity_protoco.Api.{present_tag}
use tagwise_identity_protoco.Api.Search.{
  SearchResultItem, rank_of, search_where, ranks_before, search,
}
use tagwise_identity_protoco.Api.Search.Laws.{search-Listed}
use tagwise_identity_protoco.Api.Search.Rank.{rank_prefix}

-- How well a row matches: the tag itself, the start of the tag, the name, the start of the name.
pub data Matches (u : CaseMap) (row : Identity) (query : Text) : ℕ → Type 0 where
  tag_is : row.tag ≡ query → Matches u row query 0
  tag_starts : row.tag ≢ query → starts_with row.tag query ≡ true → Matches u row query 1
  name_is :
      (name : Text)
      → starts_with row.tag query ≡ false
      → row.display_name ≡ some name
      → u.lower name ≡ query
      → Matches u row query 2
  name_starts :
      (name : Text)
      → starts_with row.tag query ≡ false
      → row.display_name ≡ some name
      → u.lower name ≢ query
      → starts_with (u.lower name) query ≡ true
      → Matches u row query 3

-- The better match first, and of equal ones the shorter tag.
abbrev pub Precedes : Identity × ℕ → Identity × ℕ → Type 0
Precedes (row, rank) (row', rank') =
    (rank < rank') ⊎ ((rank ≡ rank') × (length row.tag ≤ length row'.tag))

abbrev pub InOrder : List (Identity × ℕ) → Type 0
InOrder [] = Unit {0}
InOrder (x ∷ rows) = All (Precedes x) rows × InOrder rows

Precedes-of_test : (x y : Identity × ℕ) → ranks_before x y ≡ true → Precedes x y
Precedes-of_test (row, rank) (row', rank') h = ground (arith, h)

InOrder-of_sorted : (rows : List (Identity × ℕ)) → IsSorted ranks_before rows → InOrder rows
InOrder-of_sorted [] h = tt
InOrder-of_sorted (x ∷ rows) (first, rest) =
    (All-map (λ y. Precedes-of_test x y) rows first, InOrder-of_sorted rows rest)

nothing_matches :
    (query : Text) → length query ≢ 0 → (text_eq [] query ≡ false) × (starts_with [] query ≡ false)
unfolding text_eq starts_with
nothing_matches [] h = absurd (h refl)
nothing_matches (c ∷ query) h = (refl, refl)

module _ (u : CaseMap) (row : Identity) (query : Text) (asked : length query ≢ 0) where
  named :
      (n : ℕ) (o : Option Text)
      → row.display_name ≡ o
      → text_eq row.tag query ≡ false
      → starts_with row.tag query ≡ false
      → rank_of u row query ≡ n
      → n < 4
      → Matches u row query n
  unfolding rank_of
  named n none named_eq away other rank small =
      let (not_it, not_start) = nothing_matches query asked in
      absurd (ground (arith, rank, small, away, other, named_eq, not_it, not_start))
  named n (some name) named_eq away other rank small =
      elim (Bool-cases (text_eq (u.lower name) query)) [
        | inl e ↦
            subst (Matches u row query) (ground (arith, rank, away, other, named_eq, e))
              (Matches.name_is name other named_eq ((text_eq_iff (u.lower name) query).0 e))
        | inr e ↦ elim (Bool-cases (starts_with (u.lower name) query)) [
          | inl f ↦
              subst (Matches u row query) (ground (arith, rank, away, other, named_eq, e, f)) (
                Matches.name_starts name other named_eq
                  (λ same. absurd (cc (e, (text_eq_iff (u.lower name) query).1 same))) f)
          | inr f ↦ absurd (ground (arith, rank, small, away, other, named_eq, e, f))
        ]
      ]

  Matches-of_rank : rank_of u row query < 4 → Matches u row query (rank_of u row query)
  unfolding rank_of
  Matches-of_rank small = elim (Bool-cases (text_eq row.tag query)) [
    | inl e ↦
        subst (Matches u row query) (ground (arith, e))
          (Matches.tag_is ((text_eq_iff row.tag query).0 e))
    | inr e ↦ elim (Bool-cases (starts_with row.tag query)) [
      | inl f ↦
          subst (Matches u row query) (ground (arith, e, f))
            (Matches.tag_starts (λ same. absurd (cc (e, (text_eq_iff row.tag query).1 same))) f)
      | inr f ↦ named (rank_of u row query) row.display_name refl e f refl small
    ]
  ]

module _ (u : CaseMap) (d : IdentityTable) (contains_insensitive : Text → Text → Bool) where
  -- The rows behind an answer, best first.
  pub record Ranked (query : Text) (table : d.Table) (response : List SearchResultItem)
      : Type 0 where
    pub rows : List (Identity × ℕ)
    pub response_eq :
        response
        ≡ map
            (λ (x : Identity × ℕ). record {
              tag = present_tag x.0.tag;
              display_name = x.0.display_name;
              avatar = x.0.avatar;
              verified = x.0.verified;
            })
            rows
    pub in_order : InOrder rows
    pub at_most : length rows ≤ 10
    pub matching :
        All
          (λ (x : Identity × ℕ).
            (d.find_unique table x.0.tag ≡ some x.0)
            × (is_active x.0 ≡ true)
            × Matches u x.0 query x.1)
          rows
    pub best :
        (row : Identity)
        → length (d.find_many (search_where contains_insensitive query) table) ≤ 50
        → d.find_unique table row.tag ≡ some row
        → is_active row ≡ true
        → starts_with row.tag query ≡ true
        → (rank : ℕ) × Matches u row query rank
          × (In (row, rank) rows
              ⊎ ((length rows ≡ 10) × All (λ (x : Identity × ℕ). Precedes x (row, rank)) rows))

  best_of :
      (query : Text) (rows : List (Identity × ℕ)) (row : Identity)
      → length query ≢ 0
      → starts_with row.tag query ≡ true
      → In (row, rank_of u row query) rows
        ⊎ ((length rows ≡ 10)
            × All (λ (x : Identity × ℕ). ranks_before x (row, rank_of u row query) ≡ true) rows)
      → (rank : ℕ) × Matches u row query rank
        × (In (row, rank) rows
            ⊎ ((length rows ≡ 10) × All (λ (x : Identity × ℕ). Precedes x (row, rank)) rows))
  best_of query rows row asked starts listed = (
    rank_of u row query,
    Matches-of_rank u row query asked (rank_prefix u row query starts),
    elim listed [
      | inl h ↦ inl h
      | inr (full, all) ↦
          inr (full, All-map (λ x. Precedes-of_test x (row, rank_of u row query)) rows all)
    ],
  )

  -- A search whose query is not empty once it is trimmed and lowered answers with at most ten rows
  -- of the mirror, all active, and each with the query as its tag, at the start of the tag, as its
  -- lowered name or at the start of that; in this order of the four, and of equal ones the shorter
  -- tag first. Where at most fifty rows come into question, an active tag that starts with the query
  -- is missing only behind ten rows that precede it.
  pub search-Ranked :
      (raw_query : Text) (table : d.Table)
      → length (u.lower (trim raw_query)) ≢ 0
      → Ranked (u.lower (trim raw_query)) table (search u d contains_insensitive raw_query table)
  search-Ranked raw_query table asked =
      let listed = search-Listed u d contains_insensitive raw_query table asked in
      record {
        rows = listed.rows;
        response_eq = listed.response_eq;
        in_order = InOrder-of_sorted listed.rows listed.sorted;
        at_most = listed.at_most;
        matching =
            All-map
              (λ x h.
                let (stored, live, rank, small) = h in
                (
                  stored,
                  live,
                  subst (Matches u x.0 (u.lower (trim raw_query))) (sym rank) (
                      Matches-of_rank u x.0 (u.lower (trim raw_query)) asked
                        (subst (λ (n : ℕ). n < 4) rank small)),
                ))
              listed.rows listed.matching;
        best = λ row few stored live starts.
            best_of (u.lower (trim raw_query)) listed.rows row asked starts
              (listed.best row few stored live starts);
      }
