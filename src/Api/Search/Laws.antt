-- ===== src/Api/Search/Laws.antt =====
-- tags.service.ts: what a search answers with, and in which order.
use tagwise_identity_protoco.Prelude.{
  ℕ, ◌≤◌, ◌<◌, Text, CaseMap, trim, Bool, true, false, List, [], ◌∷◌, map, some, starts_with,
  length, take, length-take, take_of_le, filter, sort, IsSorted, In, All, In-map, In-map_inv,
  In-filter, In-sort, In-take, All_of_In, sort-IsSorted, take-IsSorted, take_best, ◌≡◌, ◌≢◌, refl,
  ap, sym, ◌∙◌, arith, ◌⊎◌, inl, inr, Bool-cases, subst, ltb→lt, lt→ltb, ==_iff, ◌==◌,
}
use tagwise_identity_protoco.Mirror.{Identity, IdentityTable, is_active}
use tagwise_identity_protoco.Api.Search.{
  SearchResultItem, rank_of, search_where, ranks_before, with_rank, is_match, to_item, ranked,
  fetched, search,
}
use tagwise_identity_protoco.Api.Search.Rank.{
  ranks_before_total, ranks_before_trans, rank_le, head_before, rank_zero, rank_exact, rank_prefix,
  starts_with_self, wanted, wanted_live,
}

module _ (u : CaseMap) (d : IdentityTable) (contains_insensitive : Text → Text → Bool) where
  -- The rows behind an answer, best first.
  pub record Listed (query : Text) (table : d.Table) (response : List SearchResultItem)
      : Type 0 where
    pub rows : List (Identity × ℕ)
    pub response_eq : response ≡ map to_item rows
    pub sorted : IsSorted ranks_before rows
    pub at_most : length rows ≤ 10
    pub matching :
        All
          (λ (x : Identity × ℕ).
            (d.find_unique table x.0.tag ≡ some x.0)
            × (is_active x.0 ≡ true)
            × (x.1 ≡ rank_of u x.0 query)
            × (x.1 < 4))
          rows
    pub best :
        (row : Identity)
        → length (d.find_many (search_where contains_insensitive query) table) ≤ 50
        → d.find_unique table row.tag ≡ some row
        → is_active row ≡ true
        → starts_with row.tag query ≡ true
        → In (row, rank_of u row query) rows
          ⊎ ((length rows ≡ 10)
              × All (λ (x : Identity × ℕ). ranks_before x (row, rank_of u row query) ≡ true) rows)

  module _ (query : Text) (table : d.Table) where
    abbrev found : List Identity
    found = d.find_many (search_where contains_insensitive query) table

    abbrev scored : List (Identity × ℕ)
    scored = filter is_match (map (with_rank u query) (fetched d contains_insensitive query table))

    match_of :
        (x : Identity × ℕ)
        → In x (take 10 (sort ranks_before scored))
        → (d.find_unique table x.0.tag ≡ some x.0)
          × (is_active x.0 ≡ true)
          × (x.1 ≡ rank_of u x.0 query)
          × (x.1 < 4)
    match_of x h =
        let inside = (In-sort ranks_before x scored).0 (In-take 10 (sort ranks_before scored) h) in
        let (mapped, small) =
          (In-filter is_match x
              (map (with_rank u query) (fetched d contains_insensitive query table))).0
            inside in
        let (row, from, e) =
          In-map_inv (with_rank u query) (fetched d contains_insensitive query table) mapped in
        let (stored, passed) =
          (d.find_many-In (search_where contains_insensitive query) table row).0
            (In-take 50 found from) in
        let same : x.0 ≡ row = ap (λ (y : Identity × ℕ). y.0) e in
        (
          ap (λ (r : Identity). d.find_unique table r.tag) same ∙ stored ∙ ap some (sym same),
          ap is_active same ∙ wanted_live contains_insensitive query row passed,
          ap (λ (y : Identity × ℕ). y.1) e ∙ ap (λ (r : Identity). rank_of u r query) (sym same),
          ltb→lt x.1 4 small,
        )

    fetched_all : length found ≤ 50 → fetched d contains_insensitive query table ≡ found
    fetched_all h = take_of_le 50 found h

    best_of :
        (row : Identity)
        → length found ≤ 50
        → d.find_unique table row.tag ≡ some row
        → is_active row ≡ true
        → starts_with row.tag query ≡ true
        → In (row, rank_of u row query) (sort ranks_before scored)
    best_of row few stored live h =
        let here_found =
          (d.find_many-In (search_where contains_insensitive query) table row).1
            (stored, wanted contains_insensitive query row live h) in
        let there_fetched = subst (In row) (sym (fetched_all few)) here_found in
        (In-sort ranks_before (row, rank_of u row query) scored).1 (
          (In-filter is_match (row, rank_of u row query)
              (map (with_rank u query) (fetched d contains_insensitive query table))).1
            (
              In-map (with_rank u query) there_fetched,
              lt→ltb (rank_of u row query) 4 (rank_prefix u row query h),
            ))

    ranked-Listed :
        Listed query table
          (map to_item (ranked u query (fetched d contains_insensitive query table)))
    unfolding ranked
    ranked-Listed = record {
      rows = take 10 (sort ranks_before scored);
      response_eq = refl;
      sorted =
          take-IsSorted ranks_before ranks_before_total ranks_before_trans 10
            (sort ranks_before scored)
            (sort-IsSorted ranks_before ranks_before_total ranks_before_trans scored);
      at_most = omega (arith, length-take 10 (sort ranks_before scored));
      matching = All_of_In _ (take 10 (sort ranks_before scored)) match_of;
      best = λ row few stored live h.
          take_best ranks_before ranks_before_total ranks_before_trans 10 (sort ranks_before scored)
            (sort-IsSorted ranks_before ranks_before_total ranks_before_trans scored)
            (best_of row few stored live h);
    }

  -- The answer by the rank and the order of the code.
  pub search-Listed :
      (raw_query : Text) (table : d.Table)
      → length (u.lower (trim raw_query)) ≢ 0
      → Listed (u.lower (trim raw_query)) table (search u d contains_insensitive raw_query table)
  unfolding search
  search-Listed raw_query table h =
      subst (Listed (u.lower (trim raw_query)) table) (ground (arith, asked))
        (ranked-Listed (u.lower (trim raw_query)) table)
    where
      asked : length (u.lower (trim raw_query)) == 0 ≡ false
      asked = elim (Bool-cases (length (u.lower (trim raw_query)) == 0)) [
        | inl e ↦ absurd (h ((==_iff (length (u.lower (trim raw_query))) 0).0 e))
        | inr e ↦ e
      ]

  first_row :
      (query : Text) (table : d.Table) (row : Identity) (response : List SearchResultItem)
      → d.find_unique table row.tag ≡ some row
      → row.tag ≡ query
      → (rows : List (Identity × ℕ)) → response ≡ map to_item rows
      → IsSorted ranks_before rows
      → All
          (λ (x : Identity × ℕ).
            (d.find_unique table x.0.tag ≡ some x.0)
            × (is_active x.0 ≡ true)
            × (x.1 ≡ rank_of u x.0 query)
            × (x.1 < 4))
          rows
      → In (row, rank_of u row query) rows
        ⊎ ((length rows ≡ 10)
            × All (λ (x : Identity × ℕ). ranks_before x (row, rank_of u row query) ≡ true) rows)
      → (rest : List SearchResultItem) × (response ≡ to_item (row, 0) ∷ rest)
  first_row query table row response stored e [] shown sorted matching (inl h) = elim h [ ]
  first_row query table row response stored e [] shown sorted matching (inr (full, _)) =
      absurd (omega (arith, full))
  first_row query table row response stored e (x ∷ rows) shown sorted
        ((at, live, rank, small), more) h =
      (map to_item rows, shown ∙ ap (λ (r : Identity). to_item (r, 0) ∷ map to_item rows) same)
    where
      first : ranks_before x (row, rank_of u row query) ≡ true
      first = head_before x rows (row, rank_of u row query) sorted h

      tag_eq : x.0.tag ≡ row.tag
      tag_eq =
          rank_zero u x.0 query (
            sym rank
            ∙ omega (arith, rank_le x (row, rank_of u row query) first, rank_exact u row query e))
          ∙ sym e

      same : x.0 ≡ row
      same = cc (at, ap (d.find_unique table) tag_eq, stored)

  -- Where at most fifty rows come into question, a search for exactly the tag of an active row
  -- answers with that row first.
  pub search-exact :
      (raw_query : Text) (table : d.Table) (row : Identity)
      → length (u.lower (trim raw_query)) ≢ 0
      → row.tag ≡ u.lower (trim raw_query)
      → d.find_unique table row.tag ≡ some row
      → is_active row ≡ true
      → length (d.find_many (search_where contains_insensitive (u.lower (trim raw_query))) table)
        ≤ 50
      → (rest : List SearchResultItem) × (search u d contains_insensitive raw_query table
          ≡ to_item (row, 0) ∷ rest)
  search-exact raw_query table row given e stored live few =
      let answered = search-Listed raw_query table given in
      first_row (u.lower (trim raw_query)) table row
        (search u d contains_insensitive raw_query table) stored e answered.rows
        answered.response_eq answered.sorted answered.matching
        (answered.best row few stored live
          (ap (starts_with row.tag) (sym e) ∙ starts_with_self row.tag))
