-- ===== src/Api/Search/Rank.antt =====
-- tags.service.ts: the order of the ranks, and what each rank says.
use tagwise_identity_protoco.Prelude.{
  ℕ, ◌≤◌, ◌<◌, Text, CaseMap, Bool, true, false, List, [], ◌∷◌, text_eq_iff, starts_with, length,
  IsSorted, In, here, there, All, In-of_All, ◌≡◌, refl, ap, sym, ◌∙◌, arith, ◌⊎◌, inl, inr,
}
use tagwise_identity_protoco.Mirror.{Identity, is_active}
use tagwise_identity_protoco.Api.Search.{rank_of, search_where, ranks_before}

pub ranks_before_total : (x y : Identity × ℕ) → ranks_before x y ≡ false → ranks_before y x ≡ true
ranks_before_total (row, rank) (row', rank') h = ground (arith, h)

pub ranks_before_trans :
    (x y z : Identity × ℕ)
    → ranks_before x y ≡ true
    → ranks_before y z ≡ true
    → ranks_before x z ≡ true
ranks_before_trans (row, rank) (row', rank') (row'', rank'') h k = ground (arith, h, k)

pub rank_le : (x y : Identity × ℕ) → ranks_before x y ≡ true → x.1 ≤ y.1
rank_le (row, rank) (row', rank') h = ground (arith, h)

pub ranks_before_refl : (x : Identity × ℕ) → ranks_before x x ≡ true
ranks_before_refl (row, rank) = ground arith

pub head_before :
    (x : Identity × ℕ) (rows : List (Identity × ℕ)) (y : Identity × ℕ)
    → IsSorted ranks_before (x ∷ rows)
    → In y (x ∷ rows)
      ⊎ ((length (x ∷ rows) ≡ 10) × All (λ (z : Identity × ℕ). ranks_before z y ≡ true) (x ∷ rows))
    → ranks_before x y ≡ true
head_before x rows y sorted (inl (here e)) = ap (ranks_before x) (sym e) ∙ ranks_before_refl x
head_before x rows y sorted (inl (there h)) =
    In-of_All (λ (z : Identity × ℕ). ranks_before x z ≡ true) rows sorted.0 h
head_before x rows y sorted (inr (_, all)) = all.0

pub rank_zero :
    (u : CaseMap) (row : Identity) (query : Text) → rank_of u row query ≡ 0 → row.tag ≡ query
unfolding rank_of
rank_zero u row query h = (text_eq_iff row.tag query).0 (ground (arith, h))

pub rank_exact :
    (u : CaseMap) (row : Identity) (query : Text) → row.tag ≡ query → rank_of u row query ≡ 0
unfolding rank_of
rank_exact u row query e = ground (arith, (text_eq_iff row.tag query).1 e)

pub rank_prefix :
    (u : CaseMap) (row : Identity) (query : Text)
    → starts_with row.tag query ≡ true
    → rank_of u row query < 4
unfolding rank_of
rank_prefix u row query h = ground (arith, h)

pub starts_with_self : (t : Text) → starts_with t t ≡ true
unfolding starts_with
starts_with_self [] = refl
starts_with_self (c ∷ t) = ground (arith, starts_with_self t)

pub wanted :
    (contains_insensitive : Text → Text → Bool) (query : Text) (row : Identity)
    → is_active row ≡ true
    → starts_with row.tag query ≡ true
    → search_where contains_insensitive query row ≡ true
unfolding search_where
wanted contains_insensitive query row live h = ground (arith, live, h)

pub wanted_live :
    (contains_insensitive : Text → Text → Bool) (query : Text) (row : Identity)
    → search_where contains_insensitive query row ≡ true
    → is_active row ≡ true
unfolding search_where
wanted_live contains_insensitive query row h = ground (arith, h)
