-- ===== src/Core/Reserved/Laws.antt =====
-- The reserved names against the canonical form.
use tagwise_identity_protoco.Prelude.{
  Text, CaseMap, Bool, true, List, [], ◌∷◌, ◌≡◌, refl, ◌&&◌, leb, all, length, All, All_of_all,
  member, text_eq, text_eq_iff, Bool-cases, inl, inr, arith, leb→le, and-eq-true, IsAscii, subst,
}
use tagwise_identity_protoco.Core.Constants.{min_tag_length, max_tag_length, is_tag_unit}
use tagwise_identity_protoco.Core.Normalize.{accepted, normalize_tag}
use tagwise_identity_protoco.Core.Normalize.Laws.{
  IsCanonical, Spells, normalize_tag_ascii_iff, normalize_tag_fixed_iff,
}
use tagwise_identity_protoco.Core.Reserved.{reserved_tags, is_reserved_tag}

is_canonical : Text → Bool
is_canonical t =
    leb min_tag_length (length t) && (leb (length t) max_tag_length && all is_tag_unit t)

IsCanonical-of_test : (t : Text) → is_canonical t ≡ true → IsCanonical t
unfolding is_canonical
IsCanonical-of_test t h =
    let (low, rest) = and-eq-true _ _ h in
    let (high, allowed) = and-eq-true _ _ rest in
    record {
      min = leb→le _ _ low;
      max = leb→le _ _ high;
      allowed = All_of_all is_tag_unit t allowed;
    }

reserved_canonical : all is_canonical reserved_tags ≡ true
unfolding is_canonical is_tag_unit
reserved_canonical = refl

module _ (P : Text → Type 0) where
  member-All : (tag : Text) (tags : List Text) → All P tags → member tag tags ≡ true → P tag
  unfolding member
  member-All tag [] h m = cc
  member-All tag (s ∷ ss) h m = elim (Bool-cases (text_eq s tag)) [
    | inl e ↦ subst P ((text_eq_iff s tag).0 e) h.0
    | inr e ↦ member-All tag ss h.1 (ground (arith, m, e))
  ]

pub reserved-IsCanonical : (tag : Text) → is_reserved_tag tag ≡ true → IsCanonical tag
unfolding is_reserved_tag
reserved-IsCanonical tag m = IsCanonical-of_test tag (
    member-All (λ t. is_canonical t ≡ true) tag reserved_tags
      (All_of_all is_canonical reserved_tags reserved_canonical) m)

-- Every reserved name is its own canonical form, and every ASCII spelling of it (in any case, with
-- or without a leading "@") normalises to it: no spelling gets a reserved name past the exact match.
reserved_spellings :
    (u : CaseMap) (raw tag : Text)
    → IsAscii raw
    → is_reserved_tag tag ≡ true
    → Spells raw tag
    → (normalize_tag u tag ≡ accepted tag) × (normalize_tag u raw ≡ accepted tag)
reserved_spellings u raw tag ascii m s =
    let c = reserved-IsCanonical tag m in
    ((normalize_tag_fixed_iff u tag).1 c, (normalize_tag_ascii_iff u raw tag ascii).1 (c, s))
