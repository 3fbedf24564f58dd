-- ===== src/Core/Normalize/Laws.antt =====
-- What `normalize_tag` accepts.
use tagwise_identity_protoco.Prelude.{
  ℕ, Text, CaseMap, IsAscii, lower_unit, true, false, [], ◌∷◌, ◌≡◌, refl, ap, sym, ◌∙◌, ◌↔◌, ◌⊎◌,
  inl, inr, ◌<◌, ◌≤◌, any, all, All, All_of_all, all_of_All, length, drop, map, arith, Bool-cases,
}
use tagwise_identity_protoco.Core.Constants.{
  min_tag_length, max_tag_length, is_tag_unit, matches_allowed,
}
use tagwise_identity_protoco.Core.Normalize.{
  accepted, is_at, strip_at, check_lowered, normalize_tag,
}

-- A canonical tag: 3 to 20 characters of `[a-z0-9_]`.
pub record IsCanonical (t : Text) : Type 0 where
  pub min : min_tag_length ≤ length t
  pub max : length t ≤ max_tag_length
  pub allowed : All (λ c. is_tag_unit c ≡ true) t

check_lowered_iff : (s t : Text) → (check_lowered s ≡ accepted t) ↔ ((s ≡ t) × IsCanonical t)
unfolding check_lowered matches_allowed
check_lowered_iff s t = (there, back)
  where
    there : check_lowered s ≡ accepted t → (s ≡ t) × IsCanonical t
    there h =
        let same : s ≡ t = ground arith in
        let good : all is_tag_unit s ≡ true = ground arith in
        (
          same,
          rw (← same) (record {
            min = ground arith;
            max = ground arith;
            allowed = All_of_all is_tag_unit s good;
          }),
        )

    back : (s ≡ t) × IsCanonical t → check_lowered s ≡ accepted t
    back (e, c) = rw e (ground (arith, all_of_All is_tag_unit t c.allowed, c.min, c.max))

-- Whatever the input and the Unicode tables, an accepted tag is canonical.
pub normalize_tag-IsCanonical :
    (u : CaseMap) (raw : Text) {t : Text} → normalize_tag u raw ≡ accepted t → IsCanonical t
unfolding normalize_tag
normalize_tag-IsCanonical u raw {t} h =
    ((check_lowered_iff (u.lower (strip_at raw)) t).0 (ground arith)).1

is_at-lower_unit : (c : ℕ) → is_at (lower_unit c) ≡ is_at c
unfolding lower_unit
is_at-lower_unit c = ground arith

any-at-lower : (s : Text) → any is_at (map lower_unit s) ≡ any is_at s
any-at-lower [] = refl
any-at-lower (c ∷ s) = ground (arith, is_at-lower_unit c, any-at-lower s)

pub any-at_of_canonical : (t : Text) → All (λ c. is_tag_unit c ≡ true) t → any is_at t ≡ false
unfolding is_tag_unit
any-at_of_canonical [] h = refl
any-at_of_canonical (c ∷ t) h = ground (arith, h.0, any-at_of_canonical t h.1)

pub lower_of_canonical :
    (t : Text) → All (λ c. is_tag_unit c ≡ true) t → IsAscii t × (map lower_unit t ≡ t)
unfolding is_tag_unit lower_unit
lower_of_canonical [] h = (tt, refl)
lower_of_canonical (c ∷ t) h =
    let ih = lower_of_canonical t h.1 in ((ground (arith, h.0), ih.0), ground (arith, h.0, ih.1))

normalize_of_lowered :
    (u : CaseMap) (raw t : Text)
    → 0 < length raw
    → any is_at (drop 1 raw) ≡ false
    → u.lower (strip_at raw) ≡ t
    → IsCanonical t
    → normalize_tag u raw ≡ accepted t
unfolding normalize_tag
normalize_of_lowered u raw t nonempty no_at low c =
    ground (arith, (check_lowered_iff (u.lower (strip_at raw)) t).1 (low, c))

-- A text is a fixed point of `normalize_tag` exactly when it is canonical.
pub normalize_tag_fixed_iff :
    (u : CaseMap) (t : Text) → (normalize_tag u t ≡ accepted t) ↔ IsCanonical t
unfolding strip_at
normalize_tag_fixed_iff u [] = (normalize_tag-IsCanonical u [], λ c. absurd (omega (arith, c.min)))
normalize_tag_fixed_iff u (x ∷ xs) = (
  normalize_tag-IsCanonical u (x ∷ xs),
  λ c.
      let no_at = any-at_of_canonical (x ∷ xs) c.allowed in
      let (ascii, same) = lower_of_canonical (x ∷ xs) c.allowed in
      normalize_of_lowered u (x ∷ xs) (x ∷ xs) (omega arith) (ground (arith, no_at))
        (ground (arith, no_at, u.lower_ascii (x ∷ xs) ascii, same)) c,
)

IsAscii-strip : (raw : Text) → IsAscii raw → IsAscii (strip_at raw)
unfolding strip_at
IsAscii-strip [] h = tt
IsAscii-strip (x ∷ xs) h = ground (arith, h.0, h.1)

-- The ASCII inputs of a canonical tag: the tag in any case, with or without a leading "@".
abbrev pub Spells : Text → Text → Type 0
Spells raw t = (map lower_unit raw ≡ t) ⊎ (map lower_unit raw ≡ b'@' ∷ t)

Spells-of_accepted :
    (u : CaseMap) (raw t : Text) → IsAscii raw → normalize_tag u raw ≡ accepted t → Spells raw t
unfolding normalize_tag lower_unit
Spells-of_accepted u [] t ascii h = cc
Spells-of_accepted u (x ∷ xs) t (ascii, more) h =
    let low = (check_lowered_iff (u.lower (strip_at (x ∷ xs))) t).0 (ground arith) in
    elim (Bool-cases (is_at x)) [
      | inl e ↦ inr (ground (arith, low.0, e, u.lower_ascii xs more))
      | inr e ↦ inl (ground (arith, low.0, e, u.lower_ascii (x ∷ xs) (ascii, more)))
    ]

accepted_of_Spells :
    (u : CaseMap) (raw t : Text)
    → IsAscii raw
    → IsCanonical t
    → Spells raw t
    → normalize_tag u raw ≡ accepted t
unfolding strip_at
accepted_of_Spells u [] t ascii c (inl e) = absurd (omega (arith, c.min, ap length e))
accepted_of_Spells u [] t ascii c (inr e) = cc
accepted_of_Spells u (x ∷ xs) t (ascii, more) c (inl e) =
    let no_at : any is_at (x ∷ xs) ≡ false =
      sym (any-at-lower (x ∷ xs)) ∙ ap (any is_at) e ∙ any-at_of_canonical t c.allowed in
    normalize_of_lowered u (x ∷ xs) t (omega arith) (ground (arith, no_at))
      (ground (arith, no_at, u.lower_ascii (x ∷ xs) (ascii, more), e)) c
accepted_of_Spells u (x ∷ xs) t (ascii, more) c (inr e) =
    let tail : map lower_unit xs ≡ t = cc e in
    let head : is_at x ≡ true = ground (arith, is_at-lower_unit x, e) in
    let no_at : any is_at xs ≡ false =
      sym (any-at-lower xs) ∙ ap (any is_at) tail ∙ any-at_of_canonical t c.allowed in
    normalize_of_lowered u (x ∷ xs) t (omega arith) (ground (arith, no_at))
      (ground (arith, head, u.lower_ascii xs more, tail)) c

-- On ASCII input `normalize_tag` accepts exactly the spellings of canonical tags: a text is
-- accepted as `t` if and only if `t` is canonical and the text is `t` in any case, with or without
-- one leading "@".
pub normalize_tag_ascii_iff :
    (u : CaseMap) (raw t : Text)
    → IsAscii raw
    → (normalize_tag u raw ≡ accepted t) ↔ (IsCanonical t × Spells raw t)
normalize_tag_ascii_iff u raw t ascii = (
  λ h. (normalize_tag-IsCanonical u raw h, Spells-of_accepted u raw t ascii h),
  λ h. accepted_of_Spells u raw t ascii h.0 h.1,
)
