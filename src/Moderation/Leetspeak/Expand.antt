-- ===== src/Moderation/Leetspeak/Expand.antt =====
-- The loops with their breaks against plain list operations.
use mathlib.Core.List.{append_assoc, append-nil}
use tagwise_identity_protoco.Prelude.{
  ℕ, zero, suc, ◌+◌, ◌*◌, ◌≤◌, ◌<◌, Text, List, [], ◌∷◌, ◌++◌, ◌≡◌, refl, ap, sym, subst, ◌∙◌, ◌==◌,
  leb, leb→le, length, length-append, length-map, length-take, map, take, take_of_le, Bool-cases,
  inl, inr, arith, if◌then◌else◌,
}
use tagwise_identity_protoco.Moderation.Leetspeak.{
  options_of, push_options, push_variants, expand, max_variants,
}

-- Every variant by every option, with no bound.
unfoldable pub extend : List ℕ → List Text → List Text
extend options [] = []
extend options (v ∷ vs) = map (λ o. v ++ o ∷ []) options ++ extend options vs

take-append_right : (n : ℕ) (xs ys : List Text) → n ≤ length xs → take n (xs ++ ys) ≡ take n xs
take-append_right zero xs ys h = refl
take-append_right (suc n) [] ys h = absurd (omega arith)
take-append_right (suc n) (x ∷ xs) ys h =
    ap (λ (l : List Text). x ∷ l) (take-append_right n xs ys (omega arith))

-- A prefix that has just become full is all that is taken.
take_full : (n : ℕ) (xs ys : List Text) → n ≤ length xs → length xs ≤ n → take n (xs ++ ys) ≡ xs
take_full n xs ys h k = take-append_right n xs ys h ∙ take_of_le n xs k

pub push_options-eq-take :
    (cap : ℕ) (v : Text) (options : List ℕ) (next : List Text)
    → length next < cap
    → push_options cap v options next ≡ take cap (next ++ map (λ o. v ++ o ∷ []) options)
unfolding push_options
push_options-eq-take cap v [] next h =
    sym (ap (take cap) (append-nil next) ∙ take_of_le cap next (omega arith))
push_options-eq-take cap v (o ∷ os) next h =
    let next' = next ++ (v ++ o ∷ []) ∷ [] in
    let size : length next' ≡ length next + 1 = length-append next ((v ++ o ∷ []) ∷ []) in
    let regroup : next' ++ map (λ o. v ++ o ∷ []) os ≡ next ++ map (λ o. v ++ o ∷ []) (o ∷ os) =
      append_assoc next ((v ++ o ∷ []) ∷ []) (map (λ o. v ++ o ∷ []) os) in
    elim (Bool-cases (leb cap (length next'))) [
      | inl full ↦ rw full (
          sym (take_full cap next' (map (λ o. v ++ o ∷ []) os) (leb→le _ _ full) (omega arith))
          ∙ ap (take cap) regroup)
      | inr room ↦
          rw room (
            push_options-eq-take cap v os next' (ground (arith, room, size))
            ∙ ap (take cap) regroup)
    ]

take-take-append : (n : ℕ) (xs ys : List Text) → take n (take n xs ++ ys) ≡ take n (xs ++ ys)
take-take-append zero xs ys = refl
take-take-append (suc n) [] ys = refl
take-take-append (suc n) (x ∷ xs) ys = ap (λ (l : List Text). x ∷ l) (take-take-append n xs ys)

-- The two loops with their breaks take the first `cap` of all extensions.
pub push_variants-eq-take :
    (cap : ℕ) (options : List ℕ) (vs next : List Text)
    → length next < cap
    → push_variants cap options vs next ≡ take cap (next ++ extend options vs)
unfolding push_variants extend
push_variants-eq-take cap options [] next h =
    sym (ap (take cap) (append-nil next) ∙ take_of_le cap next (omega arith))
push_variants-eq-take cap options (v ∷ vs) next h =
    let row = map (λ o. v ++ o ∷ []) options in
    let pushed = push_options-eq-take cap v options next h in
    let next' = take cap (next ++ row) in
    let regroup : take cap (next' ++ extend options vs)
        ≡ take cap (next ++ (row ++ extend options vs)) =
      take-take-append cap (next ++ row) (extend options vs)
      ∙ ap (take cap) (append_assoc next row (extend options vs)) in
    elim (Bool-cases (leb cap (length next'))) [
      | inl full ↦ rw pushed (
          rw full (
            sym (
              take_full cap next' (extend options vs) (leb→le _ _ full)
                (omega (arith, length-take cap (next ++ row))))
            ∙ regroup))
      | inr room ↦
          rw pushed
            (rw room (push_variants-eq-take cap options vs next' (ground (arith, room)) ∙ regroup))
    ]

length-extend :
    (options : List ℕ) (vs : List Text) → length (extend options vs) ≡ length options * length vs
unfolding extend
length-extend options [] = omega arith
length-extend options (v ∷ vs) = omega (
  arith,
  length-append (map (λ o. v ++ o ∷ []) options) (extend options vs),
  length-map (λ o. v ++ o ∷ []) options,
  length-extend options vs,
)

-- All expansions, with no bound, and how many there are.
unfoldable pub expand_all : Text → List Text → List Text
unfolding extend options_of
expand_all [] vs = vs
expand_all (c ∷ cs) vs = expand_all cs (extend (options_of c) vs)

-- One more than the number of bits, at each "1" of the text.
unfoldable pub count_ones : Text → ℕ
count_ones [] = 0
count_ones (c ∷ cs) = if c == b'1' then suc (count_ones cs) else count_ones cs

unfoldable pub doubled : ℕ → ℕ → ℕ
doubled zero n = n
doubled (suc k) n = doubled k (2 * n)

length-options : (c : ℕ) → length (options_of c) ≡ (if c == b'1' then 2 else 1)
unfolding options_of
length-options c = ground arith

-- No tag has more than 4096 variants in hand at any time.
pub expand-bounded :
    (cs : Text) (vs : List Text)
    → length vs ≤ max_variants
    → length (expand max_variants cs vs) ≤ max_variants
unfolding expand
expand-bounded [] vs h = h
expand-bounded (c ∷ cs) vs h = expand-bounded cs (push_variants max_variants (options_of c) vs []) (
    omega (
      arith,
      ap length (push_variants-eq-take max_variants (options_of c) vs [] (omega arith)),
      length-take max_variants (extend (options_of c) vs),
    ))

doubled-le : (k n : ℕ) → n ≤ doubled k n
unfolding doubled
doubled-le zero n = omega arith
doubled-le (suc k) n = omega (arith, doubled-le k (2 * n))

grown :
    (c : ℕ) (cs : Text) (vs : List Text)
    → doubled (count_ones (c ∷ cs)) (length vs)
      ≡ doubled (count_ones cs) (length (extend (options_of c) vs))
unfolding count_ones doubled
grown c cs vs = elim (Bool-cases (c == b'1')) [
  | inl e ↦
      let size : length (extend (options_of c) vs) ≡ 2 * length vs =
        length-extend (options_of c) vs
        ∙ ap (λ n. n * length vs) (length-options c ∙ ap (λ b. if b then 2 else 1) e) in
      rw e (ap (doubled (count_ones cs)) (sym size))
  | inr e ↦
      let size : length (extend (options_of c) vs) ≡ 1 * length vs =
        length-extend (options_of c) vs
        ∙ ap (λ n. n * length vs) (length-options c ∙ ap (λ b. if b then 2 else 1) e) in
      rw e (ap (doubled (count_ones cs)) (omega (arith, size)))
]

-- While the doublings stay within the bound, the bound cuts nothing off.
pub expand-eq-all :
    (cs : Text) (vs : List Text)
    → doubled (count_ones cs) (length vs) ≤ max_variants
    → expand max_variants cs vs ≡ expand_all cs vs
unfolding expand expand_all
expand-eq-all [] vs h = refl
expand-eq-all (c ∷ cs) vs h =
    let next = extend (options_of c) vs in
    let fits : doubled (count_ones cs) (length next) ≤ max_variants =
      subst (λ n. n ≤ max_variants) (grown c cs vs) h in
    let whole : push_variants max_variants (options_of c) vs [] ≡ next =
      push_variants-eq-take max_variants (options_of c) vs [] (omega arith)
      ∙ take_of_le max_variants next
          (omega (arith, fits, doubled-le (count_ones cs) (length next))) in
    rw whole (expand-eq-all cs next fits)

doubled_mono : (j k n : ℕ) → j ≤ k → doubled j n ≤ doubled k n
unfolding doubled
doubled_mono zero k n h = doubled-le k n
doubled_mono (suc j) zero n h = absurd (omega arith)
doubled_mono (suc j) (suc k) n h = doubled_mono j k (2 * n) (omega arith)

-- Twelve doublings of one variant are 4096.
pub doubled-le-max : (k : ℕ) → k ≤ 12 → doubled k 1 ≤ max_variants
unfolding doubled
doubled-le-max k h = doubled_mono k 12 1 h
