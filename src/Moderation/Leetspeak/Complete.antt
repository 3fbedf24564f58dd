-- ===== src/Moderation/Leetspeak/Complete.antt =====
-- Which variants a tag has.
use mathlib.Core.List.{append_assoc, append-nil}
use tagwise_identity_protoco.Prelude.{
  ℕ, ◌≤◌, Text, CaseMap, true, not, List, [], ◌∷◌, ◌++◌, ◌≡◌, refl, ap, sym, ◌∙◌, ◌&&◌, ◌↔◌, length,
  length-map, map, here, there, In, In-map, In-map_inv, Any-append_left, Any-append_right,
  Any-append_cases, member, member_iff, text_eq, text_eq_iff, Bool-cases, inl, inr, arith,
}
use tagwise_identity_protoco.Moderation.Leetspeak.{
  options_of, expand, collapse, dedup, prepare, max_variants, generate_profanity_check_variants,
}
use tagwise_identity_protoco.Moderation.Leetspeak.Expand.{
  extend, expand_all, count_ones, expand-bounded, expand-eq-all, doubled-le-max,
}

-- A reading of a text: each character replaced by one of the letters that it can stand for.
abbrev pub Reads : Text → Text → Type 0
Reads [] [] = Unit
Reads (c ∷ cs) (o ∷ v) = In o (options_of c) × Reads cs v
Reads _ _ = ⊥

In-extend :
    (os : List ℕ) (v : Text) {o : ℕ} {vs : List Text}
    → In v vs
    → In o os
    → In (v ++ o ∷ []) (extend os vs)
unfolding extend
In-extend os v {vs = []} h k = elim h [ ]
In-extend os v {vs = w ∷ ws} (here e) k =
    Any-append_left (extend os ws) (rw (← e) (In-map (λ o. w ++ o ∷ []) k))
In-extend os v {vs = w ∷ ws} (there h) k =
    Any-append_right (map (λ o. w ++ o ∷ []) os) (In-extend os v h k)

In-extend_inv :
    (os : List ℕ) (w : Text) (vs : List Text)
    → In w (extend os vs)
    → (v : Text) × (o : ℕ) × In v vs × In o os × (w ≡ v ++ o ∷ [])
unfolding extend
In-extend_inv os w [] h = elim h [ ]
In-extend_inv os w (v ∷ vs) h = elim (Any-append_cases (map (λ o. v ++ o ∷ []) os) h) [
  | inl k ↦ let (o, at, e) = In-map_inv (λ o. v ++ o ∷ []) os k in (v, o, here refl, at, e)
  | inr k ↦ let (v', o, at, e, same) = In-extend_inv os w vs k in (v', o, there at, e, same)
]

In-expand_all :
    (cs v e : Text) (vs : List Text) → In v vs → Reads cs e → In (v ++ e) (expand_all cs vs)
unfolding expand_all
In-expand_all [] v [] vs h r = rw append-nil h
In-expand_all [] v (o ∷ e) vs h r = elim r [ ]
In-expand_all (c ∷ cs) v [] vs h r = elim r [ ]
In-expand_all (c ∷ cs) v (o ∷ e) vs h (at, r) =
    let regroup : (v ++ o ∷ []) ++ e ≡ v ++ o ∷ e = append_assoc v (o ∷ []) e in
    rw (← regroup) (
      In-expand_all cs (v ++ o ∷ []) e (extend (options_of c) vs) (In-extend (options_of c) v h at)
        r)

In-expand_all_inv :
    (cs w : Text) (vs : List Text)
    → In w (expand_all cs vs)
    → (v : Text) × (e : Text) × In v vs × Reads cs e × (w ≡ v ++ e)
unfolding expand_all
In-expand_all_inv [] w vs h = (w, [], h, tt, sym (append-nil w))
In-expand_all_inv (c ∷ cs) w vs h =
    let (v', e, at, r, same) = In-expand_all_inv cs w (extend (options_of c) vs) h in
    let (v, o, at', k, split) = In-extend_inv (options_of c) v' vs at in
    (v, o ∷ e, at', (k, r), same ∙ ap (λ x. x ++ e) split ∙ append_assoc v (o ∷ []) e)

member-dedup :
    (w : Text) (seen ts : List Text)
    → member w (dedup seen ts) ≡ (not (member w seen) && member w ts)
unfolding dedup member
member-dedup w seen [] = ground arith
member-dedup w seen (t ∷ ts) = elim (Bool-cases (text_eq t w)) [
  | inl e ↦
      let same : member t seen ≡ member w seen = ap (λ x. member x seen) ((text_eq_iff t w).0 e) in
      ground (arith, e, same, member-dedup w seen ts, member-dedup w (t ∷ seen) ts)
  | inr e ↦ ground (arith, e, member-dedup w seen ts, member-dedup w (t ∷ seen) ts)
]

length-dedup : (seen ts : List Text) → length (dedup seen ts) ≤ length ts
unfolding dedup
length-dedup seen [] = omega arith
length-dedup seen (t ∷ ts) = ground (arith, length-dedup seen ts, length-dedup (t ∷ seen) ts)

-- Whatever the tag, at most 4096 variants are checked.
pub variants_bounded :
    (u : CaseMap) (tag : Text) → length (generate_profanity_check_variants u tag) ≤ max_variants
unfolding generate_profanity_check_variants
variants_bounded u tag =
    let all = expand max_variants (prepare u tag) ([] ∷ []) in
    omega (
      arith,
      length-dedup [] (map collapse all),
      length-map collapse all,
      expand-bounded (prepare u tag) ([] ∷ []) (omega arith),
    )

-- For a tag with at most twelve "1" (the only digit of two readings), the variants are exactly the
-- collapsed readings of the tag without its underscores: none is missed and none is invented.
pub variants_exact :
    (u : CaseMap) (tag w : Text)
    → count_ones (prepare u tag) ≤ 12
    → (member w (generate_profanity_check_variants u tag) ≡ true)
      ↔ ((v : Text) × Reads (prepare u tag) v × (w ≡ collapse v))
unfolding generate_profanity_check_variants member
variants_exact u tag w few =
    let cs = prepare u tag in
    let whole = expand-eq-all cs ([] ∷ []) (doubled-le-max (count_ones cs) few) in
    let found : member w (dedup [] (map collapse (expand max_variants cs ([] ∷ []))))
        ≡ member w (map collapse (expand_all cs ([] ∷ []))) =
      member-dedup w [] _ ∙ ap (λ l. member w (map collapse l)) whole in
    (
      λ h.
          let (x, at, e) =
            In-map_inv collapse (expand_all cs ([] ∷ [])) ((member_iff w _).0 (sym found ∙ h)) in
          let (v, r, first, reads, split) = In-expand_all_inv cs x ([] ∷ []) at in
          (r, reads, e ∙ ap collapse (split ∙ ap (λ y. y ++ r) (only v first))),
      λ h.
          found
          ∙ (member_iff w _).1
              (rw h.2 (In-map collapse (In-expand_all cs [] h.0 ([] ∷ []) (here refl) h.1))),
    )
  where
    only : (v : Text) → In v ([] ∷ []) → v ≡ []
    only v (here e) = sym e
    only v (there h) = elim h [ ]
