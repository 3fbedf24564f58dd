-- ===== src/Moderation/Profanity/Laws.antt =====
-- Which names are blocked.
use tagwise_identity_protoco.Prelude.{
  ◌≤◌, Text, CaseMap, Bool, true, false, List, [], ◌∷◌, ◌≡◌, refl, ap, sym, ◌∙◌, ◌↔◌, ◌⊎◌, inl, inr,
  ◌||◌, any, some, some, member, here, there, In, member_iff, Bool-cases, arith, if◌then◌else◌,
}
use tagwise_identity_protoco.Moderation.Leetspeak.{
  collapse, prepare, generate_profanity_check_variants,
}
use tagwise_identity_protoco.Moderation.Leetspeak.Expand.{count_ones}
use tagwise_identity_protoco.Moderation.Leetspeak.Complete.{Reads, variants_exact}
use tagwise_identity_protoco.Moderation.Profanity.{
  Engine, clean, blocked, allowlist, contains_blocked_content, any_blocked, is_blocked_name,
}

-- An engine that answers every call.
abbrev pub total : (Text → Bool) → Engine
total exists t = some (exists t)

module _ (exists : Text → Bool) where
  contains-total : (t : Text) → contains_blocked_content (total exists) t ≡ some (exists t)
  unfolding contains_blocked_content
  contains-total t = ground arith

  any_blocked-total : (ts : List Text) → any_blocked (total exists) ts ≡ some (any exists ts)
  unfolding any_blocked
  any_blocked-total [] = refl
  any_blocked-total (t ∷ ts) = ground (arith, contains-total t, any_blocked-total ts)

  any-In : {t : Text} {ts : List Text} → In t ts → exists t ≡ true → any exists ts ≡ true
  any-In (here {x = s} e) h = let same = ap exists e in ground (arith, same, h)
  any-In (there k) h = ground (arith, any-In k h)

  In-any : (ts : List Text) → any exists ts ≡ true → (t : Text) × In t ts × (exists t ≡ true)
  In-any [] h = absurd (cc h)
  In-any (t ∷ ts) h = elim (Bool-cases (exists t)) [
    | inl e ↦ (t, here refl, e)
    | inr e ↦ let (s, at, k) = In-any ts (ground (arith, h, e)) in (s, there at, k)
  ]

  is_blocked_name-total :
      (u : CaseMap) (tag : Text)
      → is_blocked_name u (total exists) tag ≡ (
          if member (u.lower tag) allowlist
          then some clean
          else if exists (u.lower tag)
              || any exists (generate_profanity_check_variants u (u.lower tag))
          then some blocked
          else some clean)
  unfolding is_blocked_name
  is_blocked_name-total u tag = ground (
    arith,
    contains-total (u.lower tag),
    any_blocked-total (generate_profanity_check_variants u (u.lower tag)),
  )

-- With an engine that answers, a name with at most twelve "1" is blocked exactly when it is not
-- allowlisted and the engine matches the lowered name, or a collapsed reading of it without its
-- underscores: separators, digits for letters and repeated letters hide nothing.
pub is_blocked_name_iff :
    (exists : Text → Bool) (u : CaseMap) (tag : Text)
    → count_ones (prepare u (u.lower tag)) ≤ 12
    → (is_blocked_name u (total exists) tag ≡ some blocked) ↔ (
        (member (u.lower tag) allowlist ≡ false)
        × ((exists (u.lower tag) ≡ true)
            ⊎ ((v : Text) × Reads (prepare u (u.lower tag)) v × (exists (collapse v) ≡ true))))
is_blocked_name_iff exists u tag few = (there_half, back_half)
  where
    lower : Text
    lower = u.lower tag

    variants : List Text
    variants = generate_profanity_check_variants u (u.lower tag)

    there_half :
        is_blocked_name u (total exists) tag ≡ some blocked
        → (member (u.lower tag) allowlist ≡ false)
          × ((exists (u.lower tag) ≡ true)
              ⊎ ((v : Text) × Reads (prepare u (u.lower tag)) v × (exists (collapse v) ≡ true)))
    there_half h =
        let open_form = sym (is_blocked_name-total exists u tag) ∙ h in
        (
          ground (arith, open_form),
          elim (Bool-cases (exists (u.lower tag))) [
            | inl e ↦ inl e
            | inr e ↦
                let (w, at, k) =
                  In-any exists (generate_profanity_check_variants u (u.lower tag))
                    (ground (arith, open_form, e)) in
                let (v, reads, same) =
                  (variants_exact u (u.lower tag) w few).0 ((member_iff w _).1 at) in
                inr (v, reads, sym (ap exists same) ∙ k)
          ],
        )

    back_half :
        (member (u.lower tag) allowlist ≡ false)
          × ((exists (u.lower tag) ≡ true)
              ⊎ ((v : Text) × Reads (prepare u (u.lower tag)) v × (exists (collapse v) ≡ true)))
        → is_blocked_name u (total exists) tag ≡ some blocked
    back_half (fresh, inl e) = is_blocked_name-total exists u tag ∙ ground (arith, fresh, e)
    back_half (fresh, inr (v, reads, e)) =
        let at = (variants_exact u (u.lower tag) (collapse v) few).1 (v, reads, refl) in
        let hit = any-In exists ((member_iff _ _).0 at) e in
        is_blocked_name-total exists u tag ∙ ground (arith, fresh, hit)
