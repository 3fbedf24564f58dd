-- ===== src/Moderation/Profanity.antt =====
-- packages/moderation/src/profanity.ts and profanity-lists.ts. The engine's `exists` is the
-- parameter `engine`; its answer `none` is a call that throws.
pub mod Laws
use tagwise_identity_protoco.Prelude.{
  Text, CaseMap, codes, Bool, true, false, List, [], ◌∷◌, ◌||◌, any, Option, none, some, member,
  includes, if◌then◌else◌,
}
use tagwise_identity_protoco.Moderation.Leetspeak.{generate_profanity_check_variants}

abbrev pub allowlist : List Text
allowlist =
    codes "analyze"
    ∷ codes "analyse"
    ∷ codes "assess"
    ∷ codes "assassin"
    ∷ codes "classic"
    ∷ codes "bass"
    ∷ codes "grass"
    ∷ codes "pass"
    ∷ codes "password"
    ∷ codes "shiitake"
    ∷ codes "cockpit"
    ∷ codes "cocktail"
    ∷ codes "scunthorpe"
    ∷ codes "penistone"
    ∷ codes "essex"
    ∷ codes "sussex"
    ∷ codes "matsushita"
    ∷ []

abbrev pub extra_blocked_terms : List Text
extra_blocked_terms = []

abbrev pub Engine : Type 0
Engine = Text → Option Bool

-- `{ blocked: false }`, or `{ blocked: true, reason: "profanity" }`.
pub data BlockedNameResult : Type 0 where
  clean blocked : BlockedNameResult

unfoldable pub contains_blocked_content : Engine → Text → Option Bool
contains_blocked_content engine candidate = elim (engine candidate) [
  | none ↦ none
  | some exists ↦ some (exists || any (λ term. includes candidate term) extra_blocked_terms)
]

-- The loop over the variants; the first match returns.
unfoldable pub any_blocked : Engine → List Text → Option Bool
unfolding contains_blocked_content
any_blocked engine [] = some false
any_blocked engine (variant ∷ variants) = elim (contains_blocked_content engine variant) [
  | none ↦ none
  | some true ↦ some true
  | some false ↦ any_blocked engine variants
]

abbrev verdict : Option Bool → Option BlockedNameResult
verdict none = none
verdict (some true) = some blocked
verdict (some false) = some clean

-- The checks behind the allowlist.
unfoldable pub check_content : CaseMap → Engine → Text → Option BlockedNameResult
unfolding contains_blocked_content any_blocked
check_content u engine lower = elim (contains_blocked_content engine lower) [
  | none ↦ none
  | some true ↦ some blocked
  | some false ↦ verdict (any_blocked engine (generate_profanity_check_variants u lower))
]

unfoldable pub is_blocked_name : CaseMap → Engine → Text → Option BlockedNameResult
unfolding check_content
is_blocked_name u engine tag =
    let lower = u.lower tag in
    if member lower allowlist then some clean else check_content u engine lower
