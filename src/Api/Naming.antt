-- ===== src/Api/Naming.antt =====
-- apps/api/src/tags/naming-gate.ts, and `availability` in tags.service.ts.
use tagwise_identity_protoco.Prelude.{
  Text, CaseMap, false, Option, none, some, ◌≡◌, refl, ◌↔◌, arith, inl, inr, ap, sym, ◌∙◌,
  Bool-cases,
}
use tagwise_identity_protoco.Core.Normalize.{NormalizeTagResult, accepted, rejected, normalize_tag}
use tagwise_identity_protoco.Core.Reserved.{is_reserved_tag}
use tagwise_identity_protoco.Moderation.Profanity.{
  Engine, BlockedNameResult, clean, is_blocked_name,
}
use tagwise_identity_protoco.Moderation.Profanity
use tagwise_identity_protoco.Moderation.Gate.{
  ModerationGateResult, allowed, denied, gate_verdict, check_moderation_gate, ModerationGateReason,
}
use tagwise_identity_protoco.Moderation.Gate
use tagwise_identity_protoco.Mirror.{Identity, IdentityTable}
use tagwise_identity_protoco.Api.{present_tag}

-- The reason of an answer; every reason but the first says that the tag cannot be had.
pub data NamingReason : Type 0 where
  available reserved inappropriate already_registered invalid : NamingReason

abbrev denial : ModerationGateReason → NamingReason
denial Gate.reserved = reserved
denial Gate.inappropriate = inappropriate

abbrev taken : Option Identity → NamingReason
taken none = available
taken (some _) = already_registered

unfoldable pub check_row : Option ModerationGateResult → Option Identity → Option NamingReason
check_row none row = none
check_row (some (denied reason)) row = some (denial reason)
check_row (some allowed) row = some (taken row)

-- `none` is a profanity engine that throws.
unfoldable pub check_naming_gate :
    CaseMap → Engine → (d : IdentityTable) → d.Table → Text → Option NamingReason
unfolding check_row
check_naming_gate u engine d table tag =
    check_row (check_moderation_gate u engine tag) (d.find_unique table tag)

unfoldable pub with_tag : Text → Option NamingReason → Option (Text × NamingReason)
with_tag tag none = none
with_tag tag (some reason) = some (present_tag tag, reason)

unfoldable pub availability :
    CaseMap → Engine → (d : IdentityTable) → d.Table → Text → Option (Text × NamingReason)
unfolding with_tag
availability u engine d table raw_tag = elim (normalize_tag u raw_tag) [
  | rejected _ ↦ some (present_tag raw_tag, invalid)
  | accepted tag ↦ with_tag tag (check_naming_gate u engine d table tag)
]

available_row :
    (v : Option ModerationGateResult) (row : Option Identity)
    → (check_row v row ≡ some available) ↔ ((v ≡ some allowed) × (row ≡ none))
unfolding check_row
available_row none row = (λ h. absurd (cc h), λ (h, _). absurd (cc h))
available_row (some (denied Gate.reserved)) row = (λ h. absurd (cc h), λ (h, _). absurd (cc h))
available_row (some (denied Gate.inappropriate)) row = (λ h. absurd (cc h), λ (h, _). absurd (cc h))
available_row (some allowed) none = (λ h. (refl, refl), λ h. refl)
available_row (some allowed) (some x) = (λ h. absurd (cc h), λ (_, h). absurd (cc h))

-- The moderation gate lets a tag pass exactly when it is not reserved and the profanity check calls
-- it clean.
pub gate_iff :
    (u : CaseMap) (engine : Engine) (tag : Text)
    → (check_moderation_gate u engine tag ≡ some allowed)
      ↔ ((is_reserved_tag tag ≡ false) × (is_blocked_name u engine tag ≡ some clean))
unfolding check_moderation_gate
gate_iff u engine tag = (
  λ h. elim (Bool-cases (is_reserved_tag tag)) [
    | inl e ↦ absurd (ground (arith, h, e))
    | inr e ↦ (e, verdict (is_blocked_name u engine tag) (ground (arith, h, e)))
  ],
  λ (e, k). ground (arith, e, k),
)
  where
    verdict : (o : Option BlockedNameResult) → gate_verdict o ≡ some allowed → o ≡ some clean
    verdict none h = absurd (cc h)
    verdict (some Profanity.clean) h = refl
    verdict (some Profanity.blocked) h = absurd (cc h)

-- What makes a name available.
abbrev pub Available : CaseMap → Engine → (d : IdentityTable) → d.Table → Text → Text → Type 0
Available u engine d table raw shown =
    (tag : Text) × (normalize_tag u raw ≡ accepted tag)
    × (is_reserved_tag tag ≡ false)
    × (is_blocked_name u engine tag ≡ some clean)
    × (d.find_unique table tag ≡ none)
    × (shown ≡ present_tag tag)

-- A name is reported as available exactly when it normalises to a tag that is not reserved, that the
-- profanity check passes, and that has no row in the mirror, a blocked row counting as taken; the
-- answer then shows the canonical tag.
pub availability_iff :
    (u : CaseMap) (engine : Engine) (d : IdentityTable) (table : d.Table) (raw shown : Text)
    → (availability u engine d table raw ≡ some (shown, available)) ↔ (
        (tag : Text) × (normalize_tag u raw ≡ accepted tag)
        × (is_reserved_tag tag ≡ false)
        × (is_blocked_name u engine tag ≡ some clean)
        × (d.find_unique table tag ≡ none)
        × (shown ≡ present_tag tag))
unfolding availability check_naming_gate
availability_iff u engine d table raw shown = (there, back)
  where
    shown_inv :
        (tag : Text) (o : Option NamingReason)
        → with_tag tag o ≡ some (shown, available)
        → (o ≡ some available) × (shown ≡ present_tag tag)
    shown_inv tag none h = absurd (cc h)
    shown_inv tag (some reason) h = (cc h, cc h)

    answer : NormalizeTagResult → Option (Text × NamingReason)
    answer (rejected _) = some (present_tag raw, invalid)
    answer (accepted tag) =
        with_tag tag (check_row (check_moderation_gate u engine tag) (d.find_unique table tag))

    there_at :
        (x : NormalizeTagResult)
        → normalize_tag u raw ≡ x
        → answer x ≡ some (shown, available)
        → Available u engine d table raw shown
    there_at (rejected reason) n h = absurd (cc h)
    there_at (accepted tag) n h =
        let (passed, s) = shown_inv tag _ h in
        let (moderated, free) =
          (available_row (check_moderation_gate u engine tag) (d.find_unique table tag)).0 passed in
        let (fresh, ok_name) = (gate_iff u engine tag).0 moderated in
        (tag, n, fresh, ok_name, free, s)

    there :
        availability u engine d table raw ≡ some (shown, available)
        → Available u engine d table raw shown
    there h = there_at (normalize_tag u raw) refl h

    back :
        Available u engine d table raw shown
        → availability u engine d table raw ≡ some (shown, available)
    back (tag, n, e, k, free, s) =
        ap answer n
        ∙ ap (with_tag tag) (
            (available_row (check_moderation_gate u engine tag) (d.find_unique table tag)).1
              ((gate_iff u engine tag).1 (e, k), free))
        ∙ ap (λ (x : Text). some (x, available)) (sym s)
