-- ===== src/Moderation/Gate.antt =====
-- packages/moderation/src/gate.ts
use tagwise_identity_protoco.Prelude.{Text, CaseMap, Option, none, some, if◌then◌else◌}
use tagwise_identity_protoco.Core.Reserved.{is_reserved_tag}
use tagwise_identity_protoco.Moderation.Profanity.{
  Engine, BlockedNameResult, clean, blocked, is_blocked_name,
}

pub data ModerationGateReason : Type 0 where
  reserved inappropriate : ModerationGateReason

pub data ModerationGateResult : Type 0 where
  allowed : ModerationGateResult
  denied : ModerationGateReason → ModerationGateResult

unfoldable pub gate_verdict : Option BlockedNameResult → Option ModerationGateResult
gate_verdict none = none
gate_verdict (some blocked) = some (denied inappropriate)
gate_verdict (some clean) = some allowed

unfoldable pub check_moderation_gate : CaseMap → Engine → Text → Option ModerationGateResult
unfolding gate_verdict
check_moderation_gate u engine tag =
    if is_reserved_tag tag
    then some (denied reserved)
    else gate_verdict (is_blocked_name u engine tag)
