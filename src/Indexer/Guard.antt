-- ===== src/Indexer/Guard.antt =====
-- apps/indexer/src/out-of-order-guard.ts: the rule for late changes, as a function of its own.
use tagwise_identity_protoco.Prelude.{
  ℕ, CaseMap, Bool, true, false, Option, none, some, leb, ◌≡◌, sym, ◌∙◌, ◌↔◌, arith,
}
use tagwise_identity_protoco.Moderation.Profanity.{Engine}
use tagwise_identity_protoco.Mirror.{Identity, IdentityTable, CursorTable}
use tagwise_identity_protoco.Indexer.Apply.{
  VerifiedTagChange, ApplyOutcome, CacheInvalidator, World, apply_change, not_newer,
}
use tagwise_identity_protoco.Indexer.Apply
use tagwise_identity_protoco.Indexer.Apply.Laws.{outcome_of, Applied-of_run}

unfoldable pub should_apply : ℕ → Option ℕ → Bool
should_apply incoming_slot none = true
should_apply incoming_slot (some stored_slot) = leb stored_slot incoming_slot

abbrev pub stored_slot : Option Identity → Option ℕ
stored_slot none = none
stored_slot (some row) = some row.last_applied_slot

guard_outcome :
    (change : VerifiedTagChange) (o : Option Identity)
    → (outcome_of change o ≡ Apply.skipped_stale)
      ↔ (should_apply change.slot (stored_slot o) ≡ false)
unfolding outcome_of should_apply
guard_outcome change none = (λ h. absurd (cc h), λ h. absurd (cc h))
guard_outcome change (some row) = (λ h. ground (arith, h), λ h. ground (arith, h))

-- Applying a change skips it exactly when the guard says so of its slot and the stored one: the
-- condition of the update and the guard are the same rule.
pub apply_change-should_apply :
    (d : IdentityTable) (k : CursorTable) (c : CacheInvalidator) (u : CaseMap) (engine : Engine)
    (change : VerifiedTagChange) (w w' : World d k c) (outcome : ApplyOutcome)
    → apply_change d k c u engine change w ≡ some (outcome, w')
    → (outcome ≡ Apply.skipped_stale)
      ↔ (should_apply change.slot (stored_slot (d.find_unique w.identities change.tag)) ≡ false)
apply_change-should_apply d k c u engine change w w' outcome h =
    let run = Applied-of_run d k c u engine change w w' outcome h in
    let rule = guard_outcome change (d.find_unique w.identities change.tag) in
    (λ e. rule.0 (sym run.outcome_eq ∙ e), λ e. run.outcome_eq ∙ rule.1 e)
