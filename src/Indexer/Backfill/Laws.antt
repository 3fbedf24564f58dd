-- ===== src/Indexer/Backfill/Laws.antt =====
-- backfill-moderation.ts: what the sweep leaves in each row.
use tagwise_identity_protoco.Prelude.{Text, CaseMap, ◌&&◌, if◌then◌else◌}
use tagwise_identity_protoco.Moderation.Profanity.{Engine}
use tagwise_identity_protoco.Mirror.{Identity, IdentityStatus, IdentityTable, is_active}
use tagwise_identity_protoco.Indexer.Apply.{CacheInvalidator, should_block_tag}

-- The row with the status changed, and nothing else.
abbrev pub blocked_row : Identity → Identity
blocked_row row = record row { status = IdentityStatus.blocked }

module _ (d : IdentityTable) (c : CacheInvalidator) (u : CaseMap) (engine : Engine) where
  -- What the sweep makes of a row of the tag.
  unfoldable pub gated : Text → Identity → Identity
  unfolding is_active
  gated tag row = if should_block_tag u engine tag && is_active row then blocked_row row else row
