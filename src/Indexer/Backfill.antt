-- ===== src/Indexer/Backfill.antt =====
-- apps/indexer/src/backfill-moderation.ts: blocking the active rows that fail the moderation gate.
pub mod Laws
use tagwise_identity_protoco.Prelude.{
  ℕ, ◌+◌, Text, CaseMap, Bool, true, false, ◌&&◌, List, [], ◌∷◌, map, length, some, In, In-map,
  text_eq, text_eq_iff, ltb, if◌then◌else◌, ◌≡◌, ◌≢◌, refl, ap, subst, Any, sym, ◌∙◌, arith,
  Bool-cases, inl, inr,
}
use tagwise_identity_protoco.Moderation.Profanity.{Engine}
use tagwise_identity_protoco.Mirror.{
  Identity, IdentityStatus, IdentityUpdate, IdentityTable, is_active, no_update, written,
}
use tagwise_identity_protoco.Indexer.Apply.{CacheInvalidator, should_block_tag}

abbrev pub block_data : IdentityUpdate
block_data = record no_update { status = some IdentityStatus.blocked }

-- The loop's state: the rows blocked so far, the table and the cache.
pub record Sweep (d : IdentityTable) (c : CacheInvalidator) : Type 0 where
  pub blocked : ℕ
  pub table : d.Table
  pub cache : c.Cache

module _ (d : IdentityTable) (c : CacheInvalidator) (u : CaseMap) (engine : Engine) where
  -- The row was blocked, or another writer was faster.
  unfoldable pub after_block : Text → ℕ × d.Table → Sweep d c → Sweep d c
  after_block tag result s =
      if ltb 0 result.0
      then record { blocked = s.blocked + 1; table = result.1; cache = c.invalidate tag s.cache }
      else record { blocked = s.blocked; table = result.1; cache = s.cache }

  unfoldable pub backfill_row : Text → Sweep d c → Sweep d c
  unfolding after_block
  backfill_row tag s =
      if should_block_tag u engine tag
      then after_block tag (d.update_many tag is_active block_data s.table) s
      else s

  unfoldable pub backfill_rows : List Text → Sweep d c → Sweep d c
  unfolding backfill_row
  backfill_rows [] s = s
  backfill_rows (tag ∷ tags) s = backfill_rows tags (backfill_row tag s)

  -- The number of rows checked, and the state after the loop.
  unfoldable pub backfill_moderation_gate : d.Table → c.Cache → ℕ × Sweep d c
  unfolding backfill_rows
  backfill_moderation_gate table cache =
      let active_rows = d.find_many is_active table in
      (
        length active_rows,
        backfill_rows (map (λ (row : Identity). row.tag) active_rows)
            (record { blocked = 0; table = table; cache = cache }),
      )
