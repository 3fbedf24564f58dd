-- ===== src/Indexer/Apply.antt =====
-- apps/indexer/src/moderation-gate.ts and apply-change.ts: one verified change of a tag.
pub mod Laws
pub mod Rows
pub mod History
use tagwise_identity_protoco.Prelude.{
  ℕ, Text, CaseMap, Bool, true, false, Option, none, some, ltb, leb, if◌then◌else◌,
}
use tagwise_identity_protoco.Moderation.Profanity.{Engine, is_blocked_name}
use tagwise_identity_protoco.Moderation.Profanity
use tagwise_identity_protoco.Mirror.{
  IdentityStatus, Identity, IdentityUpdate, IdentityCreate, IdentityTable, CursorTable, no_update,
}

pub record VerifiedTagChange : Type 0 where
  pub address : Text
  pub tag : Text
  pub owner : Text
  pub wallet : Text
  pub bump : ℕ
  pub slot : ℕ

pub data ApplyOutcome : Type 0 where
  created updated skipped_stale : ApplyOutcome

-- cache-invalidator.ts: what applying a change needs of the cache. It never throws.
pub record CacheInvalidator : Type 1 where
  pub Cache : Type 0
  pub invalidate : Text → Cache → Cache

-- A gate that throws leaves the tag active.
unfoldable pub should_block_tag : CaseMap → Engine → Text → Bool
should_block_tag u engine tag = elim (is_blocked_name u engine tag) [
  | none ↦ false
  | some Profanity.blocked ↦ true
  | some Profanity.clean ↦ false
]

abbrev pub status_if : Bool → Option IdentityStatus
status_if true = some IdentityStatus.blocked
status_if false = none

abbrev pub update_data : Bool → VerifiedTagChange → IdentityUpdate
update_data blocked change = record {
  owner = some change.owner;
  wallet = some change.wallet;
  bump = some change.bump;
  display_name = none;
  avatar = none;
  bio = none;
  preferred_token = none;
  status = status_if blocked;
  last_applied_slot = some change.slot;
}

abbrev pub create_data : Bool → VerifiedTagChange → IdentityCreate
create_data blocked change = record {
  tag = change.tag;
  owner = change.owner;
  wallet = change.wallet;
  bump = change.bump;
  last_applied_slot = change.slot;
  status = status_if blocked;
}

-- `lastAppliedSlot: { lte: change.slot }`
abbrev pub not_newer : ℕ → Identity → Bool
not_newer slot row = leb row.last_applied_slot slot

-- What the indexer writes: the two tables, and the cache that it invalidates.
pub record World (d : IdentityTable) (k : CursorTable) (c : CacheInvalidator) : Type 0 where
  pub identities : d.Table
  pub cursor : k.Table
  pub cache : c.Cache

module _ (d : IdentityTable) (k : CursorTable) (c : CacheInvalidator) where
  -- The write of the fallback, by what `create` answered.
  unfoldable pub finish_create :
      Text → Option d.Table → World d k c → Option (ApplyOutcome × World d k c)
  finish_create tag none w = none
  finish_create tag (some table) w =
      some (
        created,
        record { identities = table; cursor = w.cursor; cache = c.invalidate tag w.cache },
      )

  unfoldable pub create_or_skip :
      Bool → VerifiedTagChange → Option Identity → World d k c → Option (ApplyOutcome × World d k c)
  unfolding finish_create
  create_or_skip blocked change (some existing) w = some (skipped_stale, w)
  create_or_skip blocked change none w =
      finish_create change.tag (d.create (create_data blocked change) w.identities) w

  -- The guarded update is tried first: its count and table are `update_result`.
  unfoldable pub after_update :
      Bool → VerifiedTagChange → ℕ × d.Table → World d k c → Option (ApplyOutcome × World d k c)
  unfolding create_or_skip
  after_update blocked change update_result w =
      if ltb 0 update_result.0
      then some (
        updated,
        record {
          identities = update_result.1;
          cursor = w.cursor;
          cache = c.invalidate change.tag w.cache;
        },
      )
      else create_or_skip blocked change (d.find_unique update_result.1 change.tag)
          record { identities = update_result.1; cursor = w.cursor; cache = w.cache }

  -- `none` is a call that throws.
  unfoldable pub apply_change :
      CaseMap → Engine → VerifiedTagChange → World d k c → Option (ApplyOutcome × World d k c)
  unfolding after_update
  apply_change u engine change w =
      let blocked = should_block_tag u engine change.tag in
      after_update blocked change
        (d.update_many change.tag (not_newer change.slot) (update_data blocked change) w.identities)
        w
