-- ===== src/Indexer/Pipeline.antt =====
-- apps/indexer/src/decode-and-verify.ts, pipeline.ts and reconcile.ts: from an account of the chain
-- to the mirror. A call that throws is `none`.
pub mod Laws
pub mod Advances
pub mod Sweep
use tagwise_identity_protoco.Prelude.{
  ℕ, ◌+◌, Text, CaseMap, Bool, true, false, List, [], ◌∷◌, Option, none, some, length, text_eq,
  Result, ok, err, if◌then◌else◌,
}
use tagwise_identity_protoco.Solana.{Bytes, Solana}
use tagwise_identity_protoco.Core.Account.{
  TagAccount, TagAccountDecodeErrorReason, decode_tag_account,
}
use tagwise_identity_protoco.Core.Seeds.{PdaError, derive_tag_pda}
use tagwise_identity_protoco.Moderation.Profanity.{Engine}
use tagwise_identity_protoco.Mirror.{IdentityTable, CursorTable}
use tagwise_identity_protoco.Indexer.Apply.{
  VerifiedTagChange, ApplyOutcome, created, updated, skipped_stale, CacheInvalidator, World,
  apply_change,
}
use tagwise_identity_protoco.Indexer.Cursor.{advance_cursor}

pub data DecodeVerifyResult : Type 0 where
  verified : VerifiedTagChange → DecodeVerifyResult
  decode_failed : TagAccountDecodeErrorReason → DecodeVerifyResult
  pda_mismatch : DecodeVerifyResult

pub data Processed : Type 0 where
  applied skipped : Processed

abbrev pub verified_change : Text → ℕ → TagAccount → VerifiedTagChange
verified_change address slot decoded = record {
  address = address;
  tag = decoded.tag;
  owner = decoded.owner;
  wallet = decoded.wallet;
  bump = decoded.bump;
  slot = slot;
}

-- The comparison of the derived address, which stands outside the `try`.
unfoldable pub check_address :
    Text → ℕ → TagAccount → Result PdaError (Text × ℕ) → Option DecodeVerifyResult
check_address address slot decoded (err _) = none
check_address address slot decoded (ok (derived_address, _)) =
    if text_eq derived_address address
    then some (verified (verified_change address slot decoded))
    else some pda_mismatch

unfoldable pub decode_and_verify :
    CaseMap → Solana → Text → Bytes → ℕ → Text → Option DecodeVerifyResult
unfolding check_address
decode_and_verify u sol address bytes slot program_id = elim (decode_tag_account u sol bytes) [
  | err reason ↦ some (decode_failed reason)
  | ok decoded ↦ check_address address slot decoded (derive_tag_pda sol decoded.tag program_id)
]

module _ (d : IdentityTable) (k : CursorTable) (c : CacheInvalidator) (u : CaseMap) (sol : Solana)
    (engine : Engine) where
  -- The cursor follows a change that was applied.
  unfoldable pub after_apply : ℕ → ApplyOutcome × World d k c → Processed × World d k c
  after_apply slot (skipped_stale, w) = (skipped, w)
  after_apply slot (created, w) = (
    applied,
    record { identities = w.identities; cursor = advance_cursor k slot w.cursor; cache = w.cache },
  )
  after_apply slot (updated, w) = (
    applied,
    record { identities = w.identities; cursor = advance_cursor k slot w.cursor; cache = w.cache },
  )

  unfoldable pub process_result :
      ℕ → DecodeVerifyResult → World d k c → Option (Processed × World d k c)
  unfolding after_apply
  process_result slot (decode_failed _) w = some (skipped, w)
  process_result slot pda_mismatch w = some (skipped, w)
  process_result slot (verified change) w = elim (apply_change d k c u engine change w) [
    | none ↦ none
    | some r ↦ some (after_apply slot r)
  ]

  unfoldable pub process_account_observation :
      Text → Text → Bytes → ℕ → World d k c → Option (Processed × World d k c)
  unfolding process_result
  process_account_observation program_id address bytes slot w =
      elim (decode_and_verify u sol address bytes slot program_id) [
        | none ↦ none
        | some result ↦ process_result slot result w
      ]

  -- The loop over the accounts of the response, each with its address and its data.
  unfoldable pub sweep :
      Text → ℕ → List (Text × Bytes) → ℕ → ℕ → World d k c → Option (ℕ × ℕ × World d k c)
  unfolding process_account_observation
  sweep program_id slot [] n m w = some (n, m, w)
  sweep program_id slot ((address, bytes) ∷ items) n m w =
      elim (process_account_observation program_id address bytes slot w) [
        | none ↦ none
        | some (applied, w') ↦ sweep program_id slot items (n + 1) m w'
        | some (skipped, w') ↦ sweep program_id slot items n (m + 1) w'
      ]

  pub record ReconcileResult : Type 0 where
    pub slot : ℕ
    pub scanned : ℕ
    pub applied : ℕ
    pub skipped : ℕ

  unfoldable pub reconcile_response :
      Text → Option (ℕ × List (Text × Bytes)) → World d k c → Option (ReconcileResult × World d k c)
  unfolding sweep
  reconcile_response program_id none w = none
  reconcile_response program_id (some (slot, items)) w = elim (sweep program_id slot items 0 0 w) [
    | none ↦ none
    | some (n, m, w') ↦
        some (record { slot = slot; scanned = length items; applied = n; skipped = m }, w')
  ]

  -- `response`: the slot of `getProgramAccounts` and its accounts, or none where the call fails. A
  -- program id that is no address throws before the call.
  unfoldable pub reconcile :
      Text → Option (ℕ × List (Text × Bytes)) → World d k c → Option (ReconcileResult × World d k c)
  unfolding reconcile_response
  reconcile program_id response w =
      if sol.is_address program_id then reconcile_response program_id response w else none
