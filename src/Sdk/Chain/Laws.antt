-- ===== src/Sdk/Chain/Laws.antt =====
-- chain.ts: what a client reads from the chain without the service.
use tagwise_identity_protoco.Prelude.{
  ℕ, Text, CaseMap, true, false, [], Option, none, some, Result, ok, err, ◌≡◌, refl, ap, sym, ◌∙◌,
  arith, length,
}
use mathlib.Core.Option
use tagwise_identity_protoco.Solana.{Bytes, Solana, pubkey_length}
use tagwise_identity_protoco.Core.Normalize.{accepted, normalize_tag}
use tagwise_identity_protoco.Core.Account.{
  TagAccount, TagAccountDecodeErrorReason, decode_tag_account,
}
use tagwise_identity_protoco.Core.Account.Laws.{decode_reachable}
use tagwise_identity_protoco.Core.Seeds.Laws.{derive-normalized}
use tagwise_identity_protoco.Program.{TagState, register_tag, serialize}
use tagwise_identity_protoco.Program.Reach.{Reach}
use tagwise_identity_protoco.Mirror.{Identity, IdentityStatus}
use tagwise_identity_protoco.Indexer.Pipeline.Laws.{pda_of}
use tagwise_identity_protoco.Api.Resolve.{decoded_row, account_row, lookup_at, chain_lookup}
use tagwise_identity_protoco.Sdk.{TipError}
use tagwise_identity_protoco.Sdk.Client.{normalize_tag_or_throw}
use tagwise_identity_protoco.Sdk.Chain.{
  OnChainIdentity, Rpc, decoded_identity, fetched_identity, identity_at, resolve_on_chain_account,
  resolve_on_chain,
}

-- The row of an account that the mirror does not have, with the columns that the chain gives.
abbrev pub row_of : OnChainIdentity → Identity
row_of i = record {
  id = [];
  tag = i.tag;
  owner = i.owner;
  wallet = i.wallet;
  bump = i.bump;
  display_name = none;
  avatar = none;
  bio = none;
  preferred_token = none;
  verified = false;
  merchant = false;
  status = IdentityStatus.active;
  last_applied_slot = 0;
  created_at = 0;
}

module _ (u : CaseMap) (sol : Solana) (rpc : Rpc) (program_id raw tag : Text)
    (named : normalize_tag u raw ≡ accepted tag) (valid : sol.is_address program_id ≡ true) where
  on_chain_eq :
      resolve_on_chain u sol (some rpc) program_id raw
      ≡ fetched_identity u sol (rpc (pda_of sol program_id tag))
  unfolding resolve_on_chain resolve_on_chain_account identity_at normalize_tag_or_throw
  on_chain_eq = ground (arith, named, derive-normalized u sol raw program_id named valid)

  lookup_eq :
      chain_lookup u sol rpc program_id tag
      ≡ ok (account_row u sol (rpc (pda_of sol program_id tag)))
  unfolding chain_lookup lookup_at
  lookup_eq = ap (lookup_at u sol rpc) (derive-normalized u sol raw program_id named valid)

  -- Whatever instructions ran since a tag was registered, a client that asks a node for any spelling
  -- of the tag reads, under their own names, the tag, the owner, the wallet and the bump that the
  -- program's account holds.
  pub resolve_on_chain-reachable :
      (owner : Bytes) (bump : ℕ) (a b : TagState)
      → length owner ≡ pubkey_length
      → register_tag tag owner bump ≡ ok a
      → Reach a b
      → rpc (pda_of sol program_id tag) ≡ some (some (serialize b))
      → resolve_on_chain u sol (some rpc) program_id raw
        ≡ ok (
            some (record {
              tag = tag;
              owner = sol.decode_address b.owner;
              wallet = sol.decode_address b.wallet;
              bump = b.bump;
            }))
  unfolding fetched_identity decoded_identity
  resolve_on_chain-reachable owner bump a b size registered reached at =
      on_chain_eq
      ∙ ap (fetched_identity u sol) at
      ∙ ap (λ (x : Result TagAccountDecodeErrorReason TagAccount). ok (decoded_identity x))
          (decode_reachable u sol tag owner bump size registered reached)

  decoded_same :
      (r : Result TagAccountDecodeErrorReason TagAccount)
      → decoded_row r ≡ Option.map row_of (decoded_identity r)
  unfolding decoded_row decoded_identity
  decoded_same (err reason) = refl
  decoded_same (ok acc) = refl

  same_rows :
      (o : Option (Option Bytes)) (found : Option OnChainIdentity)
      → fetched_identity u sol o ≡ ok found
      → account_row u sol o ≡ Option.map row_of found
  unfolding fetched_identity account_row
  same_rows none found h = absurd (cc h)
  same_rows (some none) found h = ap (Option.map row_of) (inner h)
    where
      inner : ◌≡◌ {A = Result TipError (Option OnChainIdentity)} (ok none) (ok found) → none ≡ found
      inner k = cc k
  same_rows (some (some bytes)) found h =
      decoded_same (decode_tag_account u sol bytes) ∙ ap (Option.map row_of) (inner h)
    where
      inner :
          {o : Option OnChainIdentity}
          → ◌≡◌ {A = Result TipError (Option OnChainIdentity)} (ok o) (ok found)
          → o ≡ found
      inner k = cc k

  -- What a client reads from the chain is what the service falls back to when its mirror has no row
  -- of the tag: an active row with the same tag, owner, wallet and bump and no profile, or none on
  -- both sides.
  pub resolve_on_chain-chain_lookup :
      (found : Option OnChainIdentity)
      → resolve_on_chain u sol (some rpc) program_id raw ≡ ok found
      → chain_lookup u sol rpc program_id tag ≡ ok (Option.map row_of found)
  resolve_on_chain-chain_lookup found h =
      lookup_eq
      ∙ ap (λ (x : Option Identity). ok x)
          (same_rows (rpc (pda_of sol program_id tag)) found (sym on_chain_eq ∙ h))
