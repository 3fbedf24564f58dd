-- ===== src/Sdk/Chain.antt =====
-- packages/sdk/src/chain.ts, and the calls of client.ts that talk to a node instead of the service.
pub mod Laws
use tagwise_identity_protoco.Prelude.{ℕ, Text, CaseMap, Option, none, some, Result, ok, err, ◌>>=◌}
use tagwise_identity_protoco.Solana.{Bytes, Solana}
use tagwise_identity_protoco.Core.Account.{
  TagAccount, TagAccountDecodeErrorReason, decode_tag_account,
}
use tagwise_identity_protoco.Core.Seeds.{PdaError, derive_tag_pda}
use tagwise_identity_protoco.Sdk.{TipError, network, syntax, signer_refused, no_rpc}
use tagwise_identity_protoco.Sdk.Client.{normalize_tag_or_throw}

-- The fields that are on the chain. The others are fixed: null and false.
pub record OnChainIdentity : Type 0 where
  pub tag : Text
  pub owner : Text
  pub wallet : Text
  pub bump : ℕ

-- `getAccountInfo` by the address: a call that fails, no account, or the account's bytes.
abbrev pub Rpc : Type 0
Rpc = Text → Option (Option Bytes)

abbrev pub identity_of : TagAccount → OnChainIdentity
identity_of decoded = record {
  tag = decoded.tag;
  owner = decoded.owner;
  wallet = decoded.wallet;
  bump = decoded.bump;
}

-- An account that does not decode is none.
unfoldable pub decoded_identity :
    Result TagAccountDecodeErrorReason TagAccount → Option OnChainIdentity
decoded_identity (err _) = none
decoded_identity (ok decoded) = some (identity_of decoded)

unfoldable pub fetched_identity :
    CaseMap → Solana → Option (Option Bytes) → Result TipError (Option OnChainIdentity)
unfolding decoded_identity
fetched_identity u sol none = err network
fetched_identity u sol (some none) = ok none
fetched_identity u sol (some (some raw)) = ok (decoded_identity (decode_tag_account u sol raw))

unfoldable pub identity_at :
    CaseMap → Solana → Rpc → Result PdaError (Text × ℕ) → Result TipError (Option OnChainIdentity)
unfolding fetched_identity
identity_at u sol rpc (err _) = err syntax
identity_at u sol rpc (ok (pda, _)) = fetched_identity u sol (rpc pda)

unfoldable pub resolve_on_chain_account :
    CaseMap → Solana → Rpc → Text → Text → Result TipError (Option OnChainIdentity)
unfolding identity_at
resolve_on_chain_account u sol rpc tag program_id =
    identity_at u sol rpc (derive_tag_pda sol tag program_id)

-- `rpc` is none where the client was made without a node.
unfoldable pub resolve_on_chain :
    CaseMap → Solana → Option Rpc → Text → Text → Result TipError (Option OnChainIdentity)
unfolding resolve_on_chain_account
resolve_on_chain u sol none program_id tag = err no_rpc
resolve_on_chain u sol (some rpc) program_id tag = do
  normalized ← normalize_tag_or_throw u tag
  resolve_on_chain_account u sol rpc normalized program_id

abbrev pub or_refused {ℓ} : {A : Type ℓ} → Option A → Result TipError A
or_refused none = err signer_refused
or_refused (some a) = ok a

abbrev pub or_syntax {ℓ} : {A : Type ℓ} → Option A → Result TipError A
or_syntax none = err syntax
or_syntax (some a) = ok a

abbrev pub or_network {ℓ} : {A : Type ℓ} → Option A → Result TipError A
or_network none = err network
or_network (some a) = ok a

-- The bytes of a text that is base64, the signer's `signTransaction`, the base64 text of bytes and
-- `sendTransaction`, which answers with the signature.
unfoldable pub sign_and_send_transaction :
    (Text → Option Bytes)
    → (Bytes → Option Bytes)
    → (Bytes → Text)
    → Option (Text → Option Text)
    → Text
    → Result TipError Text
sign_and_send_transaction encode_base64 sign decode_base64 none unsigned = err no_rpc
sign_and_send_transaction encode_base64 sign decode_base64 (some send) unsigned = do
  wire ← or_syntax (encode_base64 unsigned)
  signed ← or_refused (sign wire)
  or_network (send (decode_base64 signed))
