-- ===== src/Api/Register.antt =====
-- apps/api/src/register and tags/wallet-update.service.ts: the unsigned transactions that the service
-- builds for an owner.
pub mod Laws
pub mod Balance
pub mod Wallet
use tagwise_identity_protoco.Prelude.{
  ℕ, ◌+◌, ◌-◌, ◌/◌, ◌%◌, Text, CaseMap, codes, Bool, true, false, not, List, [], ◌∷◌, ◌++◌, Option,
  none, some, ltb, leb, length, replicate, text_eq, Result, ok, err, ◌>>=◌, ◌>>◌, if◌then◌else◌,
}
use tagwise_identity_protoco.Solana.{Bytes, Solana}
use tagwise_identity_protoco.Core.Normalize.{normalize_tag}
use tagwise_identity_protoco.Core.Seeds.{PdaError, derive_tag_pda}
use tagwise_identity_protoco.Core.Account.{tag_account_size}
use tagwise_identity_protoco.Moderation.Profanity.{Engine}
use tagwise_identity_protoco.Mirror.{Identity, IdentityTable, is_active}
use tagwise_identity_protoco.Api.{
  HttpError, tag_or_throw, bad_request, forbidden, not_found, conflict, internal, payment_required,
  InsufficientBalanceDetails,
}
use tagwise_identity_protoco.Api.Naming.{
  NamingReason, available, reserved, inappropriate, already_registered, invalid, check_naming_gate,
}
use tagwise_identity_protoco.Api.Transactions.{
  AccountRole, Instruction, Message, Rpc, Params, require_address, pda_or_internal,
  register_instruction, wallet_instruction, wallet_instructions, build_register_tag_transaction,
  build_update_wallet_transaction,
}

abbrev pub or_internal {ℓ} : {A : Type ℓ} → Option A → Result HttpError A
or_internal none = err internal
or_internal (some a) = ok a

-- `feeResponse.value ?? FEE_ESTIMATE_FALLBACK_LAMPORTS`
abbrev pub fee_or_fallback : Option ℕ → ℕ
fee_or_fallback none = 5000
fee_or_fallback (some fee) = fee

abbrev pub compare_balance : ℕ → ℕ → Result HttpError (Unit {0})
compare_balance required current =
    if leb required current
    then ok tt
    else err (
        payment_required (record {
          required_lamports = required;
          current_lamports = current;
          shortfall_lamports = required - current;
        }))

unfoldable pub check_sufficient_balance : Rpc → Text → Message → Result HttpError (Unit {0})
check_sufficient_balance rpc fee_payer message = do
  rent ← or_internal (rpc.minimum_balance tag_account_size)
  fee ← or_internal (rpc.fee_for_message message)
  current ← or_internal (rpc.balance fee_payer)
  compare_balance (rent + fee_or_fallback fee) current

abbrev pub gate_or_throw : Option NamingReason → Result HttpError (Unit {0})
gate_or_throw none = err internal
gate_or_throw (some available) = ok tt
gate_or_throw (some already_registered) = err conflict
gate_or_throw (some reserved) = err forbidden
gate_or_throw (some inappropriate) = err forbidden
gate_or_throw (some invalid) = err forbidden

abbrev pub given_or : Option Text → Text → Text
given_or none default = default
given_or (some given) default = given

abbrev pub require_valid : Solana → Text → Text → Result HttpError (Unit {0})
require_valid sol reason a =
    if not (sol.is_address a) then err (bad_request (some reason)) else ok tt

abbrev pub require_valid_if : Solana → Option Text → Result HttpError (Unit {0})
require_valid_if sol none = ok tt
require_valid_if sol (some a) = require_valid sol (codes "INVALID_FEE_PAYER") a

-- The message that is compiled and sent back, its account and the last block for which it is valid.
unfoldable pub register :
    CaseMap
    → Engine
    → (d : IdentityTable) → d.Table
    → Params
    → Text
    → Option Text
    → Option Text
    → Text
    → Result HttpError (Message × Text × ℕ)
unfolding build_register_tag_transaction check_sufficient_balance
register u engine d table p raw_tag wallet fee_payer owner = do
  tag ← tag_or_throw (normalize_tag u raw_tag)
  gate_or_throw (check_naming_gate u engine d table tag)
  require_valid p.sol (codes "INVALID_WALLET") (given_or wallet owner)
  require_valid_if p.sol fee_payer
  blockhash ← or_internal p.rpc.latest_blockhash
  built ←
      build_register_tag_transaction p tag owner (given_or fee_payer owner) (given_or wallet owner)
        blockhash.0
  check_sufficient_balance p.rpc (given_or fee_payer owner) built.0
  ok (built.0, built.1, blockhash.1)

abbrev pub owned_active : Text → Option Identity → Result HttpError (Unit {0})
owned_active owner none = err not_found
owned_active owner (some row) =
    if not (is_active row)
    then err not_found
    else if not (text_eq row.owner owner)
    then err forbidden
    else ok tt

-- `WalletUpdateService.buildTransaction`
unfoldable pub wallet_update :
    (d : IdentityTable)
    → d.Table
    → Params
    → Text
    → Text
    → Text
    → Result HttpError (Message × Text × ℕ)
unfolding build_update_wallet_transaction
wallet_update d table p tag owner new_wallet = do
  owned_active owner (d.find_unique table tag)
  require_valid p.sol (codes "INVALID_WALLET") new_wallet
  blockhash ← or_internal p.rpc.latest_blockhash
  built ← build_update_wallet_transaction p tag owner new_wallet blockhash.0
  ok (built.0, built.1, blockhash.1)
