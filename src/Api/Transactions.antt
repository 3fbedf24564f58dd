-- ===== src/Api/Transactions.antt =====
-- apps/api/src: solana/instructions.ts, register/transaction-builder.ts and
-- tags/wallet-transaction-builder.ts, the messages that `compileTransaction` compiles.
pub mod Laws
use tagwise_identity_protoco.Prelude.{
  ℕ, ◌+◌, ◌-◌, ◌/◌, ◌%◌, Text, CaseMap, Bool, true, false, not, List, [], ◌∷◌, ◌++◌, Option, none,
  some, ltb, leb, length, replicate, text_eq, Result, ok, err, ◌>>=◌, ◌>>◌, if◌then◌else◌,
}
use tagwise_identity_protoco.Solana.{Bytes, Solana}
use tagwise_identity_protoco.Core.Normalize.{normalize_tag}
use tagwise_identity_protoco.Core.Seeds.{PdaError, derive_tag_pda}
use tagwise_identity_protoco.Core.Account.{tag_account_size}
use tagwise_identity_protoco.Moderation.Profanity.{Engine}
use tagwise_identity_protoco.Mirror.{Identity, IdentityTable, is_active}
use tagwise_identity_protoco.Api.{
  HttpError, tag_or_throw, bad_request, forbidden, not_found, conflict, internal, payment_required,
  InsufficientBalanceDetails,
}
use tagwise_identity_protoco.Api.Naming.{
  NamingReason, available, reserved, inappropriate, already_registered, invalid, check_naming_gate,
}

abbrev pub register_tag_discriminator : Bytes
register_tag_discriminator = 74 ∷ 29 ∷ 15 ∷ 99 ∷ 244 ∷ 166 ∷ 160 ∷ 42 ∷ []

abbrev pub update_wallet_discriminator : Bytes
update_wallet_discriminator = 30 ∷ 233 ∷ 126 ∷ 238 ∷ 58 ∷ 16 ∷ 215 ∷ 184 ∷ []

-- The bytes of the tag are given as the encoder of @solana/kit writes them.
unfoldable pub encode_register_tag_instruction_data : Bytes → Bytes
encode_register_tag_instruction_data tag_bytes = register_tag_discriminator ++ tag_bytes

unfoldable pub encode_update_wallet_instruction_data : Solana → Text → Bytes
encode_update_wallet_instruction_data sol new_wallet =
    update_wallet_discriminator ++ sol.encode_address new_wallet

pub data AccountRole : Type 0 where
  readonly writable readonly_signer writable_signer : AccountRole

pub record Instruction : Type 0 where
  pub program_address : Text
  pub accounts : List (Text × AccountRole)
  pub content : Bytes

-- What `compileTransaction` compiles.
pub record Message : Type 0 where
  pub fee_payer : Text
  pub blockhash : Text
  pub instructions : List Instruction

-- What the service asks of a node; `none` is a failed call.
pub record Rpc : Type 0 where
  pub latest_blockhash : Option (Text × ℕ)
  pub minimum_balance : ℕ → Option ℕ
  pub fee_for_message : Message → Option (Option ℕ)
  pub balance : Text → Option ℕ

pub record Params : Type 0 where
  pub sol : Solana
  pub rpc : Rpc
  -- `addEncoderSizePrefix(getUtf8Encoder(), getU32Encoder()).encode`
  pub encode_tag : Text → Bytes
  pub program_id : Text

abbrev pub system_program_address : Text
system_program_address = replicate 32 b'1'

-- `address()` throws on a text that is no address.
abbrev pub require_address : Solana → Text → Result HttpError (Unit {0})
require_address sol a = if sol.is_address a then ok tt else err internal

abbrev pub pda_or_internal : Result PdaError (Text × ℕ) → Result HttpError Text
pda_or_internal (err _) = err internal
pda_or_internal (ok (pda, _)) = ok pda

abbrev pub register_instruction : Params → Text → Text → Text → Text → Instruction
register_instruction p tag pda owner payer = record {
  program_address = p.program_id;
  accounts =
      (pda, writable)
      ∷ (owner, readonly_signer)
      ∷ (payer, writable_signer)
      ∷ (system_program_address, readonly)
      ∷ [];
  content = encode_register_tag_instruction_data (p.encode_tag tag);
}

abbrev pub wallet_instruction : Params → Text → Text → Text → Instruction
wallet_instruction p pda owner new_wallet = record {
  program_address = p.program_id;
  accounts = (pda, writable) ∷ (owner, readonly_signer) ∷ [];
  content = encode_update_wallet_instruction_data p.sol new_wallet;
}

-- The second instruction, where the wallet differs from the owner.
unfoldable pub wallet_instructions :
    Params → Text → Text → Text → Result HttpError (List Instruction)
wallet_instructions p pda owner wallet =
    if text_eq wallet owner
    then ok []
    else do require_address p.sol wallet; ok (wallet_instruction p pda owner wallet ∷ [])

unfoldable pub build_register_tag_transaction :
    Params → Text → Text → Text → Text → Text → Result HttpError (Message × Text)
unfolding wallet_instructions
build_register_tag_transaction p tag owner payer wallet blockhash = do
  pda ← pda_or_internal (derive_tag_pda p.sol tag p.program_id)
  require_address p.sol owner
  require_address p.sol payer
  require_address p.sol p.program_id
  more ← wallet_instructions p pda owner wallet
  ok (
    record {
      fee_payer = payer;
      blockhash = blockhash;
      instructions = register_instruction p tag pda owner payer ∷ more;
    },
    pda,
  )

unfoldable pub build_update_wallet_transaction :
    Params → Text → Text → Text → Text → Result HttpError (Message × Text)
build_update_wallet_transaction p tag owner new_wallet blockhash = do
  pda ← pda_or_internal (derive_tag_pda p.sol tag p.program_id)
  require_address p.sol owner
  require_address p.sol new_wallet
  require_address p.sol p.program_id
  ok (
    record {
      fee_payer = owner;
      blockhash = blockhash;
      instructions = wallet_instruction p pda owner new_wallet ∷ [];
    },
    pda,
  )
