-- ===== src/Tests/Api/Register.antt =====
-- Runs of the theorems on registrations and wallet updates.
use tagwise_identity_protoco.Prelude.{
  ℕ, ◌+◌, ◌*◌, ◌≤◌, ◌<◌, ◌⊎◌, Text, codes, false, length, text_eq, member, lower_unit, [], ◌∷◌,
  ◌++◌, none, some, ok, err, ◌≡◌, refl,
}
use tagwise_identity_protoco.Core.Constants.{matches_allowed, is_tag_unit}
use tagwise_identity_protoco.Core.Normalize.{normalize_tag}
use tagwise_identity_protoco.Core.Reserved.{is_reserved_tag}
use tagwise_identity_protoco.Core.Seeds.{
  derive_tag_pda, build_tag_seeds, assert_shape_of_normalized_tag, ascii_bytes,
}
use tagwise_identity_protoco.Moderation.Profanity.{
  is_blocked_name, check_content, contains_blocked_content,
}
use tagwise_identity_protoco.Moderation.Leetspeak.{generate_profanity_check_variants}
use tagwise_identity_protoco.Moderation.Gate.{check_moderation_gate}
use tagwise_identity_protoco.Mirror.{is_active}
use tagwise_identity_protoco.Mirror.Memory
use tagwise_identity_protoco.Api.{payment_required}
use tagwise_identity_protoco.Api.Naming.{check_naming_gate, check_row}
use tagwise_identity_protoco.Api.Transactions.{
  Message, Rpc, Params, register_instruction, wallet_instruction, wallet_instructions,
  build_register_tag_transaction, build_update_wallet_transaction,
}
use tagwise_identity_protoco.Api.Register.{check_sufficient_balance, register, wallet_update}
use tagwise_identity_protoco.Api.Register.Balance.{check_sufficient_balance_lem}
use tagwise_identity_protoco.Api.Register.Wallet.{Permitted, wallet_update-Permitted}
use tagwise_identity_protoco.Tests.{
  ascii_case, plain_solana, program_id, owner, wallet, alice, alice_row,
}

abbrev pub rpc : Rpc
rpc = record {
  latest_blockhash = some (codes "hash", 150);
  minimum_balance = λ size. some (size * 10);
  fee_for_message = λ message. some none;
  balance = λ a. some 9000;
}

abbrev pub params : Params
params = record {
  sol = plain_solana;
  rpc = rpc;
  encode_tag = λ t. length t ∷ 0 ∷ 0 ∷ 0 ∷ t;
  program_id = program_id;
}

abbrev pub bob : Text
bob = codes "bob"

abbrev pub bob_pda : Text
bob_pda = codes "tag" ++ bob

abbrev pub message : Message
message = record {
  fee_payer = owner;
  blockhash = codes "hash";
  instructions =
      register_instruction params bob bob_pda owner owner
      ∷ wallet_instruction params bob_pda owner wallet
      ∷ [];
}

pub registers :
    register ascii_case
      (λ t. some false)
      Memory.memory
      (alice_row ∷ [])
      params
      (codes "@Bob")
      (some wallet)
      none
      owner
    ≡ ok (message, bob_pda, 150)
unfolding register normalize_tag lower_unit matches_allowed is_tag_unit check_naming_gate check_row
    check_moderation_gate is_reserved_tag member text_eq is_blocked_name check_content
    contains_blocked_content generate_profanity_check_variants Memory.find wallet_instructions
    build_register_tag_transaction derive_tag_pda build_tag_seeds assert_shape_of_normalized_tag
    ascii_bytes check_sufficient_balance
registers = refl

check_sufficient_balance_lem_example :
    ((check_sufficient_balance rpc owner message ≡ ok tt) × (940 + 5000 ≤ 9000))
    ⊎ ((shortfall : ℕ) × (0 < shortfall)
        × (9000 + shortfall ≡ 940 + 5000)
        × (check_sufficient_balance rpc owner message
            ≡ err (
                payment_required (record {
                  required_lamports = 940 + 5000;
                  current_lamports = 9000;
                  shortfall_lamports = shortfall;
                }))))
check_sufficient_balance_lem_example =
    check_sufficient_balance_lem rpc owner message 940 9000 none refl refl refl

abbrev alice_pda : Text
alice_pda = codes "tag" ++ alice

abbrev wallet_message : Message
wallet_message = record {
  fee_payer = owner;
  blockhash = codes "hash";
  instructions = wallet_instruction params alice_pda owner wallet ∷ [];
}

pub updates :
    wallet_update Memory.memory (alice_row ∷ []) params alice owner wallet
    ≡ ok (wallet_message, alice_pda, 150)
unfolding wallet_update Memory.find text_eq is_active build_update_wallet_transaction derive_tag_pda
    build_tag_seeds assert_shape_of_normalized_tag ascii_bytes
updates = refl

wallet_update-Permitted_example :
    Permitted Memory.memory (alice_row ∷ []) params alice owner wallet wallet_message alice_pda 150
wallet_update-Permitted_example =
    wallet_update-Permitted Memory.memory (alice_row ∷ []) params alice owner wallet wallet_message
      alice_pda 150 updates
