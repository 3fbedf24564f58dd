-- ===== src/Tests/Indexer.antt =====
-- Runs of the theorems on the indexer.
pub mod Connection
use tagwise_identity_protoco.Prelude.{
  ◌≤◌, Text, codes, true, false, [], ◌∷◌, List, some, ◌≡◌, ◌↔◌, refl, member, text_eq, arith,
  lower_unit,
}
use tagwise_identity_protoco.Solana.{Bytes}
use tagwise_identity_protoco.Moderation.Profanity.{
  Engine, is_blocked_name, check_content, contains_blocked_content,
}
use tagwise_identity_protoco.Program.{TagState, serialize}
use tagwise_identity_protoco.Program.Reach.{Stores}
use tagwise_identity_protoco.Core.Account.Laws.{decoded}
use tagwise_identity_protoco.Mirror.{Identity, is_active, written}
use tagwise_identity_protoco.Mirror.Memory.{memory, memory_cursor, find, update}
use tagwise_identity_protoco.Indexer.Apply.{
  updated, skipped_stale, World, should_block_tag, apply_change, after_update, update_data,
}
use tagwise_identity_protoco.Indexer.Apply.Rows.{Evolves, mirrored, apply_change-Evolves}
use tagwise_identity_protoco.Indexer.Apply.History.{apply_two, apply_two-order, apply_two-again}
use tagwise_identity_protoco.Indexer.Cursor.{advance_cursor, advance_cursor-later}
use tagwise_identity_protoco.Indexer.Guard.{should_apply, stored_slot, apply_change-should_apply}
use tagwise_identity_protoco.Indexer.Pipeline.{verified, verified_change, decode_and_verify}
use tagwise_identity_protoco.Indexer.Pipeline.Laws.{pda_of, decode_and_verify_iff}
use tagwise_identity_protoco.Indexer.Pipeline.Advances.{Advances}
use tagwise_identity_protoco.Indexer.Backfill.Laws.{gated, blocked_row}
use tagwise_identity_protoco.Tests.{
  ascii_case, plain_solana, program_id, alice, broken_engine, change_at, alice_row, counting_cache,
}
use tagwise_identity_protoco.Tests.Core.{moved}

abbrev before : World memory memory_cursor counting_cache
before = record { identities = alice_row ∷ []; cursor = some 2; cache = [] }

abbrev after : World memory memory_cursor counting_cache
after = record {
  identities = written (update_data false (change_at 5)) alice_row ∷ [];
  cursor = some 2;
  cache = alice ∷ [];
}

ran :
    apply_change memory memory_cursor counting_cache ascii_case broken_engine (change_at 5) before
    ≡ some (updated, after)
unfolding apply_change after_update should_block_tag is_blocked_name check_content
    contains_blocked_content member text_eq lower_unit update find
ran = refl

apply_two-order_example :
    (w' w'' : World memory memory_cursor counting_cache) × (row' row'' : Identity) × (apply_two
        memory memory_cursor counting_cache ascii_case broken_engine
        (change_at 5)
        (change_at 8)
        before
      ≡ some w')
    × (apply_two memory memory_cursor counting_cache ascii_case broken_engine
          (change_at 8)
          (change_at 5)
          before
        ≡ some w'')
    × (find w'.identities alice ≡ some row')
    × (find w''.identities alice ≡ some row'')
    × (mirrored row' ≡ mirrored row'')
    × (8 ≤ row'.last_applied_slot)
apply_two-order_example =
    apply_two-order memory memory_cursor counting_cache ascii_case broken_engine (change_at 5)
      (change_at 8) before refl (omega arith)

decode_and_verify_iff_example :
    (decode_and_verify ascii_case plain_solana (codes "tagalice") (serialize moved) 5 program_id
      ≡ some (verified (change_at 5)))
    ↔ ((a : TagState) × Stores alice a
        × (serialize moved ≡ serialize a)
        × (pda_of plain_solana program_id alice ≡ codes "tagalice")
        × (change_at 5 ≡ verified_change (codes "tagalice") 5 (decoded plain_solana alice a)))
decode_and_verify_iff_example =
    decode_and_verify_iff ascii_case plain_solana (codes "tagalice") (serialize moved) 5 program_id
      (change_at 5) refl

abbrev one_item : List (Text × Bytes)
one_item = (codes "tagalice", serialize moved) ∷ []

-- An engine that finds something in every text.
abbrev strict_engine : Engine
strict_engine _ = some true

-- The sample row is blocked.
sample_row_blocked :
    gated memory counting_cache ascii_case strict_engine alice alice_row ≡ blocked_row alice_row
unfolding gated is_active should_block_tag is_blocked_name check_content contains_blocked_content
    member text_eq lower_unit
sample_row_blocked = refl
