-- ===== src/Tests/Indexer/Connection.antt =====
-- Runs of the theorems on the subscription of the indexer.
use tagwise_identity_protoco.Prelude.{
  ◌+◌, ◌≤◌, codes, false, true, [], ◌∷◌, ◌++◌, some, none, ◌≡◌, refl, length, inr,
}
use tagwise_identity_protoco.Program.{serialize}
use tagwise_identity_protoco.Mirror.Memory.{memory, memory_cursor}
use tagwise_identity_protoco.Indexer.Apply.{World}
use tagwise_identity_protoco.Indexer.Subscription.{Notification, Round, Loop, stopped, at_start}
use tagwise_identity_protoco.Indexer.Subscription.Backoff.{run, Fails, run-stops}
use tagwise_identity_protoco.Tests.{
  ascii_case, plain_solana, program_id, broken_engine, alice_row, counting_cache,
}
use tagwise_identity_protoco.Tests.Core.{moved}

abbrev before : World memory memory_cursor counting_cache
before = record { identities = alice_row ∷ []; cursor = some 2; cache = [] }

abbrev fresh :
    Loop memory memory_cursor counting_cache ascii_case plain_solana broken_engine program_id
fresh =
    at_start memory memory_cursor counting_cache ascii_case plain_solana broken_engine program_id
      before

abbrev seen : Notification
seen = record { address = codes "tagalice"; content = serialize moved; slot = 9 }

abbrev failed : Round
failed = record { aborted_at_head = false; stream = none; accounts = none; aborted_at_end = false }

abbrev connected : Round
connected = record {
  aborted_at_head = false;
  stream = some (seen ∷ []);
  accounts = some (8, (codes "tagalice", serialize moved) ∷ []);
  aborted_at_end = false;
}

abbrev last : Round
last = record { aborted_at_head = false; stream = none; accounts = none; aborted_at_end = true }

run-stops_example :
    (l' : Loop memory memory_cursor counting_cache ascii_case plain_solana broken_engine program_id)
    × (run memory memory_cursor counting_cache ascii_case plain_solana broken_engine program_id
          ((failed ∷ connected ∷ []) ++ last ∷ connected ∷ [])
          fresh
        ≡ stopped l')
    × (run memory memory_cursor counting_cache ascii_case plain_solana broken_engine program_id
          ((failed ∷ connected ∷ []) ++ last ∷ [])
          fresh
        ≡ stopped l')
    × (length l'.slept ≤ 0 + 2)
run-stops_example =
    run-stops memory memory_cursor counting_cache ascii_case plain_solana broken_engine program_id
      (failed ∷ connected ∷ []) last (connected ∷ []) fresh (inr refl)

fails :
    Fails memory memory_cursor counting_cache ascii_case plain_solana broken_engine program_id
      failed
fails = (refl, refl, refl)
