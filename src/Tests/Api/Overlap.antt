-- ===== src/Tests/Api/Overlap.antt =====
-- A run of the theorem on overlapping lookups.
use tagwise_identity_protoco.Prelude.{codes, [], ◌∷◌, All, ◌≡◌, refl}
use tagwise_identity_protoco.Mirror.{Identity}
use tagwise_identity_protoco.Mirror.Memory
use tagwise_identity_protoco.Redis.Memory.{memory}
use tagwise_identity_protoco.Indexer.Apply.{updated, should_block_tag}
use tagwise_identity_protoco.Indexer.Apply.Laws.{row_after}
use tagwise_identity_protoco.Api.Resolve.{Choice, choose_row, answer, resolve}
use tagwise_identity_protoco.Api.Resolve.Overlap.{Overlap, Quiet, said_of}
use tagwise_identity_protoco.Api.Resolve.Overlap.Run.{resolve-Quiet}
use tagwise_identity_protoco.Tests.{ascii_case, plain_solana, alice, broken_engine, change_at}
use tagwise_identity_protoco.Tests.Codec.{codec}
use tagwise_identity_protoco.Tests.Api.Tags.{
  config, empty, no_chain, before, after, ran, wrote, del_full,
}

abbrev chosen_row : Choice
chosen_row =
    choose_row ascii_case plain_solana no_chain config alice (Memory.find after.identities alice)

abbrev start : Overlap Memory.memory memory
start = record { table = after.identities; store = after.cache; reading = [] }

-- Two lookups have read, and the first of them has answered.
abbrev overlapped : Overlap Memory.memory memory
overlapped = record {
  table = after.identities;
  store = (answer Memory.memory memory codec config alice chosen_row after.cache).1;
  reading = chosen_row ∷ [];
}

steps : Quiet ascii_case plain_solana config Memory.memory memory codec alice start overlapped
steps =
    Quiet.answers (chosen_row ∷ []) [] chosen_row
      (Quiet.reads no_chain (Quiet.reads no_chain Quiet.same)) refl

abbrev new_row : Identity
new_row =
    row_after (should_block_tag ascii_case broken_engine alice) (change_at 5)
      (Memory.fresh before.identities) (Memory.find before.identities alice)

resolve-Quiet_example :
    ((resolve Memory.memory memory codec config ascii_case plain_solana no_chain alice
        overlapped.table overlapped.store).0
      ≡ said_of (codes "https://tagwise.me") alice new_row)
    × All
        (λ (c : Choice).
          (answer Memory.memory memory codec config alice c overlapped.store).0
          ≡ said_of (codes "https://tagwise.me") alice new_row)
        overlapped.reading
resolve-Quiet_example =
    resolve-Quiet ascii_case plain_solana broken_engine config Memory.memory Memory.memory_cursor
      memory codec (change_at 5) before after updated empty overlapped no_chain ran wrote del_full
      steps
