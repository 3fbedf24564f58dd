-- ===== src/Tests/Protocol.antt =====
-- A run of the theorem on an account from the chain to the service's answer.
use tagwise_identity_protoco.Prelude.{
  ◌≤◌, codes, none, some, ok, ◌≡◌, refl, subst, text_eq, arith, true, false, lower_unit, member,
}
use tagwise_identity_protoco.Program.{serialize}
use tagwise_identity_protoco.Program.Reach.{Reach, Step}
use tagwise_identity_protoco.Moderation.Profanity.{
  is_blocked_name, check_content, contains_blocked_content,
}
use tagwise_identity_protoco.Mirror.{Identity, is_active}
use tagwise_identity_protoco.Mirror.Memory
use tagwise_identity_protoco.Redis.Memory.{memory}
use tagwise_identity_protoco.Cache.{redis_cache_invalidator}
use tagwise_identity_protoco.Indexer.Apply.{World, should_block_tag}
use tagwise_identity_protoco.Indexer.Pipeline.{applied, process_account_observation}
use tagwise_identity_protoco.Api.Resolve.{ResolveResponse}
use tagwise_identity_protoco.Api.Routes.{resolve_route}
use tagwise_identity_protoco.Protocol.{Open, observe-resolve}
use tagwise_identity_protoco.Tests.{
  ascii_case, plain_solana, program_id, owner, wallet, alice, broken_engine,
}
use tagwise_identity_protoco.Tests.Codec.{codec}
use tagwise_identity_protoco.Tests.Core.{registered, registers, moved, moves, alice_normal}
use tagwise_identity_protoco.Tests.Api.Tags.{config, empty, before, no_chain, del_full, get_empty}

reached : Reach registered moved
reached = Reach.next Reach.start (Step.wallet_updated owner wallet refl moves)

current : Open 5 (Memory.find before.identities alice)
unfolding Memory.find is_active text_eq
current row h =
    subst (λ (x : Identity). (is_active x ≡ true) × (x.last_applied_slot ≤ 5)) (same h)
      (refl, omega arith)
  where
    same : {x y : Identity} → some x ≡ some y → x ≡ y
    same k = cc k

clean : should_block_tag ascii_case broken_engine alice ≡ false
unfolding should_block_tag is_blocked_name check_content contains_blocked_content member text_eq
    lower_unit
clean = refl

observe-resolve_example :
    (w' : World Memory.memory Memory.memory_cursor (redis_cache_invalidator memory (codes "tip:")))
    × (process_account_observation Memory.memory Memory.memory_cursor
          (redis_cache_invalidator memory (codes "tip:"))
          ascii_case
          plain_solana
          broken_engine
          program_id
          (codes "tagalice")
          (serialize moved)
          5
          before
        ≡ some (applied, w'))
    × (v : ResolveResponse) × ((resolve_route ascii_case Memory.memory memory codec config
          plain_solana no_chain w'.identities
          (codes "@Alice")
          w'.cache).0
        ≡ ok v)
    × (v.wallet ≡ wallet)
observe-resolve_example =
    observe-resolve ascii_case plain_solana broken_engine config Memory.memory Memory.memory_cursor
      memory codec refl no_chain alice owner 255 registered moved 5 before (codes "@Alice") empty
      none refl registers reached current clean del_full get_empty alice_normal
