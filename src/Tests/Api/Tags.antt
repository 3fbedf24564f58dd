-- ===== src/Tests/Api/Tags.antt =====
-- Runs of the theorems on tags: the cache, resolving, profiles and names.
use tagwise_identity_protoco.Prelude.{
  Text, codes, Bool, true, false, [], ◌∷◌, List, Option, none, some, ok, err, ◌≡◌, ◌≢◌, ◌↔◌, ◌⊎◌,
  refl, subst, member, text_eq, starts_with, lower_unit,
}
use tagwise_identity_protoco.Core.Constants.{matches_allowed, is_tag_unit}
use tagwise_identity_protoco.Core.CacheKey.{build_resolve_cache_key}
use tagwise_identity_protoco.Core.Normalize.{normalize_tag, accepted}
use tagwise_identity_protoco.Moderation.Profanity.{
  Engine, is_blocked_name, check_content, contains_blocked_content,
}
use tagwise_identity_protoco.Mirror.{Identity, written, is_active}
use tagwise_identity_protoco.Mirror.Memory
use tagwise_identity_protoco.Redis.Memory.{memory, set_ex, get, del, lookup, remove}
use tagwise_identity_protoco.Cache.{
  miss, value, cache_get, raw_of, ttl_or_default, invalidate, redis_cache_invalidator,
  is_resolve_key, cache_delete,
}
use tagwise_identity_protoco.Indexer.Apply.{
  World, updated, skipped_stale, should_block_tag, apply_change, after_update, update_data,
}
use tagwise_identity_protoco.Api.{not_found}
use tagwise_identity_protoco.Api.Resolve.{Config, ResolveResponse, response_of, resolve}
use tagwise_identity_protoco.Api.Resolve.Laws.{Source, resolve-Source}
use tagwise_identity_protoco.Api.Resolve.Again.{Answers, resolve-again}
use tagwise_identity_protoco.Api.Resolve.Fresh.{resolve-apply}
use tagwise_identity_protoco.Api.Profile.{
  UpdateIdentityRequest, ProvidedFields, update_identity, update_of, to_identity_response,
  find_active_identity, check_text,
}
use tagwise_identity_protoco.Api.Naming.{availability, available, Available, availability_iff}
use tagwise_identity_protoco.Tests.{
  ascii_case, plain_solana, program_id, owner, wallet, alice, broken_engine, change_at, alice_row,
}
use tagwise_identity_protoco.Tests.Codec.{codec}

abbrev pub config : Config
config = record {
  redis_key_prefix = codes "tip:";
  payment_link_base_url = codes "https://tagwise.me";
  tip_registry_program_id = program_id;
  resolve_cache_ttl_seconds = 60;
  resolve_cache_negative_ttl_seconds = 10;
}

abbrev pub key : Text
key = build_resolve_cache_key (codes "tip:") alice

abbrev pub answer : ResolveResponse
answer = response_of (codes "https://tagwise.me") alice alice_row

abbrev pub empty : Bool × List (Text × Text)
empty = (true, [])

abbrev pub full : Bool × List (Text × Text)
full = (true, (key, raw_of memory codec (codes "tip:") 60 (value answer)) ∷ [])

set_full :
    set_ex key
      (raw_of memory codec (codes "tip:") 60 (value answer))
      (ttl_or_default memory codec (codes "tip:") 60 none)
      empty
    ≡ some full
unfolding set_ex
set_full = refl

get_full : get key full ≡ some (some (raw_of memory codec (codes "tip:") 60 (value answer)))
unfolding get lookup build_resolve_cache_key text_eq
get_full = refl

pub del_full : del key full ≡ some empty
unfolding del remove build_resolve_cache_key text_eq
del_full = refl

pub get_empty : get key empty ≡ some none
unfolding get lookup
get_empty = refl

alice_canonical : normalize_tag ascii_case alice ≡ accepted alice
unfolding normalize_tag lower_unit matches_allowed is_tag_unit
alice_canonical = refl

missed : cache_get memory codec (codes "tip:") 60 key empty ≡ miss
unfolding cache_get get lookup build_resolve_cache_key starts_with
missed = refl

abbrev pub no_chain : Text → Option (Option Text)
no_chain address = some none

resolve-Source_example :
    (((resolve Memory.memory memory codec config ascii_case plain_solana no_chain alice
          (alice_row ∷ [])
          empty).0
        ≡ err not_found)
      × ((row : Identity)
          → ¬ Source ascii_case plain_solana no_chain config alice alice_canonical refl
              (Memory.find (alice_row ∷ []) alice)
              row))
    ⊎ ((row : Identity) × Source ascii_case plain_solana no_chain config alice alice_canonical refl
          (Memory.find (alice_row ∷ []) alice)
          row
        × ((resolve Memory.memory memory codec config ascii_case plain_solana no_chain alice
              (alice_row ∷ [])
              empty).0
            ≡ ok (response_of (codes "https://tagwise.me") alice row)))
resolve-Source_example =
    resolve-Source ascii_case plain_solana no_chain config alice alice_canonical refl Memory.memory
      memory codec (alice_row ∷ []) empty missed

empty-Answers :
    Answers ascii_case plain_solana config Memory.memory memory codec alice alice_canonical refl
      empty
unfolding set_ex get
empty-Answers = record {
  stores = λ v ttl. ((true, (key, v) ∷ []), refl);
  gets = λ v ttl s' h.
      subst (λ (x : Bool × List (Text × Text)). (raw : Option Text) × (get key x ≡ some raw))
        (same v s' h) (lookup ((key, v) ∷ []) key, refl);
}
  where
    same :
        (v : Text) (s' : Bool × List (Text × Text))
        → some (true, (key, v) ∷ []) ≡ some s'
        → (true, (key, v) ∷ []) ≡ s'
    same v s' h = cc h

resolve-again_example :
    (resolve Memory.memory memory codec config ascii_case plain_solana no_chain alice []
      (resolve Memory.memory memory codec config ascii_case plain_solana no_chain alice
        (alice_row ∷ [])
        empty).1).0
    ≡ (resolve Memory.memory memory codec config ascii_case plain_solana no_chain alice
        (alice_row ∷ [])
        empty).0
resolve-again_example =
    resolve-again ascii_case plain_solana config Memory.memory memory codec alice alice_canonical
      refl no_chain no_chain (alice_row ∷ []) [] empty missed empty-Answers

abbrev pub before :
    World Memory.memory Memory.memory_cursor (redis_cache_invalidator memory (codes "tip:"))
before = record { identities = alice_row ∷ []; cursor = some 2; cache = full }

abbrev pub after :
    World Memory.memory Memory.memory_cursor (redis_cache_invalidator memory (codes "tip:"))
after = record {
  identities = written (update_data false (change_at 5)) alice_row ∷ [];
  cursor = some 2;
  cache = empty;
}

pub ran :
    apply_change Memory.memory Memory.memory_cursor
      (redis_cache_invalidator memory (codes "tip:"))
      ascii_case
      broken_engine
      (change_at 5)
      before
    ≡ some (updated, after)
unfolding apply_change after_update should_block_tag is_blocked_name check_content
    contains_blocked_content member text_eq lower_unit Memory.update invalidate del remove
    build_resolve_cache_key
ran = refl

pub wrote : updated ≢ skipped_stale
wrote h = absurd (cc h)

resolve-apply_example :
    (((resolve Memory.memory memory codec config ascii_case plain_solana no_chain alice
          after.identities empty).0
        ≡ err not_found)
      ⊎ ((v : ResolveResponse) × ((resolve Memory.memory memory codec config ascii_case plain_solana
              no_chain alice after.identities empty).0
            ≡ ok v)
          × (v.wallet ≡ wallet)))
    × (should_block_tag ascii_case broken_engine alice ≡ true
        → (resolve Memory.memory memory codec config ascii_case plain_solana no_chain alice
            after.identities empty).0
          ≡ err not_found)
resolve-apply_example =
    resolve-apply ascii_case plain_solana broken_engine config Memory.memory Memory.memory_cursor
      memory codec (change_at 5) alice_canonical refl no_chain before after updated empty none ran
      wrote del_full get_empty

-- An engine that finds nothing.
abbrev pub mild_engine : Engine
mild_engine _ = some false

abbrev pub request : UpdateIdentityRequest
request = record {
  display_name = none;
  avatar = none;
  bio = none;
  preferred_token = some (codes "USDC");
}

abbrev pub token_only : ProvidedFields
token_only = record { display_name = false; avatar = true; bio = false; preferred_token = true }

abbrev pub new_row : Identity
new_row = written (update_of request token_only) alice_row

pub updates :
    update_identity Memory.memory memory codec config ascii_case mild_engine alice owner request
      token_only
      (alice_row ∷ [])
      full
    ≡ ok (to_identity_response alice new_row, new_row ∷ [], empty)
unfolding update_identity find_active_identity check_text Memory.update_one Memory.find text_eq
    cache_delete del remove is_resolve_key starts_with build_resolve_cache_key is_active
updates = refl

availability_iff_example :
    (availability ascii_case mild_engine Memory.memory (alice_row ∷ []) (codes "@Bob")
      ≡ some (codes "@bob", available))
    ↔ Available ascii_case mild_engine Memory.memory (alice_row ∷ []) (codes "@Bob") (codes "@bob")
availability_iff_example =
    availability_iff ascii_case mild_engine Memory.memory (alice_row ∷ []) (codes "@Bob")
      (codes "@bob")
