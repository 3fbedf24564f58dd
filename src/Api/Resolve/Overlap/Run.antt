-- ===== src/Api/Resolve/Overlap/Run.antt =====
-- tags.service.ts and apply-change.ts: overlapping lookups of a tag after a change of it.
use tagwise_identity_protoco.Prelude.{
  Text, CaseMap, Bool, true, false, [], Option, none, some, All, All-map, ok, err, ◌≡◌, ◌≢◌, refl,
  ap, ◌∙◌, ◌⊎◌, inl, inr, Option-cases, if◌then◌else◌,
}
use tagwise_identity_protoco.Solana.{Bytes, Solana}
use tagwise_identity_protoco.Core.CacheKey.{build_resolve_cache_key}
use tagwise_identity_protoco.Mirror.{Identity, IdentityTable, CursorTable, is_active}
use tagwise_identity_protoco.Moderation.Profanity.{Engine}
use tagwise_identity_protoco.Redis.{Redis}
use tagwise_identity_protoco.Cache.{
  Json, Cached, miss, Entry, cache_negative, value, reads_as, cache_get, raw_of, opened, decode_raw,
  invalidate, redis_cache_invalidator, after_del,
}
use tagwise_identity_protoco.Cache.Laws.{get_resolve, decode_raw-raw_of}
use tagwise_identity_protoco.Indexer.Apply.{
  VerifiedTagChange, ApplyOutcome, World, should_block_tag, apply_change,
}
use tagwise_identity_protoco.Indexer.Apply
use tagwise_identity_protoco.Indexer.Apply.Laws.{row_after, Applied-of_run}
use tagwise_identity_protoco.Api.{not_found}
use tagwise_identity_protoco.Api.Resolve.{
  Choice, Config, ResolveResponse, response_of, answer, resolve_uncached, resolve_cached, resolve,
}
use tagwise_identity_protoco.Api.Resolve.Fresh.{cache_dropped}
use tagwise_identity_protoco.Api.Resolve.Overlap.{
  choice_of, said_of, entry_of, Overlap, Quiet, Fresh,
}
use tagwise_identity_protoco.Api.Resolve.Overlap.Laws.{answer_of_choice, chosen_stored, Quiet-Fresh}

module _ (u : CaseMap) (sol : Solana) (config : Config) (d : IdentityTable) (r : Redis)
    (json : Json ResolveResponse) (tag : Text) where
  abbrev key : Text
  key = build_resolve_cache_key config.redis_key_prefix tag

  abbrev get_at : r.Store → Cached ResolveResponse
  get_at = cache_get r json config.redis_key_prefix config.resolve_cache_ttl_seconds key

  read_none : (s : r.Store) → r.read s key ≡ none → get_at s ≡ miss
  unfolding opened decode_raw
  read_none s h = elim (Option-cases (r.get key s)) [
    | inl failed ↦
        get_resolve r json config.redis_key_prefix config.resolve_cache_ttl_seconds tag s
        ∙ ap (opened r json config.redis_key_prefix config.resolve_cache_ttl_seconds) failed
    | inr (raw, answered) ↦
        get_resolve r json config.redis_key_prefix config.resolve_cache_ttl_seconds tag s
        ∙ ap (opened r json config.redis_key_prefix config.resolve_cache_ttl_seconds) answered
        ∙ ap (decode_raw r json config.redis_key_prefix config.resolve_cache_ttl_seconds)
            (r.get_read key s answered ∙ h)
  ]

  read_entry :
      (e : Entry ResolveResponse) (s : r.Store)
      → r.read s key
        ≡ some (raw_of r json config.redis_key_prefix config.resolve_cache_ttl_seconds e)
      → (get_at s ≡ miss) ⊎ (get_at s ≡ reads_as e)
  unfolding opened
  read_entry e s h = elim (Option-cases (r.get key s)) [
    | inl failed ↦ inl (
        get_resolve r json config.redis_key_prefix config.resolve_cache_ttl_seconds tag s
        ∙ ap (opened r json config.redis_key_prefix config.resolve_cache_ttl_seconds) failed)
    | inr (raw, answered) ↦ inr (
        get_resolve r json config.redis_key_prefix config.resolve_cache_ttl_seconds tag s
        ∙ ap (opened r json config.redis_key_prefix config.resolve_cache_ttl_seconds) answered
        ∙ ap (decode_raw r json config.redis_key_prefix config.resolve_cache_ttl_seconds)
            (r.get_read key s answered ∙ h)
        ∙ decode_raw-raw_of r json config.redis_key_prefix config.resolve_cache_ttl_seconds e)
  ]

  -- What a request is answered with, by what it finds under the key.
  resolve-at :
      (rpc : Text → Option (Option Bytes)) (row : Identity) (s : Overlap d r)
      → Fresh u sol config d r json tag row s
      → (resolve d r json config u sol rpc tag s.table s.store).0
        ≡ said_of config.payment_link_base_url tag row
  unfolding resolve resolve_cached resolve_uncached
  resolve-at rpc row s h = elim h.cached [
    | inl e ↦ by_cached miss (read_none s.store e) from_row
    | inr e ↦ elim (read_entry (entry_of config.payment_link_base_url tag row) s.store e) [
      | inl e' ↦ by_cached miss e' from_row
      | inr e' ↦
          by_cached (reads_as (entry_of config.payment_link_base_url tag row)) e'
            (from_entry (is_active row))
    ]
  ]
    where
      by_cached :
          (c : Cached ResolveResponse)
          → get_at s.store ≡ c
          → (resolve_cached d r json config c
              (resolve_uncached d r json config u sol rpc tag s.table s.store)
              s.store).0
            ≡ said_of config.payment_link_base_url tag row
          → (resolve d r json config u sol rpc tag s.table s.store).0
            ≡ said_of config.payment_link_base_url tag row
      by_cached c e said =
          ap
            (λ (x : Cached ResolveResponse).
              (resolve_cached d r json config x
                (resolve_uncached d r json config u sol rpc tag s.table s.store) s.store).0)
            e
          ∙ said

      from_row :
          (resolve_uncached d r json config u sol rpc tag s.table s.store).0
          ≡ said_of config.payment_link_base_url tag row
      from_row =
          ap (λ (c : Choice). (answer d r json config tag c s.store).0)
            (chosen_stored u sol config d r json tag rpc s.table row h.stored)
          ∙ (answer_of_choice u sol config d r json tag row s.store).0

      from_entry :
          (b : Bool)
          → (resolve_cached d r json config
              (reads_as (
                if b
                then value (response_of config.payment_link_base_url tag row)
                else cache_negative))
              (resolve_uncached d r json config u sol rpc tag s.table s.store)
              s.store).0
            ≡ (if b then ok (response_of config.payment_link_base_url tag row) else err not_found)
      from_entry true = refl
      from_entry false = refl

-- When the indexer has applied a change, its deletion of the cache entry succeeded and no lookup of
-- the tag was under way, then lookups of the tag may overlap in any order, with other changes of
-- the store and of other rows between their steps: until the row is written again, each request
-- that is made, and each lookup that has read and not yet answered, is answered with the new row,
-- or with 404 where the new row is not active.
pub resolve-Quiet :
    (u : CaseMap) (sol : Solana) (engine : Engine) (config : Config) (d : IdentityTable)
    (k : CursorTable) (r : Redis) (json : Json ResolveResponse) (change : VerifiedTagChange)
    (w w' : World d k (redis_cache_invalidator r config.redis_key_prefix)) (outcome : ApplyOutcome)
    (s : r.Store) (s' : Overlap d r) (rpc : Text → Option (Option Bytes))
    → apply_change d k (redis_cache_invalidator r config.redis_key_prefix) u engine change w
      ≡ some (outcome, w')
    → outcome ≢ Apply.skipped_stale
    → r.del (build_resolve_cache_key config.redis_key_prefix change.tag) w.cache ≡ some s
    → Quiet u sol config d r json change.tag
        (record { table = w'.identities; store = w'.cache; reading = [] })
        s'
    → ((resolve d r json config u sol rpc change.tag s'.table s'.store).0
        ≡ said_of config.payment_link_base_url change.tag (
            row_after
              (should_block_tag u engine change.tag)
              change
              (d.fresh w.identities)
              (d.find_unique w.identities change.tag)))
      × All
          (λ (c : Choice).
            (answer d r json config change.tag c s'.store).0
            ≡ said_of config.payment_link_base_url change.tag (
                row_after
                  (should_block_tag u engine change.tag)
                  change
                  (d.fresh w.identities)
                  (d.find_unique w.identities change.tag)))
          s'.reading
unfolding invalidate after_del
resolve-Quiet u sol engine config d k r json change w w' outcome s s' rpc h wrote deleted steps = (
  resolve-at u sol config d r json change.tag rpc new s' fresh,
  All-map
      (λ (c : Choice) (is : c ≡ choice_of new).
        ap (λ (x : Choice). (answer d r json config change.tag x s'.store).0) is
        ∙ (answer_of_choice u sol config d r json change.tag new s'.store).0)
      s'.reading fresh.pending,
)
  where
    new : Identity
    new =
        row_after (should_block_tag u engine change.tag) change (d.fresh w.identities)
          (d.find_unique w.identities change.tag)

    fresh : Fresh u sol config d r json change.tag new s'
    fresh =
        let run =
          Applied-of_run d k (redis_cache_invalidator r config.redis_key_prefix) u engine change w
            w' outcome h in
        Quiet-Fresh u sol config d r json change.tag new steps (record {
          stored = run.row_eq;
          pending = tt;
          cached = inl (
              ap
                (λ (x : r.Store).
                  r.read x (build_resolve_cache_key config.redis_key_prefix change.tag))
                (run.cache_eq
                  ∙ cache_dropped r config.redis_key_prefix change.tag outcome w.cache wrote
                  ∙ ap (after_del r w.cache) deleted)
              ∙ (r.del_read (build_resolve_cache_key config.redis_key_prefix change.tag) w.cache
                  deleted).0);
        })
