-- ===== src/Api/Resolve/Fresh.antt =====
-- Resolving through the cache after the indexer has mirrored a change.
use tagwise_identity_protoco.Prelude.{
  ℕ, Text, CaseMap, Bool, true, false, Option, none, some, ok, err, ◌≡◌, ◌≢◌, refl, ap, ◌∙◌, ◌⊎◌,
  inl, inr, arith, subst,
}
use tagwise_identity_protoco.Solana.{Bytes, Solana}
use tagwise_identity_protoco.Core.Normalize.{accepted, normalize_tag}
use tagwise_identity_protoco.Core.CacheKey.{build_resolve_cache_key}
use tagwise_identity_protoco.Mirror.{Identity, IdentityTable, CursorTable, is_active}
use tagwise_identity_protoco.Moderation.Profanity.{Engine}
use tagwise_identity_protoco.Redis.{Redis}
use tagwise_identity_protoco.Cache.{Json, miss, cache_get, invalidate, redis_cache_invalidator}
use tagwise_identity_protoco.Cache.Laws.{get-invalidate}
use tagwise_identity_protoco.Indexer.Apply.{
  VerifiedTagChange, ApplyOutcome, World, should_block_tag, apply_change, update_data, create_data,
  not_newer,
}
use tagwise_identity_protoco.Indexer.Apply
use tagwise_identity_protoco.Indexer.Apply.Laws.{
  row_after, outcome_of, cache_after, Applied, Applied-of_run,
}
use tagwise_identity_protoco.Api.{not_found}
use tagwise_identity_protoco.Api.Resolve.{Config, ResolveResponse, response_of, resolve}
use tagwise_identity_protoco.Api.Resolve.Laws.{Source, resolve-Source}

wrote_wallet :
    (blocked : Bool) (change : VerifiedTagChange) (fresh : Text × ℕ) (o : Option Identity)
    → outcome_of change o ≢ Apply.skipped_stale
    → ((row_after blocked change fresh o).wallet ≡ change.wallet)
      × (blocked ≡ true → is_active (row_after blocked change fresh o) ≡ false)
unfolding row_after outcome_of is_active
wrote_wallet blocked change fresh none h = (refl, λ b. ground (arith, b))
wrote_wallet blocked change fresh (some row) h = (ground (arith, h), λ b. ground (arith, b, h))

pub cache_dropped :
    (r : Redis) (prefix tag : Text) (outcome : ApplyOutcome) (s : r.Store)
    → outcome ≢ Apply.skipped_stale
    → cache_after (redis_cache_invalidator r prefix) tag outcome s ≡ invalidate r prefix tag s
unfolding cache_after
cache_dropped r prefix tag Apply.created s h = refl
cache_dropped r prefix tag Apply.updated s h = refl
cache_dropped r prefix tag Apply.skipped_stale s h = absurd (h refl)

module _ (u : CaseMap) (sol : Solana) (engine : Engine) (config : Config) (d : IdentityTable)
    (k : CursorTable) (r : Redis) (json : Json ResolveResponse) (change : VerifiedTagChange)
    (canonical : normalize_tag u change.tag ≡ accepted change.tag)
    (valid : sol.is_address config.tip_registry_program_id ≡ true) where
  -- The reader misses after a change that was applied.
  pub get-apply_change :
      (w w' : World d k (redis_cache_invalidator r config.redis_key_prefix))
      (outcome : ApplyOutcome) (s : r.Store) (raw : Option Text)
      → apply_change d k (redis_cache_invalidator r config.redis_key_prefix) u engine change w
        ≡ some (outcome, w')
      → outcome ≢ Apply.skipped_stale
      → r.del (build_resolve_cache_key config.redis_key_prefix change.tag) w.cache ≡ some s
      → r.get (build_resolve_cache_key config.redis_key_prefix change.tag) s ≡ some raw
      → cache_get r json config.redis_key_prefix config.resolve_cache_ttl_seconds
          (build_resolve_cache_key config.redis_key_prefix change.tag)
          w'.cache
        ≡ miss
  get-apply_change w w' outcome s raw h wrote deleted answered =
      let run =
        Applied-of_run d k (redis_cache_invalidator r config.redis_key_prefix) u engine change w w'
          outcome h in
      ap
        (cache_get r json config.redis_key_prefix config.resolve_cache_ttl_seconds
          (build_resolve_cache_key config.redis_key_prefix change.tag))
        (run.cache_eq ∙ cache_dropped r config.redis_key_prefix change.tag outcome w.cache wrote)
      ∙ (get-invalidate r json config.redis_key_prefix config.resolve_cache_ttl_seconds change.tag
          w.cache s raw deleted answered).0

  -- When the indexer has applied a change and its deletion of the cache entry succeeded, the next
  -- request for the tag answers with the new wallet, or with 404, and with 404 where the change
  -- blocked the tag: whatever the cache held before, no older wallet is served.
  pub resolve-apply :
      (rpc : Text → Option (Option Bytes))
      (w w' : World d k (redis_cache_invalidator r config.redis_key_prefix))
      (outcome : ApplyOutcome) (s : r.Store) (raw : Option Text)
      → apply_change d k (redis_cache_invalidator r config.redis_key_prefix) u engine change w
        ≡ some (outcome, w')
      → outcome ≢ Apply.skipped_stale
      → r.del (build_resolve_cache_key config.redis_key_prefix change.tag) w.cache ≡ some s
      → r.get (build_resolve_cache_key config.redis_key_prefix change.tag) s ≡ some raw
      → (((resolve d r json config u sol rpc change.tag w'.identities w'.cache).0 ≡ err not_found)
          ⊎ ((v : ResolveResponse) × ((resolve d r json config u sol rpc change.tag w'.identities
                  w'.cache).0
                ≡ ok v)
              × (v.wallet ≡ change.wallet)))
        × (should_block_tag u engine change.tag ≡ true
            → (resolve d r json config u sol rpc change.tag w'.identities w'.cache).0
              ≡ err not_found)
  unfolding Source response_of
  resolve-apply rpc w w' outcome s raw h wrote deleted answered =
      elim (resolve-Source u sol rpc config change.tag canonical valid d r json w'.identities
        w'.cache (get-apply_change w w' outcome s raw h wrote deleted answered)) [
          | inl (e, _) ↦ (inl e, λ _. e)
          | inr (row, source, e) ↦
              let (live, same) = at_row row source in
              (
                inr (
                  response_of config.payment_link_base_url change.tag row,
                  e,
                  ap (λ (x : Identity). x.wallet) same ∙ facts.0,
                ),
                λ b. absurd (cc (live, facts.1 b)),
              )
        ]
    where
      run :
          Applied d k
            (redis_cache_invalidator r config.redis_key_prefix)
            (should_block_tag u engine change.tag)
            change
            w
            outcome
            w'
      run =
          Applied-of_run d k (redis_cache_invalidator r config.redis_key_prefix) u engine change w
            w' outcome h

      old : Option Identity
      old = d.find_unique w.identities change.tag

      new : Identity
      new =
          row_after (should_block_tag u engine change.tag) change (d.fresh w.identities)
            (d.find_unique w.identities change.tag)

      facts :
          (new.wallet ≡ change.wallet)
          × (should_block_tag u engine change.tag ≡ true → is_active new ≡ false)
      facts =
          wrote_wallet (should_block_tag u engine change.tag) change (d.fresh w.identities)
            (d.find_unique w.identities change.tag) (λ x. wrote (run.outcome_eq ∙ x))

      at_row :
          (row : Identity)
          → Source u sol rpc config change.tag canonical valid
              (d.find_unique w'.identities change.tag)
              row
          → (is_active new ≡ true) × (row ≡ new)
      at_row row source =
          subst (λ (o : Option Identity). Source u sol rpc config change.tag canonical valid o row)
            run.row_eq source
