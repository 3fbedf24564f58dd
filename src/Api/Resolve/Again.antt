-- ===== src/Api/Resolve/Again.antt =====
-- tags.service.ts: resolving through the cache, for a repeated request.
use tagwise_identity_protoco.Prelude.{
  ℕ, Text, CaseMap, true, Option, none, some, Result, ok, ◌≡◌, refl, ap, sym, ◌∙◌, inl, inr,
}
use tagwise_identity_protoco.Solana.{Bytes, Solana}
use tagwise_identity_protoco.Core.Normalize.{accepted, normalize_tag}
use tagwise_identity_protoco.Core.CacheKey.{build_resolve_cache_key}
use tagwise_identity_protoco.Mirror.{IdentityTable}
use tagwise_identity_protoco.Redis.{Redis}
use tagwise_identity_protoco.Cache.{
  Json, Cached, miss, negative, hit, Entry, cache_negative, value, cache_get, cache_set, raw_of,
  ttl_or_default, reads_as,
}
use tagwise_identity_protoco.Cache.Laws.{get-set}
use tagwise_identity_protoco.Api.{HttpError}
use tagwise_identity_protoco.Api.Resolve.{
  Config, Choice, ResolveResponse, response_of, choose_row, answer, resolve_uncached,
  resolve_cached, resolve,
}
use tagwise_identity_protoco.Api.Resolve.Laws.{chosen}

module _ (u : CaseMap) (sol : Solana) (config : Config) (d : IdentityTable) (r : Redis)
    (json : Json ResolveResponse) (tag : Text) (canonical : normalize_tag u tag ≡ accepted tag)
    (valid : sol.is_address config.tip_registry_program_id ≡ true) where
  abbrev key : Text
  key = build_resolve_cache_key config.redis_key_prefix tag

  -- The server stores an entry under the key, and then answers.
  pub record Answers (s : r.Store) : Type 0 where
    pub stores : (v : Text) (ttl : ℕ) → (s' : r.Store) × (r.set_ex key v ttl s ≡ some s')
    pub gets :
        (v : Text) (ttl : ℕ) (s' : r.Store)
        → r.set_ex key v ttl s ≡ some s'
        → (raw : Option Text) × (r.get key s' ≡ some raw)

  entry_read :
      (e : Entry ResolveResponse) (ttl : Option ℕ) (s : r.Store)
      → Answers s
      → cache_get r json config.redis_key_prefix config.resolve_cache_ttl_seconds key
          (cache_set r json config.redis_key_prefix config.resolve_cache_ttl_seconds key e ttl s)
        ≡ reads_as e
  entry_read e ttl s up =
      let (s', stored) =
        up.stores (raw_of r json config.redis_key_prefix config.resolve_cache_ttl_seconds e)
          (ttl_or_default r json config.redis_key_prefix config.resolve_cache_ttl_seconds ttl) in
      let (raw, answered) = up.gets _ _ s' stored in
      (get-set r json config.redis_key_prefix config.resolve_cache_ttl_seconds tag e ttl s s' raw
        stored answered).0

  -- Until its entry goes, a request that missed the cache is answered in the same way again,
  -- whatever the mirror and the chain say by then: an answer of 404 is kept as well.
  pub resolve-again :
      (rpc rpc' : Text → Option (Option Bytes)) (table table' : d.Table) (s : r.Store)
      → cache_get r json config.redis_key_prefix config.resolve_cache_ttl_seconds key s ≡ miss
      → Answers s
      → (resolve d r json config u sol rpc' tag table'
          (resolve d r json config u sol rpc tag table s).1).0
        ≡ (resolve d r json config u sol rpc tag table s).0
  unfolding resolve answer
  resolve-again rpc rpc' table table' s missed up =
      elim (chosen u sol rpc config tag canonical valid (d.find_unique table tag)) [
        | inl (e, _) ↦
            again (answer d r json config tag (ok none) s)
              (first ∙ ap (λ (c : Choice). answer d r json config tag c s) e) negative
              (entry_read cache_negative (some config.resolve_cache_negative_ttl_seconds) s up) refl
        | inr (row, ttl, e, _) ↦
            again (answer d r json config tag (ok (some (row, ttl))) s)
              (first ∙ ap (λ (c : Choice). answer d r json config tag c s) e)
              (hit (response_of config.payment_link_base_url tag row))
              (entry_read (value (response_of config.payment_link_base_url tag row)) ttl s up) refl
      ]
    where
      first :
          resolve d r json config u sol rpc tag table s
          ≡ answer d r json config tag (choose_row u sol rpc config tag (d.find_unique table tag)) s
      first =
          ap
            (λ (c : Cached ResolveResponse).
              resolve_cached d r json config c
                (resolve_uncached d r json config u sol rpc tag table s) s)
            missed

      again :
          (out : Result HttpError ResolveResponse × r.Store)
          → resolve d r json config u sol rpc tag table s ≡ out
          → (c : Cached ResolveResponse)
          → cache_get r json config.redis_key_prefix config.resolve_cache_ttl_seconds key out.1 ≡ c
          → (resolve_cached d r json config c
              (resolve_uncached d r json config u sol rpc' tag table' out.1)
              out.1).0
            ≡ out.0
          → (resolve d r json config u sol rpc' tag table'
              (resolve d r json config u sol rpc tag table s).1).0
            ≡ (resolve d r json config u sol rpc tag table s).0
      again out e c read same =
          ap
            (λ (x : Result HttpError ResolveResponse × r.Store).
              (resolve d r json config u sol rpc' tag table' x.1).0)
            e
          ∙ ap
              (λ (x : Cached ResolveResponse).
                (resolve_cached d r json config x
                  (resolve_uncached d r json config u sol rpc' tag table' out.1) out.1).0)
              read
          ∙ same
          ∙ sym (ap (λ (x : Result HttpError ResolveResponse × r.Store). x.0) e)
