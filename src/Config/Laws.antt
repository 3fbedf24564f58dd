-- ===== src/Config/Laws.antt =====
-- config.ts and config.service.ts: when a process starts, and whether the two share their keys.
use tagwise_identity_protoco.Prelude.{
  ℕ, Text, codes, true, Option, none, some, truthy, ◌++◌, length, length-append, take,
  take-append_left, Result, ok, >>=-eq-ok, ◌≡◌, ◌≢◌, ◌↔◌, ◌⊎◌, inl, inr, refl, ap, sym, ◌∙◌, arith,
  Bool-cases,
}
use tagwise_identity_protoco.Core.CacheKey.{build_resolve_cache_key}
use tagwise_identity_protoco.Redis.{Redis}
use tagwise_identity_protoco.Cache.{
  Json, miss, decode_raw, opened, cache_get, invalidate, after_del,
}
use tagwise_identity_protoco.Cache.Laws.{get-invalidate, get_resolve}
use tagwise_identity_protoco.Config.{
  Env, ConfigError, given_or_missing, require_env, or_default, prefix_of, IndexerConfig,
  urls_or_helius, resolve_rpc_urls, is_commitment, resolve_commitment, load_config, AppConfig,
  app_config,
}

-- A variable is set to a text that is not empty.
abbrev pub Given : Env → Text → Type 0
Given env name = (value : Text) × (truthy (env name) ≡ some value)

-- What the indexer asks of its environment.
pub record Complete (env : Env) : Type 0 where
  pub endpoints :
      (Given env (codes "RPC_HTTP_URL") × Given env (codes "RPC_WSS_URL"))
      ⊎ Given env (codes "HELIUS_API_KEY")
  pub program_id : Given env (codes "TIP_REGISTRY_PROGRAM_ID")
  pub database_url : Given env (codes "DATABASE_URL")
  pub redis_url : Given env (codes "REDIS_URL")
  pub commitment : is_commitment (or_default (codes "finalized") (env (codes "COMMITMENT"))) ≡ true

require_env_inv :
    (env : Env) (name : Text) {t : Text} → require_env env name ≡ ok t → Given env name
unfolding require_env
require_env_inv env name {t} h = of (truthy (env name)) h
  where
    of : (o : Option Text) → given_or_missing name o ≡ ok t → (value : Text) × (o ≡ some value)
    of none k = absurd (cc k)
    of (some value) k = (value, refl)

urls_inv :
    (http wss key : Option Text) {urls : Text × Text}
    → urls_or_helius http wss key ≡ ok urls
    → (((a : Text) × (http ≡ some a)) × ((b : Text) × (wss ≡ some b)))
      ⊎ ((k : Text) × (key ≡ some k))
urls_inv (some a) (some b) key h = inl ((a, refl), (b, refl))
urls_inv (some a) none none h = absurd (cc h)
urls_inv (some a) none (some k) h = inr (k, refl)
urls_inv none wss none h = absurd (cc h)
urls_inv none wss (some k) h = inr (k, refl)

urls_found :
    (http wss key : Option Text)
    → ((((a : Text) × (http ≡ some a)) × ((b : Text) × (wss ≡ some b)))
        ⊎ ((k : Text) × (key ≡ some k)))
    → (urls : Text × Text) × (urls_or_helius http wss key ≡ ok urls)
urls_found (some a) (some b) key h = ((a, b), refl)
urls_found (some a) none key (inl (_, (_, e))) = absurd (cc e)
urls_found (some a) none none (inr (_, e)) = absurd (cc e)
urls_found (some a) none (some k) (inr e) = (_, refl)
urls_found none wss key (inl ((_, e), _)) = absurd (cc e)
urls_found none wss none (inr (_, e)) = absurd (cc e)
urls_found none wss (some k) (inr e) = (_, refl)

commitment_inv :
    (env : Env) {t : Text}
    → resolve_commitment env ≡ ok t
    → is_commitment (or_default (codes "finalized") (env (codes "COMMITMENT"))) ≡ true
unfolding resolve_commitment
commitment_inv env {t} h =
    elim (Bool-cases (is_commitment (or_default (codes "finalized") (env (codes "COMMITMENT"))))) [
      | inl e ↦ e
      | inr e ↦ absurd (ground (arith, h, e))
    ]

required : (env : Env) (name : Text) → (g : Given env name) → require_env env name ≡ ok g.0
unfolding require_env
required env name (value, e) = ap (given_or_missing name) e

loaded_prefix :
    (env : Env) {i : IndexerConfig}
    → load_config env ≡ ok i
    → Complete env × (i.redis_key_prefix ≡ prefix_of env)
unfolding load_config resolve_rpc_urls
loaded_prefix env {i} h =
    let (urls, e1, h1) = >>=-eq-ok (resolve_rpc_urls env) _ h in
    let (program_id, e2, h2) = >>=-eq-ok (require_env env (codes "TIP_REGISTRY_PROGRAM_ID")) _ h1 in
    let (database_url, e3, h3) = >>=-eq-ok (require_env env (codes "DATABASE_URL")) _ h2 in
    let (commitment, e4, h4) = >>=-eq-ok (resolve_commitment env) _ h3 in
    let (redis_url, e5, h5) = >>=-eq-ok (require_env env (codes "REDIS_URL")) _ h4 in
    (
      record {
        endpoints = urls_inv _ _ _ e1;
        program_id = require_env_inv env (codes "TIP_REGISTRY_PROGRAM_ID") e2;
        database_url = require_env_inv env (codes "DATABASE_URL") e3;
        redis_url = require_env_inv env (codes "REDIS_URL") e5;
        commitment = commitment_inv env e4;
      },
      prefix h5,
    )
  where
    prefix :
        {c : IndexerConfig}
        → ◌≡◌ {A = Result ConfigError IndexerConfig} (ok c) (ok i)
        → i.redis_key_prefix ≡ c.redis_key_prefix
    prefix k = cc k

-- The indexer's configuration loads exactly when both RPC URLs are given or the key of Helius is, the
-- three required variables are given, and the commitment is absent or one of the three levels.
pub load_config_iff : (env : Env) → ((i : IndexerConfig) × (load_config env ≡ ok i)) ↔ Complete env
unfolding load_config resolve_rpc_urls resolve_commitment
load_config_iff env = (λ (i, h). (loaded_prefix env h).0, loads)
  where
    loads : Complete env → (i : IndexerConfig) × (load_config env ≡ ok i)
    loads c =
        let (urls, e) = urls_found _ _ _ c.endpoints in
        let program = required env (codes "TIP_REGISTRY_PROGRAM_ID") c.program_id in
        let database = required env (codes "DATABASE_URL") c.database_url in
        let redis = required env (codes "REDIS_URL") c.redis_url in
        let made : IndexerConfig = record {
          rpc_http_url = urls.0;
          rpc_wss_url = urls.1;
          program_id = c.program_id.0;
          database_url = c.database_url.0;
          commitment = or_default (codes "finalized") (env (codes "COMMITMENT"));
          reconcile_cron = or_default (codes "0 3 * * *") (env (codes "RECONCILE_CRON"));
          redis_url = c.redis_url.0;
          redis_key_prefix = prefix_of env;
        } in
        (made, simp (e, program, database, c.commitment, redis))

app_prefix :
    {Num : Type 0} (to_number : Text → Num) (env : Env) {a : AppConfig Num}
    → app_config to_number env ≡ ok a
    → a.redis_key_prefix ≡ prefix_of env
unfolding app_config
app_prefix {Num} to_number env {a} h =
    let (_, _, h1) = >>=-eq-ok (require_env env (codes "DATABASE_URL")) _ h in
    let (_, _, h2) = >>=-eq-ok (require_env env (codes "JWT_SECRET")) _ h1 in
    let (_, _, h3) = >>=-eq-ok (require_env env (codes "TIP_REGISTRY_PROGRAM_ID")) _ h2 in
    let (_, _, h4) = >>=-eq-ok (require_env env (codes "REDIS_URL")) _ h3 in prefix h4
  where
    prefix :
        {c : AppConfig Num}
        → ◌≡◌ {A = Result ConfigError (AppConfig Num)} (ok c) (ok a)
        → a.redis_key_prefix ≡ c.redis_key_prefix
    prefix k = cc k

append_cancel : (p q k : Text) → p ++ k ≡ q ++ k → p ≡ q
append_cancel p q k e =
    sym (take-append_left (length p) p k refl)
    ∙ ap (take (length p)) e
    ∙ take-append_left (length p) q k
        (omega (arith, ap length e, length-append p k, length-append q k))

key_prefix :
    (p q tag : Text) → build_resolve_cache_key p tag ≡ build_resolve_cache_key q tag → p ≡ q
unfolding build_resolve_cache_key
key_prefix p q tag e = append_cancel p q (codes "resolve:" ++ tag) e

-- Two processes that were configured from their environments, where the indexer's DEL
-- succeeded and the API's GET is answered: if
-- REDIS_KEY_PREFIX is the same for both, the API's read of a tag misses after the indexer's
-- invalidation of it; if the prefixes differ, that invalidation changes nothing for the API, which
-- reads what it stored before.
pub configs-invalidate :
    {Num : Type 0} {T : Type 0} (to_number : Text → Num) (r : Redis) (json : Json T)
    (default_ttl : ℕ) (env env' : Env) (i : IndexerConfig) (a : AppConfig Num) (tag : Text)
    (s s' : r.Store) (raw : Option Text)
    → load_config env ≡ ok i
    → app_config to_number env' ≡ ok a
    → r.del (build_resolve_cache_key i.redis_key_prefix tag) s ≡ some s'
    → r.get (build_resolve_cache_key a.redis_key_prefix tag) s' ≡ some raw
    → (prefix_of env ≡ prefix_of env'
        → cache_get r json a.redis_key_prefix default_ttl
            (build_resolve_cache_key a.redis_key_prefix tag)
            (invalidate r i.redis_key_prefix tag s)
          ≡ miss)
      × (prefix_of env ≢ prefix_of env'
          → cache_get r json a.redis_key_prefix default_ttl
              (build_resolve_cache_key a.redis_key_prefix tag)
              (invalidate r i.redis_key_prefix tag s)
            ≡ decode_raw r json a.redis_key_prefix default_ttl
                (r.read s (build_resolve_cache_key a.redis_key_prefix tag)))
unfolding invalidate after_del opened
configs-invalidate to_number r json default_ttl env env' i a tag s s' raw loaded app deleted
      answered =
    (
      λ e.
          let shared = indexer_prefix ∙ e ∙ sym api_prefix in
          ap
            (λ (x : Text).
              cache_get r json a.redis_key_prefix default_ttl
                (build_resolve_cache_key a.redis_key_prefix tag) (invalidate r x tag s))
            shared
          ∙ (get-invalidate r json a.redis_key_prefix default_ttl tag s s' raw
              (ap (λ (x : Text). r.del (build_resolve_cache_key x tag) s) (sym shared) ∙ deleted)
              answered).0,
      λ apart.
          ap (λ (x : r.Store). cache_get r json a.redis_key_prefix default_ttl api_key x)
            (ap (after_del r s) deleted)
          ∙ get_resolve r json a.redis_key_prefix default_ttl tag s'
          ∙ ap (opened r json a.redis_key_prefix default_ttl) answered
          ∙ ap (decode_raw r json a.redis_key_prefix default_ttl) (
              r.get_read api_key s' answered
              ∙ (r.del_read (build_resolve_cache_key i.redis_key_prefix tag) s deleted).1 api_key
                  (λ e. apart (
                    sym indexer_prefix
                    ∙ sym (key_prefix a.redis_key_prefix i.redis_key_prefix tag e)
                    ∙ api_prefix))),
    )
  where
    api_key : Text
    api_key = build_resolve_cache_key a.redis_key_prefix tag

    indexer_prefix : i.redis_key_prefix ≡ prefix_of env
    indexer_prefix = (loaded_prefix env loaded).1

    api_prefix : a.redis_key_prefix ≡ prefix_of env'
    api_prefix = app_prefix to_number env' app
