-- ===== src/Tests/Config.antt =====
-- Runs of the theorems on the configuration.
use tagwise_identity_protoco.Prelude.{
  Text, codes, Bool, true, List, [], ◌∷◌, none, some, truthy, trim, trim_start, text_eq, ok, ◌≡◌,
  ◌≢◌, ◌↔◌, refl, inr,
}
use tagwise_identity_protoco.Core.CacheKey.{build_resolve_cache_key}
use tagwise_identity_protoco.Redis.Memory.{memory, lookup, get, del, remove}
use tagwise_identity_protoco.Cache.{miss, decode_raw, cache_get, invalidate}
use tagwise_identity_protoco.Config.{
  Env, IndexerConfig, AppConfig, prefix_of, require_env, resolve_rpc_urls, resolve_commitment,
  load_config, origins_of, split_commas, app_config,
}
use tagwise_identity_protoco.Config.Laws.{Complete, load_config_iff, configs-invalidate}
use tagwise_identity_protoco.Tests.{alice}
use tagwise_identity_protoco.Tests.Codec.{codec}

-- What one operator sets for both processes.
abbrev variables : List (Text × Text)
variables =
    (codes "HELIUS_API_KEY", codes "k")
    ∷ (codes "TIP_REGISTRY_PROGRAM_ID", codes "p")
    ∷ (codes "DATABASE_URL", codes "d")
    ∷ (codes "REDIS_URL", codes "r")
    ∷ (codes "JWT_SECRET", codes "s")
    ∷ []

abbrev env : Env
env name = lookup variables name

complete : Complete env
unfolding lookup text_eq truthy
complete = record {
  endpoints = inr (codes "k", refl);
  program_id = (codes "p", refl);
  database_url = (codes "d", refl);
  redis_url = (codes "r", refl);
  commitment = refl;
}

load_config_iff_example : ((i : IndexerConfig) × (load_config env ≡ ok i)) ↔ Complete env
load_config_iff_example = load_config_iff env

-- `Number`, with the texts themselves as the numbers.
abbrev to_number : Text → Text
to_number t = t

abbrev prefix : Text
prefix = codes "tip:"

abbrev loaded : IndexerConfig
loaded = record {
  rpc_http_url = codes "https://devnet.helius-rpc.com/?api-key=k";
  rpc_wss_url = codes "wss://devnet.helius-rpc.com/?api-key=k";
  program_id = codes "p";
  database_url = codes "d";
  commitment = codes "finalized";
  reconcile_cron = codes "0 3 * * *";
  redis_url = codes "r";
  redis_key_prefix = prefix;
}

loads : load_config env ≡ ok loaded
unfolding load_config resolve_rpc_urls require_env resolve_commitment lookup text_eq truthy
loads = refl

abbrev served : AppConfig Text
served = record {
  port = codes "3000";
  database_url = codes "d";
  payment_link_base_url = codes "https://tagwise.me";
  jwt_secret = codes "s";
  auth_domain = codes "tagwise.me";
  auth_token_ttl = codes "1h";
  auth_nonce_ttl_seconds = codes "300";
  throttle_ttl_seconds = codes "60";
  throttle_limit = codes "5";
  tip_registry_program_id = codes "p";
  rpc_http_url = codes "https://api.devnet.solana.com";
  register_throttle_ttl_seconds = codes "60";
  register_throttle_limit = codes "3";
  identity_update_throttle_ttl_seconds = codes "60";
  identity_update_throttle_limit = codes "10";
  redis_url = codes "r";
  redis_key_prefix = prefix;
  resolve_cache_ttl_seconds = codes "300";
  resolve_cache_negative_ttl_seconds = codes "30";
  allowed_origins = codes "*" ∷ [];
}

serves : app_config to_number env ≡ ok served
unfolding app_config require_env origins_of split_commas lookup text_eq truthy trim trim_start
serves = refl

abbrev key : Text
key = build_resolve_cache_key prefix alice

abbrev filled : Bool × List (Text × Text)
filled = (true, (key, codes "v") ∷ [])

abbrev emptied : Bool × List (Text × Text)
emptied = (true, [])

deleted : del key filled ≡ some emptied
unfolding del remove build_resolve_cache_key text_eq
deleted = refl

read_back : get key emptied ≡ some none
unfolding get lookup
read_back = refl

configs-invalidate_example :
    (prefix_of env ≡ prefix_of env
      → cache_get memory codec prefix 60 key (invalidate memory prefix alice filled) ≡ miss)
    × (prefix_of env ≢ prefix_of env
        → cache_get memory codec prefix 60 key (invalidate memory prefix alice filled)
          ≡ decode_raw memory codec prefix 60 (memory.read filled key))
configs-invalidate_example =
    configs-invalidate to_number memory codec 60 env env loaded served alice filled emptied none
      loads serves deleted read_back
