-- ===== src/Config.antt =====
-- The configuration of the two processes, from their environment: apps/indexer/src/config.ts and
-- apps/api/src/config/config.service.ts.
pub mod Laws
use tagwise_identity_protoco.Prelude.{
  ℕ, Text, codes, Bool, true, false, ◌||◌, List, [], ◌∷◌, ◌++◌, map, Option, none, some, text_eq,
  truthy, trim, ◌==◌, Result, ok, err, ◌>>=◌, ◌>>◌, if◌then◌else◌,
}

-- `process.env`
abbrev pub Env : Type 0
Env = Text → Option Text

-- What is thrown: a variable that is missing, no RPC endpoint, and a commitment that is none.
pub data ConfigError : Type 0 where
  missing : Text → ConfigError
  missing_rpc : ConfigError
  invalid_commitment : Text → ConfigError

abbrev pub given_or_missing : Text → Option Text → Result ConfigError Text
given_or_missing name none = err (missing name)
given_or_missing name (some value) = ok value

-- The two programs have the same `requireEnv`.
unfoldable pub require_env : Env → Text → Result ConfigError Text
require_env env name = given_or_missing name (truthy (env name))

-- `??`
abbrev pub or_default : Text → Option Text → Text
or_default default none = default
or_default default (some t) = t

-- Both programs read the prefix of their keys in the same way.
abbrev pub prefix_of : Env → Text
prefix_of env = or_default (codes "tip:") (env (codes "REDIS_KEY_PREFIX"))

pub record IndexerConfig : Type 0 where
  pub rpc_http_url : Text
  pub rpc_wss_url : Text
  pub program_id : Text
  pub database_url : Text
  pub commitment : Text
  pub reconcile_cron : Text
  pub redis_url : Text
  pub redis_key_prefix : Text

-- The endpoints of Helius, where its key is given and the two URLs are not both.
abbrev pub helius_urls : Option Text → Result ConfigError (Text × Text)
helius_urls none = err missing_rpc
helius_urls (some api_key) = ok (
  codes "https://devnet.helius-rpc.com/?api-key=" ++ api_key,
  codes "wss://devnet.helius-rpc.com/?api-key=" ++ api_key,
)

abbrev pub urls_or_helius :
    Option Text → Option Text → Option Text → Result ConfigError (Text × Text)
urls_or_helius (some http_url) (some wss_url) api_key = ok (http_url, wss_url)
urls_or_helius (some http_url) none api_key = helius_urls api_key
urls_or_helius none wss_url api_key = helius_urls api_key

unfoldable pub resolve_rpc_urls : Env → Result ConfigError (Text × Text)
resolve_rpc_urls env =
    urls_or_helius (truthy (env (codes "RPC_HTTP_URL"))) (truthy (env (codes "RPC_WSS_URL")))
      (truthy (env (codes "HELIUS_API_KEY")))

abbrev pub is_commitment : Text → Bool
is_commitment raw =
    text_eq raw (codes "processed")
    || text_eq raw (codes "confirmed")
    || text_eq raw (codes "finalized")

unfoldable pub resolve_commitment : Env → Result ConfigError Text
resolve_commitment env =
    let raw = or_default (codes "finalized") (env (codes "COMMITMENT")) in
    if is_commitment raw then ok raw else err (invalid_commitment raw)

unfoldable pub load_config : Env → Result ConfigError IndexerConfig
unfolding require_env resolve_rpc_urls resolve_commitment
load_config env = do
  urls ← resolve_rpc_urls env
  program_id ← require_env env (codes "TIP_REGISTRY_PROGRAM_ID")
  database_url ← require_env env (codes "DATABASE_URL")
  commitment ← resolve_commitment env
  redis_url ← require_env env (codes "REDIS_URL")
  ok record {
    rpc_http_url = urls.0;
    rpc_wss_url = urls.1;
    program_id = program_id;
    database_url = database_url;
    commitment = commitment;
    reconcile_cron = or_default (codes "0 3 * * *") (env (codes "RECONCILE_CRON"));
    redis_url = redis_url;
    redis_key_prefix = prefix_of env;
  }

-- The numbers of the configuration are read by `Number`, which may give NaN: `Num` is that type.
pub record AppConfig (Num : Type 0) : Type 0 where
  pub port : Num
  pub database_url : Text
  pub payment_link_base_url : Text
  pub jwt_secret : Text
  pub auth_domain : Text
  pub auth_token_ttl : Text
  pub auth_nonce_ttl_seconds : Num
  pub throttle_ttl_seconds : Num
  pub throttle_limit : Num
  pub tip_registry_program_id : Text
  pub rpc_http_url : Text
  pub register_throttle_ttl_seconds : Num
  pub register_throttle_limit : Num
  pub identity_update_throttle_ttl_seconds : Num
  pub identity_update_throttle_limit : Num
  pub redis_url : Text
  pub redis_key_prefix : Text
  pub resolve_cache_ttl_seconds : Num
  pub resolve_cache_negative_ttl_seconds : Num
  pub allowed_origins : List Text

-- `split(",")`, which gives one part more than there are commas.
abbrev pub join_first : ℕ → List Text → List Text
join_first c [] = (c ∷ []) ∷ []
join_first c (part ∷ parts) = (c ∷ part) ∷ parts

unfoldable pub split_commas : Text → List Text
split_commas [] = [] ∷ []
split_commas (c ∷ t) = if c == b',' then [] ∷ split_commas t else join_first c (split_commas t)

abbrev pub trimmed : Option Text → Option Text
trimmed none = none
trimmed (some t) = some (trim t)

unfoldable pub origins_of : Option Text → List Text
unfolding split_commas
origins_of origins = map trim (split_commas (or_default (codes "*") (truthy (trimmed origins))))

-- The constructor of `ConfigService`.
unfoldable pub app_config : {Num : Type 0} → (Text → Num) → Env → Result ConfigError (AppConfig Num)
unfolding require_env origins_of
app_config to_number env = do
  database_url ← require_env env (codes "DATABASE_URL")
  jwt_secret ← require_env env (codes "JWT_SECRET")
  program_id ← require_env env (codes "TIP_REGISTRY_PROGRAM_ID")
  redis_url ← require_env env (codes "REDIS_URL")
  ok record {
    port = to_number (or_default (codes "3000") (env (codes "PORT")));
    database_url = database_url;
    payment_link_base_url =
        or_default (codes "https://tagwise.me") (env (codes "PAYMENT_LINK_BASE_URL"));
    jwt_secret = jwt_secret;
    auth_domain = or_default (codes "tagwise.me") (env (codes "AUTH_DOMAIN"));
    auth_token_ttl = or_default (codes "1h") (env (codes "AUTH_TOKEN_TTL"));
    auth_nonce_ttl_seconds = to_number (or_default (codes "300") (env (codes "AUTH_NONCE_TTL")));
    throttle_ttl_seconds = to_number (or_default (codes "60") (env (codes "THROTTLE_TTL")));
    throttle_limit = to_number (or_default (codes "5") (env (codes "THROTTLE_LIMIT")));
    tip_registry_program_id = program_id;
    rpc_http_url = or_default (codes "https://api.devnet.solana.com") (env (codes "RPC_HTTP_URL"));
    register_throttle_ttl_seconds =
        to_number (or_default (codes "60") (env (codes "REGISTER_THROTTLE_TTL")));
    register_throttle_limit =
        to_number (or_default (codes "3") (env (codes "REGISTER_THROTTLE_LIMIT")));
    identity_update_throttle_ttl_seconds =
        to_number (or_default (codes "60") (env (codes "IDENTITY_UPDATE_THROTTLE_TTL")));
    identity_update_throttle_limit =
        to_number (or_default (codes "10") (env (codes "IDENTITY_UPDATE_THROTTLE_LIMIT")));
    redis_url = redis_url;
    redis_key_prefix = prefix_of env;
    resolve_cache_ttl_seconds =
        to_number (or_default (codes "300") (env (codes "RESOLVE_CACHE_TTL")));
    resolve_cache_negative_ttl_seconds =
        to_number (or_default (codes "30") (env (codes "RESOLVE_CACHE_NEGATIVE_TTL")));
    allowed_origins = origins_of (env (codes "ALLOWED_ORIGINS"));
  }
