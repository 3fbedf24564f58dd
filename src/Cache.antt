-- ===== src/Cache.antt =====
-- The cache of resolve responses: apps/api/src/tags/redis-cache-reader.ts, which writes it, and
-- apps/indexer/src/redis-cache-invalidator.ts, which deletes from it.
pub mod Laws
use tagwise_identity_protoco.Prelude.{
  ℕ, Text, codes, Bool, true, false, Option, none, some, text_eq, starts_with, ◌++◌, ◌≡◌,
  if◌then◌else◌,
}
use tagwise_identity_protoco.Core.CacheKey.{build_resolve_cache_key}
use tagwise_identity_protoco.Redis.{Redis}
use tagwise_identity_protoco.Indexer.Apply.{CacheInvalidator}

-- `JSON.stringify` and `JSON.parse` on the values of the cache, which are objects: their text is
-- never the sentinel, and what was written is read back.
abbrev pub negative_sentinel : Text
negative_sentinel = codes "__TIP_CACHE_NEGATIVE__"

pub record Json {ℓ} (T : Type ℓ) : Type ℓ where
  pub stringify : T → Text
  pub parse : Text → Option T
  pub parse-stringify : (v : T) → parse (stringify v) ≡ some v
  pub stringify_object : (v : T) → text_eq (stringify v) negative_sentinel ≡ false

-- `undefined`, `CACHE_NEGATIVE` or a value.
pub data Cached {ℓ} (T : Type ℓ) : Type ℓ where
  miss negative : Cached T
  hit : T → Cached T

-- What is written: the sentinel or a value.
pub data Entry {ℓ} (T : Type ℓ) : Type ℓ where
  cache_negative : Entry T
  value : T → Entry T

abbrev pub reads_as {ℓ} : {T : Type ℓ} → Entry T → Cached T
reads_as cache_negative = negative
reads_as (value v) = hit v

module _ {ℓ} {T : Type ℓ} (r : Redis) (json : Json T) (prefix : Text) (default_ttl : ℕ) where
  unfoldable pub is_resolve_key : Text → Bool
  is_resolve_key key = starts_with key (prefix ++ codes "resolve:")

  unfoldable pub parsed : Option T → Cached T
  parsed none = miss
  parsed (some v) = hit v

  unfoldable pub decode_raw : Option Text → Cached T
  unfolding parsed
  decode_raw none = miss
  decode_raw (some raw) =
      if text_eq raw negative_sentinel then negative else parsed (json.parse raw)

  -- A command that fails, and a text that does not parse, is a miss.
  unfoldable pub opened : Option (Option Text) → Cached T
  unfolding decode_raw
  opened none = miss
  opened (some raw) = decode_raw raw

  unfoldable pub cache_get : Text → r.Store → Cached T
  unfolding opened is_resolve_key
  cache_get key s = if is_resolve_key key then opened (r.get key s) else miss

  unfoldable pub raw_of : Entry T → Text
  raw_of cache_negative = negative_sentinel
  raw_of (value v) = json.stringify v

  unfoldable pub ttl_or_default : Option ℕ → ℕ
  ttl_or_default none = default_ttl
  ttl_or_default (some n) = n

  -- A command that fails leaves the store as it was.
  unfoldable pub or_unchanged : r.Store → Option r.Store → r.Store
  or_unchanged s none = s
  or_unchanged s (some s') = s'

  unfoldable pub cache_set : Text → Entry T → Option ℕ → r.Store → r.Store
  unfolding raw_of ttl_or_default or_unchanged is_resolve_key
  cache_set key entry ttl s =
      if is_resolve_key key
      then or_unchanged s (r.set_ex key (raw_of entry) (ttl_or_default ttl) s)
      else s

  unfoldable pub cache_delete : Text → r.Store → r.Store
  unfolding or_unchanged is_resolve_key
  cache_delete key s = if is_resolve_key key then or_unchanged s (r.del key s) else s

unfoldable pub after_del : (r : Redis) → r.Store → Option r.Store → r.Store
after_del r s none = s
after_del r s (some s') = s'

-- `RedisCacheInvalidator.invalidate`
unfoldable pub invalidate : (r : Redis) → Text → Text → r.Store → r.Store
unfolding after_del
invalidate r prefix tag s = after_del r s (r.del (build_resolve_cache_key prefix tag) s)

abbrev pub redis_cache_invalidator : Redis → Text → CacheInvalidator
redis_cache_invalidator r prefix = record { Cache = r.Store; invalidate = invalidate r prefix }
