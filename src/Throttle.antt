-- ===== src/Throttle.antt =====
-- apps/api/src/redis/throttler-increment.lua.ts and redis-throttler-storage.ts: the hit counter of
-- a rate limit. The script runs atomically on the Redis server; its clock is an argument, and a
-- bucket that the server has removed at its expiry is `none`.
pub mod Window
use tagwise_identity_protoco.Prelude.{
  ℕ, ◌+◌, ◌-◌, ◌/◌, Bool, true, false, ◌&&◌, not, ltb, leb, Option, none, some, if◌then◌else◌,
}

-- A Lua or a JavaScript number that may be negative.
pub data ℤ : Type 0 where
  pos negsuc : ℕ → ℤ

abbrev pub difference : ℕ → ℕ → ℤ
difference a b = if leb b a then pos (a - b) else negsuc (b - a - 1)

pub record Bucket : Type 0 where
  pub hits : ℕ
  pub expires_at : ℕ
  pub block_expires_at : ℕ
  pub is_blocked : Bool

pub record IncrementResult : Type 0 where
  pub total_hits : ℕ
  pub time_to_expire : ℤ
  pub is_blocked : Bool
  pub time_to_block_expire : ℕ

-- The limit of one bucket, in the milliseconds of `@nestjs/throttler`.
pub record Limit : Type 0 where
  pub ttl_ms : ℕ
  pub limit : ℕ
  pub block_duration_ms : ℕ

abbrev pub ttl : Limit → ℕ
ttl l = l.ttl_ms / 1000

abbrev pub block_duration : Limit → ℕ
block_duration l = l.block_duration_ms / 1000

-- `if hits == nil`
unfoldable pub load_bucket : Limit → ℕ → Option Bucket → Bucket
load_bucket l now none = record {
  hits = 0;
  expires_at = now + ttl l;
  block_expires_at = 0;
  is_blocked = false;
}
load_bucket l now (some b) = b

-- `if isBlocked and blockExpiresAt <= now`
unfoldable pub end_block : Limit → ℕ → Bucket → Bucket
end_block l now b =
    if b.is_blocked && leb b.block_expires_at now
    then record {
      hits = 0;
      expires_at = now + ttl l;
      block_expires_at = b.block_expires_at;
      is_blocked = false;
    }
    else b

-- `if (not isBlocked) and expiresAt <= now`
unfoldable pub end_window : Limit → ℕ → Bucket → Bucket
end_window l now b =
    if not b.is_blocked && leb b.expires_at now
    then record {
      hits = 0;
      expires_at = now + ttl l;
      block_expires_at = b.block_expires_at;
      is_blocked = b.is_blocked;
    }
    else b

-- `if not isBlocked then hits = hits + 1`
unfoldable pub count_hit : Bucket → Bucket
count_hit b = if b.is_blocked then b else record {
  hits = b.hits + 1;
  expires_at = b.expires_at;
  block_expires_at = b.block_expires_at;
  is_blocked = b.is_blocked;
}

-- `if hits > limit and not isBlocked`
unfoldable pub start_block : Limit → ℕ → Bucket → Bucket
start_block l now b =
    if ltb l.limit b.hits && not b.is_blocked
    then record {
      hits = b.hits;
      expires_at = b.expires_at;
      block_expires_at = now + block_duration l;
      is_blocked = true;
    }
    else b

-- The bucket that the script writes.
unfoldable pub next_bucket : Limit → ℕ → Option Bucket → Bucket
unfolding load_bucket end_block end_window count_hit start_block
next_bucket l now stored =
    start_block l now (count_hit (end_window l now (end_block l now (load_bucket l now stored))))

-- The seconds of the `EXPIRE`, which is left out when they are not positive.
unfoldable pub ttl_for_expire : ℕ → Bucket → Option ℕ
ttl_for_expire now b =
    let expire_at =
      if ltb b.expires_at b.block_expires_at then b.block_expires_at else b.expires_at in
    if ltb now expire_at then some (expire_at - now) else none

unfoldable pub throttler_increment : Limit → ℕ → Option Bucket → Bucket × Option ℕ × IncrementResult
unfolding next_bucket ttl_for_expire
throttler_increment l now stored =
    let b = next_bucket l now stored in
    (
      b,
      ttl_for_expire now b,
      record {
        total_hits = b.hits;
        time_to_expire = difference b.expires_at now;
        is_blocked = b.is_blocked;
        time_to_block_expire = b.block_expires_at - now;
      },
    )

-- `Math.ceil(ttl / 1000)`
abbrev pub ceil_seconds : ℕ → ℕ
ceil_seconds ms = (ms + 999) / 1000

-- `RedisThrottlerStorage.increment`, by the time at which the script ran, or `none` where the
-- command failed: then the call is let through.
unfoldable pub increment : Limit → Option ℕ → Option Bucket → Option Bucket × IncrementResult
unfolding throttler_increment
increment l none stored = (
  stored,
  record {
    total_hits = 0;
    time_to_expire = pos (ceil_seconds l.ttl_ms);
    is_blocked = false;
    time_to_block_expire = 0;
  },
)
increment l (some now) stored = let r = throttler_increment l now stored in (some r.0, r.2)
