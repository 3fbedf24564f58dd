-- ===== src/Throttle/Window.antt =====
-- throttler-increment.lua.ts: the buckets that the script writes, and how many calls pass.
use tagwise_identity_protoco.Prelude.{
  ℕ, suc, ◌+◌, ◌-◌, ◌≤◌, ◌<◌, min, true, false, List, [], ◌∷◌, length, All, Option, none, some, ◌≡◌,
  refl, ◌↔◌, ap, ◌∙◌, arith, if◌then◌else◌, Bool-cases, inl, inr, ltb,
}
use tagwise_identity_protoco.Throttle.{
  Bucket, Limit, ttl, block_duration, load_bucket, next_bucket, throttler_increment,
}

-- A bucket counts at most one hit above the limit, and it is blocked exactly when it does.
pub record WellFormed (l : Limit) (b : Bucket) : Type 0 where
  pub bounded : b.hits ≤ l.limit + 1
  pub blocked_iff : (b.is_blocked ≡ true) ↔ (l.limit < b.hits)

-- Whatever the time, the script writes a well-formed bucket, from no bucket and from a well-formed
-- one; and it has counted a hit.
pub next_bucket-WellFormed :
    (l : Limit) (now : ℕ) (stored : Option Bucket)
    → ((b : Bucket) → stored ≡ some b → WellFormed l b)
    → WellFormed l (next_bucket l now stored) × (0 < (next_bucket l now stored).hits)
unfolding next_bucket
next_bucket-WellFormed l now none h =
    (record { bounded = ground arith; blocked_iff = ground arith }, ground arith)
next_bucket-WellFormed l now (some b) h =
    let w = h b refl in
    (
      record {
        bounded = ground (arith, w.bounded, w.blocked_iff);
        blocked_iff = ground (arith, w.bounded, w.blocked_iff);
      },
      ground (arith, w.bounded, w.blocked_iff),
    )

-- A call on a blocked bucket, before the block ends, changes nothing and is refused.
pub blocked_call :
    (l : Limit) (now : ℕ) (b : Bucket)
    → b.is_blocked ≡ true
    → now < b.block_expires_at
    → ((throttler_increment l now (some b)).0 ≡ b)
      × ((throttler_increment l now (some b)).2.is_blocked ≡ true)
unfolding throttler_increment
blocked_call l now b h lt = (ground (arith, h), ground (arith, h))

-- The calls at the given times: how many are let through.
unfoldable pub allowed : Limit → List ℕ → Option Bucket → ℕ
unfolding throttler_increment
allowed l [] stored = 0
allowed l (now ∷ times) stored =
    let r = throttler_increment l now stored in
    let rest = allowed l times (some r.0) in if r.2.is_blocked then rest else rest + 1

all_blocked :
    (l : Limit) (times : List ℕ) (b : Bucket)
    → b.is_blocked ≡ true
    → All (λ t. t < b.block_expires_at) times
    → allowed l times (some b) ≡ 0
unfolding allowed
all_blocked l [] b h before = refl
all_blocked l (now ∷ times) b h before =
    let (same, refused) = blocked_call l now b h before.0 in
    let rest =
      ap (λ (x : Bucket). allowed l times (some x)) same ∙ all_blocked l times b h before.1 in
    ground (arith, refused, rest)

module _ (l : Limit) (start : ℕ) where
  -- A time in the first window, before a block that started in it can end.
  abbrev Within : ℕ → Type 0
  Within t = (start ≤ t) × (t < start + ttl l) × (t < start + block_duration l)

  one_hit : Bucket → Bucket
  one_hit b = record {
    hits = b.hits + 1;
    expires_at = b.expires_at;
    block_expires_at = b.block_expires_at;
    is_blocked = false;
  }

  passed_call :
      (now : ℕ) (b : Bucket)
      → b.is_blocked ≡ false
      → now < b.expires_at
      → b.hits < l.limit
      → ((throttler_increment l now (some b)).0 ≡ one_hit b)
        × ((throttler_increment l now (some b)).2.is_blocked ≡ false)
  unfolding throttler_increment one_hit
  passed_call now b h lt few = (ground (arith, h), ground (arith, h))

  last_call :
      (now : ℕ) (b : Bucket)
      → b.is_blocked ≡ false
      → now < b.expires_at
      → b.hits ≡ l.limit
      → ((throttler_increment l now (some b)).0.is_blocked ≡ true)
        × ((throttler_increment l now (some b)).0.block_expires_at ≡ now + block_duration l)
        × ((throttler_increment l now (some b)).2.is_blocked ≡ true)
  unfolding throttler_increment
  last_call now b h lt full = (ground (arith, h), ground (arith, h), ground (arith, h))

  before_block_ends :
      (now : ℕ) (times : List ℕ) (b : Bucket)
      → b.block_expires_at ≡ now + block_duration l
      → start ≤ now
      → All Within times
      → All (λ t. t < b.block_expires_at) times
  before_block_ends now [] b e le h = tt
  before_block_ends now (t ∷ times) b e le h =
      (omega (arith, e, h.0.2), before_block_ends now times b e le h.1)

  allowed_from :
      (times : List ℕ) (b : Bucket)
      → b.is_blocked ≡ false
      → b.expires_at ≡ start + ttl l
      → b.hits ≤ l.limit
      → All Within times
      → allowed l times (some b) ≡ min (length times) (l.limit - b.hits)
  unfolding allowed one_hit
  allowed_from [] b h e le within = omega arith
  allowed_from (now ∷ times) b h e le within = elim (Bool-cases (ltb b.hits l.limit)) [
    | inl lt ↦
        let (next, passes) =
          passed_call now b h (omega (arith, e, within.0.1)) (ground (arith, lt)) in
        let rest =
          ap (λ (x : Bucket). allowed l times (some x)) next
          ∙ allowed_from times (one_hit b) refl e (ground (arith, lt)) within.1 in
        ground (arith, passes, rest, lt)
    | inr ge ↦
        let (on, until, refused) =
          last_call now b h (omega (arith, e, within.0.1)) (ground (arith, ge, le)) in
        let rest = all_blocked l times (throttler_increment l now (some b)).0 on (
          before_block_ends now times (throttler_increment l now (some b)).0 until within.0.0
            within.1) in
        ground (arith, refused, rest, ge, le)
  ]

-- In the window that the first call opens, and before a block that starts in it can end, the script
-- lets through exactly the first `limit` calls, however many come.
pub allowed_in_window :
    (l : Limit) (start : ℕ) (times : List ℕ)
    → All (Within l start) (start ∷ times)
    → allowed l (start ∷ times) none ≡ min (suc (length times)) l.limit
unfolding allowed
allowed_in_window l start times within =
    allowed_from l start (start ∷ times) (load_bucket l start none) refl refl (omega arith) within
    ∙ full (suc (length times)) l.limit
  where
    full : (n m : ℕ) → min n (m - 0) ≡ min n m
    full n m = omega arith
