-- ===== src/Tests/Api.antt =====
-- Runs of the theorems on the HTTP service.
pub mod Auth
pub mod Tags
pub mod Overlap
pub mod Flight
pub mod Routes
pub mod Validation
pub mod Search
pub mod Register
use tagwise_identity_protoco.Prelude.{
  subst, ℕ, suc, ◌≤◌, ◌<◌, min, Bool, true, false, [], ◌∷◌, List, All, length, Option, none, some,
  ◌≡◌, refl, ◌↔◌, arith,
}
use tagwise_identity_protoco.Throttle.{Bucket, Limit, next_bucket, throttler_increment}
use tagwise_identity_protoco.Throttle.Window.{
  WellFormed, next_bucket-WellFormed, blocked_call, allowed, allowed_in_window,
}

abbrev three_a_minute : Limit
three_a_minute = record { ttl_ms = 60000; limit = 3; block_duration_ms = 60000 }

abbrev full_bucket : Bucket
full_bucket = record { hits = 4; expires_at = 160; block_expires_at = 170; is_blocked = true }

full-WellFormed : (b : Bucket) → some full_bucket ≡ some b → WellFormed three_a_minute b
full-WellFormed b h =
    subst (WellFormed three_a_minute) (same h)
      (record { bounded = omega arith; blocked_iff = (λ _. omega arith, λ _. refl) })
  where
    same : some full_bucket ≡ some b → full_bucket ≡ b
    same k = cc k

next_bucket-WellFormed_example :
    WellFormed three_a_minute (next_bucket three_a_minute 165 (some full_bucket))
    × (0 < (next_bucket three_a_minute 165 (some full_bucket)).hits)
next_bucket-WellFormed_example =
    next_bucket-WellFormed three_a_minute 165 (some full_bucket) full-WellFormed

allowed_in_window_example : allowed three_a_minute (100 ∷ 101 ∷ 102 ∷ 103 ∷ 104 ∷ []) none ≡ 3
allowed_in_window_example = allowed_in_window three_a_minute 100 (101 ∷ 102 ∷ 103 ∷ 104 ∷ []) within
  where
    at : (t : ℕ) → 100 ≤ t → t < 160 → (100 ≤ t) × (t < 160) × (t < 160)
    at t a b = (a, b, b)

    within : All (λ t. (100 ≤ t) × (t < 160) × (t < 160)) (100 ∷ 101 ∷ 102 ∷ 103 ∷ 104 ∷ [])
    within = (
      at 100 (omega arith) (omega arith),
      (
        at 101 (omega arith) (omega arith),
        (
          at 102 (omega arith) (omega arith),
          (at 103 (omega arith) (omega arith), (at 104 (omega arith) (omega arith), tt)),
        ),
      ),
    )
