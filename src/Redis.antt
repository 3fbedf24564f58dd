-- ===== src/Redis.antt =====
-- The Redis server and its client ioredis, which are not part of the repository: the commands that
-- the program sends are parameters of the model, with their documented behaviour as laws.
pub mod Memory
use tagwise_identity_protoco.Prelude.{
  ℕ, Text, List, [], ◌∷◌, ◌++◌, Option, none, some, ◌≡◌, ◌≢◌, ◌⊎◌, codes,
}

-- `read` is what a key holds at a moment; a command whose promise is rejected is `none`. A key that
-- was set with a lifetime may go at any later moment: that is a step of the environment.
pub record Redis : Type 1 where
  pub Store : Type 0
  pub read : Store → Text → Option Text
  pub get : Text → Store → Option (Option Text)
  pub set_ex : Text → Text → ℕ → Store → Option Store
  pub del : Text → Store → Option Store
  pub getdel : Text → Store → Option (Option Text × Store)
  pub get_read : (k : Text) (s : Store) {v : Option Text} → get k s ≡ some v → v ≡ read s k
  pub set_ex_read :
      (k v : Text) (ttl : ℕ) (s : Store) {s' : Store}
      → set_ex k v ttl s ≡ some s'
      → (read s' k ≡ some v) × ((other : Text) → other ≢ k → read s' other ≡ read s other)
  pub del_read :
      (k : Text) (s : Store) {s' : Store}
      → del k s ≡ some s'
      → (read s' k ≡ none) × ((other : Text) → other ≢ k → read s' other ≡ read s other)
  pub getdel_read :
      (k : Text) (s : Store) {v : Option Text} {s' : Store}
      → getdel k s ≡ some (v, s')
      → (v ≡ read s k)
        × (read s' k ≡ none)
        × ((other : Text) → other ≢ k → read s' other ≡ read s other)

-- `[a, b, c].join(":")`
unfoldable pub join : Text → List Text → Text
join separator [] = []
join separator (part ∷ []) = part
join separator (part ∷ next ∷ parts) = part ++ (separator ++ join separator (next ∷ parts))

-- apps/api/src/redis/redis.ts
unfoldable pub redis_key : Text → Text → List Text → Text
unfolding join
redis_key prefix sub_concern rest = join (codes ":") ((prefix ++ sub_concern) ∷ rest)
