-- ===== src/Api/Resolve/Overlap.antt =====
-- tags.service.ts: lookups of one tag that overlap. A lookup reads the row of the mirror, and later,
-- after other steps, writes its answer to the cache.
pub mod Laws
pub mod Run
use tagwise_identity_protoco.Prelude.{
  ℕ, Text, CaseMap, List, ◌∷◌, ◌++◌, Option, none, some, All, Result, ok, err, ◌≡◌, ◌⊎◌,
  if◌then◌else◌,
}
use tagwise_identity_protoco.Solana.{Bytes, Solana}
use tagwise_identity_protoco.Core.CacheKey.{build_resolve_cache_key}
use tagwise_identity_protoco.Mirror.{Identity, IdentityTable, is_active}
use tagwise_identity_protoco.Redis.{Redis}
use tagwise_identity_protoco.Cache.{Json, Entry, cache_negative, value, raw_of}
use tagwise_identity_protoco.Api.{HttpError, not_found}
use tagwise_identity_protoco.Api.Resolve.{
  Config, Choice, ResolveResponse, response_of, choose_row, answer,
}

-- What a lookup chooses when it has read the row.
abbrev pub choice_of : Identity → Choice
choice_of row = ok (if is_active row then some (row, none) else none)

-- What the service says of a row.
abbrev pub said_of : Text → Text → Identity → Result HttpError ResolveResponse
said_of base_url tag row =
    if is_active row then ok (response_of base_url tag row) else err not_found

abbrev pub entry_of : Text → Text → Identity → Entry ResolveResponse
entry_of base_url tag row =
    if is_active row then value (response_of base_url tag row) else cache_negative

-- The table, the cache, and the lookups of the tag that have read and not yet answered.
pub record Overlap (d : IdentityTable) (r : Redis) : Type 0 where
  pub table : d.Table
  pub store : r.Store
  pub reading : List Choice

module _ (u : CaseMap) (sol : Solana) (config : Config) (d : IdentityTable) (r : Redis)
    (json : Json ResolveResponse) (tag : Text) where
  abbrev key : Text
  key = build_resolve_cache_key config.redis_key_prefix tag

  -- The steps of a time in which the row of the tag is not written: a lookup reads, with whatever
  -- the chain holds by then; one of those that have read answers; another row is written; and an
  -- entry of another tag changes, or this tag's entry goes.
  pub data Quiet (s : Overlap d r) : Overlap d r → Type 0 where
    same : Quiet s s
    reads :
        {a : Overlap d r} (rpc : Text → Option (Option Bytes))
        → Quiet s a
        → Quiet s (record {
          table = a.table;
          store = a.store;
          reading = choose_row u sol rpc config tag (d.find_unique a.table tag) ∷ a.reading;
        })
    answers :
        {a : Overlap d r} (front back : List Choice) (c : Choice)
        → Quiet s a
        → a.reading ≡ front ++ c ∷ back
        → Quiet s (record {
          table = a.table;
          store = (answer d r json config tag c a.store).1;
          reading = front ++ back;
        })
    other_row :
        {a : Overlap d r} (table : d.Table)
        → Quiet s a
        → d.find_unique table tag ≡ d.find_unique a.table tag
        → Quiet s (record { table = table; store = a.store; reading = a.reading })
    other_entry :
        {a : Overlap d r} (store : r.Store)
        → Quiet s a
        → (r.read store key ≡ r.read a.store key) ⊎ (r.read store key ≡ none)
        → Quiet s (record { table = a.table; store = store; reading = a.reading })

  -- All that is about to be answered or cached is what the row says.
  pub record Fresh (row : Identity) (s : Overlap d r) : Type 0 where
    pub stored : d.find_unique s.table tag ≡ some row
    pub pending : All (λ (c : Choice). c ≡ choice_of row) s.reading
    pub cached :
        (r.read s.store key ≡ none)
        ⊎ (r.read s.store key
            ≡ some (
                raw_of r json config.redis_key_prefix config.resolve_cache_ttl_seconds
                  (entry_of config.payment_link_base_url tag row)))
