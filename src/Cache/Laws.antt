-- ===== src/Cache/Laws.antt =====
-- The reader and the invalidator of the resolve cache.
use tagwise_identity_protoco.Prelude.{
  ℕ, Text, codes, true, Option, none, some, text_eq_refl, ◌≡◌, ◌≢◌, ap, ◌∙◌, arith,
}
use tagwise_identity_protoco.Core.CacheKey.{
  build_resolve_cache_key, cache_key_injective, starts_with-cache_key,
}
use tagwise_identity_protoco.Redis.{Redis}
use tagwise_identity_protoco.Cache.{
  Json, miss, Entry, cache_negative, value, reads_as, is_resolve_key, decode_raw, opened, cache_get,
  raw_of, ttl_or_default, cache_set, cache_delete, after_del, invalidate, or_unchanged,
}

module _ {ℓ} {T : Type ℓ} (r : Redis) (json : Json T) (prefix : Text) (default_ttl : ℕ) where
  pub decode_raw-raw_of :
      (e : Entry T)
      → decode_raw r json prefix default_ttl (some (raw_of r json prefix default_ttl e))
        ≡ reads_as e
  unfolding decode_raw raw_of
  decode_raw-raw_of cache_negative = ground (arith, text_eq_refl (codes "__TIP_CACHE_NEGATIVE__"))
  decode_raw-raw_of (value v) = ground (arith, json.stringify_object v, json.parse-stringify v)

  key_of : Text → Text
  key_of tag = build_resolve_cache_key prefix tag

  is_key :
      (tag : Text)
      → is_resolve_key r json prefix default_ttl (build_resolve_cache_key prefix tag) ≡ true
  unfolding is_resolve_key
  is_key tag = starts_with-cache_key prefix tag

  pub get_resolve :
      (tag : Text) (s : r.Store)
      → cache_get r json prefix default_ttl (build_resolve_cache_key prefix tag) s
        ≡ opened r json prefix default_ttl (r.get (build_resolve_cache_key prefix tag) s)
  unfolding cache_get is_resolve_key
  get_resolve tag s = ground (arith, starts_with-cache_key prefix tag)

  pub set_resolve :
      (tag : Text) (e : Entry T) (ttl : Option ℕ) (s : r.Store)
      → cache_set r json prefix default_ttl (build_resolve_cache_key prefix tag) e ttl s
        ≡ or_unchanged r json prefix default_ttl s (
            r.set_ex
              (build_resolve_cache_key prefix tag)
              (raw_of r json prefix default_ttl e)
              (ttl_or_default r json prefix default_ttl ttl)
              s)
  unfolding cache_set is_resolve_key
  set_resolve tag e ttl s = ground (arith, starts_with-cache_key prefix tag)

  pub delete_resolve :
      (tag : Text) (s : r.Store)
      → cache_delete r json prefix default_ttl (build_resolve_cache_key prefix tag) s
        ≡ invalidate r prefix tag s
  unfolding cache_delete is_resolve_key invalidate after_del
  delete_resolve tag s = ground (arith, starts_with-cache_key prefix tag)

  other_key :
      (tag other : Text)
      → other ≢ tag
      → build_resolve_cache_key prefix other ≢ build_resolve_cache_key prefix tag
  other_key tag other h e = h (cache_key_injective prefix other tag e)

  -- What was stored under the key of a tag is read back, a negative answer included, where both
  -- commands succeed; the entries of other tags stay.
  pub get-set :
      (tag : Text) (e : Entry T) (ttl : Option ℕ) (s s' : r.Store) (raw : Option Text)
      → r.set_ex
          (build_resolve_cache_key prefix tag)
          (raw_of r json prefix default_ttl e)
          (ttl_or_default r json prefix default_ttl ttl)
          s
        ≡ some s'
      → r.get (build_resolve_cache_key prefix tag) s' ≡ some raw
      → (cache_get r json prefix default_ttl
            (build_resolve_cache_key prefix tag)
            (cache_set r json prefix default_ttl (build_resolve_cache_key prefix tag) e ttl s)
          ≡ reads_as e)
        × ((other : Text)
            → other ≢ tag
            → r.read
                (cache_set r json prefix default_ttl (build_resolve_cache_key prefix tag) e ttl s)
                (build_resolve_cache_key prefix other)
              ≡ r.read s (build_resolve_cache_key prefix other))
  unfolding opened or_unchanged
  get-set tag e ttl s s' raw stored answered = (
    ap (cache_get r json prefix default_ttl (build_resolve_cache_key prefix tag)) becomes
        ∙ get_resolve tag s'
        ∙ ap (opened r json prefix default_ttl) answered
        ∙ ap (decode_raw r json prefix default_ttl) found
        ∙ decode_raw-raw_of e,
    λ other h.
        ap (λ (x : r.Store). r.read x (build_resolve_cache_key prefix other)) becomes
        ∙ wrote.1 (build_resolve_cache_key prefix other) (other_key tag other h),
  )
    where
      becomes :
          cache_set r json prefix default_ttl (build_resolve_cache_key prefix tag) e ttl s ≡ s'
      becomes = set_resolve tag e ttl s ∙ ap (or_unchanged r json prefix default_ttl s) stored

      wrote :
          (r.read s' (build_resolve_cache_key prefix tag)
            ≡ some (raw_of r json prefix default_ttl e))
          × ((other : Text)
              → other ≢ build_resolve_cache_key prefix tag
              → r.read s' other ≡ r.read s other)
      wrote = r.set_ex_read (build_resolve_cache_key prefix tag) _ _ s stored

      found : raw ≡ some (raw_of r json prefix default_ttl e)
      found = r.get_read (build_resolve_cache_key prefix tag) s' answered ∙ wrote.0

  -- Where the command succeeds, the entry that the API wrote for a tag is gone once the indexer has
  -- invalidated the tag, whatever the API's lifetimes are, and the entries of other tags stay: both
  -- programs build the same key.
  pub get-invalidate :
      (tag : Text) (s s' : r.Store) (raw : Option Text)
      → r.del (build_resolve_cache_key prefix tag) s ≡ some s'
      → r.get (build_resolve_cache_key prefix tag) s' ≡ some raw
      → (cache_get r json prefix default_ttl
            (build_resolve_cache_key prefix tag)
            (invalidate r prefix tag s)
          ≡ miss)
        × ((other : Text)
            → other ≢ tag
            → r.read (invalidate r prefix tag s) (build_resolve_cache_key prefix other)
              ≡ r.read s (build_resolve_cache_key prefix other))
  unfolding opened invalidate after_del decode_raw
  get-invalidate tag s s' raw deleted answered = (
    ap (cache_get r json prefix default_ttl (build_resolve_cache_key prefix tag)) becomes
        ∙ get_resolve tag s'
        ∙ ap (opened r json prefix default_ttl) answered
        ∙ ap (decode_raw r json prefix default_ttl) found,
    λ other h.
        ap (λ (x : r.Store). r.read x (build_resolve_cache_key prefix other)) becomes
        ∙ (r.del_read (build_resolve_cache_key prefix tag) s deleted).1
            (build_resolve_cache_key prefix other) (other_key tag other h),
  )
    where
      becomes : invalidate r prefix tag s ≡ s'
      becomes = ap (after_del r s) deleted

      found : raw ≡ none
      found =
          r.get_read (build_resolve_cache_key prefix tag) s' answered
          ∙ (r.del_read (build_resolve_cache_key prefix tag) s deleted).0
