-- ===== src/Core/CacheKey.antt =====
-- packages/core/src/cache-key.ts: the key under which a tag's resolve response is cached.
use mathlib.Core.List.{append_assoc}
use tagwise_identity_protoco.Prelude.{
  Text, codes, true, ◌++◌, ◌≡◌, refl, ap, sym, ◌∙◌, drop, length, starts_with, starts_with-append,
  drop-append_left,
}

unfoldable pub build_resolve_cache_key : Text → Text → Text
build_resolve_cache_key prefix normalized_tag = prefix ++ (codes "resolve:" ++ normalized_tag)

-- Distinct tags have distinct keys.
pub cache_key_injective :
    (prefix s t : Text)
    → build_resolve_cache_key prefix s ≡ build_resolve_cache_key prefix t
    → s ≡ t
unfolding build_resolve_cache_key
cache_key_injective prefix s t e =
    sym (drop_key s) ∙ ap (drop 8) (ap (drop (length prefix)) e) ∙ drop_key t
  where
    drop_key : (x : Text) → drop 8 (drop (length prefix) (prefix ++ (codes "resolve:" ++ x))) ≡ x
    drop_key x = ap (drop 8) (drop-append_left (length prefix) prefix _ refl)

pub starts_with-cache_key :
    (prefix t : Text)
    → starts_with (build_resolve_cache_key prefix t) (prefix ++ codes "resolve:") ≡ true
unfolding build_resolve_cache_key
starts_with-cache_key prefix t =
    ap (λ k. starts_with k (prefix ++ codes "resolve:"))
      (sym (append_assoc prefix (codes "resolve:") t))
    ∙ starts_with-append (prefix ++ codes "resolve:") t
