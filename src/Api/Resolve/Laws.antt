-- ===== src/Api/Resolve/Laws.antt =====
-- tags.service.ts: which tags resolve, and to what.
use tagwise_identity_protoco.Prelude.{
  ℕ, Text, CaseMap, true, Option, none, some, Result, ok, err, ◌≡◌, refl, ap, ◌∙◌, ◌⊎◌, inl, inr,
  arith, Bool-cases, Result-cases,
}
use tagwise_identity_protoco.Solana.{Bytes, Solana}
use tagwise_identity_protoco.Core.Normalize.{accepted, normalize_tag}
use tagwise_identity_protoco.Core.Account.{TagAccount, decode_tag_account}
use tagwise_identity_protoco.Core.Seeds.Laws.{derive-normalized}
use tagwise_identity_protoco.Core.CacheKey.{build_resolve_cache_key}
use tagwise_identity_protoco.Mirror.{Identity, IdentityTable, is_active}
use tagwise_identity_protoco.Redis.{Redis}
use tagwise_identity_protoco.Cache.{Json, Cached, miss, cache_get}
use tagwise_identity_protoco.Api.{HttpError, not_found}
use tagwise_identity_protoco.Indexer.Pipeline.Laws.{pda_of}
use tagwise_identity_protoco.Api.Resolve.{
  Choice, Config, ResolveResponse, response_of, chain_row, decoded_row, account_row, lookup_at,
  chain_lookup, from_chain, choose_row, answer, resolve_uncached, resolve_cached, resolve,
}

-- The account that the chain holds for a tag, as the node reports it.
abbrev pub OnChain :
    CaseMap → Solana → (Text → Option (Option Bytes)) → Text → Text → TagAccount → Type 0
OnChain u sol rpc program_id tag acc =
    (raw : Bytes) × (rpc (pda_of sol program_id tag) ≡ some (some raw))
    × (decode_tag_account u sol raw ≡ ok acc)

module _ (u : CaseMap) (sol : Solana) (rpc : Text → Option (Option Bytes)) (config : Config)
    (tag : Text) (canonical : normalize_tag u tag ≡ accepted tag)
    (valid : sol.is_address config.tip_registry_program_id ≡ true) where
  lookup :
      chain_lookup u sol rpc config.tip_registry_program_id tag
      ≡ ok (account_row u sol (rpc (pda_of sol config.tip_registry_program_id tag)))
  unfolding chain_lookup lookup_at
  lookup =
      ap (lookup_at u sol rpc)
        (derive-normalized u sol tag config.tip_registry_program_id canonical valid)

  chosen_absent :
      choose_row u sol rpc config tag none
      ≡ ok (
          from_chain config.resolve_cache_negative_ttl_seconds
            (account_row u sol (rpc (pda_of sol config.tip_registry_program_id tag))))
  unfolding choose_row
  chosen_absent = ground (arith, lookup)

  account_row-cases :
      (o : Option (Option Bytes))
      → (account_row u sol o ≡ none)
        ⊎ ((raw : Bytes) × (acc : TagAccount) × (o ≡ some (some raw))
            × (decode_tag_account u sol raw ≡ ok acc)
            × (account_row u sol o ≡ some (chain_row acc)))
  unfolding account_row
  account_row-cases none = inl refl
  account_row-cases (some none) = inl refl
  account_row-cases (some (some raw)) = elim (Result-cases (decode_tag_account u sol raw)) [
    | inl (acc, e) ↦ inr (raw, acc, refl, e, ap decoded_row e)
    | inr (reason, e) ↦ inl (ap decoded_row e)
  ]

  -- The row that is answered with, as the mirror and the chain have it.
  unfoldable pub Source : Option Identity → Identity → Type 0
  Source none row =
      (acc : TagAccount) × OnChain u sol rpc config.tip_registry_program_id tag acc
      × (row ≡ chain_row acc)
  Source (some stored) row = (is_active stored ≡ true) × (row ≡ stored)

  not_on_chain :
      account_row u sol (rpc (pda_of sol config.tip_registry_program_id tag)) ≡ none
      → (row : Identity) → ¬ Source none row
  unfolding account_row Source
  not_on_chain e row (acc, (raw, at, decodes), _) =
      let here = ap (account_row u sol) at ∙ ap decoded_row decodes in absurd (cc (e, here))

  pub chosen :
      (o : Option Identity)
      → ((choose_row u sol rpc config tag o ≡ ok none) × ((row : Identity) → ¬ Source o row))
        ⊎ ((row : Identity) × (ttl : Option ℕ) × (choose_row u sol rpc config tag o
              ≡ ok (some (row, ttl)))
            × Source o row)
  unfolding choose_row from_chain Source is_active
  chosen (some stored) = elim (Bool-cases (is_active stored)) [
    | inl e ↦ inr (stored, none, ground (arith, e), (e, refl))
    | inr e ↦ inl (ground (arith, e), λ row (k, _). absurd (cc (e, k)))
  ]
  chosen none = elim (account_row-cases (rpc (pda_of sol config.tip_registry_program_id tag))) [
    | inl e ↦ inl (
      chosen_absent
          ∙ ap
              (λ (o : Option Identity). ok (from_chain config.resolve_cache_negative_ttl_seconds o))
              e,
      not_on_chain e,
    )
    | inr (raw, acc, at, decodes, e) ↦ inr (
      chain_row acc,
      some config.resolve_cache_negative_ttl_seconds,
      chosen_absent
          ∙ ap
              (λ (o : Option Identity). ok (from_chain config.resolve_cache_negative_ttl_seconds o))
              e,
      (acc, (raw, at, decodes), refl),
    )
  ]

  module _ (d : IdentityTable) (r : Redis) (json : Json ResolveResponse) where
    -- On a cache miss, a canonical tag resolves to the row of the mirror if that is active, to what
    -- the chain holds if the mirror has no row, and to 404 otherwise: a tag that the mirror has
    -- blocked is never looked up on the chain.
    pub resolve-Source :
        (table : d.Table) (s : r.Store)
        → cache_get r json config.redis_key_prefix config.resolve_cache_ttl_seconds
            (build_resolve_cache_key config.redis_key_prefix tag)
            s
          ≡ miss
        → (((resolve d r json config u sol rpc tag table s).0 ≡ err not_found)
            × ((row : Identity) → ¬ Source (d.find_unique table tag) row))
          ⊎ ((row : Identity) × Source (d.find_unique table tag) row
              × ((resolve d r json config u sol rpc tag table s).0
                  ≡ ok (response_of config.payment_link_base_url tag row)))
    unfolding resolve answer
    resolve-Source table s missed = elim (chosen (d.find_unique table tag)) [
      | inl (e, nothing) ↦ inl (
        ap (λ (x : Result HttpError ResolveResponse × r.Store). x.0)
            (uncached ∙ ap (λ (c : Choice). answer d r json config tag c s) e),
        nothing,
      )
      | inr (row, ttl, e, source) ↦ inr (
        row,
        source,
        ap (λ (x : Result HttpError ResolveResponse × r.Store). x.0)
            (uncached ∙ ap (λ (c : Choice). answer d r json config tag c s) e),
      )
    ]
      where
        uncached :
            resolve d r json config u sol rpc tag table s
            ≡ answer d r json config tag
                (choose_row u sol rpc config tag (d.find_unique table tag))
                s
        uncached =
            ap
              (λ (c : Cached ResolveResponse).
                resolve_cached d r json config c
                  (resolve_uncached d r json config u sol rpc tag table s) s)
              missed
