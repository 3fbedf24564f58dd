-- ===== src/Protocol.antt =====
-- The parts together: what becomes of an account of the chain, from the program that wrote it
-- through the indexer to the service's answer.
use tagwise_identity_protoco.Prelude.{
  ℕ, ◌≤◌, Text, CaseMap, Bool, true, false, leb, Option, none, some, length, Result, ok, ◌≡◌, ◌≢◌,
  refl, ap, sym, ◌∙◌, arith, inl, inr, subst,
}
use tagwise_identity_protoco.Solana.{Bytes, Solana, pubkey_length}
use tagwise_identity_protoco.Core.Normalize.{NormalizeTagResult, accepted, normalize_tag}
use tagwise_identity_protoco.Core.Normalize.Laws.{
  normalize_tag_fixed_iff, normalize_tag-IsCanonical,
}
use tagwise_identity_protoco.Core.CacheKey.{build_resolve_cache_key}
use tagwise_identity_protoco.Core.Account.Laws.{decoded}
use tagwise_identity_protoco.Program.{TagState, register_tag, serialize}
use tagwise_identity_protoco.Program.Reach.{Reach, Reach-Stores, register_tag-Stores}
use tagwise_identity_protoco.Moderation.Profanity.{Engine}
use tagwise_identity_protoco.Mirror.{Identity, IdentityTable, CursorTable, is_active}
use tagwise_identity_protoco.Redis.{Redis}
use tagwise_identity_protoco.Cache.{Json, miss, cache_get, redis_cache_invalidator}
use tagwise_identity_protoco.Indexer.Apply.{
  VerifiedTagChange, ApplyOutcome, World, should_block_tag, apply_change, not_newer,
}
use tagwise_identity_protoco.Indexer.Apply
use tagwise_identity_protoco.Indexer.Apply.Laws.{row_after, outcome_of, apply_change-Applied}
use tagwise_identity_protoco.Indexer.Pipeline.{
  verified, verified_change, decode_and_verify, applied, after_apply, process_result,
  process_account_observation,
}
use tagwise_identity_protoco.Indexer.Pipeline.Laws.{pda_of, decode_and_verify_iff}
use tagwise_identity_protoco.Api.{HttpError, tag_or_throw, normalize_tag_param_or_throw}
use tagwise_identity_protoco.Api.Resolve.{Config, ResolveResponse, response_of, resolve}
use tagwise_identity_protoco.Api.Resolve.Laws.{Source, resolve-Source}
use tagwise_identity_protoco.Api.Resolve.Fresh.{get-apply_change}
use tagwise_identity_protoco.Api.Routes.{on_tag, tag_route, resolve_route}

-- The mirror's row of a tag, if any, is active and not newer than the slot.
abbrev pub Open : ℕ → Option Identity → Type 0
Open slot o =
    (row : Identity) → o ≡ some row → (is_active row ≡ true) × (row.last_applied_slot ≤ slot)

-- An observation that is not older than an active row is applied, and leaves an active row with the
-- wallet of the change.
row_after-of_Open :
    (change : VerifiedTagChange) (fresh : Text × ℕ) (o : Option Identity)
    → Open change.slot o
    → (outcome_of change o ≢ Apply.skipped_stale)
      × (is_active (row_after false change fresh o) ≡ true)
      × ((row_after false change fresh o).wallet ≡ change.wallet)
unfolding outcome_of row_after is_active
row_after-of_Open change fresh none h = (λ e. absurd (cc e), refl, refl)
row_after-of_Open change fresh (some row) h =
    let (live, le) = h row refl in
    let newer : leb row.last_applied_slot change.slot ≡ true = ground (arith, le) in
    (λ e. absurd (ground (arith, e, newer)), ground (arith, newer, live), ground (arith, newer))

module _ (u : CaseMap) (sol : Solana) (engine : Engine) (config : Config) (d : IdentityTable)
    (k : CursorTable) (r : Redis) (json : Json ResolveResponse)
    (valid : sol.is_address config.tip_registry_program_id ≡ true) where
  abbrev pub Mirrored : Type 0
  Mirrored = World d k (redis_cache_invalidator r config.redis_key_prefix)

  abbrev address_of : Text → Text
  address_of tag = pda_of sol config.tip_registry_program_id tag

  abbrev observed : Text → ℕ → TagState → VerifiedTagChange
  observed tag slot b = verified_change (address_of tag) slot (decoded sol tag b)

  -- An account that the program wrote for a tag is verified at the tag's address.
  observed-verified :
      (tag owner : Bytes) (bump : ℕ) (a b : TagState) (slot : ℕ)
      → length owner ≡ pubkey_length
      → register_tag tag owner bump ≡ ok a
      → Reach a b
      → decode_and_verify u sol (address_of tag) (serialize b) slot config.tip_registry_program_id
        ≡ some (verified (observed tag slot b))
  observed-verified tag owner bump a b slot size registered reached =
      (decode_and_verify_iff u sol (address_of tag) (serialize b) slot
          config.tip_registry_program_id (observed tag slot b) valid).1
        (
          b,
          Reach-Stores (register_tag-Stores tag owner bump size registered) reached,
          refl,
          refl,
          refl,
        )

  applied_of :
      (outcome : ApplyOutcome) (w : Mirrored) (slot : ℕ)
      → outcome ≢ Apply.skipped_stale
      → (w' : Mirrored) × (after_apply d k
            (redis_cache_invalidator r config.redis_key_prefix)
            u
            sol
            engine
            slot
            (outcome, w)
          ≡ (applied, w'))
        × (w'.identities ≡ w.identities)
        × (w'.cache ≡ w.cache)
  unfolding after_apply
  applied_of Apply.created w slot h = (_, refl, refl, refl)
  applied_of Apply.updated w slot h = (_, refl, refl, refl)
  applied_of Apply.skipped_stale w slot h = absurd (h refl)

  route_of :
      (rpc : Text → Option (Option Bytes)) (raw tag : Text) (table : d.Table) (s : r.Store)
      → normalize_tag u raw ≡ accepted tag
      → resolve_route u d r json config sol rpc table raw s
        ≡ resolve d r json config u sol rpc tag table s
  unfolding resolve_route tag_route normalize_tag_param_or_throw
  route_of rpc raw tag table s named =
      ap
        (λ (n : NormalizeTagResult).
          on_tag (λ t. resolve d r json config u sol rpc t table) (tag_or_throw n) s)
        named

  -- What the route answers once the mirror has the row of a change and the reader misses.
  answered_with :
      (rpc : Text → Option (Option Bytes)) (tag : Text) (new : Identity) (table : d.Table)
      (s : r.Store) (canonical : normalize_tag u tag ≡ accepted tag)
      → cache_get r json config.redis_key_prefix config.resolve_cache_ttl_seconds
          (build_resolve_cache_key config.redis_key_prefix tag)
          s
        ≡ miss
      → d.find_unique table tag ≡ some new
      → is_active new ≡ true
      → (resolve d r json config u sol rpc tag table s).0
        ≡ ok (response_of config.payment_link_base_url tag new)
  unfolding Source
  answered_with rpc tag new table s canonical missed found live =
      elim (resolve-Source u sol rpc config tag canonical valid d r json table s missed) [
        | inl (_, nothing) ↦ absurd (
            nothing new (
              subst (λ (o : Option Identity). Source u sol rpc config tag canonical valid o new)
                (sym found) (live, refl)))
        | inr (row, source, e) ↦
            let (_, same) =
              subst (λ (o : Option Identity). Source u sol rpc config tag canonical valid o row)
                found source in
            e ∙ ap (λ (x : Identity). ok (response_of config.payment_link_base_url tag x)) same
      ]

  -- From the chain to the caller: whatever instructions ran on a tag since it was registered, once
  -- the indexer observes the account, at a slot that is not older than the mirror's row and with the
  -- deletion of the cache entry succeeding, the service answers a request for any spelling of the
  -- tag with the wallet that the account holds. The tag passes moderation, and its row, if it has
  -- one, is active.
  pub observe-resolve :
      (rpc : Text → Option (Option Bytes)) (tag owner : Bytes) (bump : ℕ) (a b : TagState)
      (slot : ℕ) (w : Mirrored) (raw : Text) (s : r.Store) (held : Option Text)
      → length owner ≡ pubkey_length
      → register_tag tag owner bump ≡ ok a
      → Reach a b
      → Open slot (d.find_unique w.identities tag)
      → should_block_tag u engine tag ≡ false
      → r.del (build_resolve_cache_key config.redis_key_prefix tag) w.cache ≡ some s
      → r.get (build_resolve_cache_key config.redis_key_prefix tag) s ≡ some held
      → normalize_tag u raw ≡ accepted tag
      → (w' : Mirrored) × (process_account_observation d k
            (redis_cache_invalidator r config.redis_key_prefix)
            u
            sol
            engine
            config.tip_registry_program_id
            (pda_of sol config.tip_registry_program_id tag)
            (serialize b)
            slot
            w
          ≡ some (applied, w'))
        × (v : ResolveResponse) × ((resolve_route u d r json config sol rpc w'.identities raw
              w'.cache).0
            ≡ ok v)
        × (v.wallet ≡ sol.decode_address b.wallet)
  unfolding process_account_observation process_result response_of
  observe-resolve rpc tag owner bump a b slot w raw s held size registered reached current clean
        deleted answered named =
      let change = observed tag slot b in
      let (outcome, w1, ran, done) =
        apply_change-Applied d k (redis_cache_invalidator r config.redis_key_prefix) u engine change
          w in
      let new = row_after false change (d.fresh w.identities) (d.find_unique w.identities tag) in
      let (not_stale, live, wallet) =
        row_after-of_Open change (d.fresh w.identities) (d.find_unique w.identities tag) current in
      let wrote : outcome ≢ Apply.skipped_stale = λ e. not_stale (sym done.outcome_eq ∙ e) in
      let (w', stepped, rows, cached) = applied_of outcome w1 slot wrote in
      let canonical = (normalize_tag_fixed_iff u tag).1 (normalize_tag-IsCanonical u raw named) in
      let found : d.find_unique w1.identities tag ≡ some new =
        done.row_eq
        ∙ ap
            (λ (blocked : Bool).
              some
                (row_after blocked change (d.fresh w.identities) (d.find_unique w.identities tag)))
            clean in
      let missed =
        get-apply_change u sol engine config d k r json change canonical valid w w1 outcome s held
          ran wrote deleted answered in
      let seen = observed-verified tag owner bump a b slot size registered reached in
      (
        w',
        ground (arith, seen, ran, stepped),
        response_of config.payment_link_base_url tag new,
        ap (λ (x : Result HttpError ResolveResponse × r.Store). x.0)
              (route_of rpc raw tag w'.identities w'.cache named)
            ∙ ap (λ (x : d.Table). (resolve d r json config u sol rpc tag x w'.cache).0) rows
            ∙ ap (λ (x : r.Store). (resolve d r json config u sol rpc tag w1.identities x).0) cached
            ∙ answered_with rpc tag new w1.identities w1.cache canonical missed found live,
        wallet,
      )
