-- ===== src/Api/Resolve/Overlap/Laws.antt =====
-- tags.service.ts: what lookups that overlap answer and cache while the row of their tag stays.
use tagwise_identity_protoco.Prelude.{
  ℕ, Text, CaseMap, Bool, true, false, List, [], ◌∷◌, ◌++◌, Option, none, some, All, ok, err, ◌≡◌,
  refl, ap, ◌∙◌, ◌⊎◌, inl, inr, subst, Option-cases, if◌then◌else◌,
}
use tagwise_identity_protoco.Solana.{Bytes, Solana}
use tagwise_identity_protoco.Core.CacheKey.{build_resolve_cache_key}
use tagwise_identity_protoco.Mirror.{Identity, IdentityTable, is_active}
use tagwise_identity_protoco.Redis.{Redis}
use tagwise_identity_protoco.Cache.{
  Json, Entry, cache_negative, value, cache_set, raw_of, ttl_or_default, or_unchanged,
}
use tagwise_identity_protoco.Cache.Laws.{set_resolve}
use tagwise_identity_protoco.Api.{not_found}
use tagwise_identity_protoco.Api.Resolve.{
  Choice, Config, ResolveResponse, response_of, choose_row, answer,
}
use tagwise_identity_protoco.Api.Resolve.Overlap.{
  choice_of, said_of, entry_of, Overlap, Quiet, Fresh,
}

All-middle :
    {A : Type 0} (P : A → Type 0) (front : List A) (c : A) (back : List A)
    → All P (front ++ c ∷ back)
    → P c × All P (front ++ back)
All-middle P [] c back (h, hs) = (h, hs)
All-middle P (x ∷ front) c back (h, hs) =
    let (at, rest) = All-middle P front c back hs in (at, (h, rest))

module _ (u : CaseMap) (sol : Solana) (config : Config) (d : IdentityTable) (r : Redis)
    (json : Json ResolveResponse) (tag : Text) where
  abbrev key : Text
  key = build_resolve_cache_key config.redis_key_prefix tag

  set_read :
      (e : Entry ResolveResponse) (ttl : Option ℕ) (s : r.Store)
      → (r.read
            (cache_set r json config.redis_key_prefix config.resolve_cache_ttl_seconds key e ttl s)
            key
          ≡ r.read s key)
        ⊎ (r.read
              (cache_set r json config.redis_key_prefix config.resolve_cache_ttl_seconds key e ttl
                s)
              key
            ≡ some (raw_of r json config.redis_key_prefix config.resolve_cache_ttl_seconds e))
  unfolding or_unchanged
  set_read e ttl s =
      let wrote =
        set_resolve r json config.redis_key_prefix config.resolve_cache_ttl_seconds tag e ttl s in
      elim (Option-cases (
        r.set_ex key (raw_of r json config.redis_key_prefix config.resolve_cache_ttl_seconds e)
          (ttl_or_default r json config.redis_key_prefix config.resolve_cache_ttl_seconds ttl) s)) [
            | inl failed ↦ inl (
                ap (λ (x : r.Store). r.read x key)
                  (wrote
                    ∙ ap
                        (or_unchanged r json config.redis_key_prefix
                          config.resolve_cache_ttl_seconds s)
                        failed))
            | inr (s', done) ↦ inr (
                ap (λ (x : r.Store). r.read x key)
                  (wrote
                    ∙ ap
                        (or_unchanged r json config.redis_key_prefix
                          config.resolve_cache_ttl_seconds s)
                        done)
                ∙ (r.set_ex_read key _ _ s done).0)
          ]

  -- The answer of a lookup that has read the row, and what it does to the entry.
  pub answer_of_choice :
      (row : Identity) (s : r.Store)
      → ((answer d r json config tag (choice_of row) s).0
          ≡ said_of config.payment_link_base_url tag row)
        × ((r.read (answer d r json config tag (choice_of row) s).1 key ≡ r.read s key)
            ⊎ (r.read (answer d r json config tag (choice_of row) s).1 key
                ≡ some (
                    raw_of r json config.redis_key_prefix config.resolve_cache_ttl_seconds
                      (entry_of config.payment_link_base_url tag row))))
  unfolding answer
  answer_of_choice row s = by_status (is_active row)
    where
      by_status :
          (b : Bool)
          → ((answer d r json config tag (ok (if b then some (row, none) else none)) s).0 ≡ (
              if b then ok (response_of config.payment_link_base_url tag row) else err not_found))
            × ((r.read
                    (answer d r json config tag (ok (if b then some (row, none) else none)) s).1
                    key
                  ≡ r.read s key)
                ⊎ (r.read
                      (answer d r json config tag (ok (if b then some (row, none) else none)) s).1
                      key
                    ≡ some (
                        raw_of r json config.redis_key_prefix config.resolve_cache_ttl_seconds (
                          if b
                          then value (response_of config.payment_link_base_url tag row)
                          else cache_negative))))
      by_status true =
          (refl, set_read (value (response_of config.payment_link_base_url tag row)) none s)
      by_status false =
          (refl, set_read cache_negative (some config.resolve_cache_negative_ttl_seconds) s)

  pub chosen_stored :
      (rpc : Text → Option (Option Bytes)) (table : d.Table) (row : Identity)
      → d.find_unique table tag ≡ some row
      → choose_row u sol rpc config tag (d.find_unique table tag) ≡ choice_of row
  unfolding choose_row
  chosen_stored rpc table row h = ap (choose_row u sol rpc config tag) h

  pub Quiet-Fresh :
      (row : Identity) {s s' : Overlap d r}
      → Quiet u sol config d r json tag s s'
      → Fresh u sol config d r json tag row s
      → Fresh u sol config d r json tag row s'
  Quiet-Fresh row Quiet.same h = h
  Quiet-Fresh row (Quiet.reads {a} rpc before) h =
      let k = Quiet-Fresh row before h in
      record {
        stored = k.stored;
        pending = (chosen_stored rpc a.table row k.stored, k.pending);
        cached = k.cached;
      }
  Quiet-Fresh row (Quiet.answers {a} front back c before e) h =
      let k = Quiet-Fresh row before h in
      let (is, rest) =
        All-middle (λ (x : Choice). x ≡ choice_of row) front c back
          (subst (All (λ (x : Choice). x ≡ choice_of row)) e k.pending) in
      record {
        stored = k.stored;
        pending = rest;
        cached = elim (answer_of_choice row a.store).1 [
          | inl kept ↦ after_kept a c is kept k.cached
          | inr wrote ↦
              inr (
                ap (λ (x : Choice). r.read (answer d r json config tag x a.store).1 key) is ∙ wrote)
        ];
      }
    where
      after_kept :
          (a : Overlap d r) (c : Choice)
          → c ≡ choice_of row
          → r.read (answer d r json config tag (choice_of row) a.store).1 key ≡ r.read a.store key
          → (r.read a.store key ≡ none)
            ⊎ (r.read a.store key
                ≡ some (
                    raw_of r json config.redis_key_prefix config.resolve_cache_ttl_seconds
                      (entry_of config.payment_link_base_url tag row)))
          → (r.read (answer d r json config tag c a.store).1 key ≡ none)
            ⊎ (r.read (answer d r json config tag c a.store).1 key
                ≡ some (
                    raw_of r json config.redis_key_prefix config.resolve_cache_ttl_seconds
                      (entry_of config.payment_link_base_url tag row)))
      after_kept a c is kept (inl e) =
          inl
            (ap (λ (x : Choice). r.read (answer d r json config tag x a.store).1 key) is ∙ kept ∙ e)
      after_kept a c is kept (inr e) =
          inr
            (ap (λ (x : Choice). r.read (answer d r json config tag x a.store).1 key) is ∙ kept ∙ e)
  Quiet-Fresh row (Quiet.other_row table before e) h =
      let k = Quiet-Fresh row before h in
      record { stored = e ∙ k.stored; pending = k.pending; cached = k.cached }
  Quiet-Fresh row (Quiet.other_entry store before (inl e)) h =
      let k = Quiet-Fresh row before h in
      record {
        stored = k.stored;
        pending = k.pending;
        cached = elim k.cached [ inl x ↦ inl (e ∙ x) | inr x ↦ inr (e ∙ x) ];
      }
  Quiet-Fresh row (Quiet.other_entry store before (inr e)) h =
      let k = Quiet-Fresh row before h in
      record { stored = k.stored; pending = k.pending; cached = inl e }
