-- ===== src/Api/Auth/Ownership.antt =====
-- auth/guards/tag-ownership.guard.ts: which requests the guard lets through.
use tagwise_identity_protoco.Prelude.{
  Text, CaseMap, true, false, Option, none, some, ◌≡◌, ◌≢◌, refl, ap, sym, ◌∙◌, ◌↔◌, arith, inl,
  inr, length, ◌==◌, ==_iff, text_eq_iff, ok, >>=-eq-ok, ◌>>=◌, Bool-cases,
}
use tagwise_identity_protoco.Core.Normalize.{NormalizeTagResult, accepted, rejected, normalize_tag}
use tagwise_identity_protoco.Mirror.{Identity, IdentityTable, is_active}
use tagwise_identity_protoco.Api.{tag_or_throw, normalize_tag_param_or_throw}
use tagwise_identity_protoco.Api.Auth.{owned_by, ownership_guard}

tag_or_throw_lem :
    (n : NormalizeTagResult) {tag : Text} → tag_or_throw n ≡ ok tag → n ≡ accepted tag
tag_or_throw_lem (rejected reason) h = absurd (cc h)
tag_or_throw_lem (accepted tag) h = cc h

owned_inv :
    (pubkey : Text) (o : Option Identity)
    → owned_by pubkey o ≡ ok tt
    → (row : Identity) × (o ≡ some row) × (is_active row ≡ true) × (row.owner ≡ pubkey)
owned_inv pubkey none h = absurd (cc h)
owned_inv pubkey (some row) h = elim (Bool-cases (is_active row)) [
  | inl e ↦ (row, refl, e, (text_eq_iff row.owner pubkey).0 (ground (arith, h, e)))
  | inr e ↦ absurd (ground (arith, h, e))
]

owned_pass :
    (pubkey : Text) (row : Identity)
    → is_active row ≡ true
    → row.owner ≡ pubkey
    → owned_by pubkey (some row) ≡ ok tt
owned_pass pubkey row live owned = ground (arith, live, (text_eq_iff row.owner pubkey).1 owned)

-- A key that owns the active tag that the route names.
pub Owns : CaseMap → (d : IdentityTable) → d.Table → Text → Text → Type 0
Owns u d table raw pubkey =
    (tag : Text) × (row : Identity) × (normalize_tag u raw ≡ accepted tag)
    × (d.find_unique table tag ≡ some row)
    × (is_active row ≡ true)
    × (row.owner ≡ pubkey)

-- The guard lets the request of an authenticated key through exactly when the tag of the route
-- normalises to one whose row in the mirror is active and owned by that key.
pub ownership_guard_iff :
    (u : CaseMap) (d : IdentityTable) (table : d.Table) (raw pubkey : Text)
    → length pubkey ≢ 0
    → (ownership_guard u d (some pubkey) raw table ≡ ok tt) ↔ Owns u d table raw pubkey
unfolding ownership_guard normalize_tag_param_or_throw Owns
ownership_guard_iff u d table raw pubkey given = (
  λ h.
      let (tag, e, k) = >>=-eq-ok (tag_or_throw (normalize_tag u raw)) _ (sym opened ∙ h) in
      let (row, found, live, owned) = owned_inv pubkey (d.find_unique table tag) k in
      (tag, row, tag_or_throw_lem (normalize_tag u raw) e, found, live, owned),
  λ (tag, row, canonical, found, live, owned).
      opened
      ∙ ap
          (λ (n : NormalizeTagResult).
            tag_or_throw n >>= λ t. owned_by pubkey (d.find_unique table t))
          canonical
      ∙ ap (owned_by pubkey) found
      ∙ owned_pass pubkey row live owned,
)
  where
    nonempty : length pubkey == 0 ≡ false
    nonempty = elim (Bool-cases (length pubkey == 0)) [
      | inl e ↦ absurd (given ((==_iff (length pubkey) 0).0 e))
      | inr e ↦ e
    ]

    opened :
        ownership_guard u d (some pubkey) raw table
        ≡ (tag_or_throw (normalize_tag u raw) >>= λ t. owned_by pubkey (d.find_unique table t))
    opened = ground (arith, nonempty)
