-- ===== src/Indexer/Pipeline/Laws.antt =====
-- decode-and-verify.ts, pipeline.ts and reconcile.ts: which accounts reach the mirror, and what an
-- observation and a sweep do to it.
use tagwise_identity_protoco.Prelude.{
  ℕ, Text, CaseMap, true, [], ◌∷◌, some, text_eq, text_eq_iff, ok, err, ◌≢◌, ◌≡◌, ap, sym, ◌∙◌, ◌↔◌,
  inl, inr, arith, Bool-cases, Result-cases, subst,
}
use tagwise_identity_protoco.Solana.{Bytes, Solana}
use tagwise_identity_protoco.Core.Constants.{tag_seed_prefix}
use tagwise_identity_protoco.Core.Normalize.Laws.{normalize_tag_fixed_iff}
use tagwise_identity_protoco.Core.Account.{
  TagAccount, TagAccountDecodeErrorReason, decode_tag_account,
}
use tagwise_identity_protoco.Core.Account.Laws.{decoded, decode-serialize}
use tagwise_identity_protoco.Core.Account.Exact.{decode_exact}
use tagwise_identity_protoco.Core.Seeds.{derive_tag_pda}
use tagwise_identity_protoco.Core.Seeds.Laws.{derive-normalized}
use tagwise_identity_protoco.Program.{TagState, serialize}
use tagwise_identity_protoco.Program.Reach.{Stores}
use tagwise_identity_protoco.Indexer.Apply.{VerifiedTagChange}
use tagwise_identity_protoco.Indexer.Pipeline.{
  DecodeVerifyResult, verified, decode_failed, pda_mismatch, verified_change, check_address,
  decode_and_verify,
}

-- The address of a tag's account.
abbrev pub pda_of : Solana → Text → Text → Text
pda_of sol program_id tag = (sol.program_derived_address program_id (tag_seed_prefix ∷ tag ∷ [])).0

module _ (u : CaseMap) (sol : Solana) (address : Text) (bytes : Bytes) (slot : ℕ)
    (program_id : Text) (valid : sol.is_address program_id ≡ true) where
  derived :
      {acc : TagAccount}
      → decode_tag_account u sol bytes ≡ ok acc
      → derive_tag_pda sol acc.tag program_id
        ≡ ok (sol.program_derived_address program_id (tag_seed_prefix ∷ acc.tag ∷ []))
  derived {acc} h =
      let (a, s, _, _) = decode_exact u sol bytes h in
      derive-normalized u sol acc.tag program_id ((normalize_tag_fixed_iff u acc.tag).1 s.canonical)
        valid

  checked :
      {acc : TagAccount}
      → decode_tag_account u sol bytes ≡ ok acc
      → decode_and_verify u sol address bytes slot program_id
        ≡ check_address address slot acc
            (ok (sol.program_derived_address program_id (tag_seed_prefix ∷ acc.tag ∷ [])))
  unfolding decode_and_verify
  checked h = ground (arith, h, derived h)

check_address_inv :
    (address : Text) (slot : ℕ) (acc : TagAccount) (r : Text × ℕ) (change : VerifiedTagChange)
    → check_address address slot acc (ok r) ≡ some (verified change)
    → (r.0 ≡ address) × (change ≡ verified_change address slot acc)
unfolding check_address
check_address_inv address slot acc r change h = elim (Bool-cases (text_eq r.0 address)) [
  | inl e ↦
      let same : verified (verified_change address slot acc) ≡ verified change =
        ground (arith, h, e) in
      ((text_eq_iff _ _).0 e, cc (same))
  | inr e ↦ absurd (ground (arith, h, e))
]

check_address_hit :
    (address : Text) (slot : ℕ) (acc : TagAccount) (r : Text × ℕ)
    → r.0 ≡ address
    → check_address address slot acc (ok r) ≡ some (verified (verified_change address slot acc))
unfolding check_address
check_address_hit address slot acc r h = let e = (text_eq_iff r.0 address).1 h in ground (arith, e)

abbrev Genuine : Solana → Text → Bytes → ℕ → Text → VerifiedTagChange → Type 0
Genuine sol address bytes slot program_id change =
    (a : TagState) × Stores change.tag a
    × (bytes ≡ serialize a)
    × (pda_of sol program_id change.tag ≡ address)
    × (change ≡ verified_change address slot (decoded sol change.tag a))

Genuine-of_decoded :
    (u : CaseMap) (sol : Solana) (address : Text) (bytes : Bytes) (slot : ℕ) (program_id : Text)
    (change : VerifiedTagChange)
    → sol.is_address program_id ≡ true
    → {acc : TagAccount} → decode_tag_account u sol bytes ≡ ok acc
    → decode_and_verify u sol address bytes slot program_id ≡ some (verified change)
    → Genuine sol address bytes slot program_id change
Genuine-of_decoded u sol address bytes slot program_id change valid {acc} e h =
    let (at, same) =
      check_address_inv address slot acc _ change
        (sym (checked u sol address bytes slot program_id valid e) ∙ h) in
    let (a, stores, stored, is) = decode_exact u sol bytes e in
    subst (Genuine sol address bytes slot program_id) (sym same)
      (a, stores, stored, at, ap (verified_change address slot) is)

-- An observation is accepted exactly when its data are bytes that the on-chain program stores for
-- the tag and its address is the one that the program derives from that tag; the change then holds
-- the stored owner, wallet and bump.
pub decode_and_verify_iff :
    (u : CaseMap) (sol : Solana) (address : Text) (bytes : Bytes) (slot : ℕ) (program_id : Text)
    (change : VerifiedTagChange)
    → sol.is_address program_id ≡ true
    → (decode_and_verify u sol address bytes slot program_id ≡ some (verified change)) ↔ (
        (a : TagState) × Stores change.tag a
        × (bytes ≡ serialize a)
        × (pda_of sol program_id change.tag ≡ address)
        × (change ≡ verified_change address slot (decoded sol change.tag a)))
unfolding decode_and_verify
decode_and_verify_iff u sol address bytes slot program_id change valid = (
  λ h. elim (Result-cases (decode_tag_account u sol bytes)) [
    | inl (acc, e) ↦ Genuine-of_decoded u sol address bytes slot program_id change valid e h
    | inr (reason, e) ↦ absurd (not_decoded e h)
  ],
  λ (a, s, e, at, same).
      let decodes = ap (decode_tag_account u sol) e ∙ decode-serialize u sol change.tag a s in
      checked u sol address bytes slot program_id valid decodes
      ∙ check_address_hit address slot (decoded sol change.tag a)
          (sol.program_derived_address program_id (tag_seed_prefix ∷ change.tag ∷ [])) at
      ∙ ap (λ (x : VerifiedTagChange). some (verified x)) (sym same),
)
  where
    not_decoded :
        {reason : TagAccountDecodeErrorReason}
        → decode_tag_account u sol bytes ≡ err reason
        → decode_and_verify u sol address bytes slot program_id ≢ some (verified change)
    not_decoded e h = ground (arith, e, h)

check_address-total :
    (address : Text) (slot : ℕ) (acc : TagAccount) (r : Text × ℕ)
    → (result : DecodeVerifyResult) × (check_address address slot acc (ok r) ≡ some result)
unfolding check_address
check_address-total address slot acc r = elim (Bool-cases (text_eq r.0 address)) [
  | inl e ↦ (verified (verified_change address slot acc), ground (arith, e))
  | inr e ↦ (pda_mismatch, ground (arith, e))
]

-- With a program id that is an address, verifying an observation never throws.
pub decode_and_verify-total :
    (u : CaseMap) (sol : Solana) (address : Text) (bytes : Bytes) (slot : ℕ) (program_id : Text)
    → sol.is_address program_id ≡ true
    → (result : DecodeVerifyResult) × (decode_and_verify u sol address bytes slot program_id
        ≡ some result)
unfolding decode_and_verify
decode_and_verify-total u sol address bytes slot program_id valid =
    elim (Result-cases (decode_tag_account u sol bytes)) [
      | inl (acc, e) ↦
          let (result, h) =
            check_address-total address slot acc
              (sol.program_derived_address program_id (tag_seed_prefix ∷ acc.tag ∷ [])) in
          (result, checked u sol address bytes slot program_id valid e ∙ h)
      | inr (reason, e) ↦ (decode_failed reason, ground (arith, e))
    ]
