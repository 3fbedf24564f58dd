-- ===== src/Core/Seeds/Laws.antt =====
-- The seeds of canonical tags.
use tagwise_identity_protoco.Prelude.{
  ◌%◌, ◌≤◌, Text, CaseMap, IsAscii, true, false, List, [], ◌∷◌, ◌≡◌, refl, map, ltb, any, length,
  ok, arith, ◌↔◌,
}
use tagwise_identity_protoco.Solana.{Bytes, Solana}
use tagwise_identity_protoco.Core.Constants.{tag_seed_prefix, max_tag_length}
use tagwise_identity_protoco.Core.Normalize.{accepted, normalize_tag}
use tagwise_identity_protoco.Core.Normalize.Laws.{normalize_tag-IsCanonical, lower_of_canonical}
use tagwise_identity_protoco.Core.Seeds.{build_tag_seeds, derive_tag_pda}

ascii_low : (t : Text) → IsAscii t → (map (λ c. c % 256) t ≡ t) × (any (λ c. ltb 127 c) t ≡ false)
ascii_low [] h = (refl, refl)
ascii_low (c ∷ t) h =
    let ih = ascii_low t h.1 in (ground (arith, h.0, ih.0), ground (arith, h.0, ih.1))

IsAscii-of_any : (t : Text) → any (λ c. ltb 127 c) t ≡ false → IsAscii t
IsAscii-of_any [] h = tt
IsAscii-of_any (c ∷ t) h = (ground arith, IsAscii-of_any t (ground arith))

-- `buildTagSeeds` succeeds exactly on ASCII text of at most 20 characters, and its seeds are then
-- the bytes of the prefix and of the text, unchanged.
pub build_tag_seeds_iff :
    (t : Text) (seeds : List Bytes)
    → (build_tag_seeds t ≡ ok seeds)
      ↔ ((length t ≤ max_tag_length) × IsAscii t × (seeds ≡ tag_seed_prefix ∷ t ∷ []))
unfolding build_tag_seeds
build_tag_seeds_iff t seeds = (
  λ h.
      let ascii = IsAscii-of_any t (ground arith) in
      (ground arith, ascii, ground (arith, (ascii_low t ascii).0)),
  λ h. ground (arith, h.0, h.2, (ascii_low t h.1).0, (ascii_low t h.1).1),
)

-- A tag that `normalizeTag` accepts always has seeds, so deriving its account's address throws only
-- for a program id that is no address; and the seeds are those of the on-chain program, the prefix
-- and the tag's own bytes.
pub derive-normalized :
    (u : CaseMap) (sol : Solana) (raw program_id : Text) {t : Text}
    → normalize_tag u raw ≡ accepted t
    → sol.is_address program_id ≡ true
    → derive_tag_pda sol t program_id
      ≡ ok (sol.program_derived_address program_id (tag_seed_prefix ∷ t ∷ []))
unfolding derive_tag_pda
derive-normalized u sol raw program_id {t} h valid =
    let c = normalize_tag-IsCanonical u raw h in
    let seeds = (build_tag_seeds_iff t _).1 (c.max, (lower_of_canonical t c.allowed).0, refl) in
    ground (arith, seeds, valid)
