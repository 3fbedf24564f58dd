-- ===== src/Core/Seeds.antt =====
-- packages/core/src/seeds.ts and pda.ts: the seeds and the address of a tag's account.
pub mod Laws
use tagwise_identity_protoco.Prelude.{
  ℕ, ◌%◌, Text, List, [], ◌∷◌, map, ltb, any, length, Result, ok, err, ◌>>=◌, ◌>>◌, if◌then◌else◌,
}
use tagwise_identity_protoco.Solana.{Bytes, Solana}
use tagwise_identity_protoco.Core.Constants.{tag_seed_prefix, max_tag_length}

-- The exceptions of `buildTagSeeds` and `deriveTagPda`.
pub data PdaError : Type 0 where
  tag_too_long tag_not_ascii invalid_program_id : PdaError

-- A write into a `Uint8Array` keeps the low eight bits.
unfoldable pub ascii_bytes : Text → Bytes
ascii_bytes value = map (λ c. c % 256) value

unfoldable pub assert_shape_of_normalized_tag : Text → Result PdaError (Unit {0})
assert_shape_of_normalized_tag tag =
    if ltb max_tag_length (length tag)
    then err tag_too_long
    else if any (λ c. ltb 127 c) tag
    then err tag_not_ascii
    else ok tt

unfoldable pub build_tag_seeds : Text → Result PdaError (List Bytes)
unfolding assert_shape_of_normalized_tag ascii_bytes
build_tag_seeds tag = do
  assert_shape_of_normalized_tag tag
  ok (ascii_bytes tag_seed_prefix ∷ ascii_bytes tag ∷ [])

-- The address and the bump; `address(programId)` throws on a text that is no address.
unfoldable pub derive_tag_pda : Solana → Text → Text → Result PdaError (Text × ℕ)
derive_tag_pda sol tag program_id = do
  seeds ← build_tag_seeds tag
  if sol.is_address program_id
      then ok (sol.program_derived_address program_id seeds)
      else err invalid_program_id
