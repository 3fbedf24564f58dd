-- ===== src/Core/Account.antt =====
-- packages/core/src/account.ts: decoding the account of a tag.
pub mod Bytewise
pub mod Laws
pub mod Exact
use tagwise_identity_protoco.Prelude.{
  ℕ, zero, suc, ◌+◌, ◌-◌, Text, CaseMap, Bool, true, false, not, [], ◌∷◌, ◌++◌, ◌&&◌, ◌==◌, ltb,
  none, some, length, get_elem?, take, drop, text_eq, Result, ok, err, ◌>>=◌, ◌>>◌, if◌then◌else◌,
}
use tagwise_identity_protoco.Solana.{Bytes, Solana}
use tagwise_identity_protoco.Core.Constants.{max_tag_length}
use tagwise_identity_protoco.Core.Normalize.{NormalizeTagResult, accepted, rejected, normalize_tag}

abbrev pub discriminator_length : ℕ
discriminator_length = 8

abbrev pub owner_offset : ℕ
owner_offset = 8

abbrev pub wallet_offset : ℕ
wallet_offset = 40

abbrev pub tag_offset : ℕ
tag_offset = 72

abbrev pub tag_len_offset : ℕ
tag_len_offset = 92

abbrev pub bump_offset : ℕ
bump_offset = 93

abbrev pub tag_account_size : ℕ
tag_account_size = 94

abbrev pub tag_account_discriminator : Bytes
tag_account_discriminator = 206 ∷ 141 ∷ 84 ∷ 39 ∷ 161 ∷ 42 ∷ 185 ∷ 170 ∷ []

pub record TagAccount : Type 0 where
  pub owner : Text
  pub wallet : Text
  pub tag : Text
  pub bump : ℕ

pub data TagAccountDecodeErrorReason : Type 0 where
  invalid_length discriminator_mismatch invalid_padding non_canonical_tag :
      TagAccountDecodeErrorReason

-- `Uint8Array.subarray`
abbrev pub subarray : Bytes → ℕ → ℕ → Bytes
subarray bytes begin end = take (end - begin) (drop begin bytes)

-- The loop of `bytesEqual`, over two arrays of one length.
unfoldable pub same_bytes : Bytes → Bytes → Bool
same_bytes [] _ = true
same_bytes (x ∷ xs) [] = false
same_bytes (x ∷ xs) (y ∷ ys) = x == y && same_bytes xs ys

unfoldable pub bytes_equal : Bytes → Bytes → Bool
unfolding same_bytes
bytes_equal a b = if length a == length b then same_bytes a b else false

unfoldable pub read_byte : Bytes → ℕ → Result TagAccountDecodeErrorReason ℕ
read_byte bytes offset = elim (get_elem? bytes offset) [
  | none ↦ err invalid_length
  | some byte ↦ ok byte
]

-- `for (let i = tagLen; i < MAX_TAG_LENGTH; i++)`, by the rounds that are left.
unfoldable pub check_padding : ℕ → ℕ → Bytes → Result TagAccountDecodeErrorReason (Unit {0})
unfolding read_byte
check_padding zero i buffer = ok tt
check_padding (suc rounds) i buffer = do
  byte ← read_byte buffer i
  if byte == 0 then check_padding rounds (i + 1) buffer else err invalid_padding

-- `for (let i = 0; i < tagLen; i++)`, by the rounds that are left.
unfoldable pub read_tag : ℕ → ℕ → Bytes → Text → Result TagAccountDecodeErrorReason Text
unfolding read_byte
read_tag zero i buffer raw_tag = ok raw_tag
read_tag (suc rounds) i buffer raw_tag = do
  byte ← read_byte buffer i
  read_tag rounds (i + 1) buffer (raw_tag ++ byte ∷ [])

-- The stored tag has to be its own canonical form.
unfoldable pub require_canonical :
    Text → NormalizeTagResult → Result TagAccountDecodeErrorReason Text
require_canonical raw_tag (rejected _) = err non_canonical_tag
require_canonical raw_tag (accepted tag) =
    if text_eq tag raw_tag then ok tag else err non_canonical_tag

-- The tag out of its buffer: the padding past `tag_len`, the text, its canonical form.
unfoldable pub decode_tag : CaseMap → Bytes → ℕ → Result TagAccountDecodeErrorReason Text
decode_tag u tag_buffer tag_len = if ltb max_tag_length tag_len then err invalid_length else do
  check_padding (max_tag_length - tag_len) tag_len tag_buffer
  raw_tag ← read_tag tag_len 0 tag_buffer []
  require_canonical raw_tag (normalize_tag u raw_tag)

-- The fields of a buffer of the right size and kind.
unfoldable pub decode_fields :
    CaseMap → Solana → Bytes → Result TagAccountDecodeErrorReason TagAccount
decode_fields u sol bytes = do
  let owner = sol.decode_address (subarray bytes owner_offset wallet_offset)
  let wallet = sol.decode_address (subarray bytes wallet_offset tag_offset)
  let tag_buffer = subarray bytes tag_offset tag_len_offset
  tag_len ← read_byte bytes tag_len_offset
  bump ← read_byte bytes bump_offset
  tag ← decode_tag u tag_buffer tag_len
  ok (record { owner = owner; wallet = wallet; tag = tag; bump = bump })

unfoldable pub decode_tag_account :
    CaseMap → Solana → Bytes → Result TagAccountDecodeErrorReason TagAccount
unfolding decode_fields
decode_tag_account u sol bytes =
    if not (length bytes == tag_account_size)
    then err invalid_length
    else if not (bytes_equal (subarray bytes 0 discriminator_length) tag_account_discriminator)
    then err discriminator_mismatch
    else decode_fields u sol bytes
