-- ===== src/Solana.antt =====
-- What the program takes from @solana/kit and @solana/addresses, which are not part of the
-- repository: a parameter of the model, with their documented behaviour as laws.
use tagwise_identity_protoco.Prelude.{ℕ, Text, Bool, true, List, ◌≡◌, length}

-- A sequence of bytes.
abbrev pub Bytes : Type 0
Bytes = List ℕ

abbrev pub pubkey_length : ℕ
pubkey_length = 32

pub record Solana : Type 0 where
  -- `getAddressDecoder().decode` and `getAddressEncoder().encode`: base58 text of 32 bytes.
  pub decode_address : Bytes → Text
  pub encode_address : Text → Bytes
  -- `isAddress`; `address()` throws on every other text.
  pub is_address : Text → Bool
  -- `getProgramDerivedAddress`, from the program's address and the seeds: the address and its bump.
  pub program_derived_address : Text → List Bytes → Text × ℕ
  pub encode-decode : (b : Bytes) → length b ≡ pubkey_length → encode_address (decode_address b) ≡ b
  pub decode-encode : (a : Text) → is_address a ≡ true → decode_address (encode_address a) ≡ a
  pub encode_length : (a : Text) → is_address a ≡ true → length (encode_address a) ≡ pubkey_length
  pub is_address-decode :
      (b : Bytes) → length b ≡ pubkey_length → is_address (decode_address b) ≡ true
