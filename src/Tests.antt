-- ===== src/Tests.antt =====
-- Concrete instances of what the model takes as parameters, and sample data.
pub mod Codec
pub mod Core
pub mod Indexer
pub mod Api
pub mod Config
pub mod Sdk
pub mod SignIn
pub mod Protocol
use tagwise_identity_protoco.Prelude.{
  ℕ, Text, CaseMap, codes, Bool, true, false, List, [], ◌∷◌, ◌++◌, map, lower_unit, Option, none,
  some, length, replicate, ◌==◌, ==_iff, refl, ◌≡◌, includes,
}
use tagwise_identity_protoco.Solana.{Bytes, Solana, pubkey_length}
use tagwise_identity_protoco.Moderation.Profanity.{Engine}
use tagwise_identity_protoco.Mirror.{Identity, IdentityStatus}
use tagwise_identity_protoco.Indexer.Apply.{VerifiedTagChange, CacheInvalidator}

-- Lower case on ASCII only.
abbrev pub ascii_case : CaseMap
ascii_case = record { lower = map lower_unit; lower_ascii = λ s h. refl }

abbrev joined : List Bytes → Text
joined [] = []
joined (b ∷ bs) = b ++ joined bs

-- Addresses that are their own bytes.
abbrev pub plain_solana : Solana
plain_solana = record {
  decode_address = λ b. b;
  encode_address = λ a. a;
  is_address = λ a. length a == pubkey_length;
  program_derived_address = λ program_id seeds. (joined seeds, 255);
  encode-decode = λ b h. refl;
  decode-encode = λ a h. refl;
  encode_length = λ a h. (==_iff (length a) 32).0 h;
  is_address-decode = λ b h. (==_iff (length b) 32).1 h;
}

abbrev pub program_id : Text
program_id = replicate 32 1

abbrev pub owner : Text
owner = replicate 32 7

abbrev pub wallet : Text
wallet = replicate 32 9

abbrev pub alice : Text
alice = codes "alice"

-- An engine that throws on every call: nothing is blocked.
abbrev pub broken_engine : Engine
broken_engine _ = none

abbrev pub change_at : ℕ → VerifiedTagChange
change_at slot = record {
  address = codes "tagalice";
  tag = alice;
  owner = owner;
  wallet = wallet;
  bump = 255;
  slot = slot;
}

abbrev pub alice_row : Identity
alice_row = record {
  id = codes "id";
  tag = alice;
  owner = owner;
  wallet = owner;
  bump = 255;
  display_name = none;
  avatar = none;
  bio = none;
  preferred_token = none;
  verified = false;
  merchant = false;
  status = IdentityStatus.active;
  last_applied_slot = 3;
  created_at = 0;
}

-- A cache that counts invalidations.
abbrev pub counting_cache : CacheInvalidator
counting_cache = record { Cache = List Text; invalidate = λ tag seen. tag ∷ seen }
