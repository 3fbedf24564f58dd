-- ===== src/Core/Account/Laws.antt =====
-- The decoder against the bytes that the on-chain program stores.
use tagwise_identity_protoco.Prelude.{
  ℕ, ◌+◌, ◌-◌, Text, CaseMap, false, [], ◌∷◌, ◌++◌, ◌≡◌, refl, ap, sym, ◌∙◌, some, length,
  length-append, get_elem?, take, drop, replicate, length-replicate, take-append_left,
  drop-append_left, drop-drop, get_elem?-drop, text_eq_refl, ltb, ok, arith,
}
use tagwise_identity_protoco.Solana.{Bytes, Solana, pubkey_length}
use tagwise_identity_protoco.Core.Normalize.{normalize_tag}
use tagwise_identity_protoco.Core.Normalize.Laws.{normalize_tag_fixed_iff}
use tagwise_identity_protoco.Core.Account.{
  TagAccount, tag_account_discriminator, tag_account_size, subarray, read_byte, check_padding,
  read_tag, require_canonical, decode_tag, decode_tag_account,
}
use tagwise_identity_protoco.Core.Account.Bytewise.{
  bytes_equal_refl, check_padding_of_drop, read_tag_lem,
}
use tagwise_identity_protoco.Program.{TagState, register_tag, serialize}
use tagwise_identity_protoco.Program.Reach.{Reach, Stores, register_tag-Stores, Reach-Stores}

-- Five fields of 8, 32, 32 and 20 bytes and a rest, cut out of their concatenation.
module _ (d o w t r : Bytes) (ld : length d ≡ 8) (lo : length o ≡ 32) (lw : length w ≡ 32)
    (lt : length t ≡ 20) where
  abbrev joined : Bytes
  joined = d ++ (o ++ (w ++ (t ++ r)))

  drop_8 : drop 8 joined ≡ o ++ (w ++ (t ++ r))
  drop_8 = drop-append_left 8 d _ ld

  drop_40 : drop 40 joined ≡ w ++ (t ++ r)
  drop_40 = sym (drop-drop 8 32 joined) ∙ ap (drop 32) drop_8 ∙ drop-append_left 32 o _ lo

  drop_72 : drop 72 joined ≡ t ++ r
  drop_72 = sym (drop-drop 40 32 joined) ∙ ap (drop 32) drop_40 ∙ drop-append_left 32 w _ lw

  drop_92 : drop 92 joined ≡ r
  drop_92 = sym (drop-drop 72 20 joined) ∙ ap (drop 20) drop_72 ∙ drop-append_left 20 t _ lt

  length-joined : length joined ≡ 92 + length r
  length-joined = omega (
    arith,
    length-append d (o ++ (w ++ (t ++ r))),
    length-append o (w ++ (t ++ r)),
    length-append w (t ++ r),
    length-append t r,
  )

  fields :
      (subarray joined 0 8 ≡ d)
      × (subarray joined 8 40 ≡ o)
      × (subarray joined 40 72 ≡ w)
      × (subarray joined 72 92 ≡ t)
  fields = (
    take-append_left 8 d _ ld,
    ap (take 32) drop_8 ∙ take-append_left 32 o _ lo,
    ap (take 32) drop_40 ∙ take-append_left 32 w _ lw,
    ap (take 20) drop_72 ∙ take-append_left 20 t _ lt,
  )

abbrev pub decoded : Solana → Text → TagState → TagAccount
decoded sol tag a = record {
  owner = sol.decode_address a.owner;
  wallet = sol.decode_address a.wallet;
  tag = tag;
  bump = a.bump;
}

module _ (u : CaseMap) (sol : Solana) (tag : Text) (a : TagState) (s : Stores tag a) where
  tag_20 : length a.tag ≡ 20
  tag_20 =
      ap length s.padded
      ∙ omega (
        arith,
        length-append tag (replicate (20 - length tag) 0),
        length-replicate {A = ℕ} (20 - length tag) 0,
        s.canonical.max,
      )

  buffer_tail : drop (length tag) a.tag ≡ replicate (20 - length tag) 0
  buffer_tail = ap (drop (length tag)) s.padded ∙ drop-append_left (length tag) tag _ refl

  buffer_head : take (length tag) a.tag ≡ tag
  buffer_head = ap (take (length tag)) s.padded ∙ take-append_left (length tag) tag _ refl

  bytes_92 : drop 92 (serialize a) ≡ a.tag_len ∷ a.bump ∷ []
  unfolding serialize
  bytes_92 =
      drop_92 tag_account_discriminator a.owner a.wallet a.tag (a.tag_len ∷ a.bump ∷ []) refl
        s.owner_length s.wallet_length tag_20

  tag_len_byte : read_byte (serialize a) 92 ≡ ok (length tag)
  unfolding read_byte
  tag_len_byte =
      let at : get_elem? (serialize a) 92 ≡ some a.tag_len =
        sym (get_elem?-drop 92 (serialize a)) ∙ ap (λ (l : Bytes). get_elem? l 0) bytes_92 in
      ground (arith, at, s.counted)

  bump_byte : read_byte (serialize a) 93 ≡ ok a.bump
  unfolding read_byte
  bump_byte =
      let at : get_elem? (serialize a) 93 ≡ some a.bump =
        sym (get_elem?-drop 93 (serialize a))
        ∙ ap (λ (l : Bytes). get_elem? l 0)
            (sym (drop-drop 92 1 (serialize a)) ∙ ap (drop 1) bytes_92) in
      ground (arith, at)

  size_94 : length (serialize a) ≡ tag_account_size
  unfolding serialize
  size_94 =
      length-joined tag_account_discriminator a.owner a.wallet a.tag (a.tag_len ∷ a.bump ∷ []) refl
        s.owner_length s.wallet_length tag_20

  tag_read : read_tag (length tag) 0 a.tag [] ≡ ok tag
  tag_read =
      read_tag_lem (length tag) 0 a.tag [] (omega (arith, tag_20, s.canonical.max))
      ∙ ap ok buffer_head

  canonical_kept : require_canonical tag (normalize_tag u tag) ≡ ok tag
  unfolding require_canonical
  canonical_kept = ground (arith, (normalize_tag_fixed_iff u tag).1 s.canonical, text_eq_refl tag)

  cuts :
      (subarray (serialize a) 0 8 ≡ tag_account_discriminator)
      × (subarray (serialize a) 8 40 ≡ a.owner)
      × (subarray (serialize a) 40 72 ≡ a.wallet)
      × (subarray (serialize a) 72 92 ≡ a.tag)
  unfolding serialize
  cuts =
      fields tag_account_discriminator a.owner a.wallet a.tag (a.tag_len ∷ a.bump ∷ []) refl
        s.owner_length s.wallet_length tag_20

  in_range : ltb 20 (length tag) ≡ false
  in_range = ground (arith, s.canonical.max)

  padding_checked : check_padding (20 - length tag) (length tag) a.tag ≡ ok tt
  padding_checked = check_padding_of_drop (20 - length tag) (length tag) a.tag buffer_tail

  tag_decoded : decode_tag u a.tag (length tag) ≡ ok tag
  unfolding decode_tag
  tag_decoded = simp (in_range, padding_checked, tag_read, canonical_kept)

  -- The decoder gives back what an account that stores a tag holds.
  pub decode-serialize : decode_tag_account u sol (serialize a) ≡ ok (decoded sol tag a)
  unfolding decode_tag_account
  decode-serialize = simp (
    size_94, cuts.0, cuts.1, cuts.2, cuts.3, bytes_equal_refl, tag_len_byte, bump_byte, tag_decoded,
  )

-- Whatever instructions ran since a tag was registered, the account's bytes decode to that tag with
-- the current owner and wallet.
pub decode_reachable :
    (u : CaseMap) (sol : Solana) (tag owner : Bytes) (bump : ℕ) {a b : TagState}
    → length owner ≡ pubkey_length
    → register_tag tag owner bump ≡ ok a
    → Reach a b
    → decode_tag_account u sol (serialize b) ≡ ok (decoded sol tag b)
decode_reachable u sol tag owner bump {b} o h r =
    decode-serialize u sol tag b (Reach-Stores (register_tag-Stores tag owner bump o h) r)
