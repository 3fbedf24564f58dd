-- ===== src/Core/Account/Exact.antt =====
-- The decoder accepts nothing but the bytes of an account that stores a canonical tag.
use tagwise_identity_protoco.Prelude.{
  ℕ, ◌+◌, ◌-◌, ◌≤◌, Text, CaseMap, true, [], ◌∷◌, ◌++◌, ◌≡◌, ap, sym, subst, ◌∙◌, ◌==◌, not, length,
  get_elem?, take, drop, some, replicate, take-append-drop, length-take, length-drop, drop-drop,
  drop-eq-cons, text_eq_iff, Result, ok, err, arith, Bool, Result-cases, ==_iff, if◌then◌else◌, inl,
  inr,
}
use tagwise_identity_protoco.Solana.{Bytes, Solana}
use tagwise_identity_protoco.Core.Normalize.{NormalizeTagResult, accepted, rejected, normalize_tag}
use tagwise_identity_protoco.Core.Normalize.Laws.{normalize_tag-IsCanonical}
use tagwise_identity_protoco.Core.Account.{
  TagAccount, TagAccountDecodeErrorReason, tag_account_discriminator, subarray, bytes_equal,
  read_byte, check_padding, require_canonical, decode_tag, decode_fields, decode_tag_account,
}
use tagwise_identity_protoco.Core.Account.Bytewise.{
  bytes_equal-eq, read_byte-eq-ok, drop_of_check_padding, drop_end, read_tag_lem,
}
use tagwise_identity_protoco.Core.Account.Laws.{decoded}
use tagwise_identity_protoco.Program.{TagState, serialize}
use tagwise_identity_protoco.Program.Reach.{Stores}

require_canonical-eq-ok :
    (u : CaseMap) (raw t : Text)
    → require_canonical raw (normalize_tag u raw) ≡ ok t
    → (t ≡ raw) × (normalize_tag u raw ≡ accepted raw)
unfolding require_canonical
require_canonical-eq-ok u raw t = go (normalize_tag u raw)
  where
    go : (n : NormalizeTagResult) → require_canonical raw n ≡ ok t → (t ≡ raw) × (n ≡ accepted raw)
    go (rejected r) h = cc
    go (accepted s) h =
        let same : s ≡ raw = (text_eq_iff s raw).0 (ground arith) in
        (ground (arith, same), ap accepted same)

-- A buffer whose tag is decoded is that tag and zeros, and the tag is canonical.
decode_tag-eq-ok :
    (u : CaseMap) (buffer : Bytes) (n : ℕ) {t : Text}
    → length buffer ≡ 20
    → decode_tag u buffer n ≡ ok t
    → (length t ≡ n) × (buffer ≡ t ++ replicate (20 - n) 0) × (normalize_tag u t ≡ accepted t)
unfolding decode_tag
decode_tag-eq-ok u buffer n {t} size h =
    let in_range : n ≤ 20 = ground arith in
    let read = read_tag_lem n 0 buffer [] (omega arith) in
    let padding : check_padding (20 - n) n buffer ≡ ok tt = ground arith in
    let kept : require_canonical (take n buffer) (normalize_tag u (take n buffer)) ≡ ok t =
      ground (arith, read, in_range, padding) in
    let (same, fixed) = require_canonical-eq-ok u (take n buffer) t kept in
    let zeros = drop_of_check_padding (20 - n) n buffer (omega arith) padding in
    rw same (
      omega (arith, length-take n buffer),
      sym (take-append-drop n buffer) ∙ ap (λ (l : Bytes). take n buffer ++ l) zeros,
      fixed,
    )

module _ (bytes : Bytes) where
  chunk : (n k : ℕ) → drop n bytes ≡ take k (drop n bytes) ++ drop (n + k) bytes
  chunk n k =
      sym (take-append-drop k (drop n bytes))
      ∙ ap (λ (l : Bytes). take k (drop n bytes) ++ l) (drop-drop n k bytes)

  last_two :
      {x y : ℕ}
      → length bytes ≡ 94
      → get_elem? bytes 92 ≡ some x
      → get_elem? bytes 93 ≡ some y
      → drop 92 bytes ≡ x ∷ y ∷ []
  last_two {x} {y} size at_92 at_93 =
      let second : drop 93 bytes ≡ y ∷ [] =
        drop-eq-cons bytes 93 at_93 ∙ ap (λ (l : Bytes). y ∷ l) (drop_end 94 bytes (omega arith)) in
      drop-eq-cons bytes 92 at_92 ∙ ap (λ (l : Bytes). x ∷ l) second

  split :
      {r : Bytes}
      → drop 92 bytes ≡ r
      → bytes
        ≡ subarray bytes 0 8
          ++ (subarray bytes 8 40 ++ (subarray bytes 40 72 ++ (subarray bytes 72 92 ++ r)))
  split {r} e =
      chunk 0 8
      ∙ ap (λ (l : Bytes). subarray bytes 0 8 ++ l)
          (chunk 8 32
            ∙ ap (λ (l : Bytes). subarray bytes 8 40 ++ l)
                (chunk 40 32
                  ∙ ap (λ (l : Bytes). subarray bytes 40 72 ++ l)
                      (chunk 72 20 ∙ ap (λ (l : Bytes). subarray bytes 72 92 ++ l) e)))

  length-subarray :
      (begin end : ℕ)
      → length bytes ≡ 94
      → end ≤ 94
      → length (subarray bytes begin end) ≡ end - begin
  length-subarray begin end size h =
      omega (arith, length-take (end - begin) (drop begin bytes), length-drop begin bytes)

guards_passed :
    {A : Type 0} (a b : Bool) (e f : TagAccountDecodeErrorReason)
    (m : Result TagAccountDecodeErrorReason A) {x : A}
    → (if not a then err e else if not b then err f else m) ≡ ok x
    → (a ≡ true) × (b ≡ true) × (m ≡ ok x)
guards_passed a b e f m h = ground arith

fields_read :
    (u : CaseMap) (sol : Solana) (bytes : Bytes) {acc : TagAccount} {n b : ℕ}
    → read_byte bytes 92 ≡ ok n
    → read_byte bytes 93 ≡ ok b
    → decode_fields u sol bytes ≡ ok acc
    → (t : Text) × (decode_tag u (subarray bytes 72 92) n ≡ ok t)
      × (acc ≡ record {
        owner = sol.decode_address (subarray bytes 8 40);
        wallet = sol.decode_address (subarray bytes 40 72);
        tag = t;
        bump = b;
      })
unfolding decode_fields
fields_read u sol bytes {n} rn rb h =
    let h' = simp (rn, rb) at h in
    elim (Result-cases (decode_tag u (subarray bytes 72 92) n)) [
      | inl (t, e) ↦ (t, e, ground (arith, e, h'))
      | inr (r, e) ↦ absurd (ground (arith, e, h'))
    ]

-- What the decoder accepts is exactly the storage of an account that holds a canonical tag: the
-- bytes are the serialised form of such an account, and the result is what that account holds.
pub decode_exact :
    (u : CaseMap) (sol : Solana) (bytes : Bytes) {acc : TagAccount}
    → decode_tag_account u sol bytes ≡ ok acc
    → (a : TagState) × Stores acc.tag a × (bytes ≡ serialize a) × (acc ≡ decoded sol acc.tag a)
unfolding decode_tag_account
decode_exact u sol bytes {acc} h =
    let (sized, marked, inner) =
      guards_passed (length bytes == 94)
        (bytes_equal (subarray bytes 0 8) tag_account_discriminator) _ _ (decode_fields u sol bytes)
        h in
    let size : length bytes ≡ 94 = (==_iff (length bytes) 94).0 sized in
    let (n, rn, at_n) = read_byte-eq-ok bytes 92 (omega arith) in
    let (b, rb, at_b) = read_byte-eq-ok bytes 93 (omega arith) in
    let disc = bytes_equal-eq (subarray bytes 0 8) tag_account_discriminator marked in
    let (t, tag_read, result) = fields_read u sol bytes rn rb inner in
    let tagged : acc.tag ≡ t = ap (λ (r : TagAccount). r.tag) result in
    let (counted, padded, fixed) =
      decode_tag-eq-ok u (subarray bytes 72 92) n (length-subarray bytes 72 92 size (omega arith))
        tag_read in
    let a : TagState = record {
      owner = subarray bytes 8 40;
      wallet = subarray bytes 40 72;
      tag = subarray bytes 72 92;
      tag_len = n;
      bump = b;
    } in
    let stored : Stores t a = record {
      canonical = normalize_tag-IsCanonical u t fixed;
      owner_length = length-subarray bytes 8 40 size (omega arith);
      wallet_length = length-subarray bytes 40 72 size (omega arith);
      padded = rw counted padded;
      counted = sym counted;
    } in
    (
      a,
      subst (λ x. Stores x a) (sym tagged) stored,
      unfold serialize in
          (split bytes (last_two bytes size at_n at_b)
            ∙ ap (λ (d : Bytes). d ++ (a.owner ++ (a.wallet ++ (a.tag ++ n ∷ b ∷ [])))) disc),
      result ∙ ap (λ x. decoded sol x a) (sym tagged),
    )
