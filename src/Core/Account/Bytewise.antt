-- ===== src/Core/Account/Bytewise.antt =====
-- The byte loops of the decoder against slices of the buffer.
use tagwise_identity_protoco.Prelude.{
  ℕ, zero, suc, ◌+◌, ◌≤◌, ◌<◌, Text, true, [], ◌∷◌, ◌++◌, ◌≡◌, refl, ap, sym, ◌∙◌, some, length,
  get_elem?, take, drop, replicate, get_elem?-eq-some, drop-eq-cons, get_elem?-drop, ok, arith,
}
use mathlib.Core.List.{append_assoc, append-nil}
use tagwise_identity_protoco.Solana.{Bytes}
use tagwise_identity_protoco.Core.Account.{
  same_bytes, bytes_equal, read_byte, check_padding, read_tag,
}

same_bytes-eq : (a b : Bytes) → length a ≡ length b → same_bytes a b ≡ true → a ≡ b
unfolding same_bytes
same_bytes-eq [] [] e h = refl
same_bytes-eq [] (y ∷ b) e h = absurd (omega arith)
same_bytes-eq (x ∷ a) [] e h = cc
same_bytes-eq (x ∷ a) (y ∷ b) e h = ground (arith, same_bytes-eq a b)

pub bytes_equal-eq : (a b : Bytes) → bytes_equal a b ≡ true → a ≡ b
unfolding bytes_equal
bytes_equal-eq a b h = ground (arith, same_bytes-eq a b)

same_bytes_refl : (a : Bytes) → same_bytes a a ≡ true
unfolding same_bytes
same_bytes_refl [] = refl
same_bytes_refl (x ∷ a) = ground (arith, same_bytes_refl a)

pub bytes_equal_refl : (a : Bytes) → bytes_equal a a ≡ true
unfolding bytes_equal
bytes_equal_refl a = ground (arith, same_bytes_refl a)

pub read_byte-eq-ok :
    (bytes : Bytes) (i : ℕ)
    → i < length bytes
    → (x : ℕ) × (read_byte bytes i ≡ ok x) × (get_elem? bytes i ≡ some x)
unfolding read_byte
read_byte-eq-ok bytes i h = let (x, e) = get_elem?-eq-some bytes i h in (x, ground (arith, e), e)

pub drop_end : (k : ℕ) (b : Bytes) → length b ≤ k → drop k b ≡ []
drop_end zero [] p = refl
drop_end zero (x ∷ b) p = absurd (omega arith)
drop_end (suc k) [] p = refl
drop_end (suc k) (x ∷ b) p = drop_end k b (omega arith)

-- Padding that passes the loop is a run of zeros, and such a run passes.
pub drop_of_check_padding :
    (n i : ℕ) (buffer : Bytes)
    → i + n ≡ length buffer
    → check_padding n i buffer ≡ ok tt
    → drop i buffer ≡ replicate n 0
unfolding check_padding
drop_of_check_padding zero i buffer e h = drop_end i buffer (omega arith)
drop_of_check_padding (suc n) i buffer e h =
    let (x, at) = get_elem?-eq-some buffer i (omega arith) in
    let zero_byte : x ≡ 0 = ground (arith, at) in
    let ih : drop (i + 1) buffer ≡ replicate n 0 =
      drop_of_check_padding n (i + 1) buffer (omega arith) (ground (arith, at)) in
    drop-eq-cons buffer i at ∙ ground (arith, zero_byte, ih)

pub check_padding_of_drop :
    (n i : ℕ) (buffer : Bytes) → drop i buffer ≡ replicate n 0 → check_padding n i buffer ≡ ok tt
unfolding check_padding
check_padding_of_drop zero i buffer h = refl
check_padding_of_drop (suc n) i buffer h =
    let at : get_elem? buffer i ≡ some 0 =
      sym (get_elem?-drop i buffer) ∙ ap (λ (l : Bytes). get_elem? l 0) h in
    let rest : drop (i + 1) buffer ≡ replicate n 0 = tail_of (drop-eq-cons buffer i at) h in
    ground (arith, at, check_padding_of_drop n (i + 1) buffer rest)
  where
    tail_of : {b t u : Bytes} {x y : ℕ} → b ≡ x ∷ t → b ≡ y ∷ u → t ≡ u
    tail_of p q = cc

-- The characters are the bytes from the place on.
pub read_tag_lem :
    (n i : ℕ) (buffer : Bytes) (raw : Text)
    → i + n ≤ length buffer
    → read_tag n i buffer raw ≡ ok (raw ++ take n (drop i buffer))
unfolding read_tag
read_tag_lem zero i buffer raw h = ap ok (sym (append-nil raw))
read_tag_lem (suc n) i buffer raw h =
    let (x, at) = get_elem?-eq-some buffer i (omega arith) in
    let ih : read_tag n (i + 1) buffer (raw ++ x ∷ [])
        ≡ ok (raw ++ x ∷ take n (drop (i + 1) buffer)) =
      read_tag_lem n (i + 1) buffer (raw ++ x ∷ []) (omega arith)
      ∙ ap ok (append_assoc raw (x ∷ []) _) in
    rw (drop-eq-cons buffer i at) (ground (arith, at, ih))
