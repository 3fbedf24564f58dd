-- ===== src/Api/Message/Laws.antt =====
-- message.ts: reading a sign-in message back.
use tagwise_identity_protoco.Prelude.{
  ◌-◌, Text, true, false, List, [], ◌∷◌, ◌++◌, some, ◌==◌, any, length, length-append, drop,
  take-append_left, drop-append_left, starts_with, starts_with-append, truthy, text_eq,
  text_eq_refl, All, All-append, ◌≡◌, refl, ap, ◌∙◌, arith, get_elem?, all, not,
}
use tagwise_identity_protoco.Redis.{join}
use tagwise_identity_protoco.Moderation.Leetspeak.{is_line_terminator}
use tagwise_identity_protoco.Api.Message.{
  SignInMessageFields, newline, statement, domain_suffix, nonce_prefix, issued_at_prefix,
  expiration_prefix, message_lines, build_sign_in_message, split_lines, match_before,
  match_domain_line, find_line, first_domain, parse_lines, parse_sign_in_message,
}

abbrev pub OneLine : Text → Type 0
OneLine = All (λ c. (c == newline) ≡ false)

split-one : (t : Text) → OneLine t → split_lines t ≡ t ∷ []
unfolding split_lines
split-one [] h = refl
split-one (c ∷ t) h = ground (arith, h.0, split-one t h.1)

split-append :
    (t rest : Text) → OneLine t → split_lines (t ++ newline ∷ rest) ≡ t ∷ split_lines rest
unfolding split_lines
split-append [] rest h = refl
split-append (c ∷ t) rest h = ground (arith, h.0, split-append t rest h.1)

split-join :
    (line : Text) (lines : List Text)
    → All OneLine (line ∷ lines)
    → split_lines (join (newline ∷ []) (line ∷ lines)) ≡ line ∷ lines
unfolding join
split-join line [] h = split-one line h.0
split-join line (next ∷ lines) h =
    split-append line (join (newline ∷ []) (next ∷ lines)) h.0
    ∙ ap (λ (l : List Text). line ∷ l) (split-join next lines h.1)

match-append :
    (d suffix : Text)
    → any is_line_terminator d ≡ false
    → match_before suffix (d ++ suffix) ≡ some d
unfolding match_before
match-append d suffix h =
    let n : length d ≡ length (d ++ suffix) - length suffix =
      omega (arith, length-append d suffix) in
    let front = take-append_left (length (d ++ suffix) - length suffix) d suffix n in
    let back = drop-append_left (length (d ++ suffix) - length suffix) d suffix n in
    let same = ap (λ (t : Text). text_eq t suffix) back ∙ text_eq_refl suffix in
    let plain = ap (any is_line_terminator) front ∙ h in ground (arith, same, plain, front)

-- What the fields of a message have to be to be found in it: each on one line, a domain and a public
-- key that are not empty, and a first and a second line that look like none of the later ones.
pub record Readable (f : SignInMessageFields) : Type 0 where
  pub domain_line : any is_line_terminator f.domain ≡ false
  pub pubkey_line : OneLine f.pubkey
  pub nonce_line : OneLine f.nonce
  pub issued_at_line : OneLine f.issued_at
  pub expiration_line : OneLine f.expiration_time
  pub domain_given : truthy (some f.domain) ≡ some f.domain
  pub pubkey_given : truthy (some f.pubkey) ≡ some f.pubkey
  pub domain_apart :
      (starts_with (f.domain ++ domain_suffix) nonce_prefix ≡ false)
      × (starts_with (f.domain ++ domain_suffix) issued_at_prefix ≡ false)
      × (starts_with (f.domain ++ domain_suffix) expiration_prefix ≡ false)
  pub pubkey_apart :
      (starts_with f.pubkey nonce_prefix ≡ false)
      × (starts_with f.pubkey issued_at_prefix ≡ false)
      × (starts_with f.pubkey expiration_prefix ≡ false)

pub OneLine-of_all : (t : Text) → all (λ c. not (c == newline)) t ≡ true → OneLine t
OneLine-of_all [] h = tt
OneLine-of_all (c ∷ t) h = (ground arith, OneLine-of_all t (ground arith))

OneLine-of_domain : (t : Text) → any is_line_terminator t ≡ false → OneLine t
unfolding is_line_terminator
OneLine-of_domain [] h = tt
OneLine-of_domain (c ∷ t) h = (ground arith, OneLine-of_domain t (ground arith))

-- Reading lines whose parts are all found.
parse_lines-found :
    (lines : List Text) (d p n i x : Text)
    → first_domain lines ≡ some d
    → truthy (get_elem? lines 1) ≡ some p
    → truthy (find_line nonce_prefix lines) ≡ some n
    → truthy (find_line issued_at_prefix lines) ≡ some i
    → truthy (find_line expiration_prefix lines) ≡ some x
    → truthy (some d) ≡ some d
    → parse_lines lines
      ≡ some (record {
        domain = d;
        pubkey = p;
        nonce = drop (length nonce_prefix) n;
        issued_at = drop (length issued_at_prefix) i;
        expiration_time = drop (length expiration_prefix) x;
      })
unfolding parse_lines
parse_lines-found lines d p n i x hd hp hn hi hx given = simp (hd, hp, hn, hi, hx, given)

module _ (f : SignInMessageFields) (ok : Readable f) where
  find_nonce : find_line nonce_prefix (message_lines f) ≡ some (nonce_prefix ++ f.nonce)
  unfolding find_line message_lines starts_with
  find_nonce =
      ground (arith, ok.domain_apart.0, ok.pubkey_apart.0, starts_with-append nonce_prefix f.nonce)

  find_issued_at :
      find_line issued_at_prefix (message_lines f) ≡ some (issued_at_prefix ++ f.issued_at)
  unfolding find_line message_lines starts_with
  find_issued_at =
      ground (
        arith,
        ok.domain_apart.1,
        ok.pubkey_apart.1,
        starts_with-append issued_at_prefix f.issued_at,
      )

  find_expiration :
      find_line expiration_prefix (message_lines f) ≡ some (expiration_prefix ++ f.expiration_time)
  unfolding find_line message_lines starts_with
  find_expiration = ground (
    arith,
    ok.domain_apart.2,
    ok.pubkey_apart.2,
    starts_with-append expiration_prefix f.expiration_time,
  )

  first_found : first_domain (message_lines f) ≡ some f.domain
  unfolding first_domain message_lines match_domain_line
  first_found = match-append f.domain domain_suffix ok.domain_line

  second_found : truthy (get_elem? (message_lines f) 1) ≡ some f.pubkey
  unfolding message_lines
  second_found = ok.pubkey_given

  lines_parsed : parse_lines (message_lines f) ≡ some f
  unfolding truthy
  lines_parsed =
      parse_lines-found (message_lines f) f.domain f.pubkey (nonce_prefix ++ f.nonce)
        (issued_at_prefix ++ f.issued_at) (expiration_prefix ++ f.expiration_time) first_found
        second_found (ap truthy find_nonce) (ap truthy find_issued_at) (ap truthy find_expiration)
        ok.domain_given

  one_lines : All OneLine (message_lines f)
  unfolding message_lines
  one_lines =
      let domain =
        All-append (λ c. (c == newline) ≡ false) f.domain domain_suffix
          (OneLine-of_domain f.domain ok.domain_line) (OneLine-of_all domain_suffix refl) in
      let labelled = λ (prefix t : Text) (a : OneLine prefix) (b : OneLine t).
        All-append (λ c. (c == newline) ≡ false) prefix t a b in
      (
        domain,
        (
          ok.pubkey_line,
          (
            tt,
            (
              OneLine-of_all statement refl,
              (
                tt,
                (
                  labelled nonce_prefix f.nonce (OneLine-of_all nonce_prefix refl) ok.nonce_line,
                  (
                    labelled issued_at_prefix f.issued_at (OneLine-of_all issued_at_prefix refl)
                        ok.issued_at_line,
                    (
                      labelled expiration_prefix f.expiration_time
                          (OneLine-of_all expiration_prefix refl) ok.expiration_line,
                      tt,
                    ),
                  ),
                ),
              ),
            ),
          ),
        ),
      )

-- A message that `buildSignInMessage` built is read back into the same fields, where the domain and
-- the key are not empty, no field holds a line break, and neither the first line nor the key begins
-- like one of the three labelled lines.
pub parse-build :
    (f : SignInMessageFields)
    → Readable f
    → parse_sign_in_message (build_sign_in_message f) ≡ some f
unfolding parse_sign_in_message build_sign_in_message message_lines
parse-build f ok =
    ap parse_lines (split-join (f.domain ++ domain_suffix) (others f) (one_lines f ok))
    ∙ lines_parsed f ok
  where
    others : SignInMessageFields → List Text
    others g = drop 1 (message_lines g)
