-- ===== src/Api/Flight/Laws.antt =====
-- tags.service.ts: the sharing of lookups in flight.
use tagwise_identity_protoco.Prelude.{
  ℕ, ◌+◌, Text, Bool, true, false, not, List, [], ◌∷◌, map, In, All, In-of_All, filter, In-filter,
  length, ◌≡◌, ◌≢◌, refl, sym, arith, inl, inr, Any-append_left, Any-append_right, Any-append_cases,
  In-map, In-map_inv, text_eq, text_eq_iff, ◌⊎◌, ◌↔◌, subst,
}
use tagwise_identity_protoco.Api.Flight.{
  Outcome, Waiting, Answered, Arrival, Flights, is_other, waits_for, answer_of, settle, Reach,
}
use tagwise_identity_protoco.Api.Flight.Keys.{same_key}
use tagwise_identity_protoco.Api.Flight.Sound.{Sound, Accounted, Awaited}
use tagwise_identity_protoco.Api.Flight.Settle.{unless, waiter_iff, Reach-Sound}

-- However requests and lookups interleave, at most one lookup is in flight for a key; each lookup in
-- flight has a request of its key that waits for it, and each that waits has its lookup; each request
-- that has gone past the cache is accounted for: after a miss it waits or has an answer, after an
-- entry it has that entry's answer; there are as many answers and waiting requests as requests; and
-- when no lookup is in flight, as many answers as requests.
pub Reach-single_flight :
    {n : List Arrival} {s : Flights}
    → Reach n s
    → ((key : Text) (f g : ℕ) → In (key, f) s.in_flight → In (key, g) s.in_flight → f ≡ g)
      × All (Awaited s.waiting) s.in_flight
      × ((q : Waiting) → In q s.waiting → In (q.key, q.flight) s.in_flight)
      × All (λ e. Accounted e s.waiting s.answered) n
      × (length s.waiting + length s.answered ≡ length n)
      × (s.in_flight ≡ [] → length s.answered ≡ length n)
Reach-single_flight {n} {s} r =
    let h = Reach-Sound r in
    (
      λ key f g a b. same_key s.in_flight h.apart a b refl,
      h.awaited,
      λ q k. In-of_All (λ (x : Waiting). In (x.key, x.flight) s.in_flight) s.waiting h.owned k,
      h.accounted,
      h.counted,
      λ e. omega (
        arith,
        h.counted,
        nobody s.waiting (
            subst
              (λ (l : List (Text × ℕ)).
                All (λ (q : Waiting). In {A = Text × ℕ} (q.key, q.flight) l) s.waiting)
              e h.owned),
      ),
    )
  where
    nobody :
        (qs : List Waiting)
        → All (λ (q : Waiting). In {A = Text × ℕ} (q.key, q.flight) []) qs
        → length qs ≡ 0
    nobody [] k = refl
    nobody (q ∷ qs) (k, ks) = elim k [ ]

-- When a lookup settles, exactly the requests for its key that waited are answered, each under its
-- own number and key with the outcome of the lookup; the others wait on, no answer that was given
-- changes, and exactly the entries of other keys stay in the map of lookups in flight.
pub settle-Shared :
    {n : List Arrival} {s : Flights} (key : Text) (flight : ℕ) (outcome : Outcome)
    → Reach n s
    → In (key, flight) s.in_flight
    → ((a : Answered)
        → In a (settle key flight outcome s).answered ↔ (
            ((q : Waiting) × In q s.waiting
              × (q.key ≡ key)
              × (a ≡ record { request = q.request; key = q.key; outcome = outcome }))
            ⊎ In a s.answered))
      × ((q : Waiting)
          → In q (settle key flight outcome s).waiting ↔ (In q s.waiting × (q.key ≢ key)))
      × ((x : Text × ℕ)
          → In x (settle key flight outcome s).in_flight ↔ (In x s.in_flight × (x.0 ≢ key)))
unfolding settle
settle-Shared {n} {s} key flight outcome r flying = (
  λ a. (
    λ k. elim (Any-append_cases (map (answer_of outcome) served) k) [
      | inl m ↦
          let (q, there_q, e) = In-map_inv (answer_of outcome) served m in
          let (waited, w) = (In-filter (waits_for flight) q s.waiting).0 there_q in
          inl (q, waited, (waiter_iff h key flight flying q waited).0 w, e)
      | inr m ↦ inr m
    ],
    λ k. elim k [
      | inl (q, waited, same, e) ↦ Any-append_left s.answered (
          subst (λ (x : Answered). In x (map (answer_of outcome) served)) (sym e)
            (In-map (answer_of outcome) (
              (In-filter (waits_for flight) q s.waiting).1
                (waited, (waiter_iff h key flight flying q waited).1 same))))
      | inr m ↦ Any-append_right (map (answer_of outcome) served) m
    ],
  ),
  λ q. (
    λ k.
        let (waited, w) = (In-filter (λ (x : Waiting). not (waits_for flight x)) q s.waiting).0 k in
        (
          waited,
          λ same.
              absurd
                (clash (waits_for flight q) w ((waiter_iff h key flight flying q waited).1 same)),
        ),
    λ (waited, other). (In-filter (λ (x : Waiting). not (waits_for flight x)) q s.waiting).1 (
      waited,
      unless (waits_for flight q) (λ e. other ((waiter_iff h key flight flying q waited).0 e)),
    ),
  ),
  λ x. (
    λ k.
        let (flies, other) = (In-filter (is_other key) x s.in_flight).0 k in
        (flies, λ same. absurd (clash (text_eq x.0 key) other ((text_eq_iff x.0 key).1 same))),
    λ (flies, other).
        (In-filter (is_other key) x s.in_flight).1
          (flies, unless (text_eq x.0 key) (λ e. other ((text_eq_iff x.0 key).0 e))),
  ),
)
  where
    h : Sound n s
    h = Reach-Sound r

    served : List Waiting
    served = filter (waits_for flight) s.waiting

    clash : (b : Bool) → not b ≡ true → b ≡ true → ⊥
    clash true e k = absurd (cc e)
    clash false e k = absurd (cc k)
