-- ===== src/Api/Flight/Sound.antt =====
-- tags.service.ts: what holds of the lookups in flight after any history of requests.
use tagwise_identity_protoco.Prelude.{
  ℕ, suc, ◌+◌, ◌<◌, Text, All-map, ◌⊎◌, ok, err, List, [], ◌∷◌, Option, none, some, In, here, there,
  All, length, ◌≡◌, ◌≢◌, refl, arith, inl, inr,
}
use tagwise_identity_protoco.Cache.{Cached, miss, negative, hit}
use tagwise_identity_protoco.Api.Resolve.{ResolveResponse}
use tagwise_identity_protoco.Api.{not_found}
use tagwise_identity_protoco.Api.Flight.{
  Outcome, Waiting, Answered, Arrival, answer_with, Flights, flight_of, join_or_start, after_cache,
}
use tagwise_identity_protoco.Api.Flight.Keys.{flight_of-some, flight_of-none, Apart}

-- An answer agrees with what was read from the cache, where that was an answer.
abbrev pub Agrees : Cached ResolveResponse → Outcome → Type 0
Agrees miss outcome = Unit {0}
Agrees negative outcome = outcome ≡ err not_found
Agrees (hit v) outcome = outcome ≡ ok v

-- A request waits, after a miss, or has an answer.
abbrev pub Accounted : Arrival → List Waiting → List Answered → Type 0
Accounted e waiting answered =
    ((q : Waiting) × In q waiting × (q.request ≡ e.request) × (q.key ≡ e.key) × (e.cached ≡ miss))
    ⊎ ((a : Answered) × In a answered
        × (a.request ≡ e.request)
        × (a.key ≡ e.key)
        × Agrees e.cached a.outcome)

-- A lookup in flight has a request that waits for it.
abbrev pub Awaited : List Waiting → Text × ℕ → Type 0
Awaited waiting x = (q : Waiting) × In q waiting × (q.key ≡ x.0) × (q.flight ≡ x.1)

-- What holds after any history.
pub record Sound (n : List Arrival) (s : Flights) : Type 0 where
  pub apart : Apart s.in_flight
  pub below : All (λ x. x.1 < s.started) s.in_flight
  pub owned : All (λ q. In (q.key, q.flight) s.in_flight) s.waiting
  pub awaited : All (Awaited s.waiting) s.in_flight
  pub counted : length s.waiting + length s.answered ≡ length n
  pub accounted : All (λ e. Accounted e s.waiting s.answered) n

owned_there :
    (x : Text × ℕ) (l : List (Text × ℕ)) (qs : List Waiting)
    → All (λ q. In (q.key, q.flight) l) qs
    → All (λ q. In (q.key, q.flight) (x ∷ l)) qs
owned_there x l [] h = tt
owned_there x l (q ∷ qs) (h, hs) = (there h, owned_there x l qs hs)

below_next : (n : ℕ) (l : List (Text × ℕ)) → All (λ x. x.1 < n) l → All (λ x. x.1 < suc n) l
below_next n [] h = tt
below_next n (x ∷ l) (h, hs) = (omega (arith, h), below_next n l hs)

new_apart :
    (key : Text) (n : ℕ) (l : List (Text × ℕ))
    → All (λ x. x.0 ≢ key) l
    → All (λ x. x.1 < n) l
    → All (λ y. (y.0 ≢ key) × (y.1 ≢ n)) l
new_apart key n [] h k = tt
new_apart key n (x ∷ l) (h, hs) (k, ks) = ((h, λ e. omega (arith, k, e)), new_apart key n l hs ks)

waits_more :
    (q : Waiting) (e : Arrival) (waiting : List Waiting) (answered : List Answered)
    → Accounted e waiting answered
    → Accounted e (q ∷ waiting) answered
waits_more q e waiting answered (inl (r, k, f, g, h)) = inl (r, there k, f, g, h)
waits_more q e waiting answered (inr h) = inr h

answered_more :
    (a : Answered) (e : Arrival) (waiting : List Waiting) (answered : List Answered)
    → Accounted e waiting answered
    → Accounted e waiting (a ∷ answered)
answered_more a e waiting answered (inl h) = inl h
answered_more a e waiting answered (inr (b, k, f, g, h)) = inr (b, there k, f, g, h)

abbrev arrival : ℕ → Text → Cached ResolveResponse → Arrival
arrival request key cached = record { request = request; key = key; cached = cached }

joined :
    {n : List Arrival} {s : Flights} (q : Waiting)
    → Sound n s
    → All (λ e. Accounted e (q ∷ s.waiting) s.answered) (arrival q.request q.key miss ∷ n)
joined {n} {s} q h = (
  inl (q, here refl, refl, refl, refl),
  All-map (λ e. waits_more q e s.waiting s.answered) n h.accounted,
)

waiting_more :
    {n : List Arrival} {s : Flights} (q : Waiting)
    → Sound n s
    → All (Awaited (q ∷ s.waiting)) s.in_flight
waiting_more {n} {s} q h =
    All-map (λ x a. let (p, k, same, number) = a in (p, there k, same, number)) s.in_flight
      h.awaited

join-Sound :
    {n : List Arrival} {s : Flights} (request : ℕ) (key : Text) (o : Option ℕ)
    → flight_of key s.in_flight ≡ o
    → Sound n s
    → Sound (arrival request key miss ∷ n) (join_or_start request key o s)
unfolding join_or_start
join-Sound {n} {s} request key (some flight) e h = record {
  apart = h.apart;
  below = h.below;
  owned = (flight_of-some key s.in_flight e, h.owned);
  awaited = waiting_more (record { request = request; key = key; flight = flight }) h;
  counted = omega (arith, h.counted);
  accounted = joined (record { request = request; key = key; flight = flight }) h;
}
join-Sound {n} {s} request key none e h = record {
  apart = (new_apart key s.started s.in_flight (flight_of-none key s.in_flight e) h.below, h.apart);
  below = (omega arith, below_next s.started s.in_flight h.below);
  owned = (here refl, owned_there (key, s.started) s.in_flight s.waiting h.owned);
  awaited = (
    (record { request = request; key = key; flight = s.started }, here refl, refl, refl),
    waiting_more (record { request = request; key = key; flight = s.started }) h,
  );
  counted = omega (arith, h.counted);
  accounted = joined (record { request = request; key = key; flight = s.started }) h;
}

answer-Sound :
    {n : List Arrival} {s : Flights} (request : ℕ) (key : Text) (cached : Cached ResolveResponse)
    (outcome : Outcome)
    → Agrees cached outcome
    → Sound n s
    → Sound (arrival request key cached ∷ n) (answer_with request key outcome s)
answer-Sound {n} {s} request key cached outcome agrees h = record {
  apart = h.apart;
  below = h.below;
  owned = h.owned;
  awaited = h.awaited;
  counted = omega (arith, h.counted);
  accounted = (
    inr (record { request = request; key = key; outcome = outcome }, here refl, refl, refl, agrees),
    All-map
        (λ e.
          answered_more (record { request = request; key = key; outcome = outcome }) e s.waiting
            s.answered)
        n h.accounted,
  );
}

pub after_cache-Sound :
    {n : List Arrival} {s : Flights} (request : ℕ) (key : Text) (cached : Cached ResolveResponse)
    → Sound n s
    → Sound (arrival request key cached ∷ n) (after_cache request key cached s)
unfolding after_cache
after_cache-Sound {n} {s} request key negative h =
    answer-Sound request key negative (err not_found) refl h
after_cache-Sound {n} {s} request key (hit v) h = answer-Sound request key (hit v) (ok v) refl h
after_cache-Sound {n} {s} request key miss h =
    join-Sound request key (flight_of key s.in_flight) refl h
