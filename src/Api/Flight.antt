-- ===== src/Api/Flight.antt =====
-- apps/api/src/tags/tags.service.ts: `resolve` with the lookups that are in flight, for requests that
-- run at the same time. What happens between two waits of a request is one step.
pub mod Keys
pub mod Sound
pub mod Settle
pub mod Laws
use tagwise_identity_protoco.Prelude.{
  ℕ, suc, ◌+◌, Text, Bool, not, List, [], ◌∷◌, ◌++◌, map, Option, none, some, In, ◌==◌, text_eq,
  filter, ◌≡◌, Result, ok, err, if◌then◌else◌,
}
use tagwise_identity_protoco.Cache.{Cached, miss, negative, hit}
use tagwise_identity_protoco.Api.{HttpError, not_found}
use tagwise_identity_protoco.Api.Resolve.{ResolveResponse}

abbrev pub Outcome : Type 0
Outcome = Result HttpError ResolveResponse

-- A request that waits for the promise of a lookup, and one that has its answer.
pub record Waiting : Type 0 where
  pub request : ℕ
  pub key : Text
  pub flight : ℕ

pub record Answered : Type 0 where
  pub request : ℕ
  pub key : Text
  pub outcome : Outcome

-- `inFlightResolves`, by cache key, with a number for each promise; and the requests.
pub record Flights : Type 0 where
  pub in_flight : List (Text × ℕ)
  pub started : ℕ
  pub waiting : List Waiting
  pub answered : List Answered

abbrev pub no_flights : Flights
no_flights = record { in_flight = []; started = 0; waiting = []; answered = [] }

-- `Map.get` and `Map.delete`
unfoldable pub flight_of : Text → List (Text × ℕ) → Option ℕ
flight_of key [] = none
flight_of key ((k, flight) ∷ rest) = if text_eq k key then some flight else flight_of key rest

abbrev pub is_other : Text → Text × ℕ → Bool
is_other key (k, flight) = not (text_eq k key)

unfoldable pub join_or_start : ℕ → Text → Option ℕ → Flights → Flights
join_or_start request key (some flight) s = record s {
  waiting = record { request = request; key = key; flight = flight } ∷ s.waiting;
}
join_or_start request key none s = record {
  in_flight = (key, s.started) ∷ s.in_flight;
  started = suc s.started;
  waiting = record { request = request; key = key; flight = s.started } ∷ s.waiting;
  answered = s.answered;
}

abbrev pub answer_with : ℕ → Text → Outcome → Flights → Flights
answer_with request key outcome s = record s {
  answered = record { request = request; key = key; outcome = outcome } ∷ s.answered;
}

-- A request goes on with what it read from the cache.
unfoldable pub after_cache : ℕ → Text → Cached ResolveResponse → Flights → Flights
unfolding join_or_start
after_cache request key negative s = answer_with request key (err not_found) s
after_cache request key (hit v) s = answer_with request key (ok v) s
after_cache request key miss s = join_or_start request key (flight_of key s.in_flight) s

abbrev pub waits_for : ℕ → Waiting → Bool
waits_for flight q = q.flight == flight

abbrev pub answer_of : Outcome → Waiting → Answered
answer_of outcome q = record { request = q.request; key = q.key; outcome = outcome }

-- A lookup settles: `finally` deletes the key, and all that await the promise have its outcome.
unfoldable pub settle : Text → ℕ → Outcome → Flights → Flights
settle key flight outcome s = record {
  in_flight = filter (is_other key) s.in_flight;
  started = s.started;
  waiting = filter (λ q. not (waits_for flight q)) s.waiting;
  answered = map (answer_of outcome) (filter (waits_for flight) s.waiting) ++ s.answered;
}

-- A request that has gone past the cache, with what it read there.
pub record Arrival : Type 0 where
  pub request : ℕ
  pub key : Text
  pub cached : Cached ResolveResponse

-- A history, by the requests that have gone past the cache, the last one first.
pub data Reach : List Arrival → Flights → Type 0 where
  start : Reach [] no_flights
  arrived :
      {n : List Arrival} {s : Flights} (request : ℕ) (key : Text) (cached : Cached ResolveResponse)
      → Reach n s
      → Reach
          (record { request = request; key = key; cached = cached } ∷ n)
          (after_cache request key cached s)
  settled :
      {n : List Arrival} {s : Flights} (key : Text) (flight : ℕ) (outcome : Outcome)
      → In (key, flight) s.in_flight
      → Reach n s
      → Reach n (settle key flight outcome s)
