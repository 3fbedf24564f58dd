-- ===== src/Tests/Api/Flight.antt =====
-- Runs of the theorems on requests that run at the same time.
use tagwise_identity_protoco.Prelude.{
  ℕ, ◌+◌, Text, codes, [], ◌∷◌, List, All, length, In, here, err, ◌≡◌, ◌≢◌, refl, ◌↔◌, ◌⊎◌,
}
use tagwise_identity_protoco.Cache.{miss}
use tagwise_identity_protoco.Api.{not_found}
use tagwise_identity_protoco.Api.Flight.{
  Waiting, Answered, Arrival, Flights, no_flights, join_or_start, after_cache, flight_of, settle,
  Reach,
}
use tagwise_identity_protoco.Api.Flight.Sound.{Awaited, Accounted}
use tagwise_identity_protoco.Api.Flight.Laws.{Reach-single_flight, settle-Shared}

-- Two requests that miss for one key, and one for another.
abbrev key : Text
key = codes "a"

abbrev other_key : Text
other_key = codes "b"

abbrev busy : Flights
busy = after_cache 2 key miss (after_cache 1 other_key miss (after_cache 0 key miss no_flights))

abbrev arrivals : List Arrival
arrivals =
    record { request = 2; key = key; cached = miss }
    ∷ record { request = 1; key = other_key; cached = miss }
    ∷ record { request = 0; key = key; cached = miss }
    ∷ []

busy_reached : Reach arrivals busy
busy_reached =
    Reach.arrived 2 key miss (Reach.arrived 1 other_key miss (Reach.arrived 0 key miss Reach.start))

Reach-single_flight_example :
    ((k : Text) (f g : ℕ) → In (k, f) busy.in_flight → In (k, g) busy.in_flight → f ≡ g)
    × All (Awaited busy.waiting) busy.in_flight
    × ((q : Waiting) → In q busy.waiting → In (q.key, q.flight) busy.in_flight)
    × All (λ e. Accounted e busy.waiting busy.answered) arrivals
    × (length busy.waiting + length busy.answered ≡ 3)
    × (busy.in_flight ≡ [] → length busy.answered ≡ 3)
Reach-single_flight_example = Reach-single_flight busy_reached

abbrev one_flight : Flights
one_flight = after_cache 0 key miss no_flights

flying : In (key, 0) one_flight.in_flight
unfolding after_cache join_or_start flight_of
flying = here refl

settle-Shared_example :
    ((a : Answered)
      → In a (settle key 0 (err not_found) one_flight).answered ↔ (
          ((q : Waiting) × In q one_flight.waiting
            × (q.key ≡ key)
            × (a ≡ record { request = q.request; key = q.key; outcome = err not_found }))
          ⊎ In a one_flight.answered))
    × ((q : Waiting)
        → In q (settle key 0 (err not_found) one_flight).waiting
          ↔ (In q one_flight.waiting × (q.key ≢ key)))
    × ((x : Text × ℕ)
        → In x (settle key 0 (err not_found) one_flight).in_flight
          ↔ (In x one_flight.in_flight × (x.0 ≢ key)))
settle-Shared_example =
    settle-Shared key 0 (err not_found) (Reach.arrived 0 key miss Reach.start) flying
