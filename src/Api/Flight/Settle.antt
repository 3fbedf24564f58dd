-- ===== src/Api/Flight/Settle.antt =====
-- tags.service.ts: what a lookup that settles leaves of the invariant of the lookups in flight.
use tagwise_identity_protoco.Prelude.{
  ℕ, ◌<◌, Text, Bool, true, false, not, All-map, ◌++◌, sym, ◌∙◌, ap, subst, Any-append_left,
  Any-append_right, In-map, In-of_All, List, map, In, All_of_In, In-of_All, filter, In-filter,
  length-append, length-map, text_eq, text_eq_iff, ==_iff, ◌≡◌, refl, arith, inl, inr, ◌↔◌,
  Bool-cases,
}
use tagwise_identity_protoco.Cache.{Cached}
use tagwise_identity_protoco.Api.Resolve.{ResolveResponse}
use tagwise_identity_protoco.Api.Flight.{
  Outcome, Waiting, Arrival, Flights, is_other, waits_for, answer_of, settle, Reach,
}
use tagwise_identity_protoco.Api.Flight.Keys.{
  same_key, same_flight, filter-All, filter-Apart, split_length,
}
use tagwise_identity_protoco.Api.Flight.Sound.{Agrees, Accounted, Awaited, Sound, after_cache-Sound}

pub unless : (b : Bool) → (b ≡ true → ⊥) → not b ≡ true
unless true k = absurd (k refl)
unless false k = refl

-- A lookup that settles is the only one of its key, and its number is only its own.
module _ {n : List Arrival} {s : Flights} (h : Sound n s) (key : Text) (flight : ℕ)
    (flying : In (key, flight) s.in_flight) where
  -- Who waits for it asked for its key, and who asked for its key waits for it.
  pub waiter_iff : (q : Waiting) → In q s.waiting → (waits_for flight q ≡ true) ↔ (q.key ≡ key)
  waiter_iff q k =
      let own = In-of_All (λ (x : Waiting). In (x.key, x.flight) s.in_flight) s.waiting h.owned k in
      (
        λ e. same_flight s.in_flight h.apart own flying ((==_iff q.flight flight).0 e),
        λ e. (==_iff q.flight flight).1 (same_key s.in_flight h.apart own flying e),
      )

  stays :
      (q : Waiting)
      → In q s.waiting
      → not (waits_for flight q) ≡ true
      → In (q.key, q.flight) (filter (is_other key) s.in_flight)
  stays q k e =
      (In-filter (is_other key) (q.key, q.flight) s.in_flight).1
        (In-of_All (λ (x : Waiting). In (x.key, x.flight) s.in_flight) s.waiting h.owned k, other)
    where
      apart : text_eq q.key key ≡ true → ⊥
      apart t = absurd (ground (arith, e, (waiter_iff q k).1 ((text_eq_iff q.key key).0 t)))

      other : not (text_eq q.key key) ≡ true
      other = elim (Bool-cases (text_eq q.key key)) [
        | inl t ↦ absurd (apart t)
        | inr t ↦ ground (arith, t)
      ]

  flights_kept :
      (x : Text × ℕ)
      → In x (filter (is_other key) s.in_flight)
      → Awaited (filter (λ q. not (waits_for flight q)) s.waiting) x
  flights_kept x k =
      let (flies, other) = (In-filter (is_other key) x s.in_flight).0 k in
      let (q, waits, same, number) = In-of_All (Awaited s.waiting) s.in_flight h.awaited flies in
      (
        q,
        (In-filter (λ (y : Waiting). not (waits_for flight y)) q s.waiting).1 (
          waits,
          unless (waits_for flight q)
              (λ e. other_key x other (sym same ∙ (waiter_iff q waits).0 e)),
        ),
        same,
        number,
      )
    where
      other_key : (y : Text × ℕ) → is_other key y ≡ true → y.0 ≡ key → ⊥
      other_key (k', f) o e = absurd (ground (arith, o, (text_eq_iff k' key).1 e))

  settled_one :
      (outcome : Outcome) (e : Arrival)
      → Accounted e s.waiting s.answered
      → Accounted e
          (filter (λ q. not (waits_for flight q)) s.waiting)
          (map (answer_of outcome) (filter (waits_for flight) s.waiting) ++ s.answered)
  settled_one outcome e (inr (a, k, asked, same, agrees)) = inr (
    a,
    Any-append_right (map (answer_of outcome) (filter (waits_for flight) s.waiting)) k,
    asked,
    same,
    agrees,
  )
  settled_one outcome e (inl (q, k, asked, same, missed)) = elim (Bool-cases (waits_for flight q)) [
    | inl w ↦ inr (
      answer_of outcome q,
      Any-append_left s.answered
          (In-map (answer_of outcome) ((In-filter (waits_for flight) q s.waiting).1 (k, w))),
      asked,
      same,
      subst (λ (c : Cached ResolveResponse). Agrees c outcome) (sym missed) tt,
    )
    | inr w ↦ inl (
      q,
      (In-filter (λ (y : Waiting). not (waits_for flight y)) q s.waiting).1 (k, ap not w),
      asked,
      same,
      missed,
    )
  ]

  settle-Sound : (outcome : Outcome) → Sound n (settle key flight outcome s)
  unfolding settle
  settle-Sound outcome = record {
    apart = filter-Apart (is_other key) s.in_flight h.apart;
    below = filter-All (λ (x : Text × ℕ). x.1 < s.started) (is_other key) s.in_flight h.below;
    owned =
        All_of_In (λ (q : Waiting). In (q.key, q.flight) (filter (is_other key) s.in_flight))
          (filter (λ (q : Waiting). not (waits_for flight q)) s.waiting)
          (λ q k.
            let (m, e) = (In-filter (λ (x : Waiting). not (waits_for flight x)) q s.waiting).0 k in
            stays q m e);
    awaited =
        All_of_In (Awaited (filter (λ q. not (waits_for flight q)) s.waiting))
          (filter (is_other key) s.in_flight) flights_kept;
    accounted = All-map (λ e. settled_one outcome e) n h.accounted;
    counted = omega (
      arith,
      h.counted,
      split_length (waits_for flight) s.waiting,
      length-append (map (answer_of outcome) (filter (waits_for flight) s.waiting)) s.answered,
      length-map (answer_of outcome) (filter (waits_for flight) s.waiting),
    );
  }

pub Reach-Sound : {n : List Arrival} {s : Flights} → Reach n s → Sound n s
Reach-Sound Reach.start = record {
  apart = tt;
  below = tt;
  owned = tt;
  awaited = tt;
  counted = refl;
  accounted = tt;
}
Reach-Sound (Reach.arrived request key cached r) =
    after_cache-Sound request key cached (Reach-Sound r)
Reach-Sound (Reach.settled key flight outcome k r) =
    settle-Sound (Reach-Sound r) key flight k outcome
