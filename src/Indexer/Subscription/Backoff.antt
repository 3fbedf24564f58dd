-- ===== src/Indexer/Subscription/Backoff.antt =====
-- subscription.ts: when the loop stops, and how long it sleeps.
use tagwise_identity_protoco.Prelude.{
  ℕ, zero, suc, ◌+◌, ◌*◌, ◌^◌, ◌≤◌, Text, CaseMap, Bool, true, false, List, [], ◌∷◌, ◌++◌, Option,
  none, some, min, length, All, subst, ◌≡◌, refl, sym, ap, ◌∙◌, arith, if◌then◌else◌, Bool-cases,
  ◌⊎◌, inl, inr,
}
use mathlib.Core.List.{append_assoc}
use tagwise_identity_protoco.Solana.{Bytes, Solana}
use tagwise_identity_protoco.Moderation.Profanity.{Engine}
use tagwise_identity_protoco.Mirror.{IdentityTable, CursorTable}
use tagwise_identity_protoco.Indexer.Apply.{CacheInvalidator, World}
use tagwise_identity_protoco.Indexer.Pipeline.{ReconcileResult, reconcile}
use tagwise_identity_protoco.Indexer.Subscription.{
  Notification, Round, Loop, Run, stopped, running, loop_of, consume, heal_and_consume, connect,
  subscribed, sleep, run_live_subscription, initial_backoff_ms, max_backoff_ms,
}

module _ (d : IdentityTable) (k : CursorTable) (c : CacheInvalidator) (u : CaseMap) (sol : Solana)
    (engine : Engine) (program_id : Text) where
  abbrev Vars : Type 0
  Vars = Loop d k c u sol engine program_id

  abbrev pub run : List Round → Vars → Run d k c u sol engine program_id
  run = run_live_subscription d k c u sol engine program_id

  abbrev after_round : Round → Vars → Vars
  after_round round l =
      connect d k c u sol engine program_id round.accounts
        (subscribed d k c u sol engine program_id round) l

  -- A round in which the signal is seen to be aborted.
  abbrev pub Aborted : Round → Type 0
  Aborted round = (round.aborted_at_head ≡ true) ⊎ (round.aborted_at_end ≡ true)

  connect_backoff :
      (accounts : Option (ℕ × List (Text × Bytes))) (stream : Option (List Notification)) (l : Vars)
      → (((connect d k c u sol engine program_id accounts stream l).backoff_ms ≡ initial_backoff_ms)
          ⊎ ((connect d k c u sol engine program_id accounts stream l).backoff_ms ≡ l.backoff_ms))
        × ((connect d k c u sol engine program_id accounts stream l).slept ≡ l.slept)
  unfolding connect heal_and_consume
  connect_backoff accounts none l = (inr refl, refl)
  connect_backoff response (some notifications) l = (
    inl (by_sweep l.first_connection (reconcile d k c u sol engine program_id response l.world)).0,
    (by_sweep l.first_connection (reconcile d k c u sol engine program_id response l.world)).1,
  )
    where
      reset : World d k c → Vars
      reset w = record {
        world = w;
        backoff_ms = initial_backoff_ms;
        first_connection = false;
        slept = l.slept;
      }

      by_sweep :
          (first : Bool) (swept : Option (ReconcileResult d k c u sol engine × World d k c))
          → ((if first
                then reset (consume d k c u sol engine program_id notifications l.world)
                else elim swept as (λ x. Vars) [
                  | none ↦ reset l.world
                  | some (_, w) ↦ reset (consume d k c u sol engine program_id notifications w)
                ]).backoff_ms
              ≡ initial_backoff_ms)
            × ((if first
                  then reset (consume d k c u sol engine program_id notifications l.world)
                  else elim swept as (λ x. Vars) [
                    | none ↦ reset l.world
                    | some (_, w) ↦ reset (consume d k c u sol engine program_id notifications w)
                  ]).slept
                ≡ l.slept)
      by_sweep true swept = (refl, refl)
      by_sweep false none = (refl, refl)
      by_sweep false (some (result, w)) = (refl, refl)

  -- Delays that are slept lie between a second and half a minute.
  pub record InRange (l : Vars) : Type 0 where
    pub backoff_le : l.backoff_ms ≤ max_backoff_ms
    pub backoff_ge : initial_backoff_ms ≤ l.backoff_ms
    pub slept_range : All (λ ms. (initial_backoff_ms ≤ ms) × (ms ≤ max_backoff_ms)) l.slept

  after_round-InRange : (round : Round) (l : Vars) → InRange l → InRange (after_round round l)
  after_round-InRange round l h =
      let (chosen, kept) =
        connect_backoff round.accounts (subscribed d k c u sol engine program_id round) l in
      let range = either chosen in
      record {
        backoff_le = range.0;
        backoff_ge = range.1;
        slept_range =
            subst (All (λ ms. (initial_backoff_ms ≤ ms) × (ms ≤ max_backoff_ms))) (sym kept)
              h.slept_range;
      }
    where
      either :
          {b : ℕ}
          → (b ≡ initial_backoff_ms) ⊎ (b ≡ l.backoff_ms)
          → (b ≤ max_backoff_ms) × (initial_backoff_ms ≤ b)
      either (inl e) = omega (arith, e)
      either (inr e) = omega (arith, e, h.backoff_le, h.backoff_ge)

  doubled :
      (b : ℕ) → b ≤ 30000 → 1000 ≤ b → (min (b * 2) 30000 ≤ 30000) × (1000 ≤ min (b * 2) 30000)
  doubled b h g = ground (arith, h, g)

  sleep-InRange : (l : Vars) → InRange l → InRange (sleep d k c u sol engine program_id l)
  sleep-InRange l h =
      let range = doubled l.backoff_ms h.backoff_le h.backoff_ge in
      record {
        backoff_le = range.0;
        backoff_ge = range.1;
        slept_range = ((h.backoff_ge, h.backoff_le), h.slept_range);
      }

  abbrev pub vars : Run d k c u sol engine program_id → Vars
  vars = loop_of d k c u sol engine program_id

  -- Whatever happens, the loop never sleeps for less than a second or more than half a minute.
  pub run-InRange : (rounds : List Round) (l : Vars) → InRange l → InRange (vars (run rounds l))
  unfolding run_live_subscription
  run-InRange [] l h = h
  run-InRange (round ∷ rest) l h = by_signals round.aborted_at_head round.aborted_at_end (
      run-InRange rest (sleep d k c u sol engine program_id (after_round round l))
        (sleep-InRange (after_round round l) (after_round-InRange round l h)))
    where
      by_signals :
          (at_head at_end : Bool)
          → InRange (vars (run rest (sleep d k c u sol engine program_id (after_round round l))))
          → InRange (
              vars (
                if at_head
                then stopped l
                else if at_end
                then stopped (after_round round l)
                else run rest (sleep d k c u sol engine program_id (after_round round l))))
      by_signals true at_end rests = h
      by_signals false true rests = after_round-InRange round l h
      by_signals false false rests = rests

  -- A loop that sees the signal aborted in a round has returned by the end of that round: what the
  -- world would do in later rounds does not matter, and it has slept at most once for each round
  -- before that one.
  pub run-stops :
      (before : List Round) (round : Round) (later : List Round) (l : Vars)
      → Aborted round
      → (l' : Vars) × (run (before ++ round ∷ later) l ≡ stopped l')
        × (run (before ++ round ∷ []) l ≡ stopped l')
        × (length l'.slept ≤ length l.slept + length before)
  unfolding run_live_subscription
  run-stops [] round later l (inl e) = (l, ground (arith, e), ground (arith, e), omega arith)
  run-stops [] round later l (inr e) = elim (Bool-cases round.aborted_at_head) [
    | inl h ↦ (l, ground (arith, h), ground (arith, h), omega arith)
    | inr h ↦ (
      after_round round l,
      ground (arith, h, e),
      ground (arith, h, e),
      omega (
        arith,
        ap length
            (connect_backoff round.accounts (subscribed d k c u sol engine program_id round) l).1,
      ),
    )
  ]
  run-stops (first ∷ before) round later l aborted = elim (Bool-cases first.aborted_at_head) [
    | inl h ↦ (l, ground (arith, h), ground (arith, h), omega arith)
    | inr h ↦ elim (Bool-cases first.aborted_at_end) [
      | inl e ↦
          (after_round first l, ground (arith, h, e), ground (arith, h, e), omega (arith, kept))
      | inr e ↦
          let (l', one, two, count) =
            run-stops before round later (sleep d k c u sol engine program_id (after_round first l))
              aborted in
          (l', ground (arith, h, e, one), ground (arith, h, e, two), omega (arith, count, kept))
    ]
  ]
    where
      kept : length (after_round first l).slept ≡ length l.slept
      kept =
          ap length
            (connect_backoff first.accounts (subscribed d k c u sol engine program_id first) l).1

  -- A round in which subscribing fails, with the signal not aborted.
  abbrev pub Fails : Round → Type 0
  Fails round =
      (round.stream ≡ none) × (round.aborted_at_head ≡ false) × (round.aborted_at_end ≡ false)

  -- The delays of `n` failures in a row after `m` others, the last one first.
  abbrev pub delays : ℕ → ℕ → List ℕ
  delays m zero = []
  delays m (suc n) = delays (suc m) n ++ min (1000 * 2 ^ m) 30000 ∷ []

  capped : (x : ℕ) → min (min (1000 * x) 30000 * 2) 30000 ≡ min (1000 * (x * 2)) 30000
  capped x = ground arith

  doubling : (m : ℕ) → min (min (1000 * 2 ^ m) 30000 * 2) 30000 ≡ min (1000 * 2 ^ suc m) 30000
  doubling m = capped (2 ^ m) ∙ ap (λ (x : ℕ). min (1000 * x) 30000) (power m)
    where
      power : (m : ℕ) → 2 ^ m * 2 ≡ 2 ^ suc m
      power m = omega arith

  failed_round :
      (round : Round) (rest : List Round) (l : Vars)
      → Fails round
      → run (round ∷ rest) l ≡ run rest (sleep d k c u sol engine program_id l)
  unfolding run_live_subscription connect
  failed_round round rest l (e, h, g) = ground (arith, e, h, g, nothing e)
    where
      nothing : round.stream ≡ none → subscribed d k c u sol engine program_id round ≡ none
      nothing e = ground (arith, e)

  -- While the loop fails to subscribe, its delays double from a second up to half a minute, and the
  -- mirror stays as it is. After `m` failures the delay is `1000 * 2 ^ m`, at most 30000.
  pub failing-delays :
      (rounds : List Round) (m : ℕ) (l : Vars)
      → All Fails rounds
      → l.backoff_ms ≡ min (1000 * 2 ^ m) 30000
      → (l' : Vars) × (run rounds l ≡ running l')
        × (l'.slept ≡ delays m (length rounds) ++ l.slept)
        × (l'.world ≡ l.world)
  unfolding run_live_subscription
  failing-delays [] m l fails e = (l, refl, refl, refl)
  failing-delays (round ∷ rest) m l (fail, fails) e =
      let (l', h, slept, kept) =
        failing-delays rest (suc m) (sleep d k c u sol engine program_id l) fails
          (ap (λ (x : ℕ). min (x * 2) 30000) e ∙ doubling m) in
      (
        l',
        failed_round round rest l fail ∙ h,
        slept
            ∙ ap (λ (x : ℕ). delays (suc m) (length rest) ++ x ∷ l.slept) e
            ∙ sym (
                append_assoc (delays (suc m) (length rest)) (min (1000 * 2 ^ m) 30000 ∷ [])
                  l.slept),
        kept,
      )
