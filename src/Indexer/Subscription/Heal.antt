-- ===== src/Indexer/Subscription/Heal.antt =====
-- subscription.ts: what the loop does to the mirror from the start of the process on.
use tagwise_identity_protoco.Prelude.{
  ℕ, Text, CaseMap, Bool, true, false, List, [], ◌∷◌, Option, some, ◌≡◌, sym, ap, ◌∙◌, arith,
  if◌then◌else◌, Bool-cases, inl, inr, subst,
}
use tagwise_identity_protoco.Solana.{Bytes, Solana}
use tagwise_identity_protoco.Moderation.Profanity.{Engine}
use tagwise_identity_protoco.Mirror.{IdentityTable, CursorTable}
use tagwise_identity_protoco.Indexer.Apply.{CacheInvalidator, World}
use tagwise_identity_protoco.Indexer.Pipeline.Advances.{Advances, Advances-refl, Advances-trans}
use tagwise_identity_protoco.Indexer.Pipeline.Sweep.{AllMirrored}
use tagwise_identity_protoco.Indexer.Subscription.{
  Notification, Round, Loop, Run, stopped, loop_of, connect, subscribed, sleep,
  run_live_subscription, at_start,
}
use tagwise_identity_protoco.Indexer.Subscription.Rounds.{
  StreamMirrored, StreamMirrored-kept, AllMirrored-kept, connect-Advances, connect-Mirrored,
}

module _ (d : IdentityTable) (k : CursorTable) (c : CacheInvalidator) (u : CaseMap) (sol : Solana)
    (engine : Engine) (program_id : Text) (valid : sol.is_address program_id ≡ true) where
  abbrev Vars : Type 0
  Vars = Loop d k c u sol engine program_id

  abbrev after_round : Round → Vars → Vars
  after_round round l =
      connect d k c u sol engine program_id round.accounts
        (subscribed d k c u sol engine program_id round) l

  abbrev run : List Round → Vars → Run d k c u sol engine program_id
  run = run_live_subscription d k c u sol engine program_id

  abbrev pub left : Run d k c u sol engine program_id → World d k c
  left r = (loop_of d k c u sol engine program_id r).world

  -- The loop comes to a round, with its variables there.
  pub data Reaches : List Round → Vars → Round → Vars → Type 0 where
    here :
        {round : Round} {rest : List Round} {l : Vars}
        → round.aborted_at_head ≡ false
        → Reaches (round ∷ rest) l round l
    there :
        {first : Round} {rest : List Round} {l : Vars} {round : Round} {at : Vars}
        → first.aborted_at_head ≡ false
        → first.aborted_at_end ≡ false
        → Reaches rest (sleep d k c u sol engine program_id (after_round first l)) round at
        → Reaches (first ∷ rest) l round at

  run-Advances :
      (rounds : List Round) (l : Vars) → Advances d k c u sol engine l.world (left (run rounds l))
  unfolding run_live_subscription
  run-Advances [] l = Advances-refl d k c u sol engine l.world
  run-Advances (round ∷ rest) l =
      by_signals round.aborted_at_head round.aborted_at_end
        (run-Advances rest (sleep d k c u sol engine program_id (after_round round l)))
    where
      step : Advances d k c u sol engine l.world (after_round round l).world
      step =
          connect-Advances d k c u sol engine program_id valid round.accounts
            (subscribed d k c u sol engine program_id round) l

      by_signals :
          (at_head at_end : Bool)
          → Advances d k c u sol engine
              (after_round round l).world
              (left (run rest (sleep d k c u sol engine program_id (after_round round l))))
          → Advances d k c u sol engine l.world (
              left (
                if at_head
                then stopped l
                else if at_end
                then stopped (after_round round l)
                else run rest (sleep d k c u sol engine program_id (after_round round l))))
      by_signals true at_end rests = Advances-refl d k c u sol engine l.world
      by_signals false true rests = step
      by_signals false false rests = Advances-trans d k c u sol engine step rests

  round-Advances :
      (round : Round) (rest : List Round) (l : Vars)
      → round.aborted_at_head ≡ false
      → Advances d k c u sol engine (after_round round l).world (left (run (round ∷ rest) l))
  unfolding run_live_subscription
  round-Advances round rest l h = elim (Bool-cases round.aborted_at_end) [
    | inl e ↦
        subst (λ (x : World d k c). Advances d k c u sol engine (after_round round l).world x)
          (ground (arith, h, e)) (Advances-refl d k c u sol engine (after_round round l).world)
    | inr e ↦
        subst (λ (x : World d k c). Advances d k c u sol engine (after_round round l).world x)
          (ap left (goes_on e))
          (run-Advances rest (sleep d k c u sol engine program_id (after_round round l)))
  ]
    where
      goes_on :
          round.aborted_at_end ≡ false
          → run rest (sleep d k c u sol engine program_id (after_round round l))
            ≡ run (round ∷ rest) l
      goes_on e = ground (arith, h, e)

  next_round :
      (round : Round) (rest : List Round) (l : Vars)
      → round.aborted_at_head ≡ false
      → round.aborted_at_end ≡ false
      → run (round ∷ rest) l ≡ run rest (sleep d k c u sol engine program_id (after_round round l))
  unfolding run_live_subscription
  next_round round rest l h e = ground (arith, h, e)

  pub Reaches-Mirrored :
      {rounds : List Round} {l : Vars} {round : Round} {at : Vars} (slot : ℕ)
      (items : List (Text × Bytes)) (notifications : List Notification)
      → Reaches rounds l round at
      → at.first_connection ≡ false
      → round.stream ≡ some notifications
      → round.accounts ≡ some (slot, items)
      → AllMirrored d k c u sol engine program_id valid slot items (left (run rounds l))
        × StreamMirrored d k c u sol engine program_id valid notifications (left (run rounds l))
  Reaches-Mirrored slot items notifications (here {round} {rest} {l} h) again e1 e2 =
      let (all, seen) =
        connect-Mirrored d k c u sol engine program_id valid slot items notifications l again in
      let met : subscribed d k c u sol engine program_id round ≡ some notifications =
        ground (arith, valid, e1) in
      let same : (connect d k c u sol engine program_id (some (slot, items)) (some notifications)
            l).world
          ≡ (after_round round l).world =
        ap
          (λ (x : Option (ℕ × List (Text × Bytes))).
            (connect d k c u sol engine program_id x (some notifications) l).world)
          (sym e2)
        ∙ ap
            (λ (x : Option (List Notification)).
              (connect d k c u sol engine program_id round.accounts x l).world)
            (sym met) in
      let adv = round-Advances round rest l h in
      (
        AllMirrored-kept d k c u sol engine program_id valid slot items
            (subst (AllMirrored d k c u sol engine program_id valid slot items) same all) adv,
        StreamMirrored-kept d k c u sol engine program_id valid notifications
            (subst (StreamMirrored d k c u sol engine program_id valid notifications) same seen)
            adv,
      )
  Reaches-Mirrored slot items notifications (there {first} {rest} {l} h e r) again e1 e2 =
      let (all, seen) = Reaches-Mirrored slot items notifications r again e1 e2 in
      let same = ap left (sym (next_round first rest l h e)) in
      (
        subst (AllMirrored d k c u sol engine program_id valid slot items) same all,
        subst (StreamMirrored d k c u sol engine program_id valid notifications) same seen,
      )

  -- What the run of the process from its start leaves.
  pub record Healed (response : ℕ × List (Text × Bytes)) (rounds : List Round) (w : World d k c)
      (r : Run d k c u sol engine program_id) : Type 0 where
    pub advances : Advances d k c u sol engine w (left r)
    pub backfilled : AllMirrored d k c u sol engine program_id valid response.0 response.1 (left r)
    pub swept : World d k c
    pub reconnected :
        (round : Round) (at : Vars) (slot : ℕ) (items : List (Text × Bytes))
        (notifications : List Notification)
        → Reaches rounds (at_start d k c u sol engine program_id swept) round at
        → at.first_connection ≡ false
        → round.stream ≡ some notifications
        → round.accounts ≡ some (slot, items)
        → AllMirrored d k c u sol engine program_id valid slot items (left r)
          × StreamMirrored d k c u sol engine program_id valid notifications (left r)
