-- ===== src/Indexer/Subscription/Rounds.antt =====
-- subscription.ts: what one round of the loop does to the mirror.
use tagwise_identity_protoco.Prelude.{
  ℕ, Text, CaseMap, Bool, true, false, List, [], ◌∷◌, Option, none, some, All, ◌≡◌, arith,
  if◌then◌else◌, subst,
}
use tagwise_identity_protoco.Solana.{Bytes, Solana}
use tagwise_identity_protoco.Moderation.Profanity.{Engine}
use tagwise_identity_protoco.Mirror.{IdentityTable, CursorTable}
use tagwise_identity_protoco.Indexer.Apply.{VerifiedTagChange, CacheInvalidator, World}
use tagwise_identity_protoco.Indexer.Pipeline.{verified, decode_and_verify}
use tagwise_identity_protoco.Indexer.Pipeline.Advances.{
  Advances, Advances-refl, Advances-trans, MirroredAt, MirroredAt-kept,
}
use tagwise_identity_protoco.Indexer.Pipeline.Sweep.{
  AllMirrored, process-Advances, reconcile-none, reconcile-Advances,
}
use tagwise_identity_protoco.Indexer.Subscription.{
  Notification, Loop, consume, heal_and_consume, connect,
}

module _ (d : IdentityTable) (k : CursorTable) (c : CacheInvalidator) (u : CaseMap) (sol : Solana)
    (engine : Engine) (program_id : Text) (valid : sol.is_address program_id ≡ true) where
  -- The accounts of a stream that verify are mirrored at the slots of their notifications.
  abbrev pub StreamMirrored : List Notification → World d k c → Type 0
  StreamMirrored notifications w =
      All
        (λ (n : Notification).
          (change : VerifiedTagChange)
          → decode_and_verify u sol n.address n.content n.slot program_id ≡ some (verified change)
          → MirroredAt d k c u sol engine change.tag n.slot w)
        notifications

  pub StreamMirrored-kept :
      (notifications : List Notification) {w w' : World d k c}
      → StreamMirrored notifications w
      → Advances d k c u sol engine w w'
      → StreamMirrored notifications w'
  StreamMirrored-kept [] h adv = tt
  StreamMirrored-kept (n ∷ rest) (h, hs) adv = (
    λ change e. MirroredAt-kept d k c u sol engine (h change e) adv,
    StreamMirrored-kept rest hs adv,
  )

  pub AllMirrored-kept :
      (slot : ℕ) (items : List (Text × Bytes)) {w w' : World d k c}
      → AllMirrored d k c u sol engine program_id valid slot items w
      → Advances d k c u sol engine w w'
      → AllMirrored d k c u sol engine program_id valid slot items w'
  AllMirrored-kept slot [] h adv = tt
  AllMirrored-kept slot (i ∷ rest) (h, hs) adv = (
    λ change e. MirroredAt-kept d k c u sol engine (h change e) adv,
    AllMirrored-kept slot rest hs adv,
  )

  consume-Advances :
      (notifications : List Notification) (w : World d k c)
      → Advances d k c u sol engine w (consume d k c u sol engine program_id notifications w)
        × StreamMirrored notifications (consume d k c u sol engine program_id notifications w)
  unfolding consume
  consume-Advances [] w = (Advances-refl d k c u sol engine w, tt)
  consume-Advances (n ∷ rest) w =
      let (p, v, e, first, at) =
        process-Advances d k c u sol engine program_id valid n.address n.content n.slot w in
      let (later, seen) = consume-Advances rest v in
      let same : consume d k c u sol engine program_id rest v
          ≡ consume d k c u sol engine program_id (n ∷ rest) w =
        ground (arith, e) in
      (
        subst (λ (x : World d k c). Advances d k c u sol engine w x) same
            (Advances-trans d k c u sol engine first later),
        subst (StreamMirrored (n ∷ rest)) same
            (λ change h. MirroredAt-kept d k c u sol engine (at change h) later, seen),
      )

  abbrev Vars : Type 0
  Vars = Loop d k c u sol engine program_id

  -- What a sweep and a stream leave, where both were had.
  healed :
      (slot : ℕ) (items : List (Text × Bytes)) (notifications : List Notification) (l : Vars)
      → Advances d k c u sol engine l.world
          (heal_and_consume d k c u sol engine program_id
            (some (slot, items))
            notifications
            l).world
        × AllMirrored d k c u sol engine program_id valid slot items
            (heal_and_consume d k c u sol engine program_id
              (some (slot, items))
              notifications
              l).world
        × StreamMirrored notifications
            (heal_and_consume d k c u sol engine program_id
              (some (slot, items))
              notifications
              l).world
  unfolding heal_and_consume
  healed slot items notifications l =
      let (_, w, e, _, _, swept, all) =
        reconcile-Advances d k c u sol engine program_id valid slot items l.world in
      let (later, seen) = consume-Advances notifications w in
      let same : consume d k c u sol engine program_id notifications w
          ≡ (heal_and_consume d k c u sol engine program_id (some (slot, items)) notifications
              l).world =
        ground (arith, e) in
      (
        subst (λ (x : World d k c). Advances d k c u sol engine l.world x) same
            (Advances-trans d k c u sol engine swept later),
        subst (AllMirrored d k c u sol engine program_id valid slot items) same
            (AllMirrored-kept slot items all later),
        subst (StreamMirrored notifications) same seen,
      )

  heal-Advances :
      (accounts : Option (ℕ × List (Text × Bytes))) (notifications : List Notification) (l : Vars)
      → Advances d k c u sol engine l.world
          (heal_and_consume d k c u sol engine program_id accounts notifications l).world
  unfolding heal_and_consume
  heal-Advances none notifications l =
      subst (λ (x : World d k c). Advances d k c u sol engine l.world x)
        (ground (arith, reconcile-none d k c u sol engine program_id valid l.world))
        (Advances-refl d k c u sol engine l.world)
  heal-Advances (some (slot, items)) notifications l = (healed slot items notifications l).0

  pub connect-Advances :
      (accounts : Option (ℕ × List (Text × Bytes))) (stream : Option (List Notification)) (l : Vars)
      → Advances d k c u sol engine l.world
          (connect d k c u sol engine program_id accounts stream l).world
  unfolding connect
  connect-Advances accounts none l = Advances-refl d k c u sol engine l.world
  connect-Advances accounts (some notifications) l = by_first l.first_connection
    where
      reset : Vars
      reset = record {
        world = l.world;
        backoff_ms = 1000;
        first_connection = false;
        slept = l.slept;
      }

      by_first :
          (first : Bool)
          → Advances d k c u sol engine l.world
              (if first
                then record {
                  world = consume d k c u sol engine program_id notifications l.world;
                  backoff_ms = 1000;
                  first_connection = false;
                  slept = l.slept;
                }
                else heal_and_consume d k c u sol engine program_id accounts notifications
                    reset).world
      by_first true = (consume-Advances notifications l.world).0
      by_first false = heal-Advances accounts notifications reset

  pub connect-Mirrored :
      (slot : ℕ) (items : List (Text × Bytes)) (notifications : List Notification) (l : Vars)
      → l.first_connection ≡ false
      → AllMirrored d k c u sol engine program_id valid slot items
          (connect d k c u sol engine program_id (some (slot, items)) (some notifications) l).world
        × StreamMirrored notifications
            (connect d k c u sol engine program_id
              (some (slot, items))
              (some notifications)
              l).world
  unfolding connect
  connect-Mirrored slot items notifications l again =
      let reset : Vars = record {
        world = l.world;
        backoff_ms = 1000;
        first_connection = false;
        slept = l.slept;
      } in
      let (_, all, seen) = healed slot items notifications reset in
      let same : (heal_and_consume d k c u sol engine program_id (some (slot, items)) notifications
            reset).world
          ≡ (connect d k c u sol engine program_id (some (slot, items)) (some notifications)
              l).world =
        ground (arith, again) in
      (
        subst (AllMirrored d k c u sol engine program_id valid slot items) same all,
        subst (StreamMirrored notifications) same seen,
      )
