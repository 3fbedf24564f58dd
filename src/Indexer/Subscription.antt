-- ===== src/Indexer/Subscription.antt =====
-- apps/indexer/src/subscription.ts: the loop that subscribes, reconnects with a growing delay and
-- reconciles after every reconnect, and the start of main.ts before it. The sweeps that main.ts
-- schedules beside the loop are not part of it.
pub mod Backoff
pub mod Heal
pub mod Rounds
use tagwise_identity_protoco.Prelude.{
  ℕ, ◌*◌, Text, CaseMap, Bool, true, false, List, [], ◌∷◌, Option, none, some, min, ◌++◌,
  if◌then◌else◌,
}
use tagwise_identity_protoco.Solana.{Bytes, Solana}
use tagwise_identity_protoco.Moderation.Profanity.{Engine}
use tagwise_identity_protoco.Mirror.{IdentityTable, CursorTable}
use tagwise_identity_protoco.Indexer.Apply.{CacheInvalidator, World}
use tagwise_identity_protoco.Indexer.Pipeline.{process_account_observation, reconcile}

abbrev pub initial_backoff_ms : ℕ
initial_backoff_ms = 1000

abbrev pub max_backoff_ms : ℕ
max_backoff_ms = 30000

pub record Notification : Type 0 where
  pub address : Text
  pub content : Bytes
  pub slot : ℕ

-- What the world outside does in one round of the loop: whether the signal is aborted at its head,
-- the notifications of the subscription (`none` where subscribing throws), the response of
-- `getProgramAccounts` (`none` where it throws), and whether the signal is aborted at its end. A
-- stream that ends and one that throws are treated alike, and so have one form.
pub record Round : Type 0 where
  pub aborted_at_head : Bool
  pub stream : Option (List Notification)
  pub accounts : Option (ℕ × List (Text × Bytes))
  pub aborted_at_end : Bool

module _ (d : IdentityTable) (k : CursorTable) (c : CacheInvalidator) (u : CaseMap) (sol : Solana)
    (engine : Engine) (program_id : Text) where
  -- The variables of the loop, with the delays that were slept, the last one first.
  pub record Loop : Type 0 where
    pub world : World d k c
    pub backoff_ms : ℕ
    pub first_connection : Bool
    pub slept : List ℕ

  -- A loop that has returned, or that waits for its next round.
  pub data Run : Type 0 where
    stopped running : Loop → Run

  abbrev pub loop_of : Run → Loop
  loop_of (stopped l) = l
  loop_of (running l) = l

  -- `for await`; an observation that throws ends the stream.
  unfoldable pub consume : List Notification → World d k c → World d k c
  consume [] w = w
  consume (n ∷ rest) w =
      elim (process_account_observation d k c u sol engine program_id n.address n.content n.slot
        w) [ none ↦ w | some (_, w') ↦ consume rest w' ]

  -- The gap-heal sweep and then the stream, which is not read where the sweep throws.
  unfoldable pub heal_and_consume :
      Option (ℕ × List (Text × Bytes)) → List Notification → Loop → Loop
  unfolding consume
  heal_and_consume accounts notifications l =
      elim (reconcile d k c u sol engine program_id accounts l.world) [
        | none ↦ l
        | some (_, w) ↦ record l { world = consume notifications w }
      ]

  -- The body of `try`. The delay is reset by a subscription that succeeds.
  unfoldable pub connect :
      Option (ℕ × List (Text × Bytes)) → Option (List Notification) → Loop → Loop
  unfolding heal_and_consume
  connect accounts none l = l
  connect accounts (some notifications) l =
      if l.first_connection
      then record {
        world = consume notifications l.world;
        backoff_ms = initial_backoff_ms;
        first_connection = false;
        slept = l.slept;
      }
      else heal_and_consume accounts notifications record {
        world = l.world;
        backoff_ms = initial_backoff_ms;
        first_connection = false;
        slept = l.slept;
      }

  -- `address()` throws on a program id that is no address.
  abbrev pub subscribed : Round → Option (List Notification)
  subscribed round = if sol.is_address program_id then round.stream else none

  abbrev pub sleep : Loop → Loop
  sleep l = record {
    world = l.world;
    backoff_ms = min (l.backoff_ms * 2) max_backoff_ms;
    first_connection = l.first_connection;
    slept = l.backoff_ms ∷ l.slept;
  }

  unfoldable pub run_live_subscription : List Round → Loop → Run
  unfolding connect
  run_live_subscription [] l = running l
  run_live_subscription (round ∷ rounds) l =
      let l' = connect round.accounts (subscribed round) l in
      let rest = run_live_subscription rounds (sleep l') in
      if round.aborted_at_head then stopped l else if round.aborted_at_end then stopped l' else rest

  abbrev pub at_start : World d k c → Loop
  at_start w = record {
    world = w;
    backoff_ms = initial_backoff_ms;
    first_connection = true;
    slept = [];
  }

  -- `main`: the backfill at the start and then the loop; `none` is a start that fails.
  unfoldable pub main : Option (ℕ × List (Text × Bytes)) → List Round → World d k c → Option Run
  main response rounds w = elim (reconcile d k c u sol engine program_id response w) [
    | none ↦ none
    | some (_, w') ↦ some (run_live_subscription rounds (at_start w'))
  ]
