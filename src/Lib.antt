-- ===== src/Lib.antt =====
-- The tag protocol gives a wallet a short public name, a tag. A Solana program stores each tag in
-- an account whose address is derived from the tag. An indexer watches these accounts and mirrors
-- them into a database, and an HTTP service resolves tags from the mirror, through a cache in
-- Redis, with the chain itself as a fallback. Owners sign in with their wallet to edit the
-- profile that goes with a tag. This library models the program's core as functions and proves
-- what they promise one another.
--
-- The parts, and the files that model them:
--   Prelude and its children: lists, strings, results of calls that throw, Boolean tests. A
--     JavaScript string is the list of its UTF-16 code units; toLowerCase is the parameter
--     CaseMap, which is fixed on ASCII text only. Bigints and numbers are natural numbers: every
--     number that is modelled is a length, a slot, a time or a count. A difference that may be
--     negative is written out as such.
--   Solana: what is used of @solana/kit, a parameter with laws (addresses and program derived
--     addresses).
--   Core: packages/core/src. Normalize is normalizeTag, Account is decodeTagAccount with one
--     function per stage of its body, Seeds is buildTagSeeds and deriveTagPda, Reserved and
--     CacheKey the files of these names.
--   Program: programs/tip-registry/programs/tip_registry/src, the three instructions as functions
--     on the account's state. Program.Reach is the relation of the states that sequences of
--     instructions reach.
--   Moderation: packages/moderation/src. The engine of @2toad/profanity is a parameter that may
--     throw.
--   Mirror: the tables of packages/db/prisma/schema.prisma as interfaces. Mirror.Memory shows
--     that their laws can hold.
--   Redis: the commands that are sent to Redis, an interface with laws, and
--     apps/api/src/redis/redis.ts. Redis.Memory shows that the laws can hold.
--   Indexer: apps/indexer/src. Apply is apply-change.ts and moderation-gate.ts, Cursor cursor.ts,
--     Guard out-of-order-guard.ts, Pipeline decode-and-verify.ts, pipeline.ts and reconcile.ts,
--     Backfill backfill-moderation.ts, and Subscription the loop of subscription.ts with the
--     start of main.ts before it.
--   Throttle: the Lua script of apps/api/src/redis/throttler-increment.lua.ts and its caller
--     redis-throttler-storage.ts.
--   Cache: apps/api/src/tags/redis-cache-reader.ts, which fills the cache, and
--     apps/indexer/src/redis-cache-invalidator.ts, which empties it.
--   Api: apps/api/src. Message and Auth are auth/, Resolve, Profile, Naming and Search are tags/,
--     and Flight is the sharing of lookups in TagsService.resolve. Routes has the controllers
--     with their guards, Filter the responses of common/global-exception.filter.ts, and
--     Validation the body of a profile update, tags/dto/update-identity-request.dto.ts.
--     Transactions is solana/instructions.ts with the two transaction builders, and Register is
--     register/ with wallet-update.service.ts and rent-check.ts.
--   Config: apps/indexer/src/config.ts and apps/api/src/config/config.service.ts, from the
--     environment as a function.
--   Sdk: packages/sdk/src. Http is http.ts, Client is client.ts without the calls to a node,
--     which are in Chain with chain.ts; Client.SignIn is connect against the service's routes;
--     errors.ts and types.ts are in the parent.
--   Protocol: the parts together, from an account that the program wrote to the service's answer.
--   Tests: concrete instances of the parameters, and runs of the theorems on sample data.
--
-- State is passed explicitly: an operation takes the table, the cursor and the cache that it uses
-- and returns them. A call that throws is the value none of an option, or an error of a result
-- type where the kind of the error matters. Loops over a buffer are recursions on the rounds that
-- are left, loops over a list recursions on the list, and the loop of the subscription a
-- recursion on the rounds that the outside world gives it; no fuel is used. The bounds of the
-- source that cut a computation short are those of 4096 variants in Moderation.Leetspeak, within
-- which twelve ambiguous digits stay, and of fifty rows in Api.Search.
--
-- Concurrency: the model of the indexer handles one observation at a time. In the source the
-- sweeps of scheduler.ts run beside the subscription and may overlap with it; such a sweep, and a
-- second writer between two database calls of one change, are outside the model. A call of the
-- database is rejected in the model only where the row forbids it (a create on a tag that
-- exists): the source lets a rejected call propagate, which ends the sweep or the round of the
-- subscription, or the start. The commands of Redis and the guarded updates of the database are
-- atomic as they are in the source. Requests that resolve tags interleave in Api.Flight, where a
-- step is what a request does between two waits, and in Api.Resolve.Overlap, where lookups of one
-- tag, of any number of processes, read the mirror and answer at different times; elsewhere one
-- request runs at a time. What other parties may do to the server between two requests of a
-- sign-in is the relation Later in Api.Auth.Laws.
--
-- Not modelled: database calls that are rejected for other reasons; the scheduled sweep of
-- scheduler.ts; the log; the wording of errors; the health check and the wiring of the processes;
-- the validation of the other request bodies; the compilation of transactions to bytes; the
-- landing and docs applications; NestJS, Prisma, ioredis and the packages for Solana, profanity,
-- JWTs and signatures, which are parameters where the model needs them.
pub mod Prelude
pub mod Solana
pub mod Core
pub mod Program
pub mod Moderation
pub mod Mirror
pub mod Redis
pub mod Indexer
pub mod Throttle
pub mod Cache
pub mod Api
pub mod Config
pub mod Sdk
pub mod Protocol
pub mod Tests
