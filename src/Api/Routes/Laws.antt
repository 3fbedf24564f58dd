-- ===== src/Api/Routes/Laws.antt =====
-- The controllers: who may write.
use tagwise_identity_protoco.Prelude.{
  ℕ, Text, codes, ◌++◌, CaseMap, Option, none, some, refl, Result, ok, >>=-eq-ok, ◌≡◌, ap, ◌∙◌,
  arith, inl, inr, Option-cases,
}
use tagwise_identity_protoco.Core.Normalize.{accepted, normalize_tag}
use tagwise_identity_protoco.Moderation.Profanity.{Engine}
use tagwise_identity_protoco.Mirror.{IdentityTable}
use tagwise_identity_protoco.Redis.{Redis}
use tagwise_identity_protoco.Cache.{Json}
use tagwise_identity_protoco.Api.{HttpError}
use tagwise_identity_protoco.Api.Auth.{Platform, bearer_token, jwt_guard}
use tagwise_identity_protoco.Api.Auth.Ownership.{Owns}
use tagwise_identity_protoco.Api.Resolve.{Config, ResolveResponse}
use tagwise_identity_protoco.Api.Transactions.{Message, Params}
use tagwise_identity_protoco.Api.Register.Laws.{Registered, register-Registered}
use tagwise_identity_protoco.Api.Routes.{register_route, identity_update_tracker, register_tracker}

-- The request carries a token that is valid and stands for the key.
pub record SignedIn (p : Platform) (header : Option Text) (pubkey : Text) : Type 0 where
  pub token : Text
  pub carried : bearer_token header ≡ some token
  pub stands_for : p.verify token ≡ some pubkey

jwt_guard-SignedIn :
    (p : Platform) (header : Option Text) {pubkey : Text}
    → jwt_guard p header ≡ ok pubkey
    → SignedIn p header pubkey
unfolding jwt_guard
jwt_guard-SignedIn p header {pubkey} h = elim (Option-cases (bearer_token header)) [
  | inl e ↦ absurd (ground (arith, h, e))
  | inr (token, e) ↦ elim (Option-cases (p.verify token)) [
    | inl k ↦ absurd (ground (arith, h, e, k))
    | inr (sub, k) ↦ record {
      token = token;
      carried = e;
      stands_for = k ∙ ap some (ground (arith, h, e, k));
    }
  ]
]

module _ (u : CaseMap) (d : IdentityTable) (r : Redis) (json : Json ResolveResponse)
    (config : Config) (p : Platform) (throttle : Text → Result HttpError (Unit {0})) where
  -- What lets a request through to a tag's profile.
  pub record Authorised (header : Option Text) (raw : Text) (table : d.Table) (pubkey tag : Text)
      : Type 0 where
    pub signed_in : SignedIn p header pubkey
    pub owns : Owns u d table raw pubkey
    pub within_limit : throttle (identity_update_tracker (some pubkey)) ≡ ok tt
    pub canonical : normalize_tag u raw ≡ accepted tag

  -- The address of a request, where one is known.
  abbrev address_of : Option Text → Text
  address_of none = codes "unknown-ip"
  address_of (some ip) = ip

  -- A registration that is answered with a transaction is for the key whose valid token the request
  -- carries, within the rate of the client's address and that key: the instruction has that key as
  -- the account that owns and signs, and the payer of the body only as the payer.
  pub register_route-SignedIn :
      (engine : Engine) (params : Params) (header ip : Option Text) (raw : Text)
      (wallet fee_payer : Option Text) (table : d.Table) (message : Message) (pda : Text)
      (last_block : ℕ)
      → register_route u d r json config p throttle engine params header ip raw wallet fee_payer
          table
        ≡ ok (message, pda, last_block)
      → (pubkey : Text) × SignedIn p header pubkey
        × (throttle (address_of ip ++ (codes ":" ++ pubkey)) ≡ ok tt)
        × Registered u engine d table params raw wallet fee_payer pubkey message pda last_block
  unfolding register_route register_tracker
  register_route-SignedIn engine params header ip raw wallet fee_payer table message pda last_block
        h =
      let (k, e1, h1) = >>=-eq-ok (jwt_guard p header) _ h in
      let (_, e2, h2) = >>=-eq-ok (throttle (register_tracker ip (some k))) _ h1 in
      (
        k,
        jwt_guard-SignedIn p header e1,
        ap throttle (tracker ip k) ∙ e2,
        register-Registered u engine d table params raw wallet fee_payer k message pda last_block
            h2,
      )
    where
      tracker :
          (ip : Option Text) (k : Text)
          → address_of ip ++ (codes ":" ++ k) ≡ register_tracker ip (some k)
      tracker none k = refl
      tracker (some a) k = refl
