-- ===== src/Sdk.antt =====
-- packages/sdk/src: the client library. errors.ts and types.ts, and what the client takes from the
-- platform on which it runs.
pub mod Http
pub mod Client
pub mod Chain
use tagwise_identity_protoco.Prelude.{ℕ, Text, Bool, List, Option, Result}
use tagwise_identity_protoco.Solana.{Bytes}
use tagwise_identity_protoco.Core.Normalize.{TagRejectionReason}
use tagwise_identity_protoco.Api.Filter.{ErrorBody}

-- What a call of the client throws. The last four are no errors of this package: a request that
-- fails, an address or a text that does not parse, a signer that refuses, and a client with no node.
pub data TipError : Type 0 where
  tag_invalid : TagRejectionReason → TipError
  no_session tag_not_found unauthorized forbidden rate_limited : TipError
  insufficient_balance : ℕ → ℕ → ℕ → TipError
  validation : Option Text → TipError
  unexpected_api : ℕ → TipError
  network syntax signer_refused no_rpc : TipError

pub data HttpMethod : Type 0 where
  get post patch : HttpMethod

-- The arguments of `fetch`.
pub record HttpRequest : Type 0 where
  pub method : HttpMethod
  pub url : Text
  pub content_type : Option Text
  pub authorization : Option Text
  pub body : Option Text

-- A response with its body as JSON, where it is that.
pub record HttpResponse (Value : Type 0) : Type 0 where
  pub status : ℕ
  pub json : Option Value

-- `fetch` acts on the world and may fail; `Value` are the JSON values. `new URL` with its parameters
-- set and printed again, `JSON.stringify` of an object of strings and nulls, `BigInt` of a text (the
-- amounts are not negative) and the properties of an error's body.
pub record Platform : Type 1 where
  pub World : Type 0
  pub Value : Type 0
  pub fetch : HttpRequest → World → Option (HttpResponse Value) × World
  pub make_url : Text → List (Text × Text) → Option Text
  pub stringify : List (Text × Option Text) → Text
  pub big_int : Text → Option ℕ
  pub error_body : Value → ErrorBody
  -- A property of the value that is read as a text.
  pub field : Text → Value → Text

-- A wallet: its address, and the bytes of its signature where it gives one.
pub record Signer : Type 0 where
  pub public_key : Text
  pub sign_message : Bytes → Option Bytes
