-- ===== src/Http.antt =====
-- What a request gets for an exception (src/common/filters/http-exception.filter.ts). Routing and
-- serialization are the framework's.
pub mod Errors
use order_orchestrator.Base.{ℕ, String}
use order_orchestrator.Platform.{Platform}
use order_orchestrator.Exceptions.{Exception, Result, ok, err}
use order_orchestrator.World.{World, Action, ◌>>=◌, pure, current_time}

-- The body of the response to an exception; the timestamp is the time of its text.
pub record ErrorBody : Type 0 where
  pub status_code : ℕ
  pub message : String
  pub path : String
  pub timestamp : ℕ

-- `exception instanceof HttpException ? exception.getStatus() : INTERNAL_SERVER_ERROR`
abbrev pub status_of : Exception → ℕ
status_of (Exception.not_found m) = 404
status_of (Exception.conflict m) = 409
status_of (Exception.error m) = 500
status_of (Exception.query_failed m) = 500

-- The message of an `HttpException`, and of no other error.
abbrev pub public_message : Exception → String
public_message (Exception.not_found m) = m
public_message (Exception.conflict m) = m
public_message (Exception.error m) = "Internal server error"
public_message (Exception.query_failed m) = "Internal server error"

-- What a handler answers.
pub data Response (A : Type 0) : Type 0 where
  answered : A → Response A
  refused : ErrorBody → Response A

module _ (P : Platform) where
  unfoldable pub catch_exception : String → Exception → Action P ErrorBody
  catch_exception url e = do
    t ← current_time
    pure (record {
      status_code = status_of e;
      message = public_message e;
      path = url;
      timestamp = t;
    })

  -- The body that the filter has made, as the response.
  abbrev refusal : {A : Type 0} → Result ErrorBody × World P → Result (Response A) × World P
  refusal (ok body, w) = (ok (Response.refused body), w)
  refusal (err e, w) = (err e, w)

  -- The end of a handler under `useGlobalFilters(new HttpExceptionFilter())` (src/main.ts).
  abbrev conclude : {A : Type 0} → String → Result A × World P → Result (Response A) × World P
  conclude url (ok a, w) = (ok (Response.answered a), w)
  conclude url (err e, w) = refusal (catch_exception url e w)

  unfoldable pub respond : {A : Type 0} → String → Action P A → Action P (Response A)
  respond url m w = conclude url (m w)
