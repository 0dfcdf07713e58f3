-- ===== src/Domain/Thrown.antt =====
-- What the source throws: the classes of errors that a handler tells apart by `instanceof`
-- (models/errors.ts, sandbox/execution-environment.ts, sandbox/local/container-runtime.ts,
-- storage/errors.ts), with the fields that it reads.
use autonomous_agent.Common.{ℕ, String, Bool, true, false, Option, List}
use autonomous_agent.Domain.Value.{Value}

pub data ModelErrorKind : Type 0 where
  authentication rate_limited bad_request network timeout server invalid_response configuration :
      ModelErrorKind
  unknown : ModelErrorKind

pub data EnvironmentErrorCode : Type 0 where
  not_found unavailable permission_denied internal : EnvironmentErrorCode

pub data ContainerErrorKind : Type 0 where
  engine_unavailable no_such_image no_such_container container_not_running invalid_spec :
      ContainerErrorKind
  unknown : ContainerErrorKind

pub data ErrorClass : Type 0 where
  plain_error not_an_error : ErrorClass
  -- `null` or `undefined`, of which no field can be read
  nothing_thrown : ErrorClass
  environment_error : EnvironmentErrorCode → ErrorClass
  container_error : ContainerErrorKind → ErrorClass
  -- its kind and `retryAfterMs`
  model_error : ModelErrorKind → Option ℕ → ErrorClass

abbrev pub is_nothing : ErrorClass → Bool
is_nothing nothing_thrown = true
is_nothing _ = false

-- A thrown value: its class, `error.message` (`String(error)` if it is not an `Error`), and its
-- field `errors` when that is an array.
pub record Thrown : Type 0 where
  pub class : ErrorClass
  pub message : String
  pub errors : Option (List Value)
