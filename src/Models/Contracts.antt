-- ===== src/Models/Contracts.antt =====
-- src/models/contracts.ts and src/models/errors.ts, with `ParseResult` of src/domain/parse.ts.
use autonomous_agent.Common.{ℕ, String, Bool, true, false, Option, List}
use autonomous_agent.Async.{Async}
use autonomous_agent.Domain.Value.{Value}
use autonomous_agent.Domain.Thrown.{
  Thrown, ModelErrorKind, model_error, rate_limited, network, timeout, server,
}
use autonomous_agent.Events.{FinishReason, ModelCallPurpose}
use autonomous_agent.Agent.Contracts.{ToolDescriptor}

pub data ParseResult (T : Type 0) : Type 0 where
  parse_ok : T → ParseResult T
  parse_fail : List String → ParseResult T

pub data ModelRole : Type 0 where
  system user assistant tool : ModelRole

pub record ModelMessage : Type 0 where
  pub role : ModelRole
  pub content : String
  pub tool_call_id : Option String

-- `temperature` in hundredths
pub record ModelRequest : Type 0 where
  pub purpose : ModelCallPurpose
  pub messages : List ModelMessage
  pub temperature : Option ℕ
  pub max_output_tokens : Option ℕ
  pub attempt : Option ℕ

pub record ModelUsage : Type 0 where
  pub input_tokens : ℕ
  pub output_tokens : ℕ
  pub reported : Option Bool

pub record ModelDescriptor : Type 0 where
  pub provider : String
  pub model : String

pub record ModelResponseBase : Type 0 where
  pub model_call_id : String
  pub descriptor : ModelDescriptor
  pub usage : ModelUsage
  pub latency_ms : ℕ
  pub finish_reason : FinishReason

pub record ModelResponse : Type 0 where
  pub base : ModelResponseBase
  pub text : String

pub record StructuredModelRequest (T : Type 0) : Type 0 where
  pub request : ModelRequest
  pub schema : Value
  pub parse : Value → ParseResult T

pub record StructuredModelResponse (T : Type 0) : Type 0 where
  pub base : ModelResponseBase
  pub parsed : ParseResult T
  pub raw : Value

pub record ToolActionRequest : Type 0 where
  pub request : ModelRequest
  pub tools : List ToolDescriptor

pub record ProposalAlternative : Type 0 where
  pub description : String
  pub why_not : String

-- `confidence` in hundredths
pub data ToolActionProposal : Type 0 where
  call_tool :
      String → Value → String → Option (List ProposalAlternative) → Option ℕ → ToolActionProposal
  finish : String → String → ToolActionProposal
  give_up : String → ToolActionProposal

pub record ToolActionResponse : Type 0 where
  pub base : ModelResponseBase
  pub proposal : ToolActionProposal

-- `structuredGenerate` is generic in its result; `T` is the result of the calls that are modelled.
pub record ModelProvider (S T : Type 0) : Type 0 where
  pub descriptor : ModelDescriptor
  pub generate : ModelRequest → Async S ModelResponse
  pub structured_generate : StructuredModelRequest T → Async S (StructuredModelResponse T)
  pub request_tool_action : ToolActionRequest → Async S ToolActionResponse

-- `RETRYABLE_KINDS.has(kind)`
abbrev pub is_retryable_kind : ModelErrorKind → Bool
is_retryable_kind rate_limited = true
is_retryable_kind network = true
is_retryable_kind timeout = true
is_retryable_kind server = true
is_retryable_kind _ = false

unfoldable pub error_kind_of : Thrown → ModelErrorKind
error_kind_of e = elim e.class [ model_error kind _ ↦ kind | _ ↦ ModelErrorKind.unknown ]

unfoldable pub is_retryable_model_error : Thrown → Bool
is_retryable_model_error e = elim e.class [
  | model_error kind _ ↦ is_retryable_kind kind
  | _ ↦ false
]
