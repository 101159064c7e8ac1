-- ===== src/McpHub/Model.antt =====
-- common/mcphub/types.go and errors.go: the data that the approval store works on.
use haruka_ai.Base.{ℕ, Bool, Option, Str, GoMap}

-- A moment and a span are counted in nanoseconds.
pub record ApprovalChallenge : Type 0 where
  pub id : Str
  pub tool_name : Str
  pub risk : Str
  pub arguments_digest : Str
  pub arguments_preview : Str
  pub expires_at : ℕ
  pub approved_at : Option ℕ
  pub consumed_at : Option ℕ
  pub user_name : Str

pub record IssuedApproval : Type 0 where
  pub challenge_id : Str
  pub token : Str
  pub expires_at : ℕ

pub record ApprovalTokenRecord : Type 0 where
  pub challenge_id : Str
  pub user_name : Str
  pub tool_name : Str
  pub arguments_digest : Str
  pub expires_at : ℕ

pub record ToolDefinition : Type 0 where
  pub name : Str
  pub server_id : Str
  pub upstream_name : Str
  pub description : Str
  pub input_schema : Str
  pub output_schema : Str
  pub read_only : Bool
  pub idempotent : Bool
  pub destructive : Bool
  pub open_world : Bool
  pub risk : Str
  pub requires_approval : Bool

-- The cause is for the logs.
pub record HubError : Type 0 where
  pub code : Str
  pub message : Str

pub data HubResult (A : Type 0) : Type 0 where
  granted : A → HubResult A
  refused : HubError → HubResult A

pub record ApprovalManager : Type 0 where
  pub ttl : ℕ
  pub challenges : GoMap ApprovalChallenge
  pub tokens : GoMap ApprovalTokenRecord

-- What the store calls: encoding/json, crypto/sha256 and encoding/base64, and the validation and
-- redaction of arguments, which are other components.
pub record Services : Type 1 where
  pub Arguments : Type 0
  pub arguments_digest : Arguments → Option Str
  pub redacted_arguments : Arguments → Str
  pub validate_arguments : ToolDefinition → Arguments → Option HubError
  pub hash_token : Str → Str
  pub encode_token : Str → Str
