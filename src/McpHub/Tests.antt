-- ===== src/McpHub/Tests.antt =====
-- Runs of the approval store, and the theorems at a concrete run.
use haruka_ai.Base.{◌≡◌, refl, true, false, [], ◌∷◌, none, some, Str, codes, pos as int, List}
use haruka_ai.Base.{str_eq, is_empty, positive_or, put, delete}
use haruka_ai.McpHub.Model.{ToolDefinition, Services, ApprovalManager, IssuedApproval, granted}
use haruka_ai.McpHub.Approval.{
  new_approval_manager, kept_token, kept_challenge, cleanup_locked, clone_challenge, is_set,
  new_challenge, create_digested, create_validated, create, token_record, issued_token, issue,
  approve_found, approve, consumed, spend, fits, consume_found, consume_digested, consume,
}
use haruka_ai.McpHub.WellFormed.{WellFormed, new_approval_manager-WellFormed}
use haruka_ai.McpHub.Kept.{StoreCall, creates, approves, call, run, NewIds, run-WellFormed}
use haruka_ai.McpHub.Tried.{token_tried_once}
use haruka_ai.McpHub.Once.{approved_once}
use haruka_ai.McpHub.Granted.{Grant, consume-Grant}

-- Arguments are their own digest, and tokens their own hash.
abbrev plain : Services
plain = record {
  Arguments = Str;
  arguments_digest = λ a. some a;
  redacted_arguments = λ a. a;
  validate_arguments = λ t a. none;
  hash_token = λ t. t;
  encode_token = λ t. t;
}

abbrev mail : ToolDefinition
mail = record {
  name = codes "mail.send";
  server_id = codes "mail";
  upstream_name = codes "send";
  description = [];
  input_schema = codes "{}";
  output_schema = [];
  read_only = false;
  idempotent = false;
  destructive = true;
  open_world = true;
  risk = codes "high";
  requires_approval = true;
}

abbrev fresh : ApprovalManager
fresh = new_approval_manager (int 100)

-- A challenge for Ann's mail at 10, approved at 20.
abbrev approved_calls : List (StoreCall plain)
approved_calls =
    creates 10 (codes "c1") (codes "ann") mail (codes "to bob")
    ∷ approves 20 (some (codes "x")) (codes "ann") (codes "c1")
    ∷ []

abbrev approved : ApprovalManager
approved = run plain approved_calls fresh

approved_ids : NewIds plain approved_calls fresh
unfolding new_approval_manager
approved_ids = (refl, tt)

run-WellFormed_example : WellFormed (run plain approved_calls fresh)
run-WellFormed_example =
    run-WellFormed plain approved_calls fresh approved_ids
      (new_approval_manager-WellFormed (int 100))

approved-WellFormed : WellFormed approved
approved-WellFormed =
    run-WellFormed plain approved_calls fresh approved_ids
      (new_approval_manager-WellFormed (int 100))

grant_at_30 :
    (consume plain approved 30
      (codes "ann")
      (codes "mail.send")
      (codes "to bob")
      (codes "mcp_apv_x")).1
    ≡ granted tt
unfolding new_approval_manager kept_token kept_challenge cleanup_locked clone_challenge is_set
    new_challenge create_digested create_validated create token_record issued_token issue
    approve_found approve consumed spend fits consume_found consume_digested consume call run str_eq
    is_empty positive_or put delete
grant_at_30 = refl

consume-Grant_example :
    Grant plain approved
      (consume plain approved 30
        (codes "ann")
        (codes "mail.send")
        (codes "to bob")
        (codes "mcp_apv_x")).0
      30
      (codes "ann")
      (codes "mail.send")
      (codes "to bob")
consume-Grant_example =
    consume-Grant plain approved 30 (codes "ann") (codes "mail.send") (codes "to bob")
      (codes "mcp_apv_x") approved-WellFormed grant_at_30

-- Tried on other arguments, the token is of no use for the approved ones.
token_tried_once_example : ¬ (
    (consume plain
      (run plain []
        (consume plain approved 30
          (codes "ann")
          (codes "mail.send")
          (codes "to eve")
          (codes "mcp_apv_x")).0)
      40
      (codes "ann")
      (codes "mail.send")
      (codes "to bob")
      (codes "mcp_apv_x")).1
    ≡ granted tt)
unfolding is_empty
token_tried_once_example =
    token_tried_once plain approved 30 (codes "ann") (codes "mail.send") (codes "to eve")
      (codes "mcp_apv_x") (codes "to eve") [] 40 (codes "ann") (codes "mail.send") (codes "to bob")
      refl refl tt

abbrev challenged : ApprovalManager
challenged = run plain (creates 10 (codes "c1") (codes "ann") mail (codes "to bob") ∷ []) fresh

abbrev first_token : IssuedApproval
first_token = record { challenge_id = codes "c1"; token = codes "mcp_apv_x"; expires_at = 110 }

approved_at_20 :
    (approve plain challenged 20 (some (codes "x")) (codes "ann") (codes "c1")).1
    ≡ granted first_token
unfolding new_approval_manager kept_token kept_challenge cleanup_locked clone_challenge is_set
    new_challenge create_digested create_validated create token_record issued_token issue
    approve_found approve call run str_eq is_empty positive_or put
approved_at_20 = refl

-- The second approval of Ann's challenge.
approved_once_example : ¬ (
    (approve plain
      (run plain [] (approve plain challenged 20 (some (codes "x")) (codes "ann") (codes "c1")).0)
      30
      (some (codes "y"))
      (codes "ann")
      (codes "c1")).1
    ≡ granted first_token)
approved_once_example =
    approved_once (codes "c1") plain challenged 20 (some (codes "x")) (codes "ann") first_token []
      30 (some (codes "y")) (codes "ann") first_token approved_at_20 tt
