-- ===== src/Controller/Execute/Tests.antt =====
-- An execution of the issued grant, a second one, and concrete instances of the theorems.
use crabhelm.Controller.Arguments.{text}
use crabhelm.Common.{refl}
use crabhelm.GovernanceRegistry.Stores.{require_confirmation}
use crabhelm.Governance.Records.Fields
use crabhelm.GovernanceRegistry.Stores.{audit, require_connection}
use crabhelm.Controller.Tests.{setting, after_issue, the_request}
use crabhelm.Controller.Execute.{
  SignedClaims, ExecuteSetting, ExecuteInput, execute_github, running_github, grant_refused,
  Warning, attempt, recording, executed, answer,
}
use crabhelm.Controller.Prepare.{State, prepare}
use crabhelm.Controller.Execute.Once.{IsRun, execute_github_once, run}
use crabhelm.Common.{List, some, none, [], ◌≡◌, ◌∷◌, arith, clip, trim}
use crabhelm.Effect.{ok}
use crabhelm.Controller.Issue.{claims_of, issue_invocation, emit}
use crabhelm.Coordinator.Grants.{finish_run, consume_grant, start_run, register_grant}
use crabhelm.GovernanceRegistry.Invocations.{
  update_invocation, updating, patched, require_invocation, put_invocation, save_invocation,
}
use crabhelm.Controller.Execute.Outcome.{IsRecorded, running_github-IsRecorded}
use crabhelm.Controller.Arguments.{
  required_text, normalize_arguments, normalize_github_target, is_target, at_slash,
}
use crabhelm.Coordinator.Sql.{count_where, update_where}
use crabhelm.Store.{lookup, register, values}
use crabhelm.GovernanceRegistry.Confirmations.{
  create_confirmation, use_confirmation, put_confirmation, is_expected,
}
use crabhelm.Governance.Ingress.{may_invoke_persona}
use crabhelm.Governance.Capabilities.{capability_by_id}
use crabhelm.Governance.Actor.{
  resolve_invocation_actor, by_mode, with_service, find_connection, is_compatible,
}
use crabhelm.Coordinator.Tables.{byte_length, schedule_cleanup}
use crabhelm.Claw.Policies.{is_sha256}

abbrev the_grant : SignedClaims
the_grant = record { claims = claims_of setting the_request (some "f1"); jti = "j1"; exp = 300 }

abbrev runtime : ExecuteSetting
runtime = record {
  base = setting;
  verify = λ token. ok the_grant;
  credential_of = λ connection. ok "secret";
  github = λ claims args credential. ok "commented";
  coordinator_error = none;
  invocation_error = none;
  audit_error = none;
}

abbrev with_the_grant : ExecuteInput
with_the_grant = record {
  token = some "signed";
  invocation_id = some "i1";
  arguments = some (("body", text "Thanks") ∷ []);
}

abbrev after_execution : State
after_execution = (execute_github runtime with_the_grant after_issue).1

is_executed :
    execute_github runtime with_the_grant after_issue
    ≡ (ok (executed "commented" []), after_execution)
unfolding execute_github running_github attempt recording finish_run update_invocation audit clip
    consume_grant start_run required_text normalize_arguments count_where update_where updating
    patched require_invocation put_invocation require_connection lookup register issue_invocation
    prepare emit create_confirmation use_confirmation save_invocation register_grant
    may_invoke_persona capability_by_id normalize_github_target resolve_invocation_actor values
    by_mode with_service find_connection is_compatible is_target at_slash Fields.text trim
    byte_length require_confirmation put_confirmation is_expected schedule_cleanup is_sha256
is_executed = refl

abbrev after_repeat : State
after_repeat = (execute_github runtime with_the_grant after_execution).1

is_refused :
    execute_github runtime with_the_grant after_execution ≡ (ok grant_refused, after_repeat)
unfolding execute_github running_github attempt recording finish_run update_invocation audit clip
    consume_grant start_run required_text normalize_arguments count_where update_where updating
    patched require_invocation put_invocation require_connection lookup register issue_invocation
    prepare emit create_confirmation use_confirmation save_invocation register_grant
    may_invoke_persona capability_by_id normalize_github_target resolve_invocation_actor values
    by_mode with_service find_connection is_compatible is_target at_slash Fields.text trim
    byte_length require_confirmation put_confirmation is_expected schedule_cleanup is_sha256
is_refused = refl

execute_github_once_example : ¬ IsRun grant_refused
execute_github_once_example =
    execute_github_once runtime runtime with_the_grant with_the_grant after_issue after_execution
      after_execution after_repeat (executed "commented" []) grant_refused refl (omega arith) refl
      refl is_executed (run "commented" []) refl is_refused

running_github-IsRecorded_example :
    (ws : List Warning) × (t : State) × (running_github runtime "i1" the_grant [] after_issue
      ≡ (ok (answer (attempt runtime the_grant [] after_issue.stores) ws), t))
    × (ws ≡ []
        → IsRecorded runtime "i1" the_grant
            (attempt runtime the_grant [] after_issue.stores)
            after_issue
            t)
running_github-IsRecorded_example = running_github-IsRecorded runtime "i1" the_grant [] after_issue
