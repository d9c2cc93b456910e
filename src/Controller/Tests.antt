-- ===== src/Controller/Tests.antt =====
-- An issue of a comment that Alice has confirmed, and a concrete instance of the theorem.
use crabhelm.Governance.Records.Fields
use crabhelm.GovernanceRegistry.Samples.{people, entry, comment, at_time}
use crabhelm.GovernanceRegistry.Types.{ConfirmationStatus, ConfirmationRecord}
use crabhelm.Governance.Samples.{helper, alice_github, alice}
use crabhelm.Common.{String, true, ◌∷◌, some, false, [], ◌≡◌, none, ◌⊎◌, trim, refl}
use crabhelm.Controller.Prepare.{IssueSetting, State, IssueInput, Prepared, prepare}
use crabhelm.Governance.Types.{
  OAuthConnectionRecord, PersonaRecord, iso, invoker_with_service_fallback, never,
}
use crabhelm.Controller.Issue.{issue_invocation, emit, invocation_of, expected_of, granted}
use crabhelm.Governance.Capabilities.{github_issue_comment, capability_by_id}
use crabhelm.Controller.Arguments.{
  required_text, text, normalize_github_target, normalize_arguments, is_target, at_slash,
}
use crabhelm.Effect.{ok, err}
use crabhelm.Governance.Ingress.{may_invoke_persona}
use crabhelm.GovernanceRegistry.Confirmations.{
  create_confirmation, use_confirmation, put_confirmation, is_expected,
}
use crabhelm.Controller.Issue.Confirmed.{request_of, IsConfirmed, issue_invocation-IsConfirmed}
use crabhelm.GovernanceRegistry.Invocations.{save_invocation, put_invocation}
use crabhelm.Errors.{other}
use crabhelm.Coordinator.Grants.{register_grant}
use crabhelm.Governance.Actor.{
  resolve_invocation_actor, by_mode, with_service, find_connection, is_compatible,
}
use crabhelm.Store.{lookup, values, register}
use crabhelm.Coordinator.Tables.{byte_length, schedule_cleanup}
use crabhelm.GovernanceRegistry.Stores.{require_confirmation, audit}
use crabhelm.Claw.Policies.{is_sha256}

abbrev pub the_digest : String
the_digest = "0123456789abcdef0123456789abcdef0123456789abcdef0123456789abcdef"

abbrev pub setting : IssueSetting
setting = record {
  tx = true;
  ambient = at_time 50 "x";
  coordinator = record {
    now = 50;
    encrypt = λ context prompt. ok prompt;
    decrypt = λ context envelope. ok envelope;
    chunks = λ message. [];
    slack_mode = none;
    slack_bot_token = none;
    post = λ channel thread text. err (other "no Slack");
    send_error = none;
    others = λ t. t;
  };
  invocation_id = "i1";
  digest = λ capability target arguments. the_digest;
  sign = λ claims. ok ("signed", "j1");
  summary = λ capability target arguments. "Comment";
  queue_error = none;
}

abbrev writer : OAuthConnectionRecord
writer = record alice_github { scopes = "repo:write" ∷ [] }

abbrev commenter : PersonaRecord
commenter = record helper { capability_ids = "github.issue.comment" ∷ [] }

abbrev the_approval : ConfirmationRecord
the_approval = record (comment ConfirmationStatus.approved (some (iso 20))) {
  target = "org/repo";
  arguments_digest = the_digest;
}

abbrev before_issue : State
before_issue = record {
  stores = record people {
    personas = entry "a1" commenter ∷ [];
    connections = entry "c1" writer ∷ [];
    confirmations = entry "f1" the_approval ∷ [];
  };
  tables = record {
    grants = [];
    runs = [];
    refreshes = [];
    tickets = [];
    jobs = [];
    reset_generation = 0;
    alarm = none;
  };
  queued = [];
}

abbrev asked_comment : IssueInput
asked_comment = record {
  persona_id = some "a1";
  capability_id = some "github.issue.comment";
  target = some "org/repo";
  arguments = some (("body", text "Thanks") ∷ []);
  confirmation_id = some "f1";
}

abbrev pub the_request : Prepared
the_request = record {
  requester_id = "p1";
  persona = commenter;
  capability = github_issue_comment;
  target = "org/repo";
  arguments = ("body", text "Thanks") ∷ [];
  arguments_digest = the_digest;
  resolved = record {
    actor = alice;
    connection = writer;
    actor_mode = invoker_with_service_fallback;
    fallback_used = false;
  };
  confirmation_id = some "f1";
}

is_prepared : prepare setting before_issue.stores "p1" false false asked_comment ≡ ok the_request
unfolding prepare required_text may_invoke_persona capability_by_id normalize_github_target
    normalize_arguments resolve_invocation_actor lookup values by_mode with_service find_connection
    is_compatible is_target at_slash Fields.text trim byte_length
is_prepared = refl

abbrev pub after_issue : State
after_issue = (issue_invocation setting "p1" false false asked_comment before_issue).1

is_issued :
    issue_invocation setting "p1" false false asked_comment before_issue
    ≡ (ok (granted (invocation_of setting the_request (some "f1")) "signed"), after_issue)
unfolding issue_invocation prepare emit create_confirmation use_confirmation save_invocation
    register_grant required_text may_invoke_persona capability_by_id normalize_github_target
    normalize_arguments resolve_invocation_actor lookup values by_mode with_service find_connection
    is_compatible is_target at_slash Fields.text trim byte_length require_confirmation
    put_confirmation is_expected register audit put_invocation schedule_cleanup is_sha256
is_issued = refl

issue_invocation-IsConfirmed_example :
    (p : Prepared) × (prepare setting before_issue.stores "p1" false false asked_comment ≡ ok p)
    × (request_of (invocation_of setting the_request (some "f1")) ≡ expected_of setting p)
    × ((p.capability.confirmation ≡ never)
        ⊎ IsConfirmed 50 before_issue.stores
            (invocation_of setting the_request (some "f1"))
            after_issue.stores)
issue_invocation-IsConfirmed_example =
    issue_invocation-IsConfirmed setting "p1" false false asked_comment before_issue after_issue
      (invocation_of setting the_request (some "f1")) "signed" is_issued
