-- ===== src/GovernanceRegistry/Tests/Identity.antt =====
-- Principals, personas, connections and skills on sample stores.
use crabhelm.Governance.Records.Parts.{map_each}
use crabhelm.Common.{trim}
use crabhelm.GovernanceRegistry.Types.{AuditOutcome}
use crabhelm.Governance.Types.{
  OAuthConnectionRecord, PrincipalRecord, PersonaRecord, human, ConnectionStatus, oidc,
  PrincipalSource, iso, invoker_with_service_fallback, administrator, member,
}
use crabhelm.GovernanceRegistry.Stores.{
  Stores, require_connection, require_persona, require_principal, audit, event_of, blank,
}
use crabhelm.GovernanceRegistry.Connections.{revoke_connection, put_connection}
use crabhelm.Governance.Actor.{
  ResolvedActor, resolve_invocation_actor, by_mode, with_service, find_connection, is_compatible,
}
use crabhelm.Store.{lookup, values, register}
use crabhelm.Governance.Records.Principal.{
  PrincipalInput, create_principal_record, parse_source, parse_principal_kind, parse_role,
}
use crabhelm.GovernanceRegistry.Principals.{
  principal_by_subject, ensure_external_principal, create_principal,
}
use crabhelm.GovernanceRegistry.Principals.Subjects.{AreDistinct, principals_stay_distinct}
use crabhelm.GovernanceRegistry.Personas.{
  create_persona, update_persona, require_named, validate_persona, has_slug, validate_actor,
  ensure_persona_for_claw, validate_skills, put_persona,
}
use crabhelm.GovernanceRegistry.Personas.Validity.{
  IsValid, update_persona-IsValid, create_persona-IsValid,
}
use crabhelm.GovernanceRegistry.Personas.Forms.{AreWellFormed, personas_stay_well_formed}
use crabhelm.Common.{
  ◌≢◌, some, arith, ◌≡◌, true, ◌∷◌, eq_iff, none, refl, [], Bool-cases, false, str_eq, inl, subst,
  inr, is_distinct,
}
use crabhelm.Governance.Samples.{
  alice_github, service_bot, alice, helper_named, bot_github, helper, helper_input,
}
use crabhelm.GovernanceRegistry.Samples.{people, empty, entry, at_time}
use crabhelm.GovernanceRegistry.Connections.Revocation.{
  AreIdentified, revoke_connection_serves_nobody,
}
use crabhelm.Governance.Records.Fields.{text, is_subject, unique, text_each, departments}
use crabhelm.Governance.Records.Persona.{update_persona_record, create_persona_record}
use crabhelm.Governance.Capabilities.{github_issue_read}
use crabhelm.Effect.{ok}
use crabhelm.Governance.Tests.{rename, helper_created, renamed, helper-IsWellFormed}
use crabhelm.GovernanceRegistry.Principals.Authority.{IsLogin, ensure_external_principal_authority}
use crabhelm.Claw.Samples.{sample_claw}
use crabhelm.Governance.Records.Shape.{IsWellFormed}

abbrev revoked_github : OAuthConnectionRecord
revoked_github = record alice_github {
  revision = 2;
  status = ConnectionStatus.revoked;
  updated_at = iso 30;
}

abbrev after_revocation : Stores
after_revocation = record people {
  connections = entry "c1" revoked_github ∷ entry "c2" bot_github ∷ [];
  events =
      entry "e1" (
        event_of (at_time 30 "x")
          (record (blank "connection.revoke" "Revoked Alice on GitHub" AuditOutcome.succeeded) {
            requester_id = some "p1";
            actor_id = some "p1";
          }))
      ∷ [];
}

revokes :
    revoke_connection true (at_time 30 "x") "c1" "p1" people ≡ (ok revoked_github, after_revocation)
unfolding revoke_connection require_connection put_connection audit lookup register
revokes = refl

abbrev as_bot : ResolvedActor
as_bot = record {
  actor = service_bot;
  connection = bot_github;
  actor_mode = invoker_with_service_fallback;
  fallback_used = true;
}

falls_back :
    resolve_invocation_actor alice helper github_issue_read
      (alice ∷ service_bot ∷ [])
      (values after_revocation.connections)
    ≡ ok as_bot
unfolding resolve_invocation_actor by_mode with_service find_connection is_compatible values
falls_back = refl

connections_identified : AreIdentified people.connections
unfolding lookup
connections_identified = ((refl, (refl, tt)), λ k c e. ground (arith, eq_iff "c1" k, eq_iff "c2" k))

revoke_connection_serves_nobody_example : as_bot.connection.id ≢ "c1"
revoke_connection_serves_nobody_example =
    revoke_connection_serves_nobody true (at_time 30 "x") "c1" "p1" people revoked_github
      after_revocation alice helper github_issue_read (alice ∷ service_bot ∷ []) as_bot
      connections_identified revokes falls_back

-- A principal that an identity provider vouches for, and a Slack login with its subject.
abbrev directory_alice : PrincipalRecord
directory_alice = record alice { source = oidc; roles = administrator ∷ [] }

abbrev directory : Stores
directory = record empty { principals = entry "p1" directory_alice ∷ [] }

abbrev slack_login : PrincipalInput
slack_login = record {
  subject = some "github:alice";
  label = some "alice in Slack";
  kind = none;
  source = some "slack";
  roles = none;
  departments = none;
}

abbrev slack_alice : PrincipalRecord
slack_alice = record {
  id = "n1";
  revision = 1;
  subject = "github:alice";
  label = "alice in Slack";
  kind = human;
  source = PrincipalSource.slack;
  roles = member ∷ [];
  departments = [];
  created_at = iso 40;
  updated_at = iso 40;
}

logs_in : create_principal_record slack_login "n1" (iso 40) ≡ ok slack_alice
unfolding create_principal_record text is_subject parse_source parse_principal_kind unique text_each
    map_each parse_role departments is_distinct trim
logs_in = refl

known : principal_by_subject "github:alice" directory ≡ some directory_alice
unfolding principal_by_subject values
known = refl

ensure_external_principal_authority_example :
    (q : PrincipalRecord) × (ensure_external_principal true (at_time 40 "n1") slack_login directory
      ≡ (ok q, record directory { principals = register "p1" q directory.principals }))
    × IsLogin directory_alice slack_alice q
ensure_external_principal_authority_example =
    ensure_external_principal_authority true (at_time 40 "n1") slack_login directory slack_alice
      directory_alice logs_in known

directory_distinct : AreDistinct directory.principals
unfolding lookup
directory_distinct = record {
  keyed = (refl, tt);
  identified = λ k p e. ground (arith, eq_iff "p1" k);
  distinct = λ j k p q e e' same. ground (arith, eq_iff "p1" j, eq_iff "p1" k);
}

principals_stay_distinct_example :
    AreDistinct (create_principal true (at_time 40 "n1") slack_login "p1" directory).1.principals
    × AreDistinct
        (ensure_external_principal true (at_time 40 "n1") slack_login directory).1.principals
principals_stay_distinct_example =
    principals_stay_distinct true (at_time 40 "n1") slack_login "p1" directory directory_distinct

abbrev after_creation : Stores
after_creation = record people {
  personas = entry "a1" helper ∷ [];
  events =
      entry "e1" (
        event_of (at_time 5 "a1")
          (record (blank "persona.create" "Created persona Helper" AuditOutcome.succeeded) {
            claw_id = some "claw1";
            requester_id = some "p1";
            persona_id = some "a1";
          }))
      ∷ [];
}

creates_helper :
    create_persona true (at_time 5 "a1") helper_input "p1" people ≡ (ok helper, after_creation)
unfolding create_persona require_named require_principal validate_persona validate_actor
    validate_skills put_persona audit lookup register values
creates_helper = simp (helper_created)

create_persona-IsValid_example :
    IsValid people helper
    × (has_slug "helper" people ≡ false)
    × (create_persona_record helper_input "a1" (iso 5) ≡ ok helper)
    × (after_creation.personas ≡ register "a1" helper people.personas)
create_persona-IsValid_example =
    create_persona-IsValid true (at_time 5 "a1") helper_input "p1" people helper after_creation
      creates_helper

abbrev aide : PersonaRecord
aide = helper_named "Aide" 2 (iso 9)

abbrev after_update : Stores
after_update = record after_creation {
  personas = entry "a1" aide ∷ [];
  events =
      entry "e1" (
        event_of (at_time 9 "x")
          (record (blank "persona.update" "Updated persona Aide" AuditOutcome.succeeded) {
            claw_id = some "claw1";
            requester_id = some "p1";
            persona_id = some "a1";
          }))
      ∷ [];
}

updates_helper :
    update_persona true (at_time 9 "x") "a1" rename none "p1" after_creation
    ≡ (ok aide, after_update)
unfolding update_persona require_persona require_principal validate_persona validate_actor
    validate_skills put_persona audit lookup register values
updates_helper = simp (renamed)

update_persona-IsValid_example :
    ((r : PersonaRecord) × (lookup "a1" after_creation.personas ≡ some r)
      × (update_persona_record r rename none "x" (iso 9) ≡ ok aide))
    × ((o : PrincipalRecord) × (lookup "p1" after_creation.principals ≡ some o))
    × IsValid after_creation aide
    × (after_update.personas ≡ register "a1" aide after_creation.personas)
update_persona-IsValid_example =
    update_persona-IsValid true (at_time 9 "x") "a1" rename none "p1" after_creation aide
      after_update updates_helper

stored_well_formed : AreWellFormed after_creation.personas
unfolding lookup
stored_well_formed = record {
  identified = λ k p e. ground (arith, eq_iff "a1" k);
  formed = λ k p e. elim (Bool-cases (str_eq "a1" k)) [
    | inl hit ↦ let same : helper ≡ p = ground arith in subst IsWellFormed same helper-IsWellFormed
    | inr miss ↦ ground arith
  ];
}

personas_stay_well_formed_example :
    AreWellFormed (create_persona true (at_time 9 "x") rename "p1" after_creation).1.personas
    × AreWellFormed
        (update_persona true (at_time 9 "x") "a1" rename none "p1" after_creation).1.personas
    × AreWellFormed
        (ensure_persona_for_claw true (at_time 9 "x") sample_claw after_creation).1.personas
personas_stay_well_formed_example =
    personas_stay_well_formed true (at_time 9 "x") "a1" rename none "p1" sample_claw after_creation
      stored_well_formed
