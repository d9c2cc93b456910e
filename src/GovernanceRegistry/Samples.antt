-- ===== src/GovernanceRegistry/Samples.antt =====
-- Sample stores for the tests.
use crabhelm.Common.{String, ℕ, [], Option, ◌∷◌}
use crabhelm.GovernanceRegistry.Stores.{Stores, Ambient}
use crabhelm.GovernanceRegistry.Types.{ConfirmationStatus, ConfirmationRecord}
use crabhelm.GovernanceRegistry.Confirmations.{Expected}
use crabhelm.Store.{Entry}
use crabhelm.Governance.Samples.{alice, service_bot, triage, alice_github, bot_github}
use crabhelm.Governance.Types.{Timestamp, iso}

abbrev pub entry : {V : Type 0} → String → V → Entry V
entry k v = record { key = k; value = v }

abbrev pub empty : Stores
empty = record {
  principals = [];
  personas = [];
  skills = [];
  connections = [];
  oauth_states = [];
  confirmations = [];
  invocations = [];
  events = [];
}

abbrev pub at_time : ℕ → String → Ambient
at_time now id = record {
  clock = now;
  written = now;
  id = id;
  owner_id = "o1";
  event_id = "e1";
  correlation_id = "k1";
}

-- Alice asks to comment on an issue, until the instant 100.
abbrev pub comment : ConfirmationStatus → Option Timestamp → ConfirmationRecord
comment status decided_at = record {
  id = "f1";
  requester_id = "p1";
  persona_id = "a1";
  actor_id = "p1";
  capability_id = "github.issue.comment";
  target = "org/repo#1";
  arguments_digest = "g1";
  summary = "Comment on org/repo#1";
  status = status;
  expires_at = iso 100;
  decided_at = decided_at;
  created_at = iso 10;
}

abbrev pub with_confirmation : ConfirmationRecord → Stores
with_confirmation c = record empty { confirmations = entry "f1" c ∷ [] }

abbrev pub as_asked : Expected
as_asked = record {
  requester_id = "p1";
  persona_id = "a1";
  actor_id = "p1";
  capability_id = "github.issue.comment";
  target = "org/repo#1";
  arguments_digest = "g1";
}

abbrev pub people : Stores
people = record empty {
  principals = entry "p1" alice ∷ entry "p2" service_bot ∷ [];
  skills = entry "s1" triage ∷ [];
  connections = entry "c1" alice_github ∷ entry "c2" bot_github ∷ [];
}
