-- ===== src/Coordinator/Grants.antt =====
-- The grants, runs and tickets of the coordinator: registerGrant, registerRuntimeRefresh,
-- registerRuntimeTicket, consumeRuntimeTicket, consumeGrant, startRun and finishRun
-- (worker/claw-coordinator.ts).
use crabhelm.Common.{
  String, ℕ, List, Option, Bool, some, clip, not, any, str_eq, true, none, ◌||◌, ◌&&◌,
  if◌then◌else◌, false, ltb, is_some, ◌==◌, ◌++◌, ◌∷◌, [],
}
use crabhelm.Coordinator.Tables.{
  schedule_cleanup, Env, RunStatus, Grant, Ticket, Tables, is_blank, succeeded, constraint_failed,
  running,
}
use crabhelm.Coordinator.Sql.{update_where, count_where}
use crabhelm.Claw.Policies.{is_sha256}
use crabhelm.Effect.{M, write, ◌>>=◌, ◌>>◌, throw_unless, read, pure}
use crabhelm.Errors.{other}

pub record GrantRegistration : Type 0 where
  pub invocation_id : String
  pub jti : String
  pub arguments_digest : String
  pub expires_at : ℕ

abbrev pub is_valid_grant : ℕ → GrantRegistration → Bool
is_valid_grant now g =
    not (is_blank g.invocation_id)
    && not (is_blank g.jti)
    && is_sha256 g.arguments_digest
    && ltb now g.expires_at

-- INSERT INTO grants: both the invocation and the token's id are unique.
abbrev pub is_registered : GrantRegistration → List Grant → Bool
is_registered g rows = any (λ r. str_eq r.invocation_id g.invocation_id || str_eq r.jti g.jti) rows

unfoldable pub register_grant : Env → GrantRegistration → M Tables (Unit {0})
unfolding schedule_cleanup is_sha256
register_grant env g = do
  throw_unless (is_valid_grant env.now g) (other "grant registration is invalid")
  taken ← read (λ t. is_registered g t.grants)
  throw_unless (not taken) constraint_failed
  write (λ t. record t {
    grants =
        t.grants
        ++ (record {
          invocation_id = g.invocation_id;
          jti = g.jti;
          arguments_digest = g.arguments_digest;
          expires_at = g.expires_at;
          consumed_at = none;
        }
            ∷ []);
  })
  schedule_cleanup env.now

-- The `WHERE` of `consumeGrant`.
abbrev pub is_granted : ℕ → GrantRegistration → Grant → Bool
is_granted now g r =
    str_eq r.invocation_id g.invocation_id
    && str_eq r.jti g.jti
    && str_eq r.arguments_digest g.arguments_digest
    && ltb now r.expires_at
    && not (is_some r.consumed_at)

unfoldable pub consume_grant : Env → GrantRegistration → M Tables Bool
unfolding update_where count_where
consume_grant env g = do
  written ← read (λ t. count_where (is_granted env.now g) t.grants)
  write (λ t. record t {
    grants =
        update_where (is_granted env.now g) (λ r. record r { consumed_at = some env.now }) t.grants;
  })
  pure (written == 1)

unfoldable pub register_runtime_refresh : Env → String → ℕ → M Tables (Unit {0})
unfolding schedule_cleanup
register_runtime_refresh env jti expires_at = do
  throw_unless (not (is_blank jti) && ltb env.now expires_at) (other "runtime refresh is invalid")
  taken ← read (λ t. any (λ r. str_eq r.jti jti) t.refreshes)
  throw_unless (not taken) constraint_failed
  write (λ t. record t {
    refreshes =
        t.refreshes
        ++ (record {
          jti = jti;
          expires_at = expires_at;
          consumed_at = none;
          response_envelope = none;
        }
            ∷ []);
  })
  schedule_cleanup env.now

unfoldable pub register_runtime_ticket : Env → String → ℕ → M Tables (Unit {0})
unfolding schedule_cleanup
register_runtime_ticket env jti expires_at = do
  throw_unless (not (is_blank jti) && ltb env.now expires_at) (other "runtime ticket is invalid")
  taken ← read (λ t. any (λ r. str_eq r.jti jti) t.tickets)
  throw_unless (not taken) constraint_failed
  write (λ t. record t {
    tickets = t.tickets ++ (record { jti = jti; expires_at = expires_at; consumed_at = none } ∷ []);
  })
  schedule_cleanup env.now

abbrev pub is_open_ticket : String → ℕ → Ticket → Bool
is_open_ticket jti now r = str_eq r.jti jti && not (is_some r.consumed_at) && ltb now r.expires_at

abbrev pub use_ticket : String → ℕ → M Tables Bool
use_ticket jti now = do
  written ← read (λ t. count_where (is_open_ticket jti now) t.tickets)
  write (λ t. record t {
    tickets =
        update_where (is_open_ticket jti now) (λ r. record r { consumed_at = some now }) t.tickets;
  })
  pure (written == 1)

-- The time is the caller's.
unfoldable pub consume_runtime_ticket : String → ℕ → M Tables Bool
unfolding update_where count_where
consume_runtime_ticket jti now = if is_blank jti then pure false else use_ticket jti now

unfoldable pub start_run : Env → String → M Tables (Unit {0})
start_run env invocation_id = do
  taken ← read (λ t. any (λ r. str_eq r.invocation_id invocation_id) t.runs)
  throw_unless (not taken) constraint_failed
  write (λ t. record t {
    runs =
        t.runs
        ++ (record {
          invocation_id = invocation_id;
          status = running;
          started_at = env.now;
          completed_at = none;
          error = none;
        }
            ∷ []);
  })

abbrev pub is_running : RunStatus → Bool
is_running running = true
is_running _ = false

abbrev clipped : Option String → Option String
clipped none = none
clipped (some e) = some (clip 500 e)

unfoldable pub finish_run : Env → String → Bool → Option String → M Tables (Unit {0})
unfolding update_where clip
finish_run env invocation_id ok_ error = write λ t. record t {
  runs =
      update_where (λ r. str_eq r.invocation_id invocation_id && is_running r.status)
        (λ r. record r {
          status = if ok_ then succeeded else RunStatus.failed;
          completed_at = some env.now;
          error = clipped error;
        })
        t.runs;
}
