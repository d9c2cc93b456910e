-- ===== src/Registry/Removal.antt =====
-- A removal is final: the claw that is being removed can neither be enabled nor get credentials.
use crabhelm.Registry.Writes.{start, next}
use crabhelm.Common.{
  String, Bool, ◌≡◌, some, true, arith, false, Option-cases, inl, inr, Bool-cases, ◌||◌, is_some,
  str_eq, ℕ, Option, eq_iff, subst, sym, ◌+◌, ◌∙◌, ap,
}
use crabhelm.Registry.{
  Fleet, Call, request_removal, is_leaving, normalize_record, set_enabled, require_claw,
  rotate_credentials, removing, put_claw, audit, leaving, writing, write_observed, is_deleting,
  EventInput, is_expected, revision_of,
}
use crabhelm.Claw.Types.{ClawRecord, ClawObserved}
use crabhelm.Store.{lookup}
use crabhelm.Effect.{ok, err}
use crabhelm.Errors.{request}
use crabhelm.Effect.Outcome.{serialize-ok, serialize_keeps}
use crabhelm.Claw.Fleet.{is_gone}
use crabhelm.Governance.Types.{iso}
use crabhelm.Store.Laws.{lookup-register_self, lookup-register}
use crabhelm.Registry.Writes.{
  IsWrite, Step, Run, observed, next, target, enabled, Step-IsWrite, rotated, removed,
}

module _ (id : String) (s : Fleet) (r : ClawRecord) (at : lookup id s.claws ≡ some r)
    (gone : is_leaving r ≡ true) where
  set_enabled_refused :
      (tx : Bool) (call : Call) (setting : Bool) (actor : String)
      → set_enabled tx call id setting actor s
        ≡ (err (request "cannot change a deleting or deleted claw"), s)
  unfolding set_enabled require_claw normalize_record
  set_enabled_refused true call setting actor = ground arith
  set_enabled_refused false call setting actor = ground arith

  rotate_credentials_refused :
      (tx : Bool) (call : Call) (actor : String)
      → rotate_credentials tx call id actor s
        ≡ (err (request "cannot rotate credentials for a deleting or deleted claw"), s)
  unfolding rotate_credentials require_claw normalize_record
  rotate_credentials_refused true call actor = ground arith
  rotate_credentials_refused false call actor = ground arith

-- The claw that a successful request for removal returns is stored, and leaving.
request_removal-stored :
    (tx : Bool) (call : Call) (id actor confirmation : String) (s : Fleet) (p : ClawRecord)
    (t : Fleet)
    → request_removal tx call id actor confirmation s ≡ (ok p, t)
    → (q : ClawRecord) × (lookup id t.claws ≡ some q) × (is_leaving q ≡ true)
unfolding request_removal removing require_claw normalize_record put_claw audit leaving
request_removal-stored tx call id actor confirmation s p t e =
    let e' = serialize-ok tx (removing call id actor confirmation) s e in
    elim (Option-cases (lookup id s.claws)) [
      | inl missing ↦ ground arith
      | inr (r, found) ↦
          elim (Bool-cases (is_gone r.observed.phase || is_some r.observed.deletion)) [
            | inl gone ↦ (r, ground arith, ground arith)
            | inr here_ ↦
                let n = leaving (normalize_record r) (iso call.now) in
                (n, ground (arith, lookup-register_self id n s.claws), ground arith)
          ]
    ]

-- The claw is stored, and leaving.
abbrev pub IsLeaving : String → Fleet → Type 0
IsLeaving id s = (q : ClawRecord) × (lookup id s.claws ≡ some q) × (is_leaving q ≡ true)

removing-IsLeaving :
    (call : Call) (id actor confirmation : String) (s : Fleet)
    → IsLeaving id s
    → IsLeaving id (removing call id actor confirmation s).1
unfolding removing require_claw normalize_record put_claw audit leaving
removing-IsLeaving call id actor confirmation s (r, found, gone) =
    elim (Bool-cases (str_eq confirmation r.desired.name || str_eq confirmation r.desired.slug)) [
      | inr unconfirmed ↦ (r, ground arith, gone)
      | inl confirmed ↦
          elim (Bool-cases (is_gone r.observed.phase || is_some r.observed.deletion)) [
            | inl over ↦ (r, ground arith, gone)
            | inr here_ ↦
                let n = leaving (normalize_record r) (iso call.now) in
                (n, ground (arith, lookup-register_self id n s.claws), ground arith)
          ]
    ]

-- Observations that leave a claw in its removal.
abbrev pub KeepsRemoval : ClawObserved → Type 0
KeepsRemoval o = is_gone o.phase || is_deleting o.phase || is_some o.deletion ≡ true

writing-IsLeaving :
    (call : Call) (id : String) (o : ClawObserved) (event : Option EventInput) (expected : Option ℕ)
    (s : Fleet)
    → KeepsRemoval o
    → IsLeaving id s
    → IsLeaving id (writing call id o event expected s).1
unfolding writing require_claw normalize_record put_claw audit
writing-IsLeaving call id o event expected s keeps (r, found, gone) =
    elim (Bool-cases (is_expected expected (revision_of (normalize_record r).revision))) [
      | inr conflict ↦ (r, ground arith, gone)
      | inl expected_ ↦
          let n : ClawRecord = record r {
            revision = some (revision_of (normalize_record r).revision + 1);
            observed = o;
            updated_at = iso call.now;
          } in
          (n, ground (arith, lookup-register_self id n s.claws), keeps)
    ]

module _ (tx : Bool) (id : String) where
  -- What is observed of this claw, if the call is a write of it, keeps it in its removal.
  abbrev pub Keeps : {s t : Fleet} → Step tx s t → Type 0
  Keeps (observed call j o event expected e) = j ≡ id → KeepsRemoval o
  Keeps _ = Unit {0}

  abbrev pub AllKeep : {s t : Fleet} {k : ℕ} → Run tx s k t → Type 0
  AllKeep start = Unit {0}
  AllKeep (next run step) = AllKeep run × Keeps step

  elsewhere :
      (j : String) (s t : Fleet)
      → IsWrite j s t
      → str_eq j id ≡ false
      → IsLeaving id s
      → IsLeaving id t
  elsewhere j s t (inl same) miss (r, found, gone) = (r, rw same found, gone)
  elsewhere j s t (inr (q, n, at, up, after)) miss (r, found, gone) =
      (r, ground (arith, after, lookup-register j id n s.claws), gone)

  here_at :
      {s t : Fleet} (step : Step tx s t)
      → target step ≡ id
      → Keeps step
      → IsLeaving id s
      → IsLeaving id t
  unfolding request_removal write_observed
  here_at {s} {t} (enabled call j b actor e) hit keeps (r, found, gone) =
      let at = subst (λ i. lookup i s.claws ≡ some r) (sym hit) found in
      let same : t ≡ s = e ∙ ap (λ x. x.1) (set_enabled_refused j s r at gone tx call b actor) in
      (r, rw same found, gone)
  here_at {s} {t} (rotated call j actor e) hit keeps (r, found, gone) =
      let at = subst (λ i. lookup i s.claws ≡ some r) (sym hit) found in
      let same : t ≡ s =
        e ∙ ap (λ x. x.1) (rotate_credentials_refused j s r at gone tx call actor) in
      (r, rw same found, gone)
  here_at {s} {t} (removed call j actor confirmation e) hit keeps at =
      let at_j = subst (λ i. IsLeaving i s) (sym hit) at in
      subst (λ i. IsLeaving i t) hit
        (subst (IsLeaving j) (sym e) (
          serialize_keeps (IsLeaving j) tx (removing call j actor confirmation) s at_j
            (removing-IsLeaving call j actor confirmation s at_j)))
  here_at {s} {t} (observed call j o event expected e) hit keeps at =
      let at_j = subst (λ i. IsLeaving i s) (sym hit) at in
      subst (λ i. IsLeaving i t) hit
        (subst (IsLeaving j) (sym e) (
          serialize_keeps (IsLeaving j) tx (writing call j o event expected) s at_j
            (writing-IsLeaving call j o event expected s (keeps hit) at_j)))

  Step-IsLeaving : {s t : Fleet} (step : Step tx s t) → Keeps step → IsLeaving id s → IsLeaving id t
  Step-IsLeaving {s} {t} step keeps at = elim (Bool-cases (str_eq (target step) id)) [
    | inl hit ↦ here_at step ((eq_iff (target step) id).0 hit) keeps at
    | inr miss ↦ elsewhere (target step) s t (Step-IsWrite tx step) miss at
  ]

  Run-IsLeaving :
      {s t : Fleet} {k : ℕ} (run : Run tx s k t) → AllKeep run → IsLeaving id s → IsLeaving id t
  Run-IsLeaving start keep at = at
  Run-IsLeaving (next run step) (keep, keeps) at =
      Step-IsLeaving step keeps (Run-IsLeaving run keep at)

-- A request for removal that succeeds leaves the claw leaving, and so does every run of calls of
-- setEnabled, rotateCredentials, requestRemoval and writeObserved after it, on this claw or on others,
-- that succeed or fail, so long as each write of what is observed of this claw keeps its removal or
-- says that it is deleted. At the end of such a run it can neither be enabled or disabled, nor have its
-- credentials rotated: each attempt is refused and changes nothing, with
-- or without a transaction, whoever makes it.
pub request_removal_final :
    (tx : Bool) (call : Call) (id actor confirmation : String) (s : Fleet) (p : ClawRecord)
    (t u : Fleet) (k : ℕ) (run : Run tx t k u)
    → request_removal tx call id actor confirmation s ≡ (ok p, t)
    → AllKeep tx id run
    → (tx' : Bool) (call' : Call) (setting : Bool) (actor' : String)
    → (set_enabled tx' call' id setting actor' u
        ≡ (err (request "cannot change a deleting or deleted claw"), u))
      × (rotate_credentials tx' call' id actor' u
          ≡ (err (request "cannot rotate credentials for a deleting or deleted claw"), u))
request_removal_final tx call id actor confirmation s p t u k run e keep tx' call' setting actor' =
    let (q, at, gone) =
      Run-IsLeaving tx id run keep (request_removal-stored tx call id actor confirmation s p t e) in
    (
      set_enabled_refused id u q at gone tx' call' setting actor',
      rotate_credentials_refused id u q at gone tx' call' actor',
    )
