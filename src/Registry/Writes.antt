-- ===== src/Registry/Writes.antt =====
-- What one call of a method may do to the claws.
use crabhelm.Common.{
  Bool, Option, String, ℕ, ◌≡◌, suc, ◌⊎◌, some, true, inl, arith, ◌+◌, none, refl, Option-cases,
  inr, Bool-cases, str_eq, ◌||◌, is_some, subst, sym,
}
use crabhelm.Registry.{
  Fleet, Call, set_enabled, setting_enabled, rotating, removing, rotate_credentials, revision_of,
  require_claw, request_removal, normalize_record, put_claw, EventInput, audit, write_observed,
  leaving, is_leaving, writing, is_expected,
}
use crabhelm.Effect.{M, serialize, Result-cases}
use crabhelm.Claw.Types.{ClawRecord, ClawObserved}
use crabhelm.Claw.Fleet.{
  is_safe, set_claw_enabled, rotate_claw_credentials, next_record_revision, bool_eq, is_gone,
}
use crabhelm.Store.{lookup, register}
use crabhelm.Effect.Outcome.{serialize_keeps}
use crabhelm.Governance.Types.{iso}

module _ (tx : Bool) where
  -- One call of a method that changes a claw.
  pub data Step (s t : Fleet) : Type 0 where
    enabled :
        (call : Call) (id : String) (enabled : Bool) (actor : String)
        → t ≡ (set_enabled tx call id enabled actor s).1
        → Step s t
    rotated :
        (call : Call) (id actor : String) → t ≡ (rotate_credentials tx call id actor s).1 → Step s t
    removed :
        (call : Call) (id actor confirmation : String)
        → t ≡ (request_removal tx call id actor confirmation s).1
        → Step s t
    observed :
        (call : Call) (id : String) (o : ClawObserved) (event : Option EventInput)
        (expected : Option ℕ)
        → t ≡ (write_observed tx call id o event expected s).1
        → Step s t

  -- A run of so many calls.
  pub data Run (s : Fleet) : ℕ → Fleet → Type 0 where
    start : Run s 0 s
    next : {n : ℕ} {t u : Fleet} → Run s n t → Step t u → Run s (suc n) u

-- What a call on a claw may do to the claws: nothing, or that one replaced by its next revision.
abbrev pub IsWrite : String → Fleet → Fleet → Type 0
IsWrite id s t =
    (t.claws ≡ s.claws)
    ⊎ ((r : ClawRecord) × (n : ClawRecord) × (lookup id s.claws ≡ some r)
        × (n.revision ≡ some (revision_of r.revision + 1))
        × (t.claws ≡ register id n s.claws))

serialize-IsWrite :
    (tx : Bool) (id : String) (m : M Fleet ClawRecord) (s : Fleet)
    → IsWrite id s (m s).1
    → IsWrite id s (serialize tx m s).1
serialize-IsWrite tx id m s h = serialize_keeps (IsWrite id s) tx m s (inl refl) h

pub revision_of_safe : (x : Option ℕ) → is_safe (revision_of x) ≡ true
revision_of_safe none = refl
revision_of_safe (some n) = ground arith

module _ (call : Call) (id actor : String) (s : Fleet) where
  setting_enabled-IsWrite : (b : Bool) → IsWrite id s (setting_enabled call id b actor s).1
  unfolding setting_enabled require_claw normalize_record put_claw audit set_claw_enabled
      next_record_revision
  setting_enabled-IsWrite b = elim (Option-cases (lookup id s.claws)) [
    | inl missing ↦ inl (ground arith)
    | inr (r, found) ↦ elim (Bool-cases (is_leaving r)) [
      | inl gone ↦ inl (ground arith)
      | inr here_ ↦ elim (Bool-cases (bool_eq r.desired.enabled b)) [
        | inl same ↦ inl (ground arith)
        | inr other ↦ inr (
          r,
          set_claw_enabled (normalize_record r) b (iso call.now),
          found,
          ground (arith, revision_of_safe r.revision),
          ground arith,
        )
      ]
    ]
  ]

  rotating-IsWrite : IsWrite id s (rotating call id actor s).1
  unfolding rotating require_claw normalize_record put_claw audit rotate_claw_credentials
      next_record_revision
  rotating-IsWrite = elim (Option-cases (lookup id s.claws)) [
    | inl missing ↦ inl (ground arith)
    | inr (r, found) ↦ elim (Bool-cases (is_leaving r)) [
      | inl gone ↦ inl (ground arith)
      | inr here_ ↦
          elim (Result-cases (rotate_claw_credentials (normalize_record r) (iso call.now))) [
            | inr (x, refused) ↦ inl (ground arith)
            | inl (n, made) ↦
                inr (r, n, found, ground (arith, revision_of_safe r.revision), ground arith)
          ]
    ]
  ]

  removing-IsWrite :
      (confirmation : String) → IsWrite id s (removing call id actor confirmation s).1
  unfolding removing require_claw normalize_record put_claw audit leaving
  removing-IsWrite confirmation = elim (Option-cases (lookup id s.claws)) [
    | inl missing ↦ inl (ground arith)
    | inr (r, found) ↦
        elim (Bool-cases
          (str_eq confirmation r.desired.name || str_eq confirmation r.desired.slug)) [
            | inr unconfirmed ↦ inl (ground arith)
            | inl confirmed ↦
                elim (Bool-cases (is_gone r.observed.phase || is_some r.observed.deletion)) [
                  | inl gone ↦ inl (ground arith)
                  | inr here_ ↦ inr (
                    r,
                    leaving (normalize_record r) (iso call.now),
                    found,
                    ground (arith, revision_of_safe r.revision),
                    ground arith,
                  )
                ]
          ]
  ]

module _ (call : Call) (id : String) (s : Fleet) where
  writing-IsWrite :
      (o : ClawObserved) (event : Option EventInput) (expected : Option ℕ)
      → IsWrite id s (writing call id o event expected s).1
  unfolding writing require_claw normalize_record put_claw audit
  writing-IsWrite o event expected = elim (Option-cases (lookup id s.claws)) [
    | inl missing ↦ inl (ground arith)
    | inr (r, found) ↦
        elim (Bool-cases (is_expected expected (revision_of (normalize_record r).revision))) [
          | inr conflict ↦ inl (ground arith)
          | inl expected_ ↦ inr (
            r,
            record r {
              revision = some (revision_of r.revision + 1);
              observed = o;
              updated_at = iso call.now;
            },
            found,
            refl,
            ground (arith, revision_of_safe r.revision),
          )
        ]
  ]

-- The claw that a call is on.
abbrev pub target : {tx : Bool} {s t : Fleet} → Step tx s t → String
target (enabled call id b actor e) = id
target (rotated call id actor e) = id
target (removed call id actor confirmation e) = id
target (observed call id o event expected e) = id

pub Step-IsWrite : (tx : Bool) {s t : Fleet} (step : Step tx s t) → IsWrite (target step) s t
unfolding set_enabled rotate_credentials request_removal write_observed
Step-IsWrite tx {s} {t} (enabled call id b actor e) = subst (IsWrite id s) (sym e) (
    serialize-IsWrite tx id (setting_enabled call id b actor) s
      (setting_enabled-IsWrite call id actor s b))
Step-IsWrite tx {s} {t} (rotated call id actor e) =
    subst (IsWrite id s) (sym e)
      (serialize-IsWrite tx id (rotating call id actor) s (rotating-IsWrite call id actor s))
Step-IsWrite tx {s} {t} (removed call id actor confirmation e) = subst (IsWrite id s) (sym e) (
    serialize-IsWrite tx id (removing call id actor confirmation) s
      (removing-IsWrite call id actor s confirmation))
Step-IsWrite tx {s} {t} (observed call id o event expected e) = subst (IsWrite id s) (sym e) (
    serialize-IsWrite tx id (writing call id o event expected) s
      (writing-IsWrite call id s o event expected))
