-- ===== src/Claw/Fleet/Generations.antt =====
-- What a change of the desired state does to a claw's generations.
use crabhelm.Claw.Types.{ClawRecord}
use crabhelm.Claw.Fleet.{
  rotate_claw_credentials, set_claw_enabled, claw_credentials_generation, next_record_revision,
  bool_eq,
}
use crabhelm.Governance.Types.{Timestamp}
use crabhelm.Common.{
  Bool, ◌≡◌, some, ◌⊎◌, ◌<◌, ◌≢◌, ◌≤◌, ◌+◌, Bool-cases, ltb, inl, inr, arith, refl,
}
use crabhelm.Effect.{ok, err}
use crabhelm.Errors.{request}

-- The claw's next desired state: its revision and its generation have grown, the time is the change's,
-- and what the reconciler observed is as it was.
pub record IsChange (r : ClawRecord) (now : Timestamp) (n : ClawRecord) : Type 0 where
  pub same_id : n.id ≡ r.id
  pub revision : n.revision ≡ some (next_record_revision r)
  pub generation : n.desired.generation ≡ r.desired.generation + 1
  pub observed : n.observed ≡ r.observed
  pub at : n.updated_at ≡ now

-- A rotation succeeds exactly while the epoch of the credentials is below 1,000,000. It then advances
-- the epoch by one, as it is read back, whatever the record held before, makes the claw's next
-- generation, and changes neither whether the claw is enabled nor what was observed; once the limit is
-- reached it is refused.
pub rotate_claw_credentials_lem :
    (r : ClawRecord) (now : Timestamp)
    → ((n : ClawRecord) × (rotate_claw_credentials r now ≡ ok n)
        × (claw_credentials_generation r < 1000000)
        × (claw_credentials_generation n ≡ claw_credentials_generation r + 1)
        × (n.desired.enabled ≡ r.desired.enabled)
        × IsChange r now n)
      ⊎ ((rotate_claw_credentials r now ≡ err (request "credential rotation limit reached"))
          × (1000000 ≤ claw_credentials_generation r))
unfolding rotate_claw_credentials claw_credentials_generation
rotate_claw_credentials_lem r now =
    elim (Bool-cases (ltb 1000000 (claw_credentials_generation r + 1))) [
      | inl limit ↦ inr (ground arith, ground arith)
      | inr below ↦ inl (
        record r {
          revision = some (next_record_revision r);
          desired = record r.desired {
            credentials_generation = some (claw_credentials_generation r + 1);
            generation = r.desired.generation + 1;
          };
          updated_at = now;
        },
        ground arith,
        ground arith,
        ground arith,
        refl,
        record { same_id = refl; revision = refl; generation = refl; observed = refl; at = refl },
      )
    ]

-- Enabling or disabling a claw gives it the asked setting. It is the record itself where the setting
-- is what it was; else it is the claw's next generation, which has drifted from what was observed, if
-- that was no later generation than the desired one.
pub set_claw_enabled_lem :
    (r : ClawRecord) (enabled : Bool) (now : Timestamp)
    → let n = set_claw_enabled r enabled now in
      (n.desired.enabled ≡ enabled)
      × (((r.desired.enabled ≡ enabled) × (n ≡ r))
          ⊎ ((r.desired.enabled ≢ enabled)
              × IsChange r now n
              × (r.observed.generation ≤ r.desired.generation
                  → n.observed.generation ≢ n.desired.generation)))
unfolding set_claw_enabled
set_claw_enabled_lem r enabled now = elim (Bool-cases (bool_eq r.desired.enabled enabled)) [
  | inl same ↦ rw same (ground arith, inl (ground arith, refl))
  | inr other ↦ rw other (
    refl,
    inr (
      λ h. ground arith,
      record { same_id = refl; revision = refl; generation = refl; observed = refl; at = refl },
      λ older equal. omega arith,
    ),
  )
]
