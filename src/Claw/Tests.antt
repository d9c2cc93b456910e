-- ===== src/Claw/Tests.antt =====
-- The summary of a sample fleet.
use crabhelm.Common.{List, ◌≡◌, ◌+◌, ◌∷◌, [], ◌≤◌, false, ◌⊎◌, ◌≢◌, ◌<◌, true, refl}
use crabhelm.Claw.Fleet.{
  rotate_claw_credentials, set_claw_enabled, claw_credentials_generation, fleet_summary,
}
use crabhelm.Claw.Types.{ClawRecord, deleted}
use crabhelm.Claw.Samples.{sample_claw}
use crabhelm.Governance.Types.{iso}
use crabhelm.Effect.{ok, err}
use crabhelm.Claw.Fleet.Generations.{IsChange, set_claw_enabled_lem, rotate_claw_credentials_lem}
use crabhelm.Errors.{request}

abbrev sample_fleet : List ClawRecord
sample_fleet =
    sample_claw
    ∷ record sample_claw { observed = record sample_claw.observed { phase = deleted } }
    ∷ []

counts_sample : (fleet_summary sample_fleet).total ≡ 1
unfolding fleet_summary
counts_sample = refl

rotate_claw_credentials_lem_example :
    ((n : ClawRecord) × (rotate_claw_credentials sample_claw (iso 9) ≡ ok n)
      × (claw_credentials_generation sample_claw < 1000000)
      × (claw_credentials_generation n ≡ claw_credentials_generation sample_claw + 1)
      × (n.desired.enabled ≡ true)
      × IsChange sample_claw (iso 9) n)
    ⊎ ((rotate_claw_credentials sample_claw (iso 9)
          ≡ err (request "credential rotation limit reached"))
        × (1000000 ≤ claw_credentials_generation sample_claw))
rotate_claw_credentials_lem_example = rotate_claw_credentials_lem sample_claw (iso 9)

set_claw_enabled_lem_example :
    ((set_claw_enabled sample_claw false (iso 9)).desired.enabled ≡ false)
    × (((sample_claw.desired.enabled ≡ false)
          × (set_claw_enabled sample_claw false (iso 9) ≡ sample_claw))
        ⊎ ((sample_claw.desired.enabled ≢ false)
            × IsChange sample_claw (iso 9) (set_claw_enabled sample_claw false (iso 9))
            × (sample_claw.observed.generation ≤ sample_claw.desired.generation
                → (set_claw_enabled sample_claw false (iso 9)).observed.generation
                  ≢ (set_claw_enabled sample_claw false (iso 9)).desired.generation)))
set_claw_enabled_lem_example = set_claw_enabled_lem sample_claw false (iso 9)
