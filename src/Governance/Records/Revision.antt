-- ===== src/Governance/Records/Revision.antt =====
-- What an update does to a persona.
use crabhelm.Common.{
  ◌≡◌, Option, Bool, String, ◌⊎◌, ◌+◌, ◌≢◌, or_else, if_pos, inl, if_neg, inr, refl,
}
use crabhelm.Governance.Records.Persona.{
  update_persona_record, PersonaInput, create_persona_record, PersonaRecord-discrete, merged_input,
  next_revision,
}
use crabhelm.Governance.Types.{PersonaRecord, Timestamp}
use crabhelm.Governance.Records.Shape.{IsWellFormed, create_persona_record-IsWellFormed}
use crabhelm.Effect.{ok, bind_result-eq-ok, ok-injective}

-- What an update may make of a record.
abbrev pub IsRevision : PersonaRecord → Timestamp → PersonaRecord → Type 0
IsRevision r now p =
    (p ≡ r)
    ⊎ ((p.revision ≡ r.revision + 1)
        × (p.updated_at ≡ now)
        × (record p { revision = r.revision; updated_at = r.updated_at } ≢ r))

next_revision_sound :
    (r desired : PersonaRecord) (now : Timestamp)
    → IsWellFormed r
    → IsWellFormed desired
    → desired.id ≡ r.id
    → desired.created_at ≡ r.created_at
    → let p = next_revision r desired now in
      IsWellFormed p × (p.id ≡ r.id) × (p.created_at ≡ r.created_at) × IsRevision r now p
unfolding next_revision
next_revision_sound r desired now w shape i c =
    elim (PersonaRecord-discrete
      (record desired { revision = r.revision; updated_at = r.updated_at }) r) [
        | yes same ↦ rw (if_pos _ same) (w, refl, refl, inl refl)
        | no other ↦ rw (if_neg _ other) (
          record {
            slug = shape.slug;
            policy = shape.policy;
            bindings = shape.bindings;
            capabilities = shape.capabilities;
            skills = shape.skills;
            context = shape.context;
          },
          i,
          c,
          inr (refl, refl, other),
        )
      ]

-- An update that succeeds keeps a well-formed persona well formed, with its id and its time of
-- creation. It either changes nothing, and the record is returned as it was, or it makes the next
-- revision, which differs from the record in more than its revision and its time.
pub update_persona_record_sound :
    (r : PersonaRecord) (input : PersonaInput) (enabled : Option Bool) (id : String)
    (now : Timestamp) (p : PersonaRecord)
    → IsWellFormed r
    → update_persona_record r input enabled id now ≡ ok p
    → IsWellFormed p × (p.id ≡ r.id) × (p.created_at ≡ r.created_at) × IsRevision r now p
unfolding update_persona_record
update_persona_record_sound r input enabled id now p w e =
    let (rebuilt, er, e') =
      bind_result-eq-ok (create_persona_record (merged_input r input) id now) _ e in
    let (shape, _, _, _) =
      create_persona_record-IsWellFormed (merged_input r input) id now rebuilt er in
    rw (← ok-injective e') (
      next_revision_sound r
        (record rebuilt {
          id = r.id;
          created_at = r.created_at;
          enabled = or_else enabled r.enabled;
        })
        now w
        (record {
          slug = shape.slug;
          policy = shape.policy;
          bindings = shape.bindings;
          capabilities = shape.capabilities;
          skills = shape.skills;
          context = shape.context;
        })
        refl refl)
