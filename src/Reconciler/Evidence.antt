-- ===== src/Reconciler/Evidence.antt =====
-- What the deletion of a claw rests on: in the rounds before it the provider reported the resource
-- absent, and then the pairing's absence was confirmed.
use crabhelm.Reconciler.Removal.Stages.{
  at, Removal, removal_of, Advance, closed, broken, lost, waiting, drained, removed, unconfirmed,
  unpaired,
}
use crabhelm.Common.{
  String, Bool, ◌≡◌, false, some, true, ◌||◌, ◌⊎◌, Bool-cases, inl, arith, inr, Option-cases, List,
  sym, [], ◌∙◌, In, refl, ◌∷◌,
}
use crabhelm.Reconciler.Round.{Round, reconcile_one}
use crabhelm.Registry.{Fleet}
use crabhelm.Reconciler.Provider.{InspectResult, RevokeControlResult, RemoveResult}
use crabhelm.Claw.Types.{
  ClawRecord, DeletionState, Stage, ClawObserved, revoke, drain, release, confirm,
}
use crabhelm.Reconciler.Progress.{IsAlone, IsRemoving}
use crabhelm.Store.{lookup}
use crabhelm.Effect.{ok}
use crabhelm.Claw.Fleet.{is_gone}
use crabhelm.Reconciler.Refinement.{removal_round-IsAdvance}

-- The provider reported the absence of the resource of this claw.
abbrev pub SaysAbsent : String → Round → Type 0
SaysAbsent id round =
    (seen : ClawRecord) × (seen.id ≡ id)
    × (((r : InspectResult) × (round.world.provider.inspect seen false ≡ ok r) × (r.absent ≡ true))
        ⊎ ((r : RemoveResult) × (round.world.provider.remove seen ≡ ok r) × (r.absent ≡ true)))

-- The provider confirmed that the claw's child is not paired.
abbrev pub SaysUnpaired : String → Round → Type 0
SaysUnpaired id round =
    (seen : ClawRecord) × (seen.id ≡ id)
    × ((r : RevokeControlResult) × (round.world.provider.revoke_control seen ≡ ok r)
        × (r.already_absent || r.removed_paired_device || r.rejected_pending_request ≡ true))

removal_of-IsRemoving :
    (id : String) (t : Fleet) (n : ClawRecord) (stage : Stage)
    → lookup id t.claws ≡ some n
    → n.id ≡ id
    → removal_of n.observed ≡ at stage
    → (e : DeletionState) × IsRemoving id t n e × (e.stage ≡ stage)
removal_of-IsRemoving id t n stage found keyed is = elim (Bool-cases (is_gone n.observed.phase)) [
  | inl gone ↦ absurd (ground arith)
  | inr live ↦ elim (Option-cases n.observed.deletion) [
    | inl unasked ↦ absurd (ground arith)
    | inr (e, asked) ↦
        (e, record { found = found; keyed = keyed; live = live; asked = asked }, ground arith)
  ]
]

module _ (tx : Bool) (id : String) where
  -- Rounds of a claw while no other method changes the stores.
  pub data Rounds : Fleet → List Round → Fleet → Type 0 where
    stop : (s : Fleet) → Rounds s [] s
    next :
        {s t : Fleet} {rounds : List Round} (round : Round)
        → IsAlone round s
        → Rounds (reconcile_one tx round id s).1 rounds t
        → Rounds s (round ∷ rounds) t

  -- The end of a move: the claw is gone, it is in a stage before "revoke", or it is in "revoke".
  data End (round : Round) (d : DeletionState) (o : ClawObserved) : Type 0 where
    last : d.stage ≡ revoke → SaysUnpaired id round → End round d o
    missing : removal_of o ≡ at revoke → SaysAbsent id round → End round d o
    early :
        (stage : Stage)
        → removal_of o ≡ at stage
        → (stage ≡ revoke → d.stage ≡ revoke)
        → End round d o

  removal_of-End :
      (round : Round) (seen : ClawRecord) (d : DeletionState) (o : ClawObserved) (from : Stage)
      (to : Removal)
      → seen.id ≡ id
      → d.stage ≡ from
      → removal_of o ≡ to
      → Advance round.world seen d from to
      → End round d o
  removal_of-End w seen d o _ _ keyed is to (closed r answer done) =
      early drain to (λ e. ground arith)
  removal_of-End w seen d o _ _ keyed is to (broken x answer failed) =
      early drain to (λ e. ground arith)
  removal_of-End w seen d o _ _ keyed is to (lost stage r answer gone_ when) =
      missing to (seen, keyed, inl (r, answer, gone_))
  removal_of-End w seen d o _ _ keyed is to (waiting r answer) = early drain to (λ e. ground arith)
  removal_of-End w seen d o _ _ keyed is to (drained r since answer idle marked quiet) =
      early release to (λ e. ground arith)
  removal_of-End w seen d o _ _ keyed is to (removed stage r answer gone_ when) =
      missing to (seen, keyed, inr (r, answer, gone_))
  removal_of-End w seen d o _ _ keyed is to (unconfirmed stage r answer there_ when) =
      early confirm to (λ e. ground arith)
  removal_of-End w seen d o _ _ keyed is to (unpaired r answer done) =
      last is (seen, keyed, (r, answer, done))

  -- What a round leaves of a removal, and what it heard.
  abbrev Heard : Round → Fleet → DeletionState → Type 0
  Heard round t d =
      ((d.stage ≡ revoke) × SaysUnpaired id round)
      ⊎ ((n : ClawRecord) × (e : DeletionState) × IsRemoving id t n e
          × ((e.stage ≡ revoke → d.stage ≡ revoke) ⊎ SaysAbsent id round))

  round-Heard :
      (round : Round) (t : Fleet) (d : DeletionState) (n : ClawRecord)
      → lookup id t.claws ≡ some n
      → n.id ≡ id
      → End round d n.observed
      → Heard round t d
  round-Heard round t d n found keyed (last is said) = inl (is, said)
  round-Heard round t d n found keyed (missing is said) =
      let (e, removing_, _) = removal_of-IsRemoving id t n revoke found keyed is in
      inr (n, e, removing_, inr said)
  round-Heard round t d n found keyed (early stage is before) =
      let (e, removing_, same) = removal_of-IsRemoving id t n stage found keyed is in
      inr (n, e, removing_, inl (λ r. before (sym same ∙ r)))

  hear :
      (round : Round) (s : Fleet) (c : ClawRecord) (d : DeletionState)
      → IsAlone round s
      → IsRemoving id s c d
      → Heard round (reconcile_one tx round id s).1 d
  hear round s c d alone is =
      let (n, found, keyed, moved) = removal_round-IsAdvance tx round id s c d alone is in
      elim moved [
        | inl stays ↦ round-Heard round _ d n found keyed (early d.stage stays (λ e. e))
        | inr (seen, is_seen, move) ↦ round-Heard round _ d n found keyed (
            removal_of-End round seen d n.observed d.stage (removal_of n.observed) is_seen.is_id
              refl refl move)
      ]

  -- A claw that was being removed, and that rounds of the reconciler leave deleted while no other
  -- method changes the stores: in one of the rounds the provider confirmed that the claw's child is
  -- not paired, and in one it reported the claw's resource absent, unless the removal was in the
  -- stage "revoke" before the rounds.
  pub deleted_after_absence :
      (s t : Fleet) (rounds : List Round) (c end : ClawRecord) (d : DeletionState)
      → Rounds s rounds t
      → IsRemoving id s c d
      → lookup id t.claws ≡ some end
      → is_gone end.observed.phase ≡ true
      → ((round : Round) × In round rounds × SaysUnpaired id round)
        × ((d.stage ≡ revoke) ⊎ ((round : Round) × In round rounds × SaysAbsent id round))
  deleted_after_absence s t rounds c end d (stop _) is found gone =
      absurd (ground (arith, is.found, is.live))
  deleted_after_absence s t rounds c end d (next {rounds = more} round alone rest) is found gone =
      elim (hear round s c d alone is) [
        | inl (at_end, said) ↦ ((round, In.here, said), inl at_end)
        | inr (n, e, removing_, heard) ↦
            let ((r, later, said), absent_) =
              deleted_after_absence (reconcile_one tx round id s).1 t more n end e rest removing_
                found gone in
            (
              (r, In.there later, said),
              elim absent_ [
                | inr (q, before, reported) ↦ inr (q, In.there before, reported)
                | inl at_end ↦ elim heard [
                  | inl back ↦ inl (back at_end)
                  | inr reported ↦ inr (round, In.here, reported)
                ]
              ],
            )
      ]
