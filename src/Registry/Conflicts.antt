-- ===== src/Registry/Conflicts.antt =====
-- No lost updates: a write of what was observed, made with the revision that was read.
use crabhelm.Common.{
  Bool, Option, String, ℕ, ◌≡◌, suc, ◌⊎◌, some, inl, arith, ◌+◌, refl, inr, Bool-cases, str_eq,
  subst, eq_iff, ◌≤◌, ◌<◌, ◌∙◌,
}
use crabhelm.Registry.{
  Fleet, Call, revision_of, require_claw, normalize_record, put_claw, EventInput, audit,
  write_observed, writing,
}
use crabhelm.Effect.{ok}
use crabhelm.Claw.Types.{ClawRecord, ClawObserved}
use crabhelm.Store.{lookup}
use crabhelm.Effect.Outcome.{serialize-ok}
use crabhelm.Governance.Types.{iso}
use crabhelm.Store.Laws.{lookup-register, lookup-register_self}
use crabhelm.Registry.Writes.{Run, start, next, IsWrite, Step-IsWrite, revision_of_safe, target}

-- One claw across a call.
write_at :
    (j id : String) (s t : Fleet) (c : ClawRecord)
    → lookup j s.claws ≡ some c
    → IsWrite id s t
    → (d : ClawRecord) × (lookup j t.claws ≡ some d)
      × ((d ≡ c) ⊎ (d.revision ≡ some (revision_of c.revision + 1)))
write_at j id s t c at (inl same) = (c, rw same at, inl refl)
write_at j id s t c at (inr (r, n, found, up, after)) = elim (Bool-cases (str_eq id j)) [
  | inl hit ↦
      let same : r ≡ c = agree ((eq_iff id j).0 hit) in
      (
        n,
        ground (arith, after, lookup-register id j n s.claws),
        inr (subst (λ x. n.revision ≡ some (revision_of x.revision + 1)) same up),
      )
  | inr miss ↦ (c, ground (arith, after, lookup-register id j n s.claws), inl refl)
]
  where
    agree : id ≡ j → r ≡ c
    agree hit = cc

-- One claw across a run: it is as it was, or its revision has grown, by at most one for each call.
run_at :
    (tx : Bool) (j : String) (s : Fleet) (c : ClawRecord) (k : ℕ) (t : Fleet)
    → lookup j s.claws ≡ some c
    → Run tx s k t
    → revision_of c.revision + k ≤ 9007199254740991
    → (d : ClawRecord) × (lookup j t.claws ≡ some d)
      × ((d ≡ c)
          ⊎ ((revision_of c.revision < revision_of d.revision)
              × (revision_of d.revision ≤ revision_of c.revision + k)))
run_at tx j s c k t at start bound = (c, at, inl refl)
run_at tx j s c k u at (next {n} {t} run step) bound =
    let (d, there_, grown) = run_at tx j s c n t at run (omega arith) in
    let (e, end, move) = write_at j (target step) t u d there_ (Step-IsWrite tx step) in
    (e, end, combine n c d e bound grown move)
  where
    combine :
        (n : ℕ) (c d e : ClawRecord)
        → revision_of c.revision + suc n ≤ 9007199254740991
        → (d ≡ c)
          ⊎ ((revision_of c.revision < revision_of d.revision)
              × (revision_of d.revision ≤ revision_of c.revision + n))
        → (e ≡ d) ⊎ (e.revision ≡ some (revision_of d.revision + 1))
        → (e ≡ c)
          ⊎ ((revision_of c.revision < revision_of e.revision)
              × (revision_of e.revision ≤ revision_of c.revision + suc n))
    combine n c d e bound (inl h) (inl m) = inl (m ∙ h)
    combine n c d e bound (inr h) (inl m) = inr (ground arith)
    combine n c d e bound (inl h) (inr m) = inr (ground arith)
    combine n c d e bound (inr h) (inr m) = inr (ground arith)

writing-ok :
    (call : Call) (id : String) (o : ClawObserved) (event : Option EventInput) (n : ℕ) (t u : Fleet)
    (d p : ClawRecord)
    → lookup id t.claws ≡ some d
    → writing call id o event (some n) t ≡ (ok p, u)
    → (revision_of d.revision ≡ n)
      × (lookup id u.claws ≡ some p)
      × (p ≡ record d {
        revision = some (revision_of d.revision + 1);
        observed = o;
        updated_at = iso call.now;
      })
unfolding writing require_claw normalize_record put_claw audit
writing-ok call id o event n t u d p at e =
    let safe = revision_of_safe d.revision in
    let stored = lookup-register_self id p t.claws in (ground arith, ground arith, ground arith)

-- A write of observations made with the revision that was read, `k` calls after the reading, succeeds
-- only if none of these calls (of setEnabled, rotateCredentials, requestRemoval and writeObserved) has
-- changed the claw; it then stores the claw as it was read but for its observations, its time and its
-- revision, which is the next one. The revision that was read and `k` add up to a safe integer.
pub write_observed_no_lost_update :
    (tx : Bool) (k : ℕ) (call : Call) (id : String) (o : ClawObserved) (event : Option EventInput)
    (s t u : Fleet) (c p : ClawRecord)
    → lookup id s.claws ≡ some c
    → Run tx s k t
    → revision_of c.revision + k ≤ 9007199254740991
    → write_observed tx call id o event (some (revision_of c.revision)) t ≡ (ok p, u)
    → (lookup id t.claws ≡ some c)
      × (lookup id u.claws ≡ some p)
      × (p ≡ record c {
        revision = some (revision_of c.revision + 1);
        observed = o;
        updated_at = iso call.now;
      })
unfolding write_observed
write_observed_no_lost_update tx k call id o event s t u c p at run bound e =
    let (d, there_, grown) = run_at tx id s c k t at run bound in
    let e' = serialize-ok tx (writing call id o event (some (revision_of c.revision))) t e in
    let (same, stored, made) =
      writing-ok call id o event (revision_of c.revision) t u d p there_ e' in
    let is : d ≡ c = elim grown [ inl h ↦ h | inr h ↦ ground arith ] in
    (
      subst (λ x. lookup id t.claws ≡ some x) is there_,
      stored,
      subst
          (λ x. p ≡ record x {
            revision = some (revision_of x.revision + 1);
            observed = o;
            updated_at = iso call.now;
          })
          is made,
    )
