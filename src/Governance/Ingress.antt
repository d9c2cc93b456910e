-- ===== src/Governance/Ingress.antt =====
-- Who may talk to a persona: `mayInvokePersona` and `selectSlackPersona` (src/governance.ts).
use crabhelm.Governance.Records.Parts.{is_slack, is_option}
use crabhelm.Governance.Types.{slack, PersonaBinding, PersonaRecord}
use crabhelm.Common.{
  String, List, Bool, Option, ◌||◌, any, In, ◌≡◌, find, str_eq, ◌&&◌, true, some, ◌∷◌, ap, arith,
  ◌⊎◌, Bool-cases, there, eq_iff, eq_refl, none, inl, false, here, Option-cases, inr, find-none,
  find_sound, [],
}
use crabhelm.Governance.Actor.{is_profile}

unfoldable pub may_invoke_persona : PersonaRecord → String → Bool → Bool
may_invoke_persona persona requester_id is_administrator =
    is_administrator || str_eq persona.owner_principal_id requester_id || is_profile persona.kind

-- The test of one binding.
abbrev pub is_bound : String → String → PersonaBinding → Bool
is_bound workspace_id channel_id b =
    is_slack b.surface && is_option b.workspace_id workspace_id && is_option b.channel_id channel_id

unfoldable pub select_slack_persona : List PersonaRecord → String → String → Option PersonaRecord
select_slack_persona personas workspace_id channel_id =
    find (λ persona. persona.enabled && any (is_bound workspace_id channel_id) persona.bindings)
      personas

any_sound {ℓ} :
    {A : Type ℓ} (p : A → Bool) (xs : List A) → any p xs ≡ true → (x : A) × In x xs × (p x ≡ true)
any_sound p [] h = cc
any_sound p (x ∷ xs) h = elim (Bool-cases (p x)) [
  | inl passes ↦ (x, here, passes)
  | inr fails ↦ let (y, m, q) = any_sound p xs (ground arith) in (y, there m, q)
]

any_complete {ℓ} :
    {A : Type ℓ} (p : A → Bool) (xs : List A) {x : A} → In x xs → p x ≡ true → any p xs ≡ true
any_complete p [] m h = elim m [ ]
any_complete p (x ∷ xs) here h = ground arith
any_complete p (x ∷ xs) (there m) h = ground (arith, any_complete p xs m)

is_option_lem : (o : Option String) (s : String) → is_option o s ≡ true → o ≡ some s
is_option_lem none s h = cc
is_option_lem (some v) s h = ap some ((eq_iff v s).0 h)

is_bound_complete :
    (w c : String) (b : PersonaBinding)
    → b.surface ≡ slack
    → b.workspace_id ≡ some w
    → b.channel_id ≡ some c
    → is_bound w c b ≡ true
is_bound_complete w c b s ew ec = ground (arith, eq_refl w, eq_refl c)

-- A message in a Slack channel reaches a persona exactly where an enabled one is bound to the
-- channel: what is chosen is a registered, enabled persona with a Slack binding to that workspace
-- and that channel, and where none is chosen no enabled persona has such a binding.
pub select_slack_persona_lem :
    (personas : List PersonaRecord) (workspace_id channel_id : String)
    → ((persona : PersonaRecord) × (select_slack_persona personas workspace_id channel_id
          ≡ some persona)
        × In persona personas
        × (persona.enabled ≡ true)
        × ((b : PersonaBinding) × In b persona.bindings
            × (b.surface ≡ slack)
            × (b.workspace_id ≡ some workspace_id)
            × (b.channel_id ≡ some channel_id)))
      ⊎ ((select_slack_persona personas workspace_id channel_id ≡ none)
          × ((persona : PersonaRecord) (b : PersonaBinding)
              → In persona personas
              → In b persona.bindings
              → b.surface ≡ slack
              → b.workspace_id ≡ some workspace_id
              → b.channel_id ≡ some channel_id
              → persona.enabled ≡ false))
unfolding select_slack_persona
select_slack_persona_lem personas w c =
    elim (Option-cases (find (λ p. p.enabled && any (is_bound w c) p.bindings) personas)) [
      | inl missing ↦
          inr (missing, λ p b m n s ew ec. disabled p b (find-none _ personas m missing) n s ew ec)
      | inr (p, found) ↦
          let (m, h) =
            find_sound (λ p. p.enabled && any (is_bound w c) p.bindings) personas found in
          inl (p, found, m, ground arith, bound p (ground arith))
    ]
  where
    bound :
        (p : PersonaRecord)
        → any (is_bound w c) p.bindings ≡ true
        → (b : PersonaBinding) × In b p.bindings
          × (b.surface ≡ slack)
          × (b.workspace_id ≡ some w)
          × (b.channel_id ≡ some c)
    bound p h =
        let (b, m, q) = any_sound (is_bound w c) p.bindings h in
        (
          b,
          m,
          ground arith,
          is_option_lem b.workspace_id w (ground arith),
          is_option_lem b.channel_id c (ground arith),
        )

    disabled :
        (p : PersonaRecord) (b : PersonaBinding)
        → (p.enabled && any (is_bound w c) p.bindings) ≡ false
        → In b p.bindings
        → b.surface ≡ slack
        → b.workspace_id ≡ some w
        → b.channel_id ≡ some c
        → p.enabled ≡ false
    disabled p b h n s ew ec =
        let q = any_complete (is_bound w c) p.bindings n (is_bound_complete w c b s ew ec) in
        ground arith
