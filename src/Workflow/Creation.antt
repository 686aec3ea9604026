-- ===== src/Workflow/Creation.antt =====
-- A workflow run is created once: the histories that replay, and the state they give.
use ai_software_engineering.Prelude.{
  some-injective, String, ◌≡◌, refl, sym, ap, ◌∙◌, ◌⊎◌, inl, inr, true, Option, none, some, List,
  [], ◌∷◌, ◌++◌, arith, eq_iff, length, ok, >>=-eq-ok,
}
use ai_software_engineering.Contracts.Canonical.{Runtime}
use ai_software_engineering.Contracts.Json.{Json, str, member}
use ai_software_engineering.Contracts.Envelopes.{CommandEnvelope, DomainEventEnvelope}
use ai_software_engineering.Contracts.Registry.{ContractRegistry}
use ai_software_engineering.Kernel.{
  ReplayResult, PreparedTransition, TransitionContext, replay, prepare,
}
use ai_software_engineering.Kernel.Replay.{fold_events, replay_sound}
use ai_software_engineering.Kernel.Prepare.{prepare_recovers}
use ai_software_engineering.Workflow.{WorkflowRunState, is_text, apply, workflow_run_definition}

-- A run's state says just what its creating event says.
abbrev pub Creates : DomainEventEnvelope → WorkflowRunState → Type 0
Creates event state =
    (event.event_type ≡ "WorkflowRunCreated")
    × (event.aggregate_version ≡ 1)
    × (state.run_id ≡ event.aggregate_id)
    × (state.version ≡ 1)
    × (state.workflow_definition_id ≡ member "workflowDefinitionId" event.payload)
    × (state.workflow_definition_version ≡ member "workflowDefinitionVersion" event.payload)
    × (state.created_by_command_id ≡ some (str event.causation_id))
    × (state.created_at ≡ event.occurred_at)

is_text-eq : (o : Option Json) (t : String) → is_text o t ≡ true → o ≡ some (str t)
is_text-eq (some (str s)) t h = ap some (ap str ((eq_iff s t).0 h))
is_text-eq _ t h = cc

apply-Creates :
    (event : DomainEventEnvelope) (state : WorkflowRunState)
    → apply none event ≡ ok state
    → Creates event state
unfolding apply
apply-Creates event state h = ground (
  arith,
  eq_iff event.event_type "WorkflowRunCreated",
  is_text-eq (member "createdByCommandId" event.payload) event.causation_id,
)

-- Nothing applies to a run that has a state.
apply_once :
    (s : WorkflowRunState) (e : DomainEventEnvelope) (es : List DomainEventEnvelope)
    {state : Option WorkflowRunState}
    → fold_events workflow_run_definition (some s) (e ∷ es) ≡ ok state
    → ⊥
unfolding fold_events apply
apply_once s e es h = cc

-- What folds to a state is nothing, or one creation.
fold-Creates :
    (history : List DomainEventEnvelope) {state : Option WorkflowRunState}
    → fold_events workflow_run_definition none history ≡ ok state
    → ((history ≡ []) × (state ≡ none))
      ⊎ ((event : DomainEventEnvelope) × (s : WorkflowRunState) × (history ≡ event ∷ [])
          × (state ≡ some s)
          × Creates event s)
unfolding fold_events
fold-Creates [] h = inl (refl, cc)
fold-Creates (e ∷ []) h =
    let (s, created, end) = >>=-eq-ok (apply none e) _ h in
    inr (e, s, refl, cc, apply-Creates e s created)
fold-Creates (e ∷ e' ∷ es) h =
    let (s, _, rest) = >>=-eq-ok (apply none e) _ h in absurd (apply_once s e' es rest)

-- The result of replaying any accepted history of a run: it is empty and there is no state, or it is
-- one creation event, at version 1, and the state says what that event says.
pub replay_creation :
    (runtime : Runtime) (registry : ContractRegistry) (id : String)
    (history : List DomainEventEnvelope) (r : ReplayResult WorkflowRunState)
    → replay runtime registry workflow_run_definition id history ≡ ok r
    → ((history ≡ []) × (r.state ≡ none) × (r.version ≡ 0))
      ⊎ ((event : DomainEventEnvelope) × (s : WorkflowRunState) × (history ≡ event ∷ [])
          × (r.state ≡ some s)
          × (r.version ≡ 1)
          × Creates event s)
replay_creation runtime registry id history r h =
    let (_, folded, count) = replay_sound runtime registry workflow_run_definition id history r h in
    elim (fold-Creates history folded) [
      | inl (empty, no_state) ↦ inl (empty, no_state, count ∙ ap length empty)
      | inr (event, s, one, state, created) ↦
          inr (event, s, one, state, count ∙ ap length one, created)
    ]

append_one {ℓ} : {A : Type ℓ} (xs : List A) (a b : A) → xs ++ a ∷ [] ≡ b ∷ [] → (xs ≡ []) × (a ≡ b)
append_one [] a b e = (refl, cc)
append_one (x ∷ []) a b e = cc
append_one (x ∷ y ∷ xs) a b e = cc

-- A command can be prepared only as the creation of a run that has no history.
pub prepare_creates :
    (runtime : Runtime) (registry : ContractRegistry) (input : CommandEnvelope)
    (history : List DomainEventEnvelope) (context : TransitionContext)
    (p : PreparedTransition WorkflowRunState)
    → prepare runtime registry workflow_run_definition input history context ≡ ok p
    → (history ≡ [])
      × (input.expected_version ≡ 0)
      × (p.state.created_by_command_id ≡ some (str input.command_id))
prepare_creates runtime registry input history context p h =
    let (agree, event, events, _, caused, replayed) =
      prepare_recovers runtime registry workflow_run_definition input history context p h in
    elim (replay_creation runtime registry input.aggregate_id (history ++ p.batch.events) _
      replayed) [
        | inl (empty, no_state, _) ↦ cc no_state
        | inr (event', s, one, state, _, created) ↦
            let (before, same) =
              append_one history event event' (sym (ap (λ es. history ++ es) events) ∙ one) in
            (
              before,
              agree ∙ ap length before,
              ap (λ (x : WorkflowRunState). x.created_by_command_id) (some-injective state)
                  ∙ created.6
                  ∙ ap (λ (e : DomainEventEnvelope). some (str e.causation_id)) (sym same)
                  ∙ ap (λ t. some (str t)) caused,
            )
      ]
