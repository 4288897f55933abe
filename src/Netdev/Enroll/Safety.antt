-- ===== src/Netdev/Enroll/Safety.antt =====
-- `enroll` changes no port of a node that is available, and ends with an available node.
use understack.Prelude.{
  ◌≡◌, ◌≢◌, refl, sym, ◌∙◌, subst, Bool, true, false, not, ◌&&◌, List, [], ◌∷◌, is_nil, Text,
  text_eq, text_eq_iff, arith, if◌then◌else◌,
}
use understack.Netdev.Plan.{Plan, create, update, port_data}
use understack.Netdev.Enroll.{
  update_node, update_port, create_port, set_node_provision_state, wait_for_node_provision_state,
  cannot_make_available, Ironic, ◌>>◌, pure, call, available, manage, manageable, provide,
  enrolling, is_reenrollable, NodeData, metadata_updates, enroll_node, Node, Update, Request,
  transition, update_node_metadata, apply_port_plan, apply_port_plans, make_available, carry_out,
  step_down,
}
use understack.Netdev.Enroll.Script.{
  Runs, Runs-pure, Runs-raise, Runs-call, Runs-bind, Runs-if, Runs-move,
}

manageable-ne-available : manageable ≢ available
manageable-ne-available = λ e. cc

module _ {S : Type 0} (ironic : Ironic S) (node : Node) (busy : Bool) where
  transition-Runs :
      (s target expected : Text)
      → Runs busy s (transition ironic node target expected) (λ _ t. t ≡ expected)
  unfolding transition
  transition-Runs s target expected =
      Runs-bind (call ironic (set_node_provision_state node.uuid target)) _
        (Runs-call ironic s (set_node_provision_state node.uuid target) tt)
        λ _ t e. Runs-call ironic t (wait_for_node_provision_state node.uuid expected) tt

  step_down-Runs :
      (plans : List Plan)
      → busy ≡ not (is_nil plans)
      → Runs busy node.provision_state
          (step_down ironic node plans)
          (λ state t. (state ≡ t) × (busy ≡ true → t ≢ available))
  unfolding step_down
  step_down-Runs plans b =
      Runs-if (not (is_nil plans) && text_eq node.provision_state available) _ _
        (λ _.
          Runs-bind (transition ironic node manage manageable) _
            (transition-Runs node.provision_state manage manageable)
            λ _ t e. Runs-pure t manageable (sym e, λ _ p. manageable-ne-available (sym e ∙ p)))
        (λ e.
          Runs-pure node.provision_state node.provision_state
            (refl, λ is_busy p. ground (arith, text_eq_iff node.provision_state available)))

  update_node_metadata-Runs :
      (s : Text) (updates : List Update)
      → (busy ≡ true → s ≢ available)
      → Runs busy s (update_node_metadata ironic node updates) (λ _ t. t ≡ s)
  unfolding update_node_metadata
  update_node_metadata-Runs s [] h = Runs-pure s false refl
  update_node_metadata-Runs s (u ∷ updates) h =
      Runs-bind (call ironic (update_node node.uuid (u ∷ updates))) _
        (Runs-call ironic s (update_node node.uuid (u ∷ updates)) h) λ _ t e. Runs-pure t true e

  apply_port_plan-Runs :
      (s name network : Text) (plan : Plan)
      → s ≢ available
      → Runs busy s (apply_port_plan ironic node name network plan) (λ _ t. t ≡ s)
  unfolding apply_port_plan
  apply_port_plan-Runs s name network (create port) h =
      Runs-call ironic s (create_port (port_data node.uuid name network port)) h
  apply_port_plan-Runs s name network (update existing patch) h =
      Runs-call ironic s (update_port existing.uuid patch) h

  apply_port_plans-Runs :
      (s name network : Text) (plans : List Plan)
      → (not (is_nil plans) ≡ true → s ≢ available)
      → Runs busy s (apply_port_plans ironic node name network plans) (λ _ t. t ≡ s)
  unfolding apply_port_plans
  apply_port_plans-Runs s name network [] h = Runs-pure s tt refl
  apply_port_plans-Runs s name network (plan ∷ plans) h =
      Runs-bind (apply_port_plan ironic node name network plan) _
        (apply_port_plan-Runs s name network plan (h refl))
        λ _ t e.
          subst (λ u. Runs busy t (apply_port_plans ironic node name network plans) (λ _ v. v ≡ u))
            e
            (apply_port_plans-Runs t name network plans
              (λ _. subst (λ (u : Text). u ≢ available) (sym e) (h refl)))

  make_available-Runs :
      (s : Text) → Runs busy s (make_available ironic node s) (λ _ t. t ≡ available)
  unfolding make_available
  make_available-Runs s =
      Runs-if (text_eq s available) _ _ (λ e. Runs-pure s tt ((text_eq_iff s available).0 e))
        λ _.
          Runs-if (not (is_reenrollable s)) _ _ (λ _. Runs-raise s (cannot_make_available s) tt)
            λ _.
              Runs-if (text_eq s enrolling) _ _
                (λ _.
                  Runs-bind (transition ironic node manage manageable) _
                    (transition-Runs s manage manageable)
                    λ _ t _. transition-Runs t provide available)
                (λ _. transition-Runs s provide available)

  -- What is left to do once the metadata is up to date.
  finish-Runs :
      (request : Request) (s t : Text) (plans : List Plan)
      → t ≡ s
      → (not (is_nil plans) ≡ true → s ≢ available)
      → Runs busy t
          (apply_port_plans ironic node request.name request.physical_network plans
            >> make_available ironic node s)
          (λ _ u. u ≡ available)
  finish-Runs request s t plans e h = Runs-move _ e (
      Runs-bind (apply_port_plans ironic node request.name request.physical_network plans) _
        (apply_port_plans-Runs s request.name request.physical_network plans h)
        λ _ u f. Runs-move (make_available ironic node s) f (make_available-Runs s))

  carry_out-Runs :
      (request : Request) (created : Bool) (s : Text) (updates : List Update) (plans : List Plan)
      → busy ≡ not (is_nil plans)
      → (busy ≡ true → s ≢ available)
      → Runs busy s (carry_out ironic request node created s updates plans) (λ _ t. t ≡ available)
  unfolding carry_out
  carry_out-Runs request created s updates plans b h =
      Runs-bind {Q = λ _ t. t ≡ s}
        (if created then pure false else update_node_metadata ironic node updates) _
        (Runs-if created (pure false) (update_node_metadata ironic node updates)
          (λ _. Runs-pure s false refl) (λ _. update_node_metadata-Runs s updates h))
        λ _ t e.
          Runs-if (is_nil plans && text_eq s available) _ _
            (λ done. Runs-pure t tt (ground (arith, text_eq_iff s available)))
            (λ _. finish-Runs request s t plans e (λ work. h (b ∙ work)))

  -- From any world, and whatever Ironic answers, the calls for a node change no port while the
  -- node is available, and with port work to do not its metadata either; if all of them return,
  -- the node is available; the only errors are those of Ironic and the refusal of its state in
  -- `make_available`.
  pub enroll_node-Runs :
      (request : Request) (created : Bool) (wanted : NodeData) (plans : List Plan)
      → busy ≡ not (is_nil plans)
      → Runs busy node.provision_state
          (enroll_node ironic request node created wanted plans)
          (λ _ t. t ≡ available)
  unfolding enroll_node
  enroll_node-Runs request created wanted plans b =
      Runs-bind (step_down ironic node plans) _ (step_down-Runs plans b) λ state t (e, h).
        Runs-move _ (sym e) (
          carry_out-Runs request created state
            (metadata_updates node wanted.resource_class wanted.driver_info wanted.extra) plans b
            (λ is_busy. subst (λ (u : Text). u ≢ available) (sym e) (h is_busy)))
