-- ===== src/Bootstrap/Status.antt =====
-- The status of a TalosClusterBootstrap: labels, phases, conditions, `setError`,
-- `isBootstrapUpToDate`.
use yk_talos_management.Prelude.{String, List, Bool, ◌==◌, ◌&&◌, nat_eq}
use yk_talos_management.Api.{
  TalosClusterBootstrap, TalosClusterBootstrapStatus, BootstrapPhase, ConditionStatus, ObjectMeta,
  bootstrap_phase_eq, cond_true,
}
use yk_talos_management.Effects.Error.{Error}
use yk_talos_management.Effects.Objects.{Result}
use yk_talos_management.Effects.Calls.{Note, warning}
use yk_talos_management.Effects.Monad.{M, pure, tell, try, ◌>>=◌, ◌>>◌}
use yk_talos_management.Effects.Environment.{Env}
use yk_talos_management.Effects.Kube.{update_bootstrap_status, emit_event}
use yk_talos_management.Metrics.{record_bootstrap_phase}
use yk_talos_management.Retry.{get_retry_delay, increment}
use yk_talos_management.Talos.Conditions.{has_condition, set_condition_status}
use yk_talos_management.Shared.Constants.{requeue}

abbrev pub condition_bootstrapped : String
condition_bootstrapped = "Bootstrapped"

abbrev pub condition_kubeconfig : String
condition_kubeconfig = "KubeconfigAvailable"

abbrev pub condition_api_server : String
condition_api_server = "APIServerReady"

unfoldable pub phase_text : BootstrapPhase → String
phase_text BootstrapPhase.unset = ""
phase_text BootstrapPhase.pending = "Pending"
phase_text BootstrapPhase.waiting_for_nodes = "WaitingForNodes"
phase_text BootstrapPhase.bootstrapping = "Bootstrapping"
phase_text BootstrapPhase.waiting_for_kubeconfig = "WaitingForKubeconfig"
phase_text BootstrapPhase.waiting_for_api_server = "WaitingForAPIServer"
phase_text BootstrapPhase.completed = "Completed"
phase_text BootstrapPhase.error = "Error"

abbrev pub with_status : TalosClusterBootstrap → TalosClusterBootstrapStatus → TalosClusterBootstrap
with_status bootstrap status = record bootstrap { status = status }

abbrev pub with_meta : TalosClusterBootstrap → ObjectMeta → TalosClusterBootstrap
with_meta bootstrap meta = record bootstrap { meta = meta }

unfoldable pub phase_notes : TalosClusterBootstrap → BootstrapPhase → BootstrapPhase → List Note
unfolding phase_text
phase_notes bootstrap from to =
    record_bootstrap_phase bootstrap.spec.cluster_ref bootstrap.meta.namespace (phase_text from)
      (phase_text to)

abbrev pub note_phase : TalosClusterBootstrap → BootstrapPhase → BootstrapPhase → M (Unit {0})
note_phase bootstrap from to = tell (phase_notes bootstrap from to)

-- `isBootstrapUpToDate`
unfoldable pub is_bootstrap_up_to_date : TalosClusterBootstrap → Bool
is_bootstrap_up_to_date b =
    b.status.phase == BootstrapPhase.completed
    && b.status.observed_generation == b.meta.generation
    && has_condition b.status.conditions condition_api_server cond_true

module _ (env : Env) where
  -- `talos.SetConditionStatus(&bootstrap.Status.Conditions, …)`
  abbrev pub set_condition :
      TalosClusterBootstrap → String → ConditionStatus → String → String → M TalosClusterBootstrap
  set_condition bootstrap type status reason message = do
    conditions ← set_condition_status env bootstrap.status.conditions type status reason message
    pure (with_status bootstrap (record (bootstrap.status) { conditions = conditions }))

  unfoldable pub set_error : TalosClusterBootstrap → Error → M Result
  set_error bootstrap e t =
      let retries = increment bootstrap.status.retry_count in
      let delay = get_retry_delay env retries t in
      let status = record (bootstrap.status) {
        phase = BootstrapPhase.error;
        retry_count = retries;
        message = e.message;
      } in
      (do
        note_phase bootstrap bootstrap.status.phase BootstrapPhase.error
        emit_event env warning "Failed" e.message
        try (update_bootstrap_status env (with_status bootstrap status))
        pure (requeue delay))
        t
