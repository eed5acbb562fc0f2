-- ===== src/Node/Drain/Evictable.antt =====
-- `isEvictable` of internal/controller/talosnode_drain.go.
use yk_talos_management.Prelude.{
  String, List, [], ◌∷◌, Bool, true, false, ◌==◌, ◌!=◌, string_eq, if◌then◌else◌,
}
use yk_talos_management.Prelude.Dict.{text_at}
use yk_talos_management.Effects.Objects.{Pod, PodPhase}

-- The loop over the owner references.
unfoldable pub owned_by_daemon_set : List String → Bool
owned_by_daemon_set [] = false
owned_by_daemon_set (kind ∷ kinds) = if kind == "DaemonSet" then true else owned_by_daemon_set kinds

unfoldable pub has_ended : PodPhase → Bool
has_ended PodPhase.succeeded = true
has_ended PodPhase.failed = true
has_ended _ = false

unfoldable pub is_evictable : Pod → Bool
unfolding owned_by_daemon_set has_ended
is_evictable pod =
    if owned_by_daemon_set pod.owner_kinds
    then false
    else if text_at "kubernetes.io/config.mirror" pod.annotations != ""
    then false
    else if has_ended pod.phase
    then false
    else true
