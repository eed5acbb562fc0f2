-- ===== src/Shared/Names.antt =====
-- internal/controller/names.go: the names of the secrets of a cluster and of a node.
pub mod Laws
use yk_talos_management.Prelude.{String, ◌<>◌}

abbrev pub cluster_secrets_name : String → String
cluster_secrets_name cluster_name = cluster_name <> "-secrets"

abbrev pub cluster_control_plane_name : String → String
cluster_control_plane_name cluster_name = cluster_name <> "-controlplane"

abbrev pub cluster_worker_name : String → String
cluster_worker_name cluster_name = cluster_name <> "-worker"

abbrev pub cluster_talosconfig_name : String → String
cluster_talosconfig_name cluster_name = cluster_name <> "-talosconfig"

abbrev pub cluster_kubeconfig_name : String → String
cluster_kubeconfig_name cluster_name = cluster_name <> "-kubeconfig"

abbrev pub node_config_name : String → String
node_config_name node_name = node_name <> "-config"
