-- ===== src/Metrics/Collectors.antt =====
-- The collectors that internal/metrics/metrics.go declares and registers: kinds, names and labels.
-- Help texts and buckets are left out.
use yk_talos_management.Prelude.{String, List, [], ◌∷◌}

pub data Metric : Type 0 where
  node_phase cluster_phase bootstrap_phase : Metric
  config_apply_total config_apply_mode_total drift_check_total : Metric
  node_config_size_bytes etcd_leave_total api_call_duration : Metric
  secret_operations_total bootstrap_duration node_drain_total : Metric
  node_upgrade_total extension_schematic_total : Metric

pub data CollectorKind : Type 0 where
  gauge_vec counter_vec histogram_vec : CollectorKind

pub record Collector : Type 0 where
  pub kind : CollectorKind
  pub name : String
  pub labels : List String

-- What each variable is declared as.
abbrev pub collector : Metric → Collector
collector node_phase = record {
  kind = gauge_vec;
  name = "talos_node_phase";
  labels = "name" ∷ "namespace" ∷ "cluster" ∷ "role" ∷ "ip" ∷ "phase" ∷ [];
}
collector cluster_phase = record {
  kind = gauge_vec;
  name = "talos_cluster_phase";
  labels = "name" ∷ "namespace" ∷ "phase" ∷ [];
}
collector bootstrap_phase = record {
  kind = gauge_vec;
  name = "talos_bootstrap_phase";
  labels = "cluster" ∷ "namespace" ∷ "phase" ∷ [];
}
collector config_apply_total = record {
  kind = counter_vec;
  name = "talos_config_apply_total";
  labels = "role" ∷ "result" ∷ "cluster" ∷ [];
}
collector config_apply_mode_total = record {
  kind = counter_vec;
  name = "talos_config_apply_mode_total";
  labels = "mode" ∷ "cluster" ∷ [];
}
collector drift_check_total = record {
  kind = counter_vec;
  name = "talos_drift_check_total";
  labels = "result" ∷ "cluster" ∷ "name" ∷ [];
}
collector node_config_size_bytes = record {
  kind = gauge_vec;
  name = "talos_node_config_size_bytes";
  labels = "name" ∷ "namespace" ∷ "cluster" ∷ "role" ∷ "ip" ∷ [];
}
collector etcd_leave_total = record {
  kind = counter_vec;
  name = "talos_etcd_leave_total";
  labels = "result" ∷ "cluster" ∷ [];
}
collector api_call_duration = record {
  kind = histogram_vec;
  name = "talos_api_call_duration_seconds";
  labels = "operation" ∷ "result" ∷ [];
}
collector secret_operations_total = record {
  kind = counter_vec;
  name = "talos_secret_operations_total";
  labels = "operation" ∷ "result" ∷ [];
}
collector bootstrap_duration = record {
  kind = histogram_vec;
  name = "talos_bootstrap_duration_seconds";
  labels = "cluster" ∷ [];
}
collector node_drain_total = record {
  kind = counter_vec;
  name = "talos_node_drain_total";
  labels = "result" ∷ "cluster" ∷ [];
}
collector node_upgrade_total = record {
  kind = counter_vec;
  name = "talos_node_upgrade_total";
  labels = "result" ∷ "cluster" ∷ [];
}
collector extension_schematic_total = record {
  kind = counter_vec;
  name = "talos_extension_schematic_total";
  labels = "result" ∷ "cluster" ∷ [];
}

-- What `init` registers.
abbrev pub registered : List Metric
registered =
    node_phase ∷ cluster_phase ∷ bootstrap_phase ∷ config_apply_total ∷ config_apply_mode_total
    ∷ drift_check_total ∷ node_config_size_bytes ∷ etcd_leave_total ∷ api_call_duration
    ∷ secret_operations_total ∷ bootstrap_duration ∷ node_drain_total ∷ node_upgrade_total
    ∷ extension_schematic_total ∷ []
