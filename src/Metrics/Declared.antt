-- ===== src/Metrics/Declared.antt =====
-- Whether what is told to a collector fits its declaration: WithLabelValues panics where the number
-- of values is not that of the labels.
use yk_talos_management.Prelude.{
  String, List, length, all, Bool, true, false, ◌==◌, nat_eq, string_eq, ◌≡◌, arith,
}
use yk_talos_management.Effects.Calls.{Note, event, counter, gauge, observation}
use yk_talos_management.Metrics.Collectors.{
  Metric, collector, gauge_vec, counter_vec, histogram_vec,
}
use yk_talos_management.Metrics.{record_node_phase, phase_gauges}

abbrev pub takes : Metric → List String → Bool
takes metric labels = length labels == length (collector metric).labels

-- The collector is of the kind that has the method, and takes so many label values.
abbrev pub is_declared : Note → Bool
is_declared (event type reason message) = true
is_declared (counter metric labels) = elim ((collector metric).kind) [
  | counter_vec ↦ takes metric labels
  | _ ↦ false
]
is_declared (gauge metric labels value) = elim ((collector metric).kind) [
  | gauge_vec ↦ takes metric labels
  | _ ↦ false
]
is_declared (observation metric labels) = elim ((collector metric).kind) [
  | histogram_vec ↦ takes metric labels
  | _ ↦ false
]

pub record_node_phase-all :
    (name namespace cluster role ip from to : String)
    → all is_declared (record_node_phase name namespace cluster role ip from to) ≡ true
unfolding record_node_phase phase_gauges
record_node_phase-all name namespace cluster role ip from to = ground arith
