-- ===== src/Tests/Client.antt =====
-- Instances of the theorems on the Talos client and on the image factory.
use mathlib.Core.List.{Permᴰ}
use yk_talos_management.Prelude.{
  ℕ, ◌≤◌, ◌<◌, String, ◌<>◌, List, [], ◌∷◌, some, Option, none, true, false, ◌≡◌, ◌⊎◌, inl, refl,
  arith, String-discrete, ℕ_discrete, if◌then◌else◌, ◌==◌, string_eq,
}
use yk_talos_management.Api.{TalosNode, NodePhase}
use yk_talos_management.Effects.Error.{Answer, ok}
use yk_talos_management.Effects.Objects.{Connection}
use yk_talos_management.Effects.Requests.{Request}
use yk_talos_management.Effects.Machinery.{Machinery, Reply, hostname_status}
use yk_talos_management.Effects.Calls.{Trace, empty}
use yk_talos_management.Effects.Environment.{Env}
use yk_talos_management.Retry.{second, half64}
use yk_talos_management.Factory.{Http, new, as_factory, create_schematic, schematic_of}
use yk_talos_management.Talos.Etcd.{EtcdMember}
use yk_talos_management.Talos.Client.{etcd_force_remove_by_ip}
use yk_talos_management.Talos.Client.Timeout.{with_timeout}
use yk_talos_management.Talos.Client.Dialer.{Method, real_connection}
use yk_talos_management.Talos.Client.Durations.{observed, is_ok, real_connection-observed}
use yk_talos_management.Node.Declared.{fits}
use yk_talos_management.Talos.Client.Declared.{real_connection-fits}
use yk_talos_management.Talos.Client.Requests.{Sent, is_force_remove, real_connection-sends}
use yk_talos_management.Talos.Client.Bounds.{with_timeout_bounds}
use yk_talos_management.Talos.Client.Members.{remaining, expected, force_remove-remaining}
use yk_talos_management.Node.Extensions.{
  DesiredImage, create_image, compute_desired_image, persist_schematic,
}
use yk_talos_management.Node.Extensions.Canonical.{
  canonical_extensions, sort_texts, insert_sorted, join,
}
use yk_talos_management.Node.Version.{normalize_version}
use yk_talos_management.Shared.Helpers.{annotated, patch_annotations}
use yk_talos_management.Talos.Finalizer.{annotation_current_schematic, annotation_last_extensions}
use yk_talos_management.Node.Extensions.Cache.{reused, compute_desired_image-cached}
use yk_talos_management.Tests.World.{world, node_of, connection}

abbrev members : List EtcdMember
members =
    record { id = 7; peer_urls = "https://10.0.0.1:2380" ∷ [] }
    ∷ record { id = 9; peer_urls = "https://10.0.0.2:2380" ∷ [] }
    ∷ []

abbrev replies : Connection → String → Option ℕ → (r : Request) → Trace → Answer (Reply r)
replies c node limit (Request.apply_configuration config) t =
    ok (record { mode = "NO_REBOOT" } ∷ [])
replies c node limit Request.bootstrap t = ok tt
replies c node limit Request.kubeconfig t = ok "server: a"
replies c node limit (Request.cosi_get namespace kind id) t = ok (hostname_status "cp1")
replies c node limit Request.version t = ok []
replies c node limit (Request.upgrade image stage force) t = ok tt
replies c node limit (Request.reset_generic graceful reboot wipe) t = ok tt
replies c node limit Request.etcd_leave_cluster t = ok tt
replies c node limit Request.etcd_member_list t = ok (members ∷ [])
replies c node limit (Request.etcd_remove_member_by_id id) t = ok tt

abbrev hosts : String → Option String
hosts url =
    if url == "https://10.0.0.1:2380"
    then some "10.0.0.1"
    else if url == "https://10.0.0.2:2380"
    then some "10.0.0.2"
    else none

abbrev machinery : Machinery
machinery = record {
  config_from_bytes = λ text. ok text;
  new_client = λ options _. ok (record { endpoint = options.endpoint; secure = true });
  reply = replies;
  close = λ _ _. ok tt;
  hostname = hosts;
  apid_port = 50000;
  config_namespace = "config";
  machine_config_type = "MachineConfig";
  active_id = "active";
  network_namespace = "network";
  hostname_status_type = "HostnameStatus";
  hostname_id = "hostname";
  type_name = λ _. "Resource";
}

abbrev http : Http
http = record {
  marshal = λ _. ok "{}";
  check_request = λ _ _. ok tt;
  perform_request = λ _ _ _. ok (record { status_code = 201; body = "{}" });
  decode = λ _. ok (record { id = "376567988ad370138ad8b2698212367b" });
  decimal = λ _. "201";
}

abbrev extended_node : TalosNode
extended_node =
    let node = node_of "cp1" NodePhase.ready [] in
    record node {
      spec = record (node.spec) {
        talos_version = "1.10.0";
        system_extensions = "siderolabs/iscsi-tools" ∷ "siderolabs/gvisor" ∷ [];
      };
    }

abbrev patient : Env
patient = record (world extended_node (extended_node ∷ []) []) {
  factory = some (as_factory http new);
  getenv = λ _. "90";
  atoi = λ _. some 90;
}

with_timeout_bounds_example :
    (d : ℕ) × (with_timeout patient ≡ some d) × (second ≤ d) × (d < half64)
with_timeout_bounds_example = with_timeout_bounds patient (λ n h. inl (ground (arith, h)))

-- GetVersion from a node that returns no message is observed as a success and answers an error.
real_connection-observed_example :
    (observed
        (real_connection patient machinery connection (Method.get_version "10.0.0.1") empty).1.notes
      ≡ ("get_version" ∷ "success" ∷ []) ∷ observed [])
    ⊎ ((observed
            (real_connection patient machinery connection
              (Method.get_version "10.0.0.1")
              empty).1.notes
          ≡ ("get_version" ∷ "error" ∷ []) ∷ observed [])
        × (is_ok
              (real_connection patient machinery connection (Method.get_version "10.0.0.1") empty).0
            ≡ false))
real_connection-observed_example =
    real_connection-observed patient machinery connection (Method.get_version "10.0.0.1") empty

real_connection-fits_example :
    fits
      (real_connection patient machinery connection
        (Method.apply_config "10.0.0.1" "m" "prod")
        empty).1.notes
    ≡ true
real_connection-fits_example =
    real_connection-fits patient machinery connection (Method.apply_config "10.0.0.1" "m" "prod")
      empty

real_connection-sends_example :
    Sent connection "10.0.0.2"
      (with_timeout patient)
      1
      []
      (real_connection patient machinery connection
        (Method.etcd_force_remove "10.0.0.2" "10.0.0.1")
        empty).1.calls
    ⊎ ((is_force_remove (Method.etcd_force_remove "10.0.0.2" "10.0.0.1") ≡ true)
        × Sent connection "10.0.0.2"
            (with_timeout patient)
            2
            []
            (real_connection patient machinery connection
              (Method.etcd_force_remove "10.0.0.2" "10.0.0.1")
              empty).1.calls)
real_connection-sends_example =
    real_connection-sends patient machinery connection
      (Method.etcd_force_remove "10.0.0.2" "10.0.0.1") empty

force_remove-remaining_example :
    remaining members
      (etcd_force_remove_by_ip patient machinery connection "10.0.0.2" "10.0.0.1" empty).1.calls
    ≡ expected hosts "10.0.0.1"
        (etcd_force_remove_by_ip patient machinery connection "10.0.0.2" "10.0.0.1" empty).0
        members
unfolding String-discrete
force_remove-remaining_example =
    force_remove-remaining patient machinery members connection "10.0.0.2" "10.0.0.1" empty
      (λ messages h. ground (arith, h)) (ground arith, (ground arith, tt), (ground arith, tt, tt))
      (omega arith)

abbrev schematic : String
schematic = "376567988ad370138ad8b2698212367b"

abbrev image : String
image = "factory.talos.dev/installer/" <> schematic <> ":v1.10.0"

abbrev desired : DesiredImage
desired = record {
  image = image;
  new_schematic_id = schematic;
  new_canonical = "siderolabs/gvisor,siderolabs/iscsi-tools";
}

abbrev cached_node : TalosNode
cached_node =
    annotated extended_node
      ((annotation_current_schematic, schematic)
        ∷ (annotation_last_extensions, "siderolabs/gvisor,siderolabs/iscsi-tools")
        ∷ [])
      []

-- The extensions of the node in another order.
abbrev reordered_node : TalosNode
reordered_node = record cached_node {
  spec = record (cached_node.spec) {
    system_extensions = "siderolabs/gvisor" ∷ "siderolabs/iscsi-tools" ∷ [];
  };
}

compute_desired_image-cached_example :
    ((compute_desired_image patient reordered_node empty).0 ≡ ok (reused image))
    × ((compute_desired_image patient reordered_node empty).1.calls ≡ [])
unfolding compute_desired_image create_image persist_schematic patch_annotations
    canonical_extensions sort_texts insert_sorted join String-discrete ℕ_discrete create_schematic
    schematic_of new normalize_version
compute_desired_image-cached_example =
    compute_desired_image-cached patient http new extended_node cached_node reordered_node empty
      empty empty desired refl (λ x y s h. ground (arith, h)) (λ h. ground (arith, h)) refl refl
      refl refl (Permᴰ.swap refl refl)
