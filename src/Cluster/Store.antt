-- ===== src/Cluster/Store.antt =====
-- The secrets that the API server holds after a history of calls, and what the secrets of a
-- cluster have to do with each other. About `provision` of taloscluster_controller.go.
pub mod Laws
use yk_talos_management.Prelude.{
  String, List, [], ◌∷◌, Bool, true, false, ◌==◌, ◌&&◌, string_eq, if◌then◌else◌, Option, none,
  some, ◌≡◌,
}
use yk_talos_management.Prelude.Dict.{text_at}
use yk_talos_management.Effects.Error.{Answer, ok, err, is_already_exists}
use yk_talos_management.Effects.Objects.{Secret, GenerateInput, type_control_plane, type_worker}
use yk_talos_management.Effects.Calls.{Call, Entry, did}
use yk_talos_management.Effects.Environment.{Env}
use yk_talos_management.Talos.Generate.{Bundle}
use yk_talos_management.Shared.Names.{
  cluster_secrets_name, cluster_control_plane_name, cluster_worker_name, cluster_talosconfig_name,
}

abbrev is_at : String → String → Secret → Bool
is_at namespace name s = s.namespace == namespace && s.name == name

-- The secret of that name that the calls have left behind: creations and updates store it, a
-- deletion removes it.
abbrev pub stored : String → String → List Entry → Option Secret
stored namespace name [] = none
stored namespace name (did (Call.create_secret s) ∷ rest) =
    if is_at namespace name s then some s else stored namespace name rest
stored namespace name (did (Call.update_secret s) ∷ rest) =
    if is_at namespace name s then some s else stored namespace name rest
stored namespace name (did (Call.delete_secret s) ∷ rest) =
    if is_at namespace name s then none else stored namespace name rest
stored namespace name (_ ∷ rest) = stored namespace name rest

-- What a read of a secret found.
abbrev pub found : Answer Secret → Option Secret
found (ok s) = some s
found (err e) = none

-- Whether a creation failed because there is such a secret already.
abbrev pub is_refused : Answer (Unit {0}) → Bool
is_refused (ok _) = false
is_refused (err e) = is_already_exists e

abbrev pub is_some : {A : Type 0} → Option A → Bool
is_some none = false
is_some (some a) = true

module _ (env : Env) where
  -- The bundle that a JSON text stands for.
  abbrev pub bundle_of_json : String → Option String
  bundle_of_json json =
      if json == "" then none else elim (env.unmarshal_bundle json) [ ok b ↦ some b | err e ↦ none ]

  -- The bundle in the secret of a cluster's bundle.
  abbrev pub bundle_of : Option Secret → Option String
  bundle_of none = none
  bundle_of (some s) = bundle_of_json (text_at "secrets.yaml" s.values)

  -- The documents that the Talos machinery generates, as bytes.
  abbrev encoded : Answer String → Answer String
  encoded (ok document) = env.document_bytes document
  encoded (err e) = err e

  abbrev pub control_plane_config : GenerateInput → Answer String
  control_plane_config input = encoded (env.machine_config input type_control_plane)

  abbrev pub worker_config : GenerateInput → Answer String
  worker_config input = encoded (env.machine_config input type_worker)

  abbrev pub client_config : GenerateInput → Answer String
  client_config input = encoded (env.talosconfig input)

-- The text is generated from an input with that bundle.
abbrev pub IsGenerated : (GenerateInput → Answer String) → String → String → Type 0
IsGenerated generated bundle text =
    (input : GenerateInput) × (input.bundle ≡ bundle) × (generated input ≡ ok text)

-- If there is a secret, then there is a bundle too, and the secret's text under the key is
-- generated from it.
abbrev pub IsFollowing :
    (GenerateInput → Answer String) → String → Option String → Option Secret → Type 0
IsFollowing generated key bundle none = Unit
IsFollowing generated key none (some s) = ⊥
IsFollowing generated key (some b) (some s) = IsGenerated generated b (text_at key s.values)

-- The stored bundle can be read back, and each of the three configs is generated from it.
abbrev pub AreShared : Env → Option Secret → Option Secret → Option Secret → Option Secret → Type 0
AreShared env secrets control_plane worker talosconfig =
    (is_some (bundle_of env secrets) ≡ is_some secrets)
    × IsFollowing (control_plane_config env) "controlplane.yaml" (bundle_of env secrets)
        control_plane
    × IsFollowing (worker_config env) "worker.yaml" (bundle_of env secrets) worker
    × IsFollowing (client_config env) "talosconfig" (bundle_of env secrets) talosconfig

-- The stored secrets of a cluster share one bundle.
abbrev pub IsShared : Env → String → String → List Entry → Type 0
IsShared env namespace name calls =
    AreShared env (stored namespace (cluster_secrets_name name) calls)
      (stored namespace (cluster_control_plane_name name) calls)
      (stored namespace (cluster_worker_name name) calls)
      (stored namespace (cluster_talosconfig_name name) calls)

-- The bundle in hand is the stored one, and the stored secrets share it.
abbrev pub IsSharing : Env → String → String → String → List Entry → Type 0
IsSharing env namespace name bundle calls =
    (bundle_of env (stored namespace (cluster_secrets_name name) calls) ≡ some bundle)
    × IsShared env namespace name calls

-- What a run knows of its bundle: its JSON reads back, and it is the stored one, if any is.
abbrev pub IsLoaded : Env → Bundle → Option Secret → Type 0
IsLoaded env b none = bundle_of_json env b.json ≡ some b.bundle
IsLoaded env b (some s) = bundle_of env (some s) ≡ some b.bundle
