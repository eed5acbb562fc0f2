-- ===== src/Shared/Names/Laws.antt =====
-- About the names of names.go.
use Prim.Native.Char.{Char, code}
use Prim.Native.String.append
use text.Mathlib.TextLemmas.{append_cancel_right}
use yk_talos_management.Prelude.{ℕ, String, ◌<>◌, ◌≡◌, ◌≢◌, refl, sym, ◌∙◌, ap, arith}
use yk_talos_management.Shared.Names.{
  cluster_secrets_name, cluster_control_plane_name, cluster_worker_name, cluster_talosconfig_name,
}

-- The code of the last character, `n` for the empty text.
abbrev last_code : ℕ → String → ℕ
last_code n String.[] = n
last_code n (String.◌∷◌ c s) = last_code (code c) s

last_code-append :
    (n m : ℕ) (x s : String) (c : Char)
    → last_code n (x <> String.◌∷◌ c s) ≡ last_code m (String.◌∷◌ c s)
last_code-append n m String.[] s c = rw append.nil refl
last_code-append n m (String.◌∷◌ d x) s c = rw append.cons (last_code-append (code d) m x s c)

-- Texts that end in texts with different last characters differ.
different_ends :
    (x y s s' : String) (c c' : Char)
    → last_code 0 (String.◌∷◌ c s) ≢ last_code 0 (String.◌∷◌ c' s')
    → x <> String.◌∷◌ c s ≢ y <> String.◌∷◌ c' s'
different_ends x y s s' c c' differ p =
    differ (sym (last_code-append 0 0 x s c) ∙ ap (last_code 0) p ∙ last_code-append 0 0 y s' c')

pub secrets_name-control_plane :
    (x y : String) → cluster_secrets_name x ≢ cluster_control_plane_name y
secrets_name-control_plane x y =
    different_ends x y "secrets" "controlplane" "-" "-" (λ p. omega arith)

pub secrets_name-worker : (x y : String) → cluster_secrets_name x ≢ cluster_worker_name y
secrets_name-worker x y = different_ends x y "secrets" "worker" "-" "-" (λ p. omega arith)

pub secrets_name-talosconfig : (x y : String) → cluster_secrets_name x ≢ cluster_talosconfig_name y
secrets_name-talosconfig x y = different_ends x y "secrets" "talosconfig" "-" "-" (λ p. omega arith)

pub control_plane_name-worker :
    (x y : String) → cluster_control_plane_name x ≢ cluster_worker_name y
control_plane_name-worker x y =
    different_ends x y "controlplane" "worker" "-" "-" (λ p. omega arith)

pub control_plane_name-talosconfig :
    (x y : String) → cluster_control_plane_name x ≢ cluster_talosconfig_name y
control_plane_name-talosconfig x y =
    different_ends x y "controlplane" "talosconfig" "-" "-" (λ p. omega arith)

pub worker_name-talosconfig : (x y : String) → cluster_worker_name x ≢ cluster_talosconfig_name y
worker_name-talosconfig x y = different_ends x y "worker" "talosconfig" "-" "-" (λ p. omega arith)

-- The kinds of secrets that a cluster has from its provisioning.
pub data Kind : Type 0 where
  of_bundle of_control_plane of_worker of_talosconfig : Kind

abbrev pub named : Kind → String → String
named of_bundle = cluster_secrets_name
named of_control_plane = cluster_control_plane_name
named of_worker = cluster_worker_name
named of_talosconfig = cluster_talosconfig_name

-- A secret has one cluster: its name gives the name of the cluster, whatever its kind.
pub same_cluster : (k k' : Kind) (x y : String) → named k x ≡ named k' y → x ≡ y
same_cluster of_bundle of_bundle x y p = append_cancel_right x y "-secrets" p
same_cluster of_bundle of_control_plane x y p = absurd (secrets_name-control_plane x y p)
same_cluster of_bundle of_worker x y p = absurd (secrets_name-worker x y p)
same_cluster of_bundle of_talosconfig x y p = absurd (secrets_name-talosconfig x y p)
same_cluster of_control_plane of_bundle x y p = absurd (secrets_name-control_plane y x (sym p))
same_cluster of_control_plane of_control_plane x y p = append_cancel_right x y "-controlplane" p
same_cluster of_control_plane of_worker x y p = absurd (control_plane_name-worker x y p)
same_cluster of_control_plane of_talosconfig x y p = absurd (control_plane_name-talosconfig x y p)
same_cluster of_worker of_bundle x y p = absurd (secrets_name-worker y x (sym p))
same_cluster of_worker of_control_plane x y p = absurd (control_plane_name-worker y x (sym p))
same_cluster of_worker of_worker x y p = append_cancel_right x y "-worker" p
same_cluster of_worker of_talosconfig x y p = absurd (worker_name-talosconfig x y p)
same_cluster of_talosconfig of_bundle x y p = absurd (secrets_name-talosconfig y x (sym p))
same_cluster of_talosconfig of_control_plane x y p =
    absurd (control_plane_name-talosconfig y x (sym p))
same_cluster of_talosconfig of_worker x y p = absurd (worker_name-talosconfig y x (sym p))
same_cluster of_talosconfig of_talosconfig x y p = append_cancel_right x y "-talosconfig" p
