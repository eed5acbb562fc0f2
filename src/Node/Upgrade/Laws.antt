-- ===== src/Node/Upgrade/Laws.antt =====
-- About the upgrade RPCs of `handleUpgrade` of talosnode_upgrade.go.
use yk_talos_management.Prelude.{ℕ, String, List, [], ◌∷◌, false, ◌⊎◌, string_eq, ◌≡◌, ◌≢◌, some}
use yk_talos_management.Api.{TalosNode}
use yk_talos_management.Effects.Calls.{Call, Entry, did, failed}
use yk_talos_management.Effects.Environment.{Env}
use yk_talos_management.Node.Version.{version_from_image}

-- The images of the upgrade RPCs in a history, those that failed included, the newest first.
abbrev pub images : List Entry → List String
images [] = []
images (did (Call.upgrade conn ip image) ∷ rest) = image ∷ images rest
images (failed (Call.upgrade conn ip image) ∷ rest) = image ∷ images rest
images (_ ∷ rest) = images rest

module _ (env : Env) (node : TalosNode) (image : String) where
  -- The image names a version, and not an older one than the node runs, where its version is known
  -- and both can be parsed.
  pub record IsUpgrade : Type 0 where
    pub tagged : version_from_image image ≢ ""
    pub not_older :
        (running asked : List ℕ)
        → node.status.current_talos_version ≢ ""
        → env.parse_semver node.status.current_talos_version ≡ some running
        → env.parse_semver (version_from_image image) ≡ some asked
        → env.semver_newer running asked ≡ false

  -- Nothing was sent, or one upgrade to the image, which is allowed.
  abbrev pub Sends : List String → List String → Type 0
  Sends before after = (after ≡ before) ⊎ ((after ≡ (image ∷ before)) × IsUpgrade)

module _ (env : Env) (image : String) where
  abbrev IsSent : List String → List String → Type 0
  IsSent before after = (after ≡ before) ⊎ (after ≡ (image ∷ before))
