-- ===== src/Node/Version.antt =====
-- The pure helpers on versions and images of talosnode_upgrade.go and talosnode_extensions.go.
pub mod Laws
use Prim.Native.Char.{code}
use yk_talos_management.Prelude.{
  String, ◌<>◌, List, [], ◌∷◌, Bool, true, false, ◌==◌, ◌||◌, string_eq, nat_eq, if◌then◌else◌,
  Option, none, some,
}
use yk_talos_management.Effects.Environment.{Env}

-- The text after the last ':', if there is one.
unfoldable pub after_last_colon : String → Option String
after_last_colon String.[] = none
after_last_colon (String.◌∷◌ c s) = elim (after_last_colon s) [
  | some tag ↦ some tag
  | none ↦ if code c == b':' then some s else none
]

-- `versionFromImage`: no tag and an empty tag both give the empty text
unfoldable pub version_from_image : String → String
unfolding after_last_colon
version_from_image image = elim (after_last_colon image) [ none ↦ "" | some tag ↦ tag ]

-- `isDowngrade`
unfoldable pub is_downgrade : Env → String → String → Bool
is_downgrade env current target =
    if current == "" || target == "" then false else elim (env.parse_semver current) [
      | none ↦ false
      | some cv ↦ elim (env.parse_semver target) [ none ↦ false | some tv ↦ env.semver_newer cv tv ]
    ]

-- `normalizeVersion`
unfoldable pub normalize_version : String → String
normalize_version String.[] = ""
normalize_version (String.◌∷◌ c s) =
    if code c == b'v' then String.◌∷◌ c s else "v" <> (String.◌∷◌ c s)
