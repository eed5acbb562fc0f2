-- ===== src/Factory/Laws.antt =====
-- What `CreateSchematic` answers.
use yk_talos_management.Prelude.{String, string_eq, List, ◌≡◌, ◌≢◌, arith}
use yk_talos_management.Effects.Error.{ok}
use yk_talos_management.Effects.Calls.{Trace}
use yk_talos_management.Factory.{Http, HttpClient, create_schematic, schematic_of}

module _ (http : Http) (c : HttpClient) where
  -- A schematic that `CreateSchematic` answers is not the empty text.
  pub create_schematic-nonempty :
      (extensions : List String) (t : Trace) (id : String)
      → (create_schematic http c extensions t).0 ≡ ok id
      → id ≢ ""
  unfolding create_schematic schematic_of
  create_schematic-nonempty extensions t id h = ground (arith, h)
