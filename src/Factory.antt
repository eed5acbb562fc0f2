-- ===== src/Factory.antt =====
-- internal/factory/factory.go: the client of the image factory. JSON and the HTTP client are
-- parameters.
pub mod Laws
use yk_talos_management.Prelude.{
  ℕ, String, ◌<>◌, ◌*◌, List, Bool, ◌==◌, ◌!=◌, string_eq, nat_eq, if◌then◌else◌,
}
use yk_talos_management.Effects.Error.{Answer, errorf}
use yk_talos_management.Effects.Requests.{HttpRequest, HttpResponse}
use yk_talos_management.Effects.Calls.{Call, Trace}
use yk_talos_management.Effects.Monad.{M, pure, raise, perform, wrapped, ◌>>=◌, ◌>>◌}
use yk_talos_management.Shared.Secrets.{from_answer}
use yk_talos_management.Retry.{second}

-- `sysExts`, `customization` and `schematicRequest`
pub record SysExts : Type 0 where
  pub official_extensions : List String

pub record Customization : Type 0 where
  pub system_extensions : SysExts

pub record SchematicRequest : Type 0 where
  pub customization : Customization

-- `schematicResponse`
pub record SchematicResponse : Type 0 where
  pub id : String

-- `HTTPClient`: the timeout is that of its http.Client, in nanoseconds
pub record HttpClient : Type 0 where
  pub base_url : String
  pub timeout : ℕ

-- encoding/json, net/http and how Go prints an integer
pub record Http : Type 0 where
  pub marshal : SchematicRequest → Answer String
  -- the errors of http.NewRequestWithContext, which depend on the method and the URL
  pub check_request : String → String → Answer (Unit {0})
  pub perform_request : HttpClient → HttpRequest → Trace → Answer HttpResponse
  pub decode : String → Answer SchematicResponse
  pub decimal : ℕ → String

abbrev pub default_url : String
default_url = "https://factory.talos.dev"

-- `NewWithURL`
unfoldable pub new_with_url : String → HttpClient
new_with_url base_url = record { base_url = base_url; timeout = 30 * second }

-- `New`
unfoldable pub new : HttpClient
new = record { base_url = default_url; timeout = 30 * second }

abbrev pub status_created : ℕ
status_created = 201

module _ (http : Http) (c : HttpClient) where
  -- The end of `CreateSchematic`, from the response on.
  unfoldable pub schematic_of : HttpResponse → M String
  schematic_of resp =
      if resp.status_code != status_created
      then raise
          (errorf ("factory returned HTTP " <> http.decimal resp.status_code <> ": " <> resp.body))
      else (do
        sr ← wrapped "decode response" (from_answer (http.decode resp.body))
        if sr.id == "" then raise (errorf "factory returned empty schematic ID") else pure sr.id)

  -- `CreateSchematic`
  unfoldable pub create_schematic : List String → M String
  create_schematic extensions = do
    let request : SchematicRequest = record {
      customization = record { system_extensions = record { official_extensions = extensions } };
    }
    body ← wrapped "marshal request" (from_answer (http.marshal request))
    wrapped "build request" (from_answer (http.check_request "POST" (c.base_url <> "/schematics")))
    let req : HttpRequest = record {
      method = "POST";
      url = c.base_url <> "/schematics";
      content_type = "application/json";
      body = body;
    }
    resp ← wrapped "post schematic" (perform (Call.http req) (http.perform_request c req))
    schematic_of resp

  -- The client as the reconciler's `Factory`.
  abbrev pub as_factory : List String → Trace → Answer String
  as_factory extensions t = (create_schematic extensions t).0
