-- ===== src/Configuration.antt =====
-- The configuration of the generic API server: the first part of newGenericServer in
-- pkg/apiserver/generic.go, and the OpenAPI names and definitions of pkg/apiserver/scheme.go.
use aggregated_apiserver_ope.Prelude.{
  ℕ, String, ◌<>◌, Bool, true, not, Option, none, some, List, [], ◌∷◌, map, ◌==◌, string_eq,
  if◌then◌else◌,
}
use aggregated_apiserver_ope.Meta.{Gvk}
use aggregated_apiserver_ope.Discovery.{ServedResource}

-- net.JoinHostPort and strconv.Itoa.
pub record Net : Type 0 where
  pub join_host_port : String → String → String
  pub itoa : ℕ → String

-- `GetDefinitionName`: the name, and the kinds in its extension.
unfoldable pub get_definition_name : List ServedResource → String → String × Option (List Gvk)
get_definition_name resources name =
    if not (name == "k8s.io/apimachinery/pkg/apis/meta/v1/unstructured.Unstructured")
    then (name, none)
    else (name, some (map (λ r. r.kind) resources))

-- An `OpenAPIDefinition` with a type and one extension.
pub record FreeForm : Type 0 where
  pub types : List String
  pub preserve_unknown_fields : Bool

-- `unstructuredOpenAPIDefinitions`, over the generated definitions.
unfoldable pub unstructured_open_api_definitions :
    {D : Type 0} → (FreeForm → D) → (String → Option D) → String → Option D
unstructured_open_api_definitions definition generated name =
    let free_form = definition (record { types = "object" ∷ []; preserve_unknown_fields = true }) in
    if name == "k8s.io/apimachinery/pkg/apis/meta/v1/unstructured.UnstructuredList"
    then some free_form
    else if name == "k8s.io/apimachinery/pkg/apis/meta/v1/unstructured.Unstructured"
    then some free_form
    else generated name

-- One of the two OpenAPI configurations.
pub record OpenApiConfig : Type 0 where
  pub title : String
  pub definition_name : String → String × Option (List Gvk)

pub data Authorizer : Type 0 where
  always_allow : Authorizer

-- The fields of `genericapiserver.Config` that are set.
pub record ServerConfig : Type 0 where
  pub effective_version : String
  pub authorizer : Authorizer
  pub open_api_v3 : OpenApiConfig
  pub open_api : OpenApiConfig
  pub external_address : String
  pub loopback_host : String

-- The configuration that `newGenericServer` completes.
unfoldable pub server_config : Net → String → ℕ → List ServedResource → ServerConfig
unfolding get_definition_name
server_config net hostname port resources =
    let named : OpenApiConfig = record {
      title = "api-aggregator";
      definition_name = get_definition_name resources;
    } in
    let address = net.join_host_port hostname (net.itoa port) in
    record {
      effective_version = "1.0";
      authorizer = always_allow;
      open_api_v3 = named;
      open_api = named;
      external_address = address;
      loopback_host = "https://" <> address;
    }
