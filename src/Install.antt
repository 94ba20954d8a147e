-- ===== src/Install.antt =====
-- pkg/apiserver/generic.go and installGroupVersion of install.go: the storages that are installed
-- for the served resources. apiserver's own building and installing are parameters.
pub mod Writer
pub mod Stores
pub mod Discovered
use aggregated_apiserver_ope.Prelude.{
  ℕ, String, ◌<>◌, Option, none, some, List, [], ◌∷◌, ◌++◌, lookup, update, nat_eq, ◌==◌, string_eq,
  list_eq, if◌then◌else◌, Result, ok, err, map_err, ◌>>=◌,
}
use aggregated_apiserver_ope.Meta.{GroupVersion, gv_eq}
use aggregated_apiserver_ope.Kube.{Kube}
use aggregated_apiserver_ope.Discovery.{ServedResource, served_eq}
use aggregated_apiserver_ope.Codec.{SchemeEntry, new_scheme}
use aggregated_apiserver_ope.Configuration.{Net, ServerConfig, server_config}
use aggregated_apiserver_ope.Storage as storage

-- What is installed under a name: `storage.New(...)`, or `storage.NewStatus(...)` of one.
pub data Store (K : Kube) : Type 0 where
  resource_store : storage.Options K → Store K
  status_store : storage.Options K → Store K

-- The map `byGroupVersion`.
abbrev pub Groups : Kube → Type 0
Groups K = List (GroupVersion × List (String × Store K))

-- A `metav1.APIGroup`; a version of it is the text of its group version, and its version.
pub record ApiGroup : Type 0 where
  pub name : String
  pub versions : List (String × String)
  pub preferred_version : String × String

-- A web service that is added to the container of a server: that of a group, whose root path is made
-- of the group's name, or that of the legacy root.
pub data WebService : Type 0 where
  group_service : ApiGroup → WebService
  legacy_service : String → WebService

-- What handles objects: the creator, the defaulter and the typer of unstructuredscheme, the
-- convertor of this package, and the deduced type converter of managedfields.
pub data Handling : Type 0 where
  unstructured_creator unstructured_convertor unstructured_defaulter : Handling
  unstructured_typer deduced_type_converter : Handling

-- The `genericapi.APIGroupVersion` of a group version. A codec or a checker of a scheme is what the
-- scheme registers, and the timeout is in minutes. The metav1 version, the namer, what the server
-- has itself (its registry and its authorizer) and the negotiated serializer are left out.
pub record ApiGroupVersion (K : Kube) : Type 0 where
  pub storage : List (String × Store K)
  pub root : String
  pub group_version : GroupVersion
  pub parameter_codec : List SchemeEntry
  pub creater : Handling
  pub convertor : Handling
  pub convertability_checker : List SchemeEntry
  pub unsafe_convertor : Handling
  pub defaulter : Handling
  pub typer : Handling
  pub type_converter : Handling
  pub min_request_timeout : ℕ

-- The library net; apiserver's `config.Complete(nil).New(...)`; the part of
-- `installGroupVersion` that can fail, `InstallREST`; what go-restful's `Container.Add` comes to, after the
-- services that were added; and the order in which Go ranges over the map `byGroupVersion`. `Add`
-- has no result: it adds the service, or it ends the process, and that is what its error stands
-- for. Nothing that the model does after it is still done by the program.
pub record Apiserver (K : Kube) : Type 0 where
  pub net : Net
  pub build : ServerConfig → Option K.Err
  pub install_rest : ApiGroupVersion K → Option K.Err
  pub add_service : List WebService → WebService → Option K.Err
  pub group_order : Groups K → Groups K

-- What `installGroupVersion` does to the server, the latest last: the REST handlers of a group
-- version, a version of the aggregated discovery (of the named groups, or of the legacy one), a
-- group of the discovery document, the web service of a group, and that of the legacy root.
pub data Registration (K : Kube) : Type 0 where
  rest_installed : String → GroupVersion → List (String × Store K) → Registration K
  version_added legacy_version_added : GroupVersion → Registration K
  group_added group_handler_added : ApiGroup → Registration K
  legacy_root_added : String → Registration K

pub record Installed (K : Kube) : Type 0 where
  pub groups : Groups K
  pub registrations : List (Registration K)

-- A generic API server: what it serves, and the context that ends its watches.
pub record GenericServer (K : Kube) : Type 0 where
  pub installed : Installed K
  pub done : ℕ

module _ (K : Kube) where
  -- The clients of the clusters that serve a resource.
  unfoldable pub clients_of :
      ServedResource
      → List String
      → List (String × K.Client)
      → Result K.Err (List (String × K.Client))
  clients_of resource [] clusters = ok []
  clients_of resource (cluster ∷ rest) clusters = elim (lookup cluster clusters) [
    | none ↦
        err (
          K.errorf "no client for cluster %q serving %s" (cluster ∷ K.gvr_string resource.gvr ∷ []))
    | some cl ↦ do others ← clients_of resource rest clusters; ok (update cluster cl others)
  ]

  abbrev pub or_empty_list : {A : Type 0} → Option (List A) → List A
  or_empty_list none = []
  or_empty_list (some xs) = xs

  -- `byGroupVersion[gv][name] = store`
  abbrev pub put_store : GroupVersion → String → Store K → Groups K → Groups K
  put_store gv name store groups =
      update gv (update name store (or_empty_list (lookup gv groups))) groups

  abbrev pub storage_options : ServedResource → List (String × K.Client) → storage.Options K
  storage_options resource clients = record {
    gvr = resource.gvr;
    kind = resource.kind;
    namespaced = resource.namespaced;
    singular = resource.singular;
    clusters = clients;
  }

  -- One turn of the first loop of `installResources`.
  unfoldable pub install_resource :
      List (String × K.Client) → ServedResource → Groups K → Result K.Err (Groups K)
  unfolding clients_of
  install_resource clusters resource groups = do
    clients ← clients_of resource resource.clusters clusters
    store ←
        map_err (K.wrapf "building storage for %s: %w" (K.gvr_string resource.gvr ∷ []))
          (storage.new_storage K (storage_options resource clients))
    let gv : GroupVersion = record { group = resource.gvr.group; version = resource.gvr.version }
    let with_store = put_store gv resource.gvr.resource (resource_store store) groups
    ok (
        if resource.status
        then put_store gv (resource.gvr.resource <> "/status") (status_store store) with_store
        else with_store)

  unfoldable pub group_versions :
      List (String × K.Client) → List ServedResource → Groups K → Result K.Err (Groups K)
  unfolding install_resource
  group_versions clusters [] groups = ok groups
  group_versions clusters (resource ∷ rest) groups =
      install_resource clusters resource groups >>= group_versions clusters rest

  -- `groupVersionInstall`
  abbrev pub group_version_install :
      List SchemeEntry → String → GroupVersion → List (String × Store K) → ApiGroupVersion K
  group_version_install scheme prefix gv stores = record {
    storage = stores;
    root = prefix;
    group_version = gv;
    parameter_codec = scheme;
    creater = unstructured_creator;
    convertor = unstructured_convertor;
    convertability_checker = scheme;
    unsafe_convertor = unstructured_convertor;
    defaulter = unstructured_defaulter;
    typer = unstructured_typer;
    type_converter = deduced_type_converter;
    min_request_timeout = 30;
  }

  abbrev pub api_group : GroupVersion → ApiGroup
  api_group gv = record {
    name = gv.group;
    versions = (K.gv_string gv, gv.version) ∷ [];
    preferred_version = (K.gv_string gv, gv.version);
  }

  -- The web service that `installGroupVersion` adds.
  abbrev pub service_of : String → GroupVersion → WebService
  service_of prefix gv =
      if prefix == "/apis" then group_service (api_group gv) else legacy_service prefix

  module _ (api : Apiserver K) where
    -- `installGroupVersion`
    unfoldable pub install_group_version :
        List SchemeEntry
        → List WebService
        → String
        → GroupVersion
        → List (String × Store K)
        → Result K.Err (List (Registration K))
    install_group_version scheme services prefix gv stores =
        elim (api.install_rest (group_version_install scheme prefix gv stores)) [
          | some e ↦ err (K.wrapf "installing %s: %w" (K.gv_string gv ∷ []) e)
          | none ↦ elim (api.add_service services (service_of prefix gv)) [
            | some e ↦ err e
            | none ↦ ok (
                rest_installed prefix gv stores
                ∷ (if prefix == "/apis"
                    then version_added gv
                      ∷ group_added (api_group gv)
                      ∷ group_handler_added (api_group gv)
                      ∷ []
                    else legacy_version_added gv ∷ legacy_root_added prefix ∷ []))
          ]
        ]

    -- The second loop, with the services that were added before.
    unfoldable pub install_groups :
        List SchemeEntry → List WebService → Groups K → Result K.Err (List (Registration K))
    unfolding install_group_version
    install_groups scheme services [] = ok []
    install_groups scheme services ((gv, stores) ∷ rest) =
        let prefix = if gv.group == "" then "/api" else "/apis" in
        do
          first ← install_group_version scheme services prefix gv stores
          later ← install_groups scheme (service_of prefix gv ∷ services) rest
          ok (first ++ later)

    -- `installResources`
    unfoldable pub install_resources :
        List ServedResource → List (String × K.Client) → Result K.Err (Installed K)
    unfolding group_versions install_groups
    install_resources resources clusters = do
      groups ← group_versions clusters resources []
      registrations ← install_groups (new_scheme resources) [] (api.group_order groups)
      ok (record { groups = groups; registrations = registrations })

    -- `newGenericServer`
    unfoldable pub new_generic_server :
        String
        → ℕ
        → List ServedResource
        → List (String × K.Client)
        → ℕ
        → Result K.Err (GenericServer K)
    unfolding install_resources
    new_generic_server hostname port resources clusters done =
        let installed = install_resources resources clusters in
        elim (api.build (server_config api.net hostname port resources)) [
          | some e ↦ err (K.wrapf "building generic apiserver: %w" [] e)
          | none ↦ do inner ← installed; ok (record { installed = inner; done = done })
        ]
