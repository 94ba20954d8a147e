-- ===== src/Tests/Install.antt =====
-- Two versions of one group, and a resource of the core group with a status.
use aggregated_apiserver_ope.Prelude.{
  String, ◌≡◌, refl, true, false, Option, none, some, err, inl, inr, Bool-cases, ◌==◌, string_eq,
  if◌then◌else◌, List, [], ◌∷◌, map, update, arith, ok, eq_iff,
}
use aggregated_apiserver_ope.Meta.{GroupVersion, gv_beq}
use aggregated_apiserver_ope.Discovery.{ServedResource}
use aggregated_apiserver_ope.Storage as storage
use aggregated_apiserver_ope.Install.{
  resource_store, status_store, Groups, Apiserver, Installed, Registration, rest_installed,
  version_added, legacy_version_added, group_added, group_handler_added, legacy_root_added,
  api_group, WebService, group_service, legacy_service, clients_of, storage_options,
  install_resource, group_versions, install_group_version, install_groups, install_resources,
}
use aggregated_apiserver_ope.Install.Writer.{writer}
use aggregated_apiserver_ope.Install.Stores.{Holds, store_at, install_resources_lem}
use aggregated_apiserver_ope.Install.Discovered.{
  entries, handlers, versions, rests, prefix_of, RefusesDuplicates, AtMostOne, install_groups_lem,
}
use aggregated_apiserver_ope.Tests.Sample.{sample_net, SampleErr, plain, sample}

-- go-restful's container: a second service with the root path of another is not added.
abbrev pub duplicate : SampleErr
duplicate = plain "WebService with duplicate root path detected" []

abbrev pub add_service : List WebService → WebService → Option SampleErr
add_service [] service = none
add_service (group_service f ∷ rest) (group_service g) =
    let others = add_service rest (group_service g) in
    if f.name == g.name then some (duplicate) else others
add_service (legacy_service p ∷ rest) (legacy_service q) =
    let others = add_service rest (legacy_service q) in if p == q then some (duplicate) else others
add_service (group_service f ∷ rest) (legacy_service q) = add_service rest (legacy_service q)
add_service (legacy_service p ∷ rest) (group_service g) = add_service rest (group_service g)

abbrev api : Apiserver sample
api = record {
  net = sample_net;
  build = λ config. none;
  install_rest = λ install. none;
  add_service = add_service;
  group_order = λ groups. groups;
}

abbrev nodes : ServedResource
nodes = record {
  gvr = record { group = ""; version = "v1"; resource = "nodes" };
  kind = record { group = ""; version = "v1"; kind = "Node" };
  namespaced = false;
  singular = "node";
  status = true;
  clusters = "a" ∷ [];
}

abbrev clients : List (String × String)
clients = ("a", "client a") ∷ ("b", "client b") ∷ []

abbrev core : GroupVersion
core = record { group = ""; version = "v1" }

abbrev node_storage : storage.Options sample
node_storage = storage_options sample nodes (("a", "client a") ∷ [])

abbrev node_groups : Groups sample
node_groups =
    (
      core,
      ("nodes", resource_store node_storage) ∷ ("nodes/status", status_store node_storage) ∷ [],
    )
    ∷ []

abbrev node_installed : Installed sample
node_installed = record {
  groups = node_groups;
  registrations =
      rest_installed "/api" core
        (("nodes", resource_store node_storage) ∷ ("nodes/status", status_store node_storage) ∷ [])
      ∷ legacy_version_added core
      ∷ legacy_root_added "/api"
      ∷ [];
}

nodes_installed : install_resources sample api (nodes ∷ []) clients ≡ ok node_installed
unfolding install_resources group_versions install_resource clients_of storage.new_storage
    storage.validate install_groups install_group_version update gv_beq
nodes_installed = refl

install_resources_lem_example :
    Holds sample clients
      (writer (nodes ∷ []) core "nodes/status")
      (store_at sample core "nodes/status" node_groups)
      none
install_resources_lem_example =
    install_resources_lem sample api (nodes ∷ []) clients nodes_installed core "nodes/status"

abbrev apps : GroupVersion
apps = record { group = "apps"; version = "v1" }

abbrev batch : GroupVersion
batch = record { group = "batch"; version = "v1" }

abbrev two_groups : Groups sample
two_groups = (apps, []) ∷ (batch, []) ∷ []

abbrev one_registered : GroupVersion → List (Registration sample) → List (Registration sample)
one_registered gv later =
    rest_installed "/apis" gv []
    ∷ version_added gv
    ∷ group_added (api_group sample gv)
    ∷ group_handler_added (api_group sample gv)
    ∷ later

two_registered :
    install_groups sample api [] [] two_groups ≡ ok (one_registered apps (one_registered batch []))
unfolding install_groups install_group_version
two_registered = refl

-- A second version of a group is not installed.
second_refused :
    install_groups sample api [] [] ((apps, []) ∷ (record apps { version = "v1beta1" }, []) ∷ [])
    ≡ err (duplicate)
unfolding install_groups install_group_version
second_refused = refl

api-RefusesDuplicates : RefusesDuplicates sample api
api-RefusesDuplicates [] g h = absurd h
api-RefusesDuplicates (group_service f ∷ rest) g (inl same) =
    (duplicate, rw ((eq_iff f.name g.name).1 same) refl)
api-RefusesDuplicates (legacy_service prefix ∷ rest) g (inl same) = absurd same
api-RefusesDuplicates (legacy_service prefix ∷ rest) g (inr h) = api-RefusesDuplicates rest g h
api-RefusesDuplicates (group_service f ∷ rest) g (inr h) =
    let (e, r) = api-RefusesDuplicates rest g h in
    elim (Bool-cases (f.name == g.name)) [ inl q ↦ (duplicate, rw q refl) | inr q ↦ (e, rw q r) ]

install_groups_lem_example :
    let registrations = one_registered apps (one_registered batch []) in
    (rests sample registrations
      ≡ map (λ (gv, stores). (prefix_of sample gv, gv, stores)) two_groups)
    × (entries sample "apps" registrations ≡ versions sample "apps" two_groups)
    × (handlers sample "apps" registrations ≡ versions sample "apps" two_groups)
    × AtMostOne sample api api-RefusesDuplicates (versions sample "apps" two_groups)
install_groups_lem_example =
    install_groups_lem sample api api-RefusesDuplicates [] two_groups two_registered "apps"
      (λ p. absurd (ground (arith, (eq_iff "apps" "").1 p)))
