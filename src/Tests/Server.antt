-- ===== src/Tests/Server.antt =====
-- A server with one member.
use aggregated_apiserver_ope.Prelude.{
  String, ◌≡◌, ◌≢◌, ◌⊎◌, refl, Bool, true, false, none, some, List, [], ◌∷◌, lookup, update, arith,
  string_eq, ok, err,
}
use mathlib.Core.Option
use aggregated_apiserver_ope.Prelude.Sort.{sort, insert}
use aggregated_apiserver_ope.Prelude.Text.{less}
use aggregated_apiserver_ope.Meta.{Gvr, ApiSelector}
use aggregated_apiserver_ope.Discovery.{
  ServedResource, ApiResourceList, union, merge_clusters, merge_resources, merge, sort_clusters,
}
use aggregated_apiserver_ope.Server.{
  Options, Member, Server, generic, rebuild_with, new, by_cluster, rebuild, resolve, set_cluster,
  remove_cluster, resync,
}
use aggregated_apiserver_ope.Install.{
  Apiserver, GenericServer, clients_of, install_resource, group_versions, install_group_version,
  install_groups, install_resources, new_generic_server,
}
use aggregated_apiserver_ope.Install.Writer.{NamesNoStatus, gvr_version}
use aggregated_apiserver_ope.Install.Stores.{store_at}
use aggregated_apiserver_ope.Server.Serving.{ServedBy, rebuild-ServedBy}
use aggregated_apiserver_ope.Discovery.Merge.{serving as serving_in}
use aggregated_apiserver_ope.Discovery.Union.{merged_resource}
use aggregated_apiserver_ope.Storage as storage
use aggregated_apiserver_ope.Server.Rebuild.{Emptied, Replaced, Abandoned, rebuild_lem}
use aggregated_apiserver_ope.Server.Consistent.{
  Consistent, starting, stepping, setting, Reachable-Consistent,
}
use aggregated_apiserver_ope.Server.Members.{resynced, lookup-members}
use aggregated_apiserver_ope.Tests.Install.{add_service}
use aggregated_apiserver_ope.Tests.Sample.{sample_net, SampleErr, plain, sample}

abbrev pub api : Apiserver sample
api = record {
  net = sample_net;
  build = λ config. none;
  install_rest = λ install. none;
  add_service = add_service;
  group_order = λ groups. groups;
}

abbrev pub options : Options
options = record {
  hostname = "";
  port = 0;
  tls_cert_file = "";
  tls_key_file = "";
  resync_interval = 0;
}

abbrev pub everything : List ApiSelector
everything = record { group = "*"; resources = []; versions = [] } ∷ []

abbrev pub core : ApiResourceList
core = record {
  group_version = "v1";
  api_resources =
      record { name = "pods"; kind = "Pod"; namespaced = true; singular_name = "pod" } ∷ [];
}

abbrev pods : List String → ServedResource
pods clusters = record {
  gvr = record { group = ""; version = "v1"; resource = "pods" };
  kind = record { group = ""; version = "v1"; kind = "Pod" };
  namespaced = true;
  singular = "pod";
  status = false;
  clusters = clusters;
}

abbrev member : String → Member sample
member client = record {
  client = client;
  discovery = "discovery";
  selectors = everything;
  resources = pods [] ∷ [];
}

-- It serves the pods of "a".
abbrev serving : Server sample
serving = record (new sample options) {
  members = ("a", member "old client") ∷ [];
  resources = some (pods ("a" ∷ []) ∷ []);
}

Reachable-Consistent_example :
    Consistent sample api
      (set_cluster sample api "a" "client" "discovery" everything
        (ok (core ∷ []))
        (new sample options)).1
Reachable-Consistent_example =
    Reachable-Consistent sample api
      (stepping (starting options) (setting "a" "client" "discovery" everything (ok (core ∷ []))))

rebuild_lem_example :
    let (result, later) = rebuild sample api serving in
    ((e x : SampleErr) × (union sample (by_cluster sample api serving.members) ≡ err e)
      × (result ≡ some x)
      × (later ≡ serving))
    ⊎ ((resources : List ServedResource) × (union sample (by_cluster sample api serving.members)
          ≡ ok resources)
        × (((serving.resources ≡ some resources) × (result ≡ none) × (later ≡ serving))
            ⊎ ((resources ≡ []) × (result ≡ none) × Emptied sample api serving later)
            ⊎ ((serving.resources ≢ some resources)
                × (resources ≢ [])
                × (((result ≡ none) × Replaced sample api resources serving later)
                    ⊎ ((e : SampleErr) × (result ≡ some e) × Abandoned sample api serving later)))))
rebuild_lem_example = rebuild_lem sample api serving

lookup-members_example :
    let fresh : Member sample = record {
      client = "client";
      discovery = "discovery";
      selectors = everything;
      resources = [];
    } in
    let (result, later) =
      set_cluster sample api "b" "client" "discovery" everything (ok (core ∷ [])) serving in
    (((e x : SampleErr) × (resolve sample (ok (core ∷ [])) fresh ≡ err e)
        × (result ≡ some x)
        × (later ≡ serving))
      ⊎ ((changed : Bool) × (m : Member sample) × (resolve sample (ok (core ∷ [])) fresh
            ≡ ok (changed, m))
          × (lookup "a" later.members ≡ lookup "a" serving.members)))
    × (lookup "a" (remove_cluster sample api "b" serving).1.members ≡ lookup "a" serving.members)
    × (lookup "a" (resync sample api (λ name discovery. err (plain "refused" [])) serving).members
        ≡ Option.map
            (resynced sample api (λ name discovery. err (plain "refused" [])) "a")
            (lookup "a" serving.members))
lookup-members_example =
    lookup-members sample api "b" "a" "client" "discovery" everything (ok (core ∷ []))
      (λ name discovery. err (plain "refused" [])) serving

pods_united : union sample (by_cluster sample api serving.members) ≡ ok (pods ("a" ∷ []) ∷ [])
unfolding union merge_clusters merge_resources merge sort_clusters sort insert less new update
pods_united = refl

-- The same member, before the first rebuild.
abbrev fresh : Server sample
fresh = record serving { resources = none }

fresh_rebuilt : (rebuild sample api fresh).0 ≡ none
unfolding rebuild union merge_clusters merge_resources merge sort_clusters sort insert less new
    update rebuild_with new_generic_server install_resources group_versions install_resource
    clients_of storage.new_storage storage.validate install_groups install_group_version
fresh_rebuilt = refl

rebuild-ServedBy_example :
    (inner : GenericServer sample) × ((rebuild sample api fresh).1.handler ≡ generic inner)
    × ((g : Gvr)
        → NamesNoStatus g
        → ServedBy sample api g fresh.members
            (merged_resource (serving_in g (by_cluster sample api fresh.members)))
            (store_at sample (gvr_version g) g.resource inner.installed.groups))
rebuild-ServedBy_example =
    rebuild-ServedBy sample api fresh pods_united (λ p. absurd (ground (arith, p)))
      (λ p. absurd (ground (arith, p))) fresh_rebuilt
