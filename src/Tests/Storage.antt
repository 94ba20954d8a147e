-- ===== src/Tests/Storage.antt =====
-- The handlers on two clusters, of which the first has the object.
use mathlib.Core.List.{Perm}
use aggregated_apiserver_ope.Prelude.{
  String, ◌≡◌, ◌↔◌, ◌⊎◌, refl, true, false, ◌&&◌, none, some, List, [], ◌∷◌, All, Any, Result, ok,
  err, string_eq, ◌==◌, if◌then◌else◌,
}
use aggregated_apiserver_ope.Meta.{put, value, empty_map, cluster_label}
use aggregated_apiserver_ope.Members.{Members, ListOptions, WriteOptions, Adds, IsGet, failed}
use aggregated_apiserver_ope.Storage.{
  client, Options, ObjectList, unstructured, group_resource, new_list,
}
use aggregated_apiserver_ope.Storage.Metadata.{stamp, strip, split_selector}
use aggregated_apiserver_ope.Storage.Metadata.Laws.{strip-stamp, split_selector_lem}
use aggregated_apiserver_ope.Storage.Locate.{locate}
use aggregated_apiserver_ope.Storage.Locate.Owner.{OnlyIn, Lacks, locate_iff, locate_fails}
use aggregated_apiserver_ope.Storage.Listing.{list}
use aggregated_apiserver_ope.Storage.Listing.Laws.{InOrder, asked, stamped, list_lem}
use aggregated_apiserver_ope.Storage.Write.{
  UpdatedObject, body_cluster, create, update, delete, delete_collection, update_status,
}
use aggregated_apiserver_ope.Storage.Write.Collection.{given, emptied, delete_collection_lem}
use aggregated_apiserver_ope.Storage.Write.Routing.{RefusedFor, Accepts, AcceptsUpdate}
use aggregated_apiserver_ope.Storage.Write.Create.{CreateReason, CreateDone, create_lem}
use aggregated_apiserver_ope.Storage.Write.Update.{Changed}
use aggregated_apiserver_ope.Storage.Write.Delete.{
  DeletedIn, DeleteReason, StatusReason, StatusUpdatedIn, delete_lem, update_status_lem,
}
use aggregated_apiserver_ope.Tests.Sample.{
  SampleErr, SampleObj, SampleSelector, missing, sample, sample_ObjectLaws, sample_SelectorLaws,
  sample_GroupLaws,
}

abbrev pub two_clusters : Options sample
two_clusters = record {
  gvr = record { group = "apps"; version = "v1"; resource = "deployments" };
  kind = record { group = "apps"; version = "v1"; kind = "Deployment" };
  namespaced = true;
  singular = "deployment";
  clusters = ("a", "client a") ∷ ("b", "client b") ∷ [];
}

abbrev pub web : SampleObj
web = record {
  kind = record { group = "apps"; version = "v1"; kind = "Deployment" };
  namespace = "default";
  name = "web";
  annotations = none;
  labels = some (put "app" "web" empty_map);
  data_field = "three replicas";
  resource_version = "7";
}

abbrev no_web : SampleErr
no_web = missing (record { group = "apps"; resource = "deployments" }) "web"

abbrev get_answer : String → Result SampleErr SampleObj
get_answer cl = if cl == "client a" then ok web else err no_web

abbrev list_answer : String → Result SampleErr (List SampleObj)
list_answer cl = if cl == "client a" then ok (web ∷ []) else ok []

abbrev members : Members sample
members = record {
  get = λ t target name o. get_answer target.client;
  list = λ t target o. list_answer target.client;
  create = λ t target o options. ok o;
  update = λ t target o options. ok o;
  update_status = λ t target o options. ok o;
  delete = λ t target name options. ok tt;
  delete_collection = λ t target o options. ok tt;
}

abbrev write_options : WriteOptions
write_options = record { dry_run = []; field_manager = "kubectl"; field_validation = "Strict" }

abbrev list_options : ListOptions sample
list_options = record { label_selector = none; field_selector = none; limit = 500 }

abbrev on_cluster_a : SampleSelector
on_cluster_a = record {
  requirements =
      record { key = cluster_label; expected = "a" }
      ∷ record { key = "app"; expected = "web" }
      ∷ [];
  selectable = true;
}

-- A client that scales what it is given.
abbrev scaled : UpdatedObject sample
scaled o = ok (unstructured (record o { data_field = "five replicas" }))

locate_iff_example :
    ((locate sample members two_clusters "default" "web" (some tt) "" []).0 ≡ ok ("a", web))
    ↔ OnlyIn sample get_answer "a" web two_clusters.clusters
unfolding client
locate_iff_example =
    locate_iff sample sample_GroupLaws members two_clusters "default" "web" tt get_answer []
      (λ u h cl. refl) "a" web

locate_fails_example :
    (Any
        (λ (c, cl). (x : SampleErr) × (get_answer cl ≡ err x) × (sample.is_not_found x ≡ false))
        two_clusters.clusters
      → (x : SampleErr) × ((locate sample members two_clusters "default" "web" (some tt) "" []).0
          ≡ err (failed (sample.new_internal_error x))))
    × (All (λ (c, cl). Lacks sample get_answer cl) two_clusters.clusters
        → (locate sample members two_clusters "default" "web" (some tt) "" []).0
          ≡ err (failed (sample.new_not_found (group_resource sample two_clusters) "web")))
unfolding client
locate_fails_example =
    locate_fails sample sample_GroupLaws members two_clusters "default" "web" tt get_answer []
      (λ u h cl. refl)

list_lem_example :
    (All
        (λ (c, cl). (items : List SampleObj) × (list_answer cl ≡ ok items))
        (asked sample two_clusters list_options)
      → (l : ObjectList sample) × ((list sample members two_clusters "default" list_options []).0
          ≡ ok l)
        × (l.kind ≡ (new_list sample two_clusters).kind)
        × Perm l.items (stamped sample list_answer (asked sample two_clusters list_options))
        × InOrder sample l.items)
    × (Any
          (λ (c, cl). (x : SampleErr) × (list_answer cl ≡ err x))
          (asked sample two_clusters list_options)
        → (x : SampleErr) × ((list sample members two_clusters "default" list_options []).0
            ≡ err (failed (sample.new_internal_error x))))
unfolding client
list_lem_example =
    list_lem sample sample_GroupLaws members two_clusters "default" list_options list_answer
      (λ t cl. refl) []

create_lem_example :
    let (result, later) =
      create sample members two_clusters "default"
        (unstructured (stamp sample web "b"))
        none
        write_options
        [] in
    RefusedFor {K = sample}
      (CreateReason sample members two_clusters "default"
        (unstructured (stamp sample web "b"))
        none)
      []
      result
      later
    ⊎ CreateDone sample members two_clusters "default"
        (unstructured (stamp sample web "b"))
        none
        write_options
        []
        result
        later
create_lem_example =
    create_lem sample members two_clusters "default" (unstructured (stamp sample web "b")) none
      write_options []

delete_lem_example :
    let (located, u) = locate sample members two_clusters "default" "web" none "" [] in
    let (result, later) = delete sample members two_clusters "default" "web" none tt [] in
    Adds IsGet [] u
    × (RefusedFor {K = sample}
          (DeleteReason sample members two_clusters "default" "web" none located)
          u
          result
          later
        ⊎ ((cluster : String) × (existing : SampleObj) × (located ≡ ok (cluster, existing))
            × Accepts sample none existing
            × DeletedIn sample members two_clusters "default" "web" existing cluster tt u result
                later))
delete_lem_example = delete_lem sample members two_clusters "default" "web" none tt []

update_status_lem_example :
    let (located, u) =
      locate sample members two_clusters "default" "web" none
        (body_cluster sample members two_clusters "default" scaled)
        [] in
    let (result, later) =
      update_status sample members two_clusters "default" "web" scaled none write_options [] in
    Adds IsGet [] u
    × (RefusedFor {K = sample}
          (StatusReason sample members two_clusters "default" "web" scaled none located)
          u
          result
          later
        ⊎ ((cluster : String) × (existing v : SampleObj) × (located ≡ ok (cluster, existing))
            × Changed sample members two_clusters "default" scaled (stamp sample existing cluster) v
            × AcceptsUpdate sample none v (stamp sample existing cluster)
            × StatusUpdatedIn sample members two_clusters "default" "web" v cluster write_options u
                result later))
update_status_lem_example =
    update_status_lem sample members two_clusters "default" "web" scaled none write_options []

strip-stamp_example :
    (value "app" (sample.get_annotations (strip sample (stamp sample web "a"))) ≡ none)
    × (value "app" (sample.get_labels (strip sample (stamp sample web "a"))) ≡ some "web")
strip-stamp_example = strip-stamp sample sample_ObjectLaws web "a" "app"

split_selector_lem_example :
    sample.selector_matches on_cluster_a (put cluster_label "a" (put "app" "web" empty_map)) ≡ (
      sample.selector_matches (split_selector sample on_cluster_a).0 (put "app" "web" empty_map)
      && (split_selector sample on_cluster_a).1 "a")
split_selector_lem_example =
    split_selector_lem sample sample_SelectorLaws on_cluster_a (put "app" "web" empty_map) "a"

delete_collection_lem_example :
    let cs = asked sample two_clusters (given sample (some list_options)) in
    (All
        (λ (c, cl).
          (items : List SampleObj) × (emptied sample list_answer (λ x. ok tt) cl ≡ ok items))
        cs
      → (delete_collection sample members two_clusters "default" tt (some list_options) []).0
        ≡ ok (record (new_list sample two_clusters) {
          items = stamped sample (emptied sample list_answer (λ x. ok tt)) cs;
        }))
    × (Any (λ (c, cl). (x : SampleErr) × (emptied sample list_answer (λ x. ok tt) cl ≡ err x)) cs
        → (x : SampleErr) × ((delete_collection sample members two_clusters "default" tt
              (some list_options)
              []).0
            ≡ err (failed (sample.new_internal_error x))))
unfolding client
delete_collection_lem_example =
    delete_collection_lem sample members two_clusters "default" tt (some list_options)
      sample_GroupLaws list_answer (λ cl. ok tt) (λ t cl. refl) (λ t cl. refl) []
