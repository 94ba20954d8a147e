-- ===== src/Storage/Listing.antt =====
-- pkg/apiserver/storage/reader.go: `List`.
pub mod Laws
use aggregated_apiserver_ope.Prelude.{
  String, Bool, not, Option, none, some, List, [], ◌∷◌, map, select, ◌==◌, string_eq, if◌then◌else◌,
  Result, ok, err,
}
use aggregated_apiserver_ope.Prelude.Text.{less}
use aggregated_apiserver_ope.Prelude.Sort.{sort}
use aggregated_apiserver_ope.Meta.{index, cluster_annotation}
use aggregated_apiserver_ope.Kube.{Kube}
use aggregated_apiserver_ope.Members.{
  Members, RemoteListOptions, ListOptions, list_call, Exec, pure, ◌>>=◌, Job, in_group,
}
use aggregated_apiserver_ope.Storage.{Options, ObjectList, client, new_list}
use aggregated_apiserver_ope.Storage.Metadata.{stamp, split_cluster_selector}

module _ (K : Kube) where
  unfoldable pub field_selector_string : ListOptions K → String
  field_selector_string options = elim options.field_selector [
    | none ↦ ""
    | some selector ↦ K.field_selector_string selector
  ]

  -- `remote.String()` where `remote` is not nil.
  abbrev pub label_selector_string : Option K.Selector → String
  label_selector_string none = ""
  label_selector_string (some selector) = K.selector_string selector

  -- The clusters that the loop does not pass over.
  abbrev pub matching : (String → Bool) → List (String × K.Client) → List (String × K.Client)
  matching matches = select (λ (cluster, cl). matches cluster)

  -- The comparison of `sort.Slice`.
  unfoldable pub item_less : K.Obj → K.Obj → Bool
  item_less a b =
      if not (K.get_namespace a == K.get_namespace b)
      then less (K.get_namespace a) (K.get_namespace b)
      else if not (K.get_name a == K.get_name b)
      then less (K.get_name a) (K.get_name b)
      else less (index cluster_annotation (K.get_annotations a))
          (index cluster_annotation (K.get_annotations b))

  module _ (members : Members K) (s : Options K) where
    -- The goroutine that lists one cluster.
    unfoldable pub list_cluster : String → RemoteListOptions → Job K K.Obj
    list_cluster namespace options cluster cl t =
        let target = client K s cl namespace in
        (
          elim (members.list t target options) [
            | ok items ↦ ok (map (λ item. stamp K item cluster) items)
            | err e ↦ err (K.wrapf "listing from cluster %q: %w" (cluster ∷ []) e)
          ],
          list_call target options ∷ t,
        )

    -- `Storage.List`
    unfoldable pub list : String → ListOptions K → Exec K (ObjectList K)
    unfolding in_group list_cluster field_selector_string
    list namespace options =
        let (remote, matches) = split_cluster_selector K options.label_selector in
        let list_options : RemoteListOptions = record {
          field_selector = field_selector_string options;
          label_selector = label_selector_string remote;
          limit = options.limit;
        } in
        do
          items ← in_group K (list_cluster namespace list_options) (matching matches s.clusters)
          pure (record (new_list K s) { items = sort item_less items })
