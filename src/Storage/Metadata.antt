-- ===== src/Storage/Metadata.antt =====
-- pkg/apiserver/storage/metadata.go: marking objects with their cluster, and the virtual label.
pub mod Laws
use aggregated_apiserver_ope.Prelude.{
  String, Bool, true, Option, none, some, List, [], ◌∷◌, not, ◌==◌, string_eq, if◌then◌else◌,
}
use aggregated_apiserver_ope.Meta.{
  StringMap, empty_map, put, delete, cluster_annotation, cluster_label,
}
use aggregated_apiserver_ope.Kube.{Kube}

-- A nil map is replaced by an empty one.
abbrev pub or_empty : Option StringMap → StringMap
or_empty none = empty_map
or_empty (some m) = m

-- `labels.Set{v1alpha1.ClusterLabel: cluster}`
abbrev pub cluster_set : String → StringMap
cluster_set cluster = put cluster_label cluster empty_map

module _ (K : Kube) where
  open K use {
    Obj, get_annotations, set_annotations, get_labels, set_labels, Selector, Requirement,
    new_selector, selector_empty, selector_requirements, selector_add, selector_matches,
    requirement_key,
  }

  unfoldable pub stamp : Obj → String → Obj
  stamp obj cluster =
      let annotations = put cluster_annotation cluster (or_empty (get_annotations obj)) in
      let obj' = set_annotations (some annotations) obj in
      let labels = put cluster_label cluster (or_empty (get_labels obj')) in
      set_labels (some labels) obj'

  unfoldable pub strip : Obj → Obj
  strip obj =
      let obj' = set_annotations (delete cluster_annotation (get_annotations obj)) obj in
      set_labels (delete cluster_label (get_labels obj')) obj'

  -- The loop of `splitClusterSelector`: the selectors `remote` and `clusterReqs` so far.
  unfoldable pub split_requirements : List Requirement → Selector → Selector → Selector × Selector
  split_requirements [] remote cluster_reqs = (remote, cluster_reqs)
  split_requirements (requirement ∷ rest) remote cluster_reqs =
      let is_cluster = requirement_key requirement == cluster_label in
      split_requirements rest (if is_cluster then remote else selector_add remote requirement)
        (if is_cluster then selector_add cluster_reqs requirement else cluster_reqs)

  -- `splitClusterSelector` of a selector that is not nil.
  unfoldable pub split_selector : Selector → Selector × (String → Bool)
  split_selector selector =
      let (requirements, selectable) = selector_requirements selector in
      let (remote, cluster_reqs) = split_requirements requirements new_selector new_selector in
      if selector_empty selector
      then (selector, λ cluster. true)
      else if not selectable
      then (selector, λ cluster. true)
      else if selector_empty cluster_reqs
      then (selector, λ cluster. true)
      else (remote, λ cluster. selector_matches cluster_reqs (cluster_set cluster))

  unfoldable pub split_cluster_selector : Option Selector → Option Selector × (String → Bool)
  unfolding split_selector
  split_cluster_selector none = (none, λ cluster. true)
  split_cluster_selector (some selector) =
      let (remote, matches) = split_selector selector in (some remote, matches)
