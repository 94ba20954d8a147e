-- ===== src/Discovery.antt =====
-- pkg/apiserver/discovery.go: which resources a cluster serves, and their union over the clusters.
pub mod Parse
pub mod Select
pub mod Merge
pub mod Table
pub mod Union
pub mod Reordered
pub mod Order
use aggregated_apiserver_ope.Prelude.{
  String, ◌≡◌, ◌↔◌, Eq, arith, eq_iff, list_eq, list_beq_iff, Bool, true, false, not, ◌&&◌, ◌||◌,
  none, some, List, [], ◌∷◌, ◌++◌, map, length, contains, lookup, update, ltb, ◌==◌, string_eq,
  bool_eq, if◌then◌else◌, Result, ok, err, ◌>>=◌, map_err,
}
use aggregated_apiserver_ope.Prelude.Text.{cut_suffix, contains_text, less}
use aggregated_apiserver_ope.Prelude.Sort.{sort}
use aggregated_apiserver_ope.Meta.{
  GroupVersion, Gvr, Gvk, gvr_eq, gvk_eq, gvr_beq, gvk_beq, gvr_beq_iff, gvk_beq_iff, ApiSelector,
}
use aggregated_apiserver_ope.Kube.{Kube}

pub record ServedResource : Type 0 where
  pub gvr : Gvr
  pub kind : Gvk
  pub namespaced : Bool
  pub singular : String
  pub status : Bool
  pub clusters : List String

-- `reflect.DeepEqual` of two such values.
unfoldable pub served_beq : ServedResource → ServedResource → Bool
unfolding gvr_beq gvk_beq
served_beq a b =
    a.gvr == b.gvr
    && a.kind == b.kind
    && a.namespaced == b.namespaced
    && a.singular == b.singular
    && a.status == b.status
    && a.clusters == b.clusters

pub served_beq_iff : (a b : ServedResource) → (served_beq a b ≡ true) ↔ (a ≡ b)
unfolding served_beq
served_beq_iff a b = ground (
  arith,
  gvr_beq_iff a.gvr b.gvr,
  gvk_beq_iff a.kind b.kind,
  eq_iff a.singular b.singular,
  list_beq_iff a.clusters b.clusters,
)

instance abbrev pub served_eq : Eq ServedResource
served_eq = record { beq = served_beq; beq_iff = served_beq_iff }

-- The fields of `metav1.APIResource` and `metav1.APIResourceList` that are read.
pub record ApiResource : Type 0 where
  pub name : String
  pub kind : String
  pub namespaced : Bool
  pub singular_name : String

pub record ApiResourceList : Type 0 where
  pub group_version : String
  pub api_resources : List ApiResource

-- One turn of the first inner loop of `FromDiscovery`, on the map `status`.
unfoldable pub mark : ApiResource → (String → Bool) → String → Bool
mark resource status name = elim (cut_suffix resource.name "/status") [
  | none ↦ status name
  | some parent ↦ if parent == name then true else status name
]

unfoldable pub status_map : List ApiResource → (String → Bool) → String → Bool
unfolding mark
status_map [] status = status
status_map (resource ∷ rest) status = status_map rest (mark resource status)

-- The second inner loop.
unfoldable pub served_of : GroupVersion → (String → Bool) → List ApiResource → List ServedResource
served_of gv status [] = []
served_of gv status (resource ∷ rest) =
    let others = served_of gv status rest in
    if contains_text resource.name "/"
    then others
    else record {
      gvr = record { group = gv.group; version = gv.version; resource = resource.name };
      kind = record { group = gv.group; version = gv.version; kind = resource.kind };
      namespaced = resource.namespaced;
      singular = resource.singular_name;
      status = status resource.name;
      clusters = [];
    }
      ∷ others

-- `slices.Contains(list, "*")` and the tests of one turn of the loop in `matches`.
unfoldable pub selector_matches : Gvr → ApiSelector → Bool
selector_matches gvr selector =
    if not (selector.group == "*") && not (selector.group == gvr.group)
    then false
    else if ltb 0 (length selector.versions) && not (contains selector.versions gvr.version)
    then false
    else if ltb 0 (length selector.resources)
        && not (contains selector.resources "*")
        && not (contains selector.resources gvr.resource)
    then false
    else true

unfoldable pub matches : Gvr → List ApiSelector → Bool
matches gvr [] = false
matches gvr (selector ∷ rest) = if selector_matches gvr selector then true else matches gvr rest

-- `Filter`; a nil slice is the empty list.
unfoldable pub filter : List ServedResource → List ApiSelector → List ServedResource
filter [] selectors = []
filter (resource ∷ rest) selectors =
    let others = filter rest selectors in
    if matches resource.gvr selectors then resource ∷ others else others

-- The map `merged` of `Union`.
abbrev pub Merged : Type 0
Merged = List (Gvr × ServedResource)

unfoldable pub sort_clusters : ServedResource → ServedResource
sort_clusters r = record r { clusters = sort less r.clusters }

module _ (K : Kube) where
  open K use {Err, errorf, wrapf, parse_group_version, gvr_string}

  unfoldable pub from_discovery : List ApiResourceList → Result Err (List ServedResource)
  from_discovery [] = ok []
  from_discovery (list ∷ rest) = do
    gv ←
        map_err (wrapf "parsing discovered groupVersion %q: %w" (list.group_version ∷ []))
          (parse_group_version list.group_version)
    others ← from_discovery rest
    ok (served_of gv (status_map list.api_resources (λ name. false)) list.api_resources ++ others)

  -- One turn of the inner loop of `Union`.
  unfoldable pub merge : String → ServedResource → Merged → Result Err Merged
  merge cluster resource merged = elim (lookup resource.gvr merged) [
    | none ↦ ok (update resource.gvr (record resource { clusters = cluster ∷ [] }) merged)
    | some existing ↦
        if not (existing.kind == resource.kind) || not (existing.namespaced == resource.namespaced)
        then err (
            errorf "clusters disagree on %s: kind/scope conflict between %v and %q"
              (gvr_string resource.gvr ∷ (existing.clusters ++ (cluster ∷ []))))
        else ok (
            update resource.gvr
              (record existing {
                status = existing.status || resource.status;
                clusters = existing.clusters ++ (cluster ∷ []);
              })
              merged)
  ]

  unfoldable pub merge_resources : String → List ServedResource → Merged → Result Err Merged
  merge_resources cluster [] merged = ok merged
  merge_resources cluster (resource ∷ rest) merged =
      merge cluster resource merged >>= merge_resources cluster rest

  -- The loops of `Union`, over the map in the order in which the loop meets its entries.
  unfoldable pub merge_clusters : List (String × List ServedResource) → Merged → Result Err Merged
  merge_clusters [] merged = ok merged
  merge_clusters ((cluster, resources) ∷ rest) merged =
      merge_resources cluster resources merged >>= merge_clusters rest

  abbrev pub gvr_less : ServedResource → ServedResource → Bool
  gvr_less a b = less (gvr_string a.gvr) (gvr_string b.gvr)

  unfoldable pub union : List (String × List ServedResource) → Result Err (List ServedResource)
  union by_cluster = do
    merged ← merge_clusters by_cluster []
    ok (sort gvr_less (map (λ (g, r). sort_clusters r) merged))
