-- ===== src/Tests/Discovery.antt =====
-- Discovery of two clusters that serve the same deployments.
use mathlib.Core.List.Permᴰ
use aggregated_apiserver_ope.Prelude.{
  String, ◌≡◌, ◌↔◌, refl, Bool, Bool-cases, inl, inr, true, false, ◌==◌, List, [], ◌∷◌, Any, update,
  ok,
}
use aggregated_apiserver_ope.Prelude.Sort.{IsSorted, sort, insert}
use aggregated_apiserver_ope.Prelude.Text.{less}
use aggregated_apiserver_ope.Meta.{Gvr, gvr_eq, gvr_beq, gvk_beq, ApiSelector}
use aggregated_apiserver_ope.Discovery.{
  ServedResource, ApiResourceList, from_discovery, filter, gvr_less, union, merge_clusters,
  merge_resources, merge, sort_clusters,
}
use aggregated_apiserver_ope.Discovery.Parse.{discovered_all, from_discovery-discovered}
use aggregated_apiserver_ope.Discovery.Select.{Selects, filter_iff}
use aggregated_apiserver_ope.Discovery.Merge.{serving}
use aggregated_apiserver_ope.Discovery.Order.{union_of_perm}
use aggregated_apiserver_ope.Discovery.Reordered.{OneSingular}
use aggregated_apiserver_ope.Discovery.Union.{
  find, NodupGvrs, merged_resource, AllAgree, union_ok_iff, union_lem,
}
use aggregated_apiserver_ope.Tests.Sample.{sample}

abbrev apps_v1 : ApiResourceList
apps_v1 = record {
  group_version = "apps.v1";
  api_resources =
      record {
        name = "deployments";
        kind = "Deployment";
        namespaced = true;
        singular_name = "deployment";
      }
      ∷ record {
        name = "deployments/status";
        kind = "Deployment";
        namespaced = true;
        singular_name = "";
      }
      ∷ [];
}

abbrev deployments : Bool → List String → ServedResource
deployments status clusters = record {
  gvr = record { group = "apps"; version = "v1"; resource = "deployments" };
  kind = record { group = "apps"; version = "v1"; kind = "Deployment" };
  namespaced = true;
  singular = "deployment";
  status = status;
  clusters = clusters;
}

abbrev by_cluster : List (String × List ServedResource)
by_cluster = ("b", deployments false [] ∷ []) ∷ ("a", deployments true [] ∷ []) ∷ []

abbrev apps_only : ApiSelector
apps_only = record { group = "apps"; resources = "*" ∷ []; versions = [] }

from_discovery-discovered_example :
    from_discovery sample (apps_v1 ∷ []) ≡ discovered_all sample (apps_v1 ∷ [])
from_discovery-discovered_example = from_discovery-discovered sample (apps_v1 ∷ [])

filter_iff_example :
    Any (λ x. x ≡ deployments true []) (filter (deployments true [] ∷ []) (apps_only ∷ [])) ↔ (
      Any (λ x. x ≡ deployments true []) (deployments true [] ∷ [])
      × Any (λ s. Selects s (deployments true []).gvr) (apps_only ∷ []))
filter_iff_example = filter_iff (deployments true [] ∷ []) (apps_only ∷ []) (deployments true [])

union_ok_iff_example :
    ((rs : List ServedResource) × (union sample by_cluster ≡ ok rs))
    ↔ ((g : Gvr) → AllAgree (serving g by_cluster))
union_ok_iff_example = union_ok_iff sample by_cluster

union_runs : union sample by_cluster ≡ ok (deployments true ("a" ∷ "b" ∷ []) ∷ [])
unfolding union merge_clusters merge_resources merge sort_clusters sort insert less gvr_beq gvk_beq
    update
union_runs = refl

union_lem_example :
    ((g : Gvr)
      → find g (deployments true ("a" ∷ "b" ∷ []) ∷ []) ≡ merged_resource (serving g by_cluster))
    × NodupGvrs (deployments true ("a" ∷ "b" ∷ []) ∷ [])
    × IsSorted (gvr_less sample) (deployments true ("a" ∷ "b" ∷ []) ∷ [])
union_lem_example = union_lem sample by_cluster union_runs

one_singular : (g : Gvr) → OneSingular (serving g by_cluster)
one_singular g = elim (Bool-cases ((deployments true []).gvr == g)) [
  | inl e ↦ rw e (refl, tt)
  | inr e ↦ rw e tt
]

union_of_perm_example :
    union sample (("a", deployments true [] ∷ []) ∷ ("b", deployments false [] ∷ []) ∷ [])
    ≡ ok (deployments true ("a" ∷ "b" ∷ []) ∷ [])
union_of_perm_example =
    union_of_perm sample by_cluster
      (("a", deployments true [] ∷ []) ∷ ("b", deployments false [] ∷ []) ∷ [])
      (deployments true ("a" ∷ "b" ∷ []) ∷ []) union_runs (Permᴰ.swap refl refl) one_singular
      (tt, tt)
