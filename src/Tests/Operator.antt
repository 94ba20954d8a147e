-- ===== src/Tests/Operator.antt =====
-- The operator on an object that is being deleted, and on names with dashes.
use Prim.Native.String.{count}
use aggregated_apiserver_ope.Prelude.{
  String, ◌+◌, ◌≤◌, ◌↔◌, ◌≡◌, ◌⊎◌, refl, ap, sym, arith, true, false, none, some, [], ◌∷◌, Result,
  ok, err,
}
use aggregated_apiserver_ope.Operator.{
  Options, AggregatedApi, NamespacedName, Seams, get_call, finalizer, to_aggregated_api,
  child_labels, deployment, service, reconcile, finalize, finalize_service, release,
}
use aggregated_apiserver_ope.Operator.Labels.{to_aggregated_api-child_labels}
use aggregated_apiserver_ope.Meta.{index}
use aggregated_apiserver_ope.Operator.Lengths.{children_fit}
use aggregated_apiserver_ope.Operator.Reconcile.{Keeps, Guarded, reconcile-Guarded}
use aggregated_apiserver_ope.Operator.Success.{Finalized, Ensured, reconcile_ok}
use aggregated_apiserver_ope.Tests.Sample.{SampleErr, sample, sample_FinalizerLaws}

abbrev options : Options
options = record { namespace = "aggregated-apiserver-operator"; service_account = "api-aggregator" }

abbrev api : String → String → AggregatedApi sample
api namespace name = record {
  namespace = namespace;
  name = name;
  deleting = true;
  finalizers = finalizer ∷ [];
  image = "";
  resync_interval = some 30;
}

abbrev request : NamespacedName
request = record { namespace = "default"; name = "apps" }

abbrev seams : Seams sample
seams = record {
  get = λ t req. ok (api req.namespace req.name);
  update = λ t a. ok a;
  apply_deployment = λ t d. none;
  apply_service = λ t s. none;
  delete_deployment = λ t d. none;
  delete_service = λ t s. none;
}

seams_Keeps : Keeps sample seams options
seams_Keeps t a b e = ap (λ (x : AggregatedApi sample). x.finalizers) (sym (ok_injective a b e))
  where
    ok_injective :
        (a b : AggregatedApi sample)
        → Path (Result SampleErr (AggregatedApi sample)) (ok a) (ok b)
        → a ≡ b
    ok_injective a b e = ground (arith, e)

reconcile-Guarded_example :
    Guarded sample seams options (reconcile sample seams options request []).1
reconcile-Guarded_example =
    reconcile-Guarded sample seams options sample_FinalizerLaws seams_Keeps request [] tt

reconcile_ends : (reconcile sample seams options request []).0 ≡ none
unfolding reconcile finalize finalize_service release
reconcile_ends = refl

reconcile_ok_example :
    let later = (reconcile sample seams options request []).1 in
    ((x : SampleErr) × (seams.get [] request ≡ err x)
      × (sample.is_not_found x ≡ true)
      × (later ≡ get_call request ∷ []))
    ⊎ ((a : AggregatedApi sample) × (seams.get [] request ≡ ok a)
        × (((a.deleting ≡ true) × Finalized sample seams options a (get_call request ∷ []) later)
            ⊎ ((a.deleting ≡ false)
                × Ensured sample seams options a (get_call request ∷ []) later)))
reconcile_ok_example = reconcile_ok sample seams options request [] reconcile_ends

to_aggregated_api-child_labels_example :
    to_aggregated_api (some (child_labels sample (api "default" "apps.v1")))
    ≡ (record { namespace = "default"; name = "apps.v1" } ∷ [])
to_aggregated_api-child_labels_example =
    to_aggregated_api-child_labels sample (api "default" "apps.v1") refl

children_fit_example :
    let a = api "team-a" "apps" in
    let given = count a.namespace + count a.name in
    ((deployment sample options a).name ≡ (service sample options a).name)
    × ((count (service sample options a).name ≤ 63) ↔ (given ≤ 51))
    × ((count (index "app.kubernetes.io/instance" (some (service sample options a).labels)) ≤ 63)
        ↔ (given ≤ 62))
    × ((count (index "app.kubernetes.io/instance" (some (deployment sample options a).labels)) ≤ 63)
        ↔ (given ≤ 62))
children_fit_example = children_fit sample options (api "team-a" "apps")
