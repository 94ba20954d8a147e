-- ===== src/Operator/Lengths.antt =====
-- The lengths of the children's names and labels.
use Prim.Native.String.{count}
use text.Mathlib.TextLemmas.{length-append}
use aggregated_apiserver_ope.Prelude.{◌<>◌, ◌≡◌, ◌+◌, ◌≤◌, ◌↔◌, arith, some, refl}
use aggregated_apiserver_ope.Meta.{index}
use aggregated_apiserver_ope.Kube.{Kube}
use aggregated_apiserver_ope.Operator.{
  Options, AggregatedApi, child_name, child_labels, deployment, service,
}

module _ (K : Kube) where
  count-child_name :
      (a : AggregatedApi K) → count (child_name K a) ≡ 12 + count a.namespace + count a.name
  unfolding child_name
  count-child_name a = omega (
    arith,
    length-append "aggregator-" (a.namespace <> ("-" <> a.name)),
    length-append a.namespace ("-" <> a.name),
    length-append "-" a.name,
  )

  count-instance :
      (a : AggregatedApi K)
      → count (index "app.kubernetes.io/instance" (some (child_labels K a)))
        ≡ 1 + count a.namespace + count a.name
  unfolding child_labels
  count-instance a =
      omega (arith, length-append a.namespace ("." <> a.name), length-append "." a.name)

  -- Kubernetes lets a service's name and a label's value have 63 characters. The service's name,
  -- which is the deployment's, is as short exactly if the namespace and the name of the
  -- AggregatedAPI have 51 characters at most, both together; the instance label of both children
  -- is, exactly if they have 62 at most.
  pub children_fit :
      (o : Options) (a : AggregatedApi K)
      → let given = count a.namespace + count a.name in
        ((deployment K o a).name ≡ (service K o a).name)
        × ((count (service K o a).name ≤ 63) ↔ (given ≤ 51))
        × ((count (index "app.kubernetes.io/instance" (some (service K o a).labels)) ≤ 63)
            ↔ (given ≤ 62))
        × ((count (index "app.kubernetes.io/instance" (some (deployment K o a).labels)) ≤ 63)
            ↔ (given ≤ 62))
  unfolding deployment service
  children_fit o a = (
    refl,
    (λ h. omega (arith, count-child_name a), λ h. omega (arith, count-child_name a)),
    (λ h. omega (arith, count-instance a), λ h. omega (arith, count-instance a)),
    (λ h. omega (arith, count-instance a), λ h. omega (arith, count-instance a)),
  )
