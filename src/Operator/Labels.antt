-- ===== src/Operator/Labels.antt =====
-- What the operator's children are called and how they find each other and their parent.
use aggregated_apiserver_ope.Prelude.{String, ◌<>◌, ◌≡◌, refl, ◌∙◌, ap, false, some, [], ◌∷◌}
use text.Mathlib.TextLemmas.{append_assoc}
use aggregated_apiserver_ope.Prelude.Text.{contains_text, cut-append}
use aggregated_apiserver_ope.Kube.{Kube}
use aggregated_apiserver_ope.Operator.{AggregatedApi, to_aggregated_api, child_name, child_labels}

module _ (K : Kube) where
  -- A namespace has no dot, so an event on a child, or on anything with its labels, becomes one
  -- request for the object that the child was made for.
  pub to_aggregated_api-child_labels :
      (a : AggregatedApi K)
      → contains_text a.namespace "." ≡ false
      → to_aggregated_api (some (child_labels K a))
        ≡ (record { namespace = a.namespace; name = a.name } ∷ [])
  unfolding to_aggregated_api child_labels
  to_aggregated_api-child_labels a h =
      rw (to_aggregated_api, child_labels, cut-append a.namespace a.name h) refl

  -- Two objects whose namespace and name meet at different dashes have one child name: the object
  -- `z` of the namespace `x-y` and the object `y-z` of the namespace `x`.
  pub child_name-dashes :
      (a b : AggregatedApi K) (x y z : String)
      → a.namespace ≡ x <> ("-" <> y)
      → a.name ≡ z
      → b.namespace ≡ x
      → b.name ≡ y <> ("-" <> z)
      → child_name K a ≡ child_name K b
  unfolding child_name
  child_name-dashes a b x y z p q r s =
      rw (p, q, r, s)
        (ap (λ n. "aggregator-" <> n)
          (append_assoc x ("-" <> y) ("-" <> z) ∙ ap (λ n. x <> n) (append_assoc "-" y ("-" <> z))))
