-- ===== src/Operator/Started.antt =====
-- The operator's controller as Setup makes it, on a client of a server that refuses nothing.
use aggregated_apiserver_ope.Prelude.{◌≡◌, ◌⊎◌, refl, inl, inr, true, none, some, [], ◌∷◌, ok, err}
use aggregated_apiserver_ope.Kube.{Kube}
use aggregated_apiserver_ope.Kube.Laws.{FinalizerLaws}
use aggregated_apiserver_ope.Operator.{
  Options, defaults, AggregatedApi, NamespacedName, Seams, History, field_owner, reconcile, fatal,
}
use aggregated_apiserver_ope.Operator.World.{World, replay, Serves, passed}
use aggregated_apiserver_ope.Operator.Converges.{reconcile_converges}
use aggregated_apiserver_ope.Operator.Setup.{
  Child, deployment_child, service_child, owned_by, force_ownership, ManagerClient, GivenSeams,
  default_apply, setup_seams, new_controller, validate, setup,
}

module _ (K : Kube) (client : ManagerClient K) where
  -- The client reaches a server that has the object of this request and refuses nothing; it applies
  -- what this operator owns by force, and every child can be converted.
  pub record Answers (req : NamespacedName) (w : World K) : Type 0 where
    pub missing : K.Err
    pub missing_lem : K.is_not_found missing ≡ true
    pub get :
        (t : History K)
        → client.get t req ≡ (elim (replay K w t).object [ none ↦ err missing | some a ↦ ok a ])
    pub update : (t : History K) (a : AggregatedApi K) → client.update t a ≡ ok a
    pub converts :
        (c : Child) → (content : client.Content) × (client.to_unstructured c ≡ ok content)
    pub apply :
        (t : History K) (content : client.Content)
        → client.apply t content (owned_by field_owner ∷ force_ownership ∷ []) ≡ none
    pub delete :
        (t : History K) (c : Child)
        → (client.delete t c ≡ none)
          ⊎ ((e : K.Err) × (client.delete t c ≡ some e) × (K.is_not_found e ≡ true))

  abbrev pub no_seams : GivenSeams K
  no_seams = record { get = none; apply = none; update = none; delete = none }

  module _ (o : Options) (req : NamespacedName) (w : World K) (answers : Answers req w) where
    default_apply-none : (t : History K) (c : Child) → default_apply K client t c ≡ none
    unfolding default_apply
    default_apply-none t c =
        let (content, e) = answers.converts c in rw (default_apply, e) (answers.apply t content)

    delete-fatal :
        (seams : Seams K) (t : History K) (c : Child) → fatal K seams o (client.delete t c) ≡ none
    delete-fatal seams t c = elim (answers.delete t c) [
      | inl e ↦ rw e refl
      | inr (x, e, n) ↦ rw (e, n) refl
    ]

    setup-Serves : Serves K o (setup_seams K client no_seams) req w
    unfolding setup_seams
    setup-Serves = record {
      missing = answers.missing;
      missing_lem = answers.missing_lem;
      get = answers.get;
      update = answers.update;
      apply_deployment = λ t d. default_apply-none t (deployment_child d);
      apply_service = λ t s. default_apply-none t (service_child s);
      delete_deployment =
          λ t d. delete-fatal (setup_seams K client no_seams) t (deployment_child d);
      delete_service = λ t s. delete-fatal (setup_seams K client no_seams) t (service_child s);
    }

  -- `Setup` with no functions of its own succeeds where the registration does, and its controller
  -- brings the server where it is to be. Against a server that refuses nothing, and accepts what is
  -- applied by force for this operator's field owner, and in whatever state the AggregatedAPI and
  -- its children are, a pass ends without an error and makes just this of the server: nothing, if
  -- the object is gone, or is being deleted and has lost the finalizer; neither child and no
  -- finalizer, if it is being deleted; and otherwise the finalizer, and the deployment and the
  -- service of the object as it is, under the options with their defaults, with no other deployment
  -- or service touched. A second pass ends without an error too and changes nothing.
  pub setup_converges :
      (o : Options) (req : NamespacedName) (w : World K)
      → FinalizerLaws K
      → Answers req w
      → (t : History K)
      → (seams : Seams K) × (setup K client none o no_seams ≡ ok (defaults o, seams))
        × (let (result, later) = reconcile K seams (defaults o) req t in
            let (again, last) = reconcile K seams (defaults o) req later in
            (result ≡ none)
            × (replay K w later ≡ passed K (defaults o) (replay K w t))
            × (again ≡ none)
            × (replay K w last ≡ replay K w later))
  unfolding setup new_controller validate
  setup_converges o req w laws answers t =
      let seams = setup_seams K client no_seams in
      (
        seams,
        refl,
        reconcile_converges K (defaults o) seams req w (setup-Serves (defaults o) req w answers)
            laws t,
      )
