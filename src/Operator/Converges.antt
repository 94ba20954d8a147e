-- ===== src/Operator/Converges.antt =====
-- Passes against a server that refuses nothing.
use aggregated_apiserver_ope.Prelude.{
  ◌≡◌, ◌∙◌, refl, sym, subst, ap, inl, inr, true, false, none, some, ◌∷◌, string_eq, Bool-cases,
  Option-cases, arith, ok, err,
}
use aggregated_apiserver_ope.Kube.{Kube}
use aggregated_apiserver_ope.Kube.Laws.{FinalizerLaws}
use aggregated_apiserver_ope.Operator.{
  Options, AggregatedApi, NamespacedName, Seams, History, get_call, update_call, apply_deployment,
  apply_service, delete_deployment, delete_service, finalizer, child_name, deployment, service,
  reconcile, ensure, finalize, finalize_service, release, apply_children, apply_child_service,
}
use aggregated_apiserver_ope.Operator.Stable.{
  passed_twice, passed_live, passed_deleting, passed_released, passed_missing,
}
use aggregated_apiserver_ope.Operator.World.{World, replay, Serves, passed}

module _ (K : Kube) (o : Options) (seams : Seams K) (req : NamespacedName) (w : World K)
    (serves : Serves K o seams req w) where
  apply_children_runs :
      (a : AggregatedApi K) (t : History K)
      → apply_children K seams o a t
        ≡ (none, apply_service (service K o a) ∷ apply_deployment (deployment K o a) ∷ t)
  unfolding apply_children apply_child_service
  apply_children_runs a t = ground (
    arith,
    serves.apply_deployment t (deployment K o a),
    serves.apply_service (apply_deployment (deployment K o a) ∷ t) (service K o a),
  )

  finalize_service_runs :
      (a : AggregatedApi K) (t : History K)
      → finalize_service K seams o a t ≡ (
        none,
        update_call (record a { finalizers = K.remove_finalizer a.finalizers finalizer })
            ∷ delete_service (service K o a)
            ∷ t,
      )
  unfolding finalize_service release
  finalize_service_runs a t =
      let a' : AggregatedApi K = record a {
        finalizers = K.remove_finalizer a.finalizers finalizer;
      } in
      rw (finalize_service, serves.delete_service t (service K o a))
        (rw (release, serves.update (delete_service (service K o a) ∷ t) a') refl)

  finalize_runs :
      (a : AggregatedApi K) (t : History K)
      → K.contains_finalizer a.finalizers finalizer ≡ true
      → finalize K seams o a t ≡ (
        none,
        update_call (record a { finalizers = K.remove_finalizer a.finalizers finalizer })
            ∷ delete_service (service K o a)
            ∷ delete_deployment (deployment K o a)
            ∷ t,
      )
  unfolding finalize
  finalize_runs a t h =
      rw (finalize, h, serves.delete_deployment t (deployment K o a))
        (finalize_service_runs a (delete_deployment (deployment K o a) ∷ t))

  -- The two calls' effects, beside the object's.
  deployment_name : (a : AggregatedApi K) → (deployment K o a).name ≡ child_name K a
  unfolding deployment
  deployment_name a = refl

  ensure_runs :
      (a : AggregatedApi K) (t : History K)
      → a.deleting ≡ false
      → (replay K w t).object ≡ some a
      → let (result, later) = ensure K seams o a t in
        (result ≡ none) × (replay K w later ≡ passed K o (replay K w t))
  unfolding ensure deployment service child_name
  ensure_runs a t live here =
      let (fs, added) = K.add_finalizer a.finalizers finalizer in
      let a' : AggregatedApi K = record a { finalizers = fs } in
      let goal = passed_live K o (replay K w t) a here live in
      elim (Bool-cases added) [
        | inr n ↦
            rw (ensure, n, apply_children_runs a' t)
              (refl, rw (replay, here, n, live) refl ∙ sym goal)
        | inl y ↦
            rw (ensure, y, serves.update t a', apply_children_runs a' (update_call a' ∷ t))
              (refl, rw (live, y) refl ∙ sym goal)
      ]

  finalize_whole :
      (a : AggregatedApi K) (t : History K)
      → a.deleting ≡ true
      → (replay K w t).object ≡ some a
      → let (result, later) = finalize K seams o a t in
        (result ≡ none) × (replay K w later ≡ passed K o (replay K w t))
  unfolding deployment service child_name finalize
  finalize_whole a t gone here = elim (Bool-cases (K.contains_finalizer a.finalizers finalizer)) [
    | inl h ↦
        rw (finalize_runs a t h)
          (refl, rw gone refl ∙ sym (passed_deleting K o (replay K w t) a here gone h))
    | inr h ↦ rw (finalize, h) (refl, sym (passed_released K o (replay K w t) a here gone h))
  ]

  reconcile_runs :
      (t : History K)
      → let (result, later) = reconcile K seams o req t in
        (result ≡ none) × (replay K w later ≡ passed K o (replay K w t))
  unfolding reconcile
  reconcile_runs t = elim (Option-cases (replay K w t).object) [
    | inl e ↦
        let asked : seams.get t req ≡ err serves.missing = serves.get t ∙ rw e refl in
        rw (reconcile, asked, serves.missing_lem) (refl, sym (passed_missing K o (replay K w t) e))
    | inr (a, e) ↦
        let asked : seams.get t req ≡ ok a = serves.get t ∙ rw e refl in
        let u = get_call req ∷ t in
        elim (Bool-cases a.deleting) [
          | inl gone ↦
              let same : reconcile K seams o req t ≡ finalize K seams o a u =
                ground (arith, asked, gone) in
              subst (λ r. (r.0 ≡ none) × (replay K w r.1 ≡ passed K o (replay K w t))) (sym same)
                (finalize_whole a u gone e)
          | inr live ↦
              let same : reconcile K seams o req t ≡ ensure K seams o a u =
                ground (arith, asked, live) in
              subst (λ r. (r.0 ≡ none) × (replay K w r.1 ≡ passed K o (replay K w t))) (sym same)
                (ensure_runs a u live e)
        ]
  ]

  -- Against a server that refuses nothing, and in whatever state the AggregatedAPI and its children
  -- are, a pass ends without an error and makes just this of the server: nothing, if the object is
  -- gone, or is being deleted and has lost the finalizer; neither child and no finalizer, if it is
  -- being deleted; and otherwise the finalizer, and the deployment and the service of the object as
  -- it is, with no other deployment or service touched. A second pass ends without an error too and
  -- changes nothing.
  pub reconcile_converges :
      FinalizerLaws K
      → (t : History K)
      → let (result, later) = reconcile K seams o req t in
        let (again, last) = reconcile K seams o req later in
        (result ≡ none)
        × (replay K w later ≡ passed K o (replay K w t))
        × (again ≡ none)
        × (replay K w last ≡ replay K w later)
  reconcile_converges laws t =
      let (result, first) = reconcile_runs t in
      let (again, second) = reconcile_runs (reconcile K seams o req t).1 in
      (
        result,
        first,
        again,
        second ∙ ap (passed K o) first ∙ passed_twice K o laws (replay K w t) ∙ sym first,
      )
