-- ===== src/Operator/Success.antt =====
-- What a pass of the operator's reconciler did where it ends without an error.
use aggregated_apiserver_ope.Prelude.{
  ◌≡◌, refl, sym, subst, ap, ◌∙◌, ◌⊎◌, inl, inr, true, false, none, ◌∷◌, ok, err, arith, Bool-cases,
  Option-cases, Result-cases,
}
use aggregated_apiserver_ope.Kube.{Kube}
use aggregated_apiserver_ope.Operator.{
  Options, AggregatedApi, NamespacedName, Seams, History, get_call, update_call, apply_deployment,
  apply_service, delete_deployment, delete_service, finalizer, deployment, service, fatal, release,
  finalize_service, finalize, apply_child_service, apply_children, ensure, reconcile,
}
use aggregated_apiserver_ope.Operator.Reconcile.{Gone, Cleared, fatal-Gone}

module _ (K : Kube) (seams : Seams K) (o : Options) where
  -- A pass over an object that is being deleted has nothing left to do, or it deleted both
  -- children and took the finalizer away.
  abbrev pub Finalized : AggregatedApi K → History K → History K → Type 0
  Finalized a t u =
      ((K.contains_finalizer a.finalizers finalizer ≡ false) × (u ≡ t))
      ⊎ ((b : AggregatedApi K) × (v : History K) × Cleared K seams o a v
          × (seams.update v (record a { finalizers = K.remove_finalizer a.finalizers finalizer })
              ≡ ok b)
          × (u
              ≡ update_call (record a { finalizers = K.remove_finalizer a.finalizers finalizer })
                ∷ v))

  -- A pass over any other object applied both children, after the finalizer was added where it was
  -- missing.
  abbrev pub Ensured : AggregatedApi K → History K → History K → Type 0
  Ensured a t u =
      let (fs, added) = K.add_finalizer a.finalizers finalizer in
      let a' : AggregatedApi K = record a { finalizers = fs } in
      (b : AggregatedApi K) × (v : History K) × (((added ≡ false) × (b ≡ a') × (v ≡ t))
        ⊎ ((added ≡ true) × (seams.update t a' ≡ ok b) × (v ≡ update_call a' ∷ t)))
      × (seams.apply_deployment v (deployment K o b) ≡ none)
      × (seams.apply_service (apply_deployment (deployment K o b) ∷ v) (service K o b) ≡ none)
      × (u ≡ apply_service (service K o b) ∷ apply_deployment (deployment K o b) ∷ v)

  release_ok :
      (a : AggregatedApi K) (t : History K)
      → (release K seams o a t).0 ≡ none
      → (b : AggregatedApi K) × (seams.update t
            (record a { finalizers = K.remove_finalizer a.finalizers finalizer })
          ≡ ok b)
        × ((release K seams o a t).1
            ≡ update_call (record a { finalizers = K.remove_finalizer a.finalizers finalizer }) ∷ t)
  unfolding release
  release_ok a t h =
      let a' : AggregatedApi K = record a {
        finalizers = K.remove_finalizer a.finalizers finalizer;
      } in
      elim (Result-cases (seams.update t a')) [
        | inl (b, e) ↦ (b, e, rw (release, e) refl)
        | inr (x, e) ↦ absurd (ground (arith, h, e))
      ]

  finalize_service_ok :
      (a : AggregatedApi K) (t : History K)
      → let u = delete_deployment (deployment K o a) ∷ t in
        Gone K seams o (seams.delete_deployment t (deployment K o a))
        → (finalize_service K seams o a u).0 ≡ none
        → Finalized a t (finalize_service K seams o a u).1
  unfolding finalize_service
  finalize_service_ok a t d h =
      let u = delete_deployment (deployment K o a) ∷ t in
      let v = delete_service (service K o a) ∷ u in
      elim (Option-cases (fatal K seams o (seams.delete_service u (service K o a)))) [
        | inr (x, s) ↦ absurd (ground (arith, h, s))
        | inl s ↦
            let (b, e, f) = release_ok a v (ground (arith, h, s)) in
            inr (b, v, (t, refl, d, fatal-Gone K seams o _ s), e, rw (finalize_service, s) f)
      ]

  finalize_ok :
      (a : AggregatedApi K) (t : History K)
      → (finalize K seams o a t).0 ≡ none
      → Finalized a t (finalize K seams o a t).1
  unfolding finalize
  finalize_ok a t h = elim (Bool-cases (K.contains_finalizer a.finalizers finalizer)) [
    | inr n ↦ inl (n, ground (arith, n))
    | inl y ↦ elim (Option-cases (fatal K seams o (seams.delete_deployment t (deployment K o a)))) [
      | inr (x, d) ↦ absurd (ground (arith, h, y, d))
      | inl d ↦
          subst (λ u. Finalized a t u) (ground (arith, y, d))
            (finalize_service_ok a t (fatal-Gone K seams o _ d) (ground (arith, h, y, d)))
    ]
  ]

  apply_children_ok :
      (a : AggregatedApi K) (t : History K)
      → (apply_children K seams o a t).0 ≡ none
      → (seams.apply_deployment t (deployment K o a) ≡ none)
        × (seams.apply_service (apply_deployment (deployment K o a) ∷ t) (service K o a) ≡ none)
        × ((apply_children K seams o a t).1
            ≡ apply_service (service K o a) ∷ apply_deployment (deployment K o a) ∷ t)
  unfolding apply_children apply_child_service
  apply_children_ok a t h = elim (Option-cases (seams.apply_deployment t (deployment K o a))) [
    | inr (x, d) ↦ absurd (ground (arith, h, d))
    | inl d ↦
        elim (Option-cases
          (seams.apply_service (apply_deployment (deployment K o a) ∷ t) (service K o a))) [
            | inr (x, s) ↦ absurd (ground (arith, h, d, s))
            | inl s ↦ (d, s, rw (apply_children, d, apply_child_service, s) refl)
          ]
  ]

  ensure_ok :
      (a : AggregatedApi K) (t : History K)
      → (ensure K seams o a t).0 ≡ none
      → Ensured a t (ensure K seams o a t).1
  unfolding ensure
  ensure_ok a t h =
      let (fs, added) = K.add_finalizer a.finalizers finalizer in
      let a' : AggregatedApi K = record a { finalizers = fs } in
      elim (Bool-cases added) [
        | inr n ↦
            let (d, s, e) = apply_children_ok a' t (ground (arith, h, n)) in
            (a', t, inl (n, refl, refl), d, s, rw (n, ensure) e)
        | inl y ↦ elim (Result-cases (seams.update t a')) [
          | inr (x, u) ↦ absurd (ground (arith, h, y, u))
          | inl (b, u) ↦
              let v = update_call a' ∷ t in
              let (d, s, e) = apply_children_ok b v (ground (arith, h, y, u)) in
              (b, v, inr (y, u, refl), d, s, rw (y, u, ensure) e)
        ]
      ]

  -- A pass that ends without an error did the whole work: the object is gone and nothing else was
  -- called; or it is being deleted, and either it had no finalizer and nothing else was called, or
  -- its children were deleted, the deployment first, each answered without an error or with
  -- "not found", and the finalizer was then taken away; or it
  -- is not, and its deployment and then its service were applied, as the server had the object
  -- after the finalizer was added.
  pub reconcile_ok :
      (req : NamespacedName) (t : History K)
      → let (result, later) = reconcile K seams o req t in
        result ≡ none
        → ((x : K.Err) × (seams.get t req ≡ err x)
            × (K.is_not_found x ≡ true)
            × (later ≡ get_call req ∷ t))
          ⊎ ((a : AggregatedApi K) × (seams.get t req ≡ ok a)
              × (((a.deleting ≡ true) × Finalized a (get_call req ∷ t) later)
                  ⊎ ((a.deleting ≡ false) × Ensured a (get_call req ∷ t) later)))
  unfolding reconcile
  reconcile_ok req t h = elim (Result-cases (seams.get t req)) [
    | inr (x, e) ↦ elim (Bool-cases (K.is_not_found x)) [
      | inl n ↦ inl (x, e, n, rw (reconcile, e, n) refl)
      | inr n ↦ absurd (ground (arith, h, e, n))
    ]
    | inl (a, e) ↦
        let u = get_call req ∷ t in
        inr (
          a,
          e,
          elim (Bool-cases a.deleting) [
            | inl d ↦
                let same : reconcile K seams o req t ≡ finalize K seams o a u =
                  ground (arith, e, d) in
                inl (
                  d,
                  subst (λ r. Finalized a u r.1) (sym same)
                      (finalize_ok a u (ap (λ r. r.0) (sym same) ∙ h)),
                )
            | inr d ↦
                let same : reconcile K seams o req t ≡ ensure K seams o a u =
                  ground (arith, e, d) in
                inr (
                  d,
                  subst (λ r. Ensured a u r.1) (sym same)
                      (ensure_ok a u (ap (λ r. r.0) (sym same) ∙ h)),
                )
          ],
        )
  ]
