-- ===== src/Operator/Reconcile.antt =====
-- What one pass of the operator's reconciler does, in which order, and what it leaves behind.
use aggregated_apiserver_ope.Prelude.{
  ◌≡◌, ◌⊎◌, refl, ap, ◌∙◌, inl, inr, true, false, Option, none, some, [], ◌∷◌, ok, arith,
  Bool-cases, Option-cases, Result-cases, if◌then◌else◌,
}
use aggregated_apiserver_ope.Kube.{Kube}
use aggregated_apiserver_ope.Kube.Laws.{FinalizerLaws}
use aggregated_apiserver_ope.Operator.{
  Options, AggregatedApi, NamespacedName, Seams, History, get_call, update_call, apply_deployment,
  apply_service, delete_deployment, delete_service, finalizer, deployment, service, fatal, release,
  finalize_service, finalize, apply_child_service, apply_children, ensure, reconcile,
}

module _ (K : Kube) (seams : Seams K) (o : Options) where
  -- The delete was answered: the child is deleted, or there was none.
  abbrev pub Gone : Option K.Err → Type 0
  Gone answer = (answer ≡ none) ⊎ ((e : K.Err) × (answer ≡ some e) × (K.is_not_found e ≡ true))

  pub fatal-Gone : (answer : Option K.Err) → fatal K seams o answer ≡ none → Gone answer
  fatal-Gone none h = inl refl
  fatal-Gone (some e) h = elim (Bool-cases (K.is_not_found e)) [
    | inl n ↦ inr (e, refl, n)
    | inr n ↦ absurd (ground (arith, h, n))
  ]

  -- Both children of the object were deleted, in the last two calls.
  abbrev pub Cleared : AggregatedApi K → History K → Type 0
  Cleared a t =
      (v : History K) × (t
        ≡ delete_service (service K o a) ∷ delete_deployment (deployment K o a) ∷ v)
      × Gone (seams.delete_deployment v (deployment K o a))
      × Gone (seams.delete_service (delete_deployment (deployment K o a) ∷ v) (service K o a))

  -- An update that writes an object without the finalizer follows the deletion of its children,
  -- and a child is applied only for an object that has the finalizer.
  abbrev pub Guarded : History K → Type 0
  Guarded [] = Unit
  Guarded (get_call req ∷ t) = Guarded t
  Guarded (update_call a ∷ t) =
      (K.contains_finalizer a.finalizers finalizer ≡ false → Cleared a t) × Guarded t
  Guarded (apply_deployment d ∷ t) =
      ((a : AggregatedApi K) × (d ≡ deployment K o a)
        × (K.contains_finalizer a.finalizers finalizer ≡ true))
      × Guarded t
  Guarded (apply_service s ∷ t) =
      ((a : AggregatedApi K) × (s ≡ service K o a)
        × (K.contains_finalizer a.finalizers finalizer ≡ true))
      × Guarded t
  Guarded (delete_deployment d ∷ t) = Guarded t
  Guarded (delete_service s ∷ t) = Guarded t

  release-Guarded :
      (a : AggregatedApi K) (t : History K)
      → Cleared a t
      → Guarded t
      → Guarded (release K seams o a t).1
  unfolding release service deployment
  release-Guarded a t c h =
      let a' : AggregatedApi K = record a {
        finalizers = K.remove_finalizer a.finalizers finalizer;
      } in
      elim (Result-cases (seams.update t a')) [
        | inl (b, e) ↦ rw (release, e) (λ n. c, h)
        | inr (x, e) ↦ rw (release, e) (λ n. c, h)
      ]

  finalize_service-Guarded :
      (a : AggregatedApi K) (t : History K)
      → Gone (seams.delete_deployment t (deployment K o a))
      → Guarded t
      → Guarded (finalize_service K seams o a (delete_deployment (deployment K o a) ∷ t)).1
  unfolding finalize_service
  finalize_service-Guarded a t d h =
      let u = delete_deployment (deployment K o a) ∷ t in
      elim (Option-cases (fatal K seams o (seams.delete_service u (service K o a)))) [
        | inr (x, s) ↦ rw (finalize_service, s) h
        | inl s ↦
            rw (finalize_service, s)
              (release-Guarded a (delete_service (service K o a) ∷ u) (t, refl, d, fatal-Gone _ s)
                h)
      ]

  finalize-Guarded :
      (a : AggregatedApi K) (t : History K) → Guarded t → Guarded (finalize K seams o a t).1
  unfolding finalize
  finalize-Guarded a t h = elim (Bool-cases (K.contains_finalizer a.finalizers finalizer)) [
    | inr n ↦ rw (n, finalize) h
    | inl y ↦ elim (Option-cases (fatal K seams o (seams.delete_deployment t (deployment K o a)))) [
      | inr (x, d) ↦ rw (y, d, finalize) h
      | inl d ↦ rw (y, d, finalize) (finalize_service-Guarded a t (fatal-Gone _ d) h)
    ]
  ]

  apply_children-Guarded :
      (a : AggregatedApi K) (t : History K)
      → K.contains_finalizer a.finalizers finalizer ≡ true
      → Guarded t
      → Guarded (apply_children K seams o a t).1
  unfolding apply_children apply_child_service
  apply_children-Guarded a t f h =
      elim (Option-cases (seams.apply_deployment t (deployment K o a))) [
        | inr (x, d) ↦ rw (apply_children, d) ((a, refl, f), h)
        | inl d ↦
            elim (Option-cases
              (seams.apply_service (apply_deployment (deployment K o a) ∷ t) (service K o a))) [
                | inr (x, s) ↦
                    rw (apply_children, d, apply_child_service, s) ((a, refl, f), ((a, refl, f), h))
                | inl s ↦
                    rw (apply_children, d, apply_child_service, s) ((a, refl, f), ((a, refl, f), h))
              ]
      ]

  -- The server keeps the finalizers of an object that is written.
  abbrev pub Keeps : Type 0
  Keeps =
      (t : History K) (a b : AggregatedApi K)
      → seams.update t a ≡ ok b
      → b.finalizers ≡ a.finalizers

  module _ (F : FinalizerLaws K) (keeps : Keeps) where
    ensure-Guarded :
        (a : AggregatedApi K) (t : History K) → Guarded t → Guarded (ensure K seams o a t).1
    unfolding ensure
    ensure-Guarded a t h =
        let (fs, added) = K.add_finalizer a.finalizers finalizer in
        let a' : AggregatedApi K = record a { finalizers = fs } in
        let has = F.contains-add a.finalizers finalizer in
        elim (Bool-cases added) [
          | inr n ↦ rw (n, ensure) (apply_children-Guarded a' t has h)
          | inl y ↦ elim (Result-cases (seams.update t a')) [
            | inr (x, e) ↦ rw (y, e, ensure) (λ n. absurd (ground (arith, n, has)), h)
            | inl (b, e) ↦
                rw (y, e, ensure)
                  (apply_children-Guarded b (update_call a' ∷ t)
                    (ap (λ gs. K.contains_finalizer gs finalizer) (keeps t a' b e) ∙ has)
                    (λ n. absurd (ground (arith, n, has)), h))
          ]
        ]

    -- Every pass keeps the order of things, whatever the server answers, errors included, as long as
    -- an update that it accepts keeps the finalizers that were sent: if every call so far is
    -- guarded, so is every call after the pass. A call is guarded if it is not an update that writes
    -- an object without the finalizer, or its two predecessors deleted the object's deployment and
    -- its service, each answered without an error or with "not found"; and if it is not the
    -- application of a child, or it is a child of an object that has the finalizer.
    pub reconcile-Guarded :
        (req : NamespacedName) (t : History K) → Guarded t → Guarded (reconcile K seams o req t).1
    unfolding reconcile
    reconcile-Guarded req t h = elim (Result-cases (seams.get t req)) [
      | inr (x, e) ↦ elim (Bool-cases (K.is_not_found x)) [
        | inl n ↦ rw (reconcile, e, n) h
        | inr n ↦ rw (reconcile, e, n) h
      ]
      | inl (a, e) ↦
          let u = get_call req ∷ t in
          rw (reconcile, e)
            (elim a.deleting
              as (λ d. Guarded (if d then finalize K seams o a u else ensure K seams o a u).1) [
                | true ↦ finalize-Guarded a u h
                | false ↦ ensure-Guarded a u h
              ])
    ]
