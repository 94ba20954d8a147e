-- ===== src/Discovery/Merge.antt =====
-- What the map `merged` of `Union` holds after its loops.
use aggregated_apiserver_ope.Prelude.{
  String, ◌≡◌, ◌↔◌, ◌∙◌, refl, subst, ◌||◌, Option, none, some, List, [], ◌∷◌, ◌++◌, inl, inr,
  Bool-cases, Option-cases, lookup, update, lookup-update, arith, ◌==◌, bool_eq, if◌then◌else◌, ok,
  >>=-eq-ok, beq_refl,
}
use aggregated_apiserver_ope.Meta.{Gvr, gvr_eq, gvk_eq}
use aggregated_apiserver_ope.Kube.{Kube}
use aggregated_apiserver_ope.Discovery.{
  ServedResource, Merged, merge, merge_resources, merge_clusters,
}

-- The resources of one cluster's list that are the group-version-resource `g`.
abbrev pub of_gvr : Gvr → String → List ServedResource → List (String × ServedResource)
of_gvr g cluster [] = []
of_gvr g cluster (r ∷ rest) =
    let others = of_gvr g cluster rest in if r.gvr == g then (cluster, r) ∷ others else others

-- Who serves `g`, in the order of the loops.
abbrev pub serving : Gvr → List (String × List ServedResource) → List (String × ServedResource)
serving g [] = []
serving g ((cluster, resources) ∷ rest) = of_gvr g cluster resources ++ serving g rest

-- One more cluster that serves a resource.
abbrev pub absorb : Option ServedResource → String × ServedResource → Option ServedResource
absorb none (cluster, r) = some (record r { clusters = cluster ∷ [] })
absorb (some e) (cluster, r) =
    some (record e { status = e.status || r.status; clusters = e.clusters ++ (cluster ∷ []) })

abbrev pub absorb_all :
    Option ServedResource → List (String × ServedResource) → Option ServedResource
absorb_all o [] = o
absorb_all o (x ∷ xs) = absorb_all (absorb o x) xs

-- The clusters agree on kind and scope.
abbrev pub Agrees : ServedResource → ServedResource → Type 0
Agrees e r = (e.kind ≡ r.kind) × (e.namespaced ≡ r.namespaced)

abbrev pub AgreesIfAny : Option ServedResource → ServedResource → Type 0
AgreesIfAny none r = Unit
AgreesIfAny (some e) r = Agrees e r

absorb_all-append :
    (o : Option ServedResource) (xs ys : List (String × ServedResource))
    → absorb_all o (xs ++ ys) ≡ absorb_all (absorb_all o xs) ys
absorb_all-append o [] ys = refl
absorb_all-append o (x ∷ xs) ys = absorb_all-append (absorb o x) xs ys

module _ (K : Kube) where
  -- What one successful turn has found and written.
  pub merge-eq-ok :
      (cluster : String) (r : ServedResource) (m : Merged) {n : Merged}
      → merge K cluster r m ≡ ok n
      → AgreesIfAny (lookup r.gvr m) r
        × ((v : ServedResource) × (absorb (lookup r.gvr m) (cluster, r) ≡ some v)
            × (n ≡ update r.gvr v m))
  unfolding merge
  merge-eq-ok cluster r m h = elim (Option-cases (lookup r.gvr m)) [
    | inl e ↦ rw e (tt, (_, refl, ground (arith, e)))
    | inr (x, e) ↦ rw e (
      (
        ground (arith, e, gvk_eq.beq_iff x.kind r.kind),
        ground (arith, e, bool_eq.beq_iff x.namespaced r.namespaced),
      ),
      (_, refl, ground (arith, e)),
    )
  ]

  lookup-merge :
      (cluster : String) (r : ServedResource) (m : Merged) {n : Merged} (g : Gvr)
      → merge K cluster r m ≡ ok n
      → lookup g n ≡ (if r.gvr == g then absorb (lookup g m) (cluster, r) else lookup g m)
  lookup-merge cluster r m g h =
      let (_, (v, a, w)) = merge-eq-ok cluster r m h in
      rw (w, lookup-update) (ground (arith, gvr_eq.beq_iff r.gvr g, a))

  -- A turn succeeds where the clusters so far agree with this one.
  merge_total :
      (cluster : String) (r : ServedResource) (m : Merged)
      → AgreesIfAny (lookup r.gvr m) r
      → (n : Merged) × (merge K cluster r m ≡ ok n)
  unfolding merge
  merge_total cluster r m h = elim (Option-cases (lookup r.gvr m)) [
    | inl e ↦ rw (e, merge) (_, refl)
    | inr (x, e) ↦
        let a : Agrees x r = rw e at h in
        rw
          (
            e,
            merge,
            (gvk_eq.beq_iff x.kind r.kind).1 a.0,
            (bool_eq.beq_iff x.namespaced r.namespaced).1 a.1,
          )
          (_, refl)
  ]

  lookup-merge_resources :
      (cluster : String) (rs : List ServedResource) (m : Merged) {n : Merged} (g : Gvr)
      → merge_resources K cluster rs m ≡ ok n
      → lookup g n ≡ absorb_all (lookup g m) (of_gvr g cluster rs)
  unfolding merge_resources
  lookup-merge_resources cluster [] m g h = ground (arith, h)
  lookup-merge_resources cluster (r ∷ rs) m g h =
      let (k, e, f) = >>=-eq-ok (merge_resources K cluster rs) (merge K cluster r m) h in
      lookup-merge_resources cluster rs k g f
      ∙ rw (lookup-merge cluster r m g e)
          (elim (Bool-cases (r.gvr == g)) [ inl t ↦ rw t | inr t ↦ rw t ])

  pub lookup-merge_clusters :
      (bc : List (String × List ServedResource)) (m : Merged) {n : Merged} (g : Gvr)
      → merge_clusters K bc m ≡ ok n
      → lookup g n ≡ absorb_all (lookup g m) (serving g bc)
  unfolding merge_clusters
  lookup-merge_clusters [] m g h = ground (arith, h)
  lookup-merge_clusters ((c, rs) ∷ rest) m g h =
      let (k, e, f) = >>=-eq-ok (merge_clusters K rest) (merge_resources K c rs m) h in
      lookup-merge_clusters rest k g f
      ∙ rw (lookup-merge_resources c rs m g e) (rw absorb_all-append)

-- Each cluster agrees with what the ones before it have made.
abbrev pub Uniform : Option ServedResource → List (String × ServedResource) → Type 0
Uniform o [] = Unit
Uniform o (x ∷ xs) = AgreesIfAny o x.1 × Uniform (absorb o x) xs

Uniform-append :
    (o : Option ServedResource) (xs ys : List (String × ServedResource))
    → Uniform o (xs ++ ys) ↔ (Uniform o xs × Uniform (absorb_all o xs) ys)
Uniform-append o [] ys = (λ h. (tt, h), λ h. h.1)
Uniform-append o (x ∷ xs) ys = (
  λ h. let (u, v) = (Uniform-append (absorb o x) xs ys).0 h.1 in ((h.0, u), v),
  λ h. (h.0.0, (Uniform-append (absorb o x) xs ys).1 (h.0.1, h.1)),
)

module _ (K : Kube) where
  Uniform-merge :
      (cluster : String) (r : ServedResource) (m : Merged) {n : Merged} (g : Gvr)
      (rs : List ServedResource)
      → merge K cluster r m ≡ ok n
      → Uniform (lookup g m) (of_gvr g cluster (r ∷ rs))
        ↔ Uniform (lookup g n) (of_gvr g cluster rs)
  Uniform-merge cluster r m g rs e = elim (Bool-cases (r.gvr == g)) [
    | inl t ↦
        let agrees : AgreesIfAny (lookup g m) r =
          subst (λ j. AgreesIfAny (lookup j m) r) ((gvr_eq.beq_iff r.gvr g).0 t)
            (merge-eq-ok K cluster r m e).0 in
        rw (lookup-merge K cluster r m g e) (rw t (λ h. h.1, λ h. (agrees, h)))
    | inr t ↦ rw (lookup-merge K cluster r m g e) (rw t (λ h. h, λ h. h))
  ]

  merge_resources-Uniform :
      (cluster : String) (rs : List ServedResource) (m : Merged) {n : Merged}
      → merge_resources K cluster rs m ≡ ok n
      → (g : Gvr) → Uniform (lookup g m) (of_gvr g cluster rs)
  unfolding merge_resources
  merge_resources-Uniform cluster [] m h g = tt
  merge_resources-Uniform cluster (r ∷ rs) m h g =
      let (k, e, f) = >>=-eq-ok (merge_resources K cluster rs) (merge K cluster r m) h in
      (Uniform-merge cluster r m g rs e).1 (merge_resources-Uniform cluster rs k f g)

  Uniform-merge_resources :
      (cluster : String) (rs : List ServedResource) (m : Merged)
      → ((g : Gvr) → Uniform (lookup g m) (of_gvr g cluster rs))
      → (n : Merged) × (merge_resources K cluster rs m ≡ ok n)
  unfolding merge_resources
  Uniform-merge_resources cluster [] m h = (m, refl)
  Uniform-merge_resources cluster (r ∷ rs) m h =
      let first : Uniform (lookup r.gvr m) ((cluster, r) ∷ of_gvr r.gvr cluster rs) =
        rw (beq_refl r.gvr) at (h r.gvr) in
      let (k, e) = merge_total K cluster r m first.0 in
      let (n, f) =
        Uniform-merge_resources cluster rs k (λ g. (Uniform-merge cluster r m g rs e).0 (h g)) in
      (n, rw e f)

  pub merge_clusters-Uniform :
      (bc : List (String × List ServedResource)) (m : Merged) {n : Merged}
      → merge_clusters K bc m ≡ ok n
      → (g : Gvr) → Uniform (lookup g m) (serving g bc)
  unfolding merge_clusters
  merge_clusters-Uniform [] m h g = tt
  merge_clusters-Uniform ((c, rs) ∷ rest) m h g =
      let (k, e, f) = >>=-eq-ok (merge_clusters K rest) (merge_resources K c rs m) h in
      (Uniform-append (lookup g m) (of_gvr g c rs) (serving g rest)).1 (
        merge_resources-Uniform c rs m e g,
        rw (lookup-merge_resources K c rs m g e) at (merge_clusters-Uniform rest k f g),
      )

  pub Uniform-merge_clusters :
      (bc : List (String × List ServedResource)) (m : Merged)
      → ((g : Gvr) → Uniform (lookup g m) (serving g bc))
      → (n : Merged) × (merge_clusters K bc m ≡ ok n)
  unfolding merge_clusters
  Uniform-merge_clusters [] m h = (m, refl)
  Uniform-merge_clusters ((c, rs) ∷ rest) m h =
      let split =
        λ (g : Gvr). (Uniform-append (lookup g m) (of_gvr g c rs) (serving g rest)).0 (h g) in
      let (k, e) = Uniform-merge_resources c rs m (λ g. (split g).0) in
      let (n, f) =
        Uniform-merge_clusters rest k (λ g. rw (lookup-merge_resources K c rs m g e) (split g).1) in
      (n, rw e f)
