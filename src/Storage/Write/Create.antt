-- ===== src/Storage/Write/Create.antt =====
-- Where `Create` creates.
use aggregated_apiserver_ope.Prelude.{
  String, ◌≡◌, ◌≢◌, ◌⊎◌, ◌∙◌, refl, ap, true, List, [], ◌∷◌, inl, inr, Bool-cases, Option-cases,
  Result-cases, length, lookup, arith, none, Result, ok, err, ◌==◌, nat_eq, string_eq, eq_iff,
}
use aggregated_apiserver_ope.Meta.{index, cluster_annotation}
use aggregated_apiserver_ope.Kube.{Kube}
use aggregated_apiserver_ope.Members.{Members, History, WriteOptions, create_call, Failure}
use aggregated_apiserver_ope.Storage.{Options, RuntimeObject, as_unstructured}
use aggregated_apiserver_ope.Storage.Metadata.{stamp, strip}
use aggregated_apiserver_ope.Storage.Write.{
  Validation, validated, last_name, create_in, choose_cluster, create,
}
use aggregated_apiserver_ope.Storage.Write.Routing.{
  RefusedFor, Accepts, Rejects, validated-Accepts, validated-Rejects, CalledIn, call_in-CalledIn,
}

module _ (K : Kube) (members : Members K) (s : Options K) (namespace : String) where
  -- The cluster that a created object belongs to: the one that its annotation names, or, without
  -- an annotation, the storage's only cluster.
  abbrev pub Destined : K.Obj → String → Type 0
  Destined u cluster =
      ((cluster ≢ "") × (index cluster_annotation (K.get_annotations u) ≡ cluster))
      ⊎ ((index cluster_annotation (K.get_annotations u) ≡ "")
          × ((cl : K.Client) × (s.clusters ≡ (cluster, cl) ∷ [])))

  last_name_of_one :
      (cs : List (String × K.Client)) (before : String)
      → (length cs == 1) ≡ true
      → (cl : K.Client) × (cs ≡ (last_name K cs before, cl) ∷ [])
  unfolding last_name
  last_name_of_one [] before h = absurd (ground (arith, h))
  last_name_of_one ((c, cl) ∷ []) before h = (cl, refl)
  last_name_of_one (x ∷ y ∷ rest) before h = absurd (ground (arith, h))

  choose_cluster-Destined :
      (u : K.Obj) (cluster : String)
      → choose_cluster K members s namespace u ≡ ok cluster
      → Destined u cluster
  unfolding choose_cluster
  choose_cluster-Destined u cluster h =
      let annotation = index cluster_annotation (K.get_annotations u) in
      elim (Bool-cases (annotation == "")) [
        | inr e ↦ inl (λ n. ground (arith, h, e, n, eq_iff annotation ""), ground (arith, h, e))
        | inl e ↦ elim (Bool-cases (length s.clusters == 1)) [
          | inr n ↦ absurd (ground (arith, h, e, n))
          | inl n ↦
              let (cl, only) = last_name_of_one s.clusters annotation n in
              inr (
                (eq_iff annotation "").0 e,
                (cl, only ∙ ap (λ c. (c, cl) ∷ []) (ground (arith, h, e, n))),
              )
        ]
      ]

  -- One create reached `cluster`, with the stripped object, and the result is the stamped answer.
  abbrev pub CreatedIn :
      K.Obj → String → WriteOptions → History K → Result (Failure K) K.Obj → History K → Type 0
  CreatedIn u cluster options =
      CalledIn s namespace cluster (λ target. create_call target (strip K u) options)
        (λ t target. members.create t target (strip K u) options) (λ made. stamp K made cluster)

  -- Why nothing is created, in the cluster that is chosen: it is not one of the storage, or the
  -- validation objects.
  abbrev InReason : String → K.Obj → Validation K → K.Err → Type 0
  InReason cluster u validation x =
      ((lookup cluster s.clusters ≡ none)
        × (x ≡ K.new_bad_request "cluster %q is not part of this aggregated API" (cluster ∷ [])))
      ⊎ ((lookup cluster s.clusters ≢ none) × Rejects K validation u x)

  -- Why nothing is created: the object is none; or it has no annotation and there is not just one
  -- cluster; or what is said above of the cluster that it is destined for.
  abbrev pub CreateReason : RuntimeObject K → Validation K → K.Err → Type 0
  CreateReason obj validation x =
      (as_unstructured K s obj ≡ err x)
      ⊎ ((u : K.Obj) × (as_unstructured K s obj ≡ ok u)
          × (((index cluster_annotation (K.get_annotations u) ≡ "")
                × ((c : String) (cl : K.Client) → s.clusters ≢ (c, cl) ∷ [])
                × (x
                    ≡ K.new_bad_request
                        "create requires the %s annotation naming the target cluster"
                        (cluster_annotation ∷ [])))
              ⊎ ((cluster : String) × Destined u cluster × InReason cluster u validation x)))

  -- The create that is done: in the cluster that the object is destined for, after the validation.
  abbrev pub CreateDone :
      RuntimeObject K
      → Validation K
      → WriteOptions
      → History K
      → Result (Failure K) K.Obj
      → History K
      → Type 0
  CreateDone obj validation options t result later =
      (u : K.Obj) × (cluster : String) × (as_unstructured K s obj ≡ ok u)
      × Destined u cluster
      × Accepts K validation u
      × CreatedIn u cluster options t result later

  choose_cluster-Reason :
      (u : K.Obj) (x : K.Err)
      → choose_cluster K members s namespace u ≡ err x
      → (index cluster_annotation (K.get_annotations u) ≡ "")
        × ((c : String) (cl : K.Client) → s.clusters ≢ (c, cl) ∷ [])
        × (x
            ≡ K.new_bad_request "create requires the %s annotation naming the target cluster"
                (cluster_annotation ∷ []))
  unfolding choose_cluster
  choose_cluster-Reason u x h =
      let annotation = index cluster_annotation (K.get_annotations u) in
      elim (Bool-cases (annotation == "")) [
        | inr e ↦ absurd (ground (arith, h, e))
        | inl e ↦ elim (Bool-cases (length s.clusters == 1)) [
          | inl n ↦ absurd (ground (arith, h, e, n))
          | inr n ↦ (
            (eq_iff annotation "").0 e,
            λ c cl p. ground (arith, n, ap (λ cs. length cs == 1) p),
            ground (arith, h, e, n),
          )
        ]
      ]

  create_in_lem :
      (cluster : String) (u : K.Obj) (validation : Validation K) (options : WriteOptions)
      (t : History K)
      → let (result, later) = create_in K members s namespace cluster u validation options t in
        RefusedFor {K = K} (InReason cluster u validation) t result later
        ⊎ (Accepts K validation u × CreatedIn u cluster options t result later)
  unfolding create_in
  create_in_lem cluster u validation options t = elim (Option-cases (lookup cluster s.clusters)) [
    | inl e ↦
        rw (e, create_in)
          (inl (
            K.new_bad_request "cluster %q is not part of this aggregated API" (cluster ∷ []),
            refl,
            refl,
            inl (refl, refl),
          ))
    | inr (cl, e) ↦ elim (Option-cases (validated K validation u)) [
      | inr (x, v) ↦
          rw (e, create_in, v)
            (inl
              (x, refl, refl, inr (λ n. ground (arith, n), validated-Rejects K validation u x v)))
      | inl v ↦
          rw (e, create_in, v)
            (inr (
              validated-Accepts K validation u v,
              call_in-CalledIn s namespace _ _ _ cluster cl t e,
            ))
    ]
  ]

  -- The whole of `Create`. Either it fails without any call, with the error of one of these: the
  -- object is not unstructured; it has no annotation, and the storage has not just one cluster; the
  -- cluster that it is destined for is none of the storage's; or the validation objects. Or the
  -- validation, if there is one, does not object, and one create, of the stripped object, is sent
  -- to the cluster that the object is destined for, one of the storage's: the result is that
  -- cluster's error or its object stamped with the cluster.
  pub create_lem :
      (obj : RuntimeObject K) (validation : Validation K) (options : WriteOptions) (t : History K)
      → let (result, later) = create K members s namespace obj validation options t in
        RefusedFor {K = K} (CreateReason obj validation) t result later
        ⊎ CreateDone obj validation options t result later
  unfolding create
  create_lem obj validation options t = elim (Result-cases (as_unstructured K s obj)) [
    | inr (x, e) ↦ rw (e, create) (inl (x, refl, refl, inl refl))
    | inl (u, e) ↦ elim (Result-cases (choose_cluster K members s namespace u)) [
      | inr (x, f) ↦
          rw (e, create, f) (inl (x, refl, refl, inr (u, refl, inl (choose_cluster-Reason u x f))))
      | inl (cluster, f) ↦
          let destined = choose_cluster-Destined u cluster f in
          rw (e, create, f)
            (elim (create_in_lem cluster u validation options t) [
              | inl (x, r, l, why) ↦ inl (x, r, l, inr (u, refl, inr (cluster, destined, why)))
              | inr (accepted, called) ↦ inr (u, cluster, refl, destined, accepted, called)
            ])
    ]
  ]
