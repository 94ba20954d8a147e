-- ===== src/Storage/Metadata/Laws.antt =====
-- What stamping, stripping and splitting a selector do.
use aggregated_apiserver_ope.Prelude.{
  String, ◌≡◌, ◌∙◌, refl, Bool, true, ◌&&◌, Option, none, some, List, [], ◌∷◌, every, inl, inr,
  Bool-cases, arith, eq_iff, ◌==◌, string_eq, if◌then◌else◌,
}
use aggregated_apiserver_ope.Meta.{
  StringMap, put, delete, index, value, cluster_annotation, cluster_label,
}
use aggregated_apiserver_ope.Kube.{Kube}
use aggregated_apiserver_ope.Kube.Laws.{ObjectLaws, SelectorLaws}
use aggregated_apiserver_ope.Storage.Metadata.{
  or_empty, stamp, strip, split_requirements, cluster_set, split_selector,
}

without_own :
    (k own c : String) (m : Option StringMap)
    → value k (delete own (some (put own c (or_empty m)))) ≡ (if own == k then none else value k m)
without_own k own c none = ground arith
without_own k own c (some m) = ground arith

module _ (K : Kube) (L : ObjectLaws K) where
  open K use {Obj, get_annotations, get_labels, get_name, get_namespace}

  pub annotations-stamp :
      (o : Obj) (c : String)
      → get_annotations (stamp K o c)
        ≡ some (put cluster_annotation c (or_empty (get_annotations o)))
  unfolding stamp
  annotations-stamp o c = L.annotations-set_labels _ _ ∙ L.get-set_annotations _ _

  pub labels-stamp :
      (o : Obj) (c : String)
      → get_labels (stamp K o c) ≡ some (put cluster_label c (or_empty (get_labels o)))
  unfolding stamp
  labels-stamp o c = L.get-set_labels _ _ ∙ rw L.labels-set_annotations

  pub annotations-strip :
      (o : Obj) → get_annotations (strip K o) ≡ delete cluster_annotation (get_annotations o)
  unfolding strip
  annotations-strip o = L.annotations-set_labels _ _ ∙ L.get-set_annotations _ _

  pub labels-strip : (o : Obj) → get_labels (strip K o) ≡ delete cluster_label (get_labels o)
  unfolding strip
  labels-strip o = L.get-set_labels _ _ ∙ rw L.labels-set_annotations

  pub name-stamp : (o : Obj) (c : String) → get_name (stamp K o c) ≡ get_name o
  unfolding stamp
  name-stamp o c = L.name-set_labels _ _ ∙ L.name-set_annotations _ _

  pub namespace-stamp : (o : Obj) (c : String) → get_namespace (stamp K o c) ≡ get_namespace o
  unfolding stamp
  namespace-stamp o c = L.namespace-set_labels _ _ ∙ L.namespace-set_annotations _ _

  pub cluster-stamp :
      (o : Obj) (c : String) → index cluster_annotation (get_annotations (stamp K o c)) ≡ c
  cluster-stamp o c = rw annotations-stamp

  -- Stripping a stamped object gives back what the member had: under every key but the
  -- aggregator's the annotations and labels are the member's, and the aggregator's keys are gone.
  pub strip-stamp :
      (o : Obj) (c k : String)
      → (value k (get_annotations (strip K (stamp K o c)))
          ≡ (if cluster_annotation == k then none else value k (get_annotations o)))
        × (value k (get_labels (strip K (stamp K o c)))
            ≡ (if cluster_label == k then none else value k (get_labels o)))
  strip-stamp o c k = (
    rw (annotations-strip, annotations-stamp)
        (without_own k cluster_annotation c (get_annotations o)),
    rw (labels-strip, labels-stamp) (without_own k cluster_label c (get_labels o)),
  )

module _ (K : Kube) (L : SelectorLaws K) where
  open K use {
    Selector, Requirement, selector_matches, selector_empty, selector_requirements, new_selector,
    requirement_key,
  }

  abbrev is_cluster : Requirement → Bool
  is_cluster r = requirement_key r == cluster_label

  abbrev remote_part : StringMap → Requirement → Bool
  remote_part m r = if is_cluster r then true else L.requirement_matches r m

  abbrev cluster_part : StringMap → Requirement → Bool
  cluster_part m r = if is_cluster r then L.requirement_matches r m else true

  matches-new : (m : StringMap) → selector_matches new_selector m ≡ true
  matches-new m = L.matches_empty new_selector m L.empty_new

  matches-split_remote :
      (rs : List Requirement) (a b : Selector) (m : StringMap)
      → selector_matches (split_requirements K rs a b).0 m
        ≡ (selector_matches a m && every (remote_part m) rs)
  unfolding split_requirements
  matches-split_remote [] a b m = ground arith
  matches-split_remote (r ∷ rs) a b m = ground (
    arith,
    matches-split_remote rs a (K.selector_add b r) m,
    matches-split_remote rs (K.selector_add a r) b m,
    L.matches_add a r m,
  )

  matches-split_clusters :
      (rs : List Requirement) (a b : Selector) (m : StringMap)
      → selector_matches (split_requirements K rs a b).1 m
        ≡ (selector_matches b m && every (cluster_part m) rs)
  unfolding split_requirements
  matches-split_clusters [] a b m = ground arith
  matches-split_clusters (r ∷ rs) a b m = ground (
    arith,
    matches-split_clusters rs a (K.selector_add b r) m,
    matches-split_clusters rs (K.selector_add a r) b m,
    L.matches_add b r m,
  )

  -- A requirement on the virtual label reads the cluster alone, any other the member's labels alone.
  every-split :
      (rs : List Requirement) (m : StringMap) (c : String)
      → every (λ r. L.requirement_matches r (put cluster_label c m)) rs
        ≡ (every (remote_part m) rs && every (cluster_part (cluster_set c)) rs)
  every-split [] m c = refl
  every-split (r ∷ rs) m c = ground (
    arith,
    every-split rs m c,
    L.reads_key r (put cluster_label c m) (cluster_set c),
    L.reads_key r (put cluster_label c m) m,
    eq_iff (requirement_key r) cluster_label,
    eq_iff cluster_label (requirement_key r),
  )

  every-parts :
      (rs : List Requirement) (m : StringMap)
      → every (λ r. L.requirement_matches r m) rs
        ≡ (every (remote_part m) rs && every (cluster_part m) rs)
  every-parts [] m = refl
  every-parts (r ∷ rs) m = ground (arith, every-parts rs m)

  -- Without a requirement on the virtual label the second selector stays empty, and only then.
  empty-split :
      (rs : List Requirement) (a b : Selector)
      → selector_empty (split_requirements K rs a b).1 ≡ true
      → (selector_empty b ≡ true) × ((m : StringMap) → every (cluster_part m) rs ≡ true)
  unfolding split_requirements
  empty-split [] a b h = (h, λ m. refl)
  empty-split (r ∷ rs) a b h = elim (Bool-cases (is_cluster r)) [
    | inl e ↦ cc ((empty-split rs a (K.selector_add b r) (ground (arith, h, e))).0, L.empty_add b r)
    | inr e ↦
        let (x, y) = empty-split rs (K.selector_add a r) b (ground (arith, h, e)) in
        (x, λ m. rw e (y m))
  ]

  -- What a client asks of the stamped objects is what the members are asked of theirs, on the
  -- clusters that the predicate accepts: an object with labels `m` matches the selector once it is
  -- stamped with `c` exactly if the remote selector matches `m` and the predicate accepts `c`.
  pub split_selector_lem :
      (s : Selector) (m : StringMap) (c : String)
      → selector_matches s (put cluster_label c m)
        ≡ (selector_matches (split_selector K s).0 m && (split_selector K s).1 c)
  unfolding split_selector
  split_selector_lem s m c = elim (Bool-cases (selector_empty s)) [
    | inl e ↦ rw (e, L.matches_empty s (put cluster_label c m) e, L.matches_empty s m e)
    | inr e ↦ elim (Bool-cases (selector_requirements s).1) [
      | inr n ↦
          rw
            (e, n, L.matches_unselectable s (put cluster_label c m) n, L.matches_unselectable s m n)
      | inl y ↦
          elim (Bool-cases (
            selector_empty
              (split_requirements K (selector_requirements s).0 new_selector new_selector).1)) [
                | inl z ↦
                    let rs = (selector_requirements s).0 in
                    let none_on_cluster = (empty-split rs new_selector new_selector z).1 in
                    rw
                      (
                        e,
                        y,
                        z,
                        L.matches_requirements s (put cluster_label c m) y,
                        L.matches_requirements s m y,
                        every-split rs m c,
                        every-parts rs m,
                        none_on_cluster m,
                        none_on_cluster (cluster_set c),
                      )
                      (ground arith)
                | inr z ↦
                    let rs = (selector_requirements s).0 in
                    rw
                      (
                        e,
                        y,
                        z,
                        L.matches_requirements s (put cluster_label c m) y,
                        every-split rs m c,
                        matches-split_remote rs new_selector new_selector m,
                        matches-split_clusters rs new_selector new_selector (cluster_set c),
                        matches-new m,
                        matches-new (cluster_set c),
                      )
                      (ground arith)
              ]
    ]
  ]
