-- ===== src/Storage/Locate/Reads.antt =====
-- `locate` only reads, and the cluster that it names is one of the storage's.
use aggregated_apiserver_ope.Prelude.{
  String, ◌≡◌, ◌≢◌, refl, Option, none, some, List, [], ◌∷◌, inl, inr, Bool-cases, Option-cases,
  Result-cases, All, All-imp, lookup, arith, ok, err, ◌==◌, string_eq, eq_iff,
}
use aggregated_apiserver_ope.Kube.{Kube}
use aggregated_apiserver_ope.Members.{
  Members, History, Call, get_call, failed, panicked, go_all, Adds, no_more, one_more, IsGet,
}
use aggregated_apiserver_ope.Storage.{Options, client}
use aggregated_apiserver_ope.Storage.Locate.{probe, only_hit, locate_in, locate_any, locate}

module _ (K : Kube) (members : Members K) (s : Options K) (namespace name : String) where
  Adds-trans : {P : Call K → Type 0} {t u v : History K} → Adds P t u → Adds P u v → Adds P t v
  Adds-trans h no_more = h
  Adds-trans h (one_more c p k) = one_more c p (Adds-trans h k)

  go_all-probe_reads :
      (options : K.GetOptions) (cs : List (String × K.Client)) (t : History K)
      → Adds IsGet t (go_all K (probe K members s namespace name options) cs t).1
  unfolding go_all probe
  go_all-probe_reads options [] t = no_more
  go_all-probe_reads options ((c, cl) ∷ rest) t =
      Adds-trans (one_more _ tt no_more) (go_all-probe_reads options rest _)

  only_hit-history :
      (hits : List (String × K.Obj)) (t : History K) → (only_hit K members s name hits t).1 ≡ t
  unfolding only_hit
  only_hit-history [] t = refl
  only_hit-history (x ∷ []) t = refl
  only_hit-history (x ∷ y ∷ rest) t = refl

  -- Every hit names a cluster of the list.
  go_all-probe_known :
      (options : K.GetOptions) (cs : List (String × K.Client)) (t : History K)
      → All
          (λ (c, obj). lookup c cs ≢ none)
          (go_all K (probe K members s namespace name options) cs t).0.1
  unfolding go_all probe
  go_all-probe_known options [] t = tt
  go_all-probe_known options ((c, cl) ∷ rest) t =
      let target = client K s cl namespace in
      let later =
        All-imp (λ x. lookup (x.0) rest ≢ none) (λ x. lookup (x.0) ((c, cl) ∷ rest) ≢ none)
          (go_all K (probe K members s namespace name options) rest
            (get_call target name options ∷ t)).0.1
          (λ x h e. h (ground (arith, e)))
          (go_all-probe_known options rest (get_call target name options ∷ t)) in
      elim (Result-cases (members.get t target name options)) [
        | inl (obj, e) ↦ rw e (λ k. ground (arith, k, eq_iff c c), later)
        | inr (x, e) ↦ elim (Bool-cases (K.is_not_found x)) [
          | inl n ↦ rw (e, n) later
          | inr n ↦ rw (e, n) later
        ]
      ]

  locate_any-history :
      (options : K.GetOptions) (t : History K)
      → (locate_any K members s namespace name options t).1
        ≡ (go_all K (probe K members s namespace name options) s.clusters t).1
  unfolding locate_any
  locate_any-history options t =
      let (ended, u) = go_all K (probe K members s namespace name options) s.clusters t in
      ground (arith, only_hit-history ended.1 u)

  locate_in-reads :
      (options : K.GetOptions) (cluster : String) (t : History K)
      → Adds IsGet t (locate_in K members s namespace name options cluster t).1
  unfolding locate_in
  locate_in-reads options cluster t = elim (Option-cases (lookup cluster s.clusters)) [
    | inl e ↦ rw (e, locate_in) no_more
    | inr (cl, e) ↦ elim (Result-cases (members.get t (client K s cl namespace) name options)) [
      | inl (obj, f) ↦
          rw (e, f, locate_in)
            (one_more (get_call (client K s cl namespace) name options) tt no_more)
      | inr (x, f) ↦
          rw (e, f, locate_in)
            (one_more (get_call (client K s cl namespace) name options) tt no_more)
    ]
  ]

  locate_reads_with :
      (options : K.GetOptions) (cluster : String) (t : History K)
      → Adds IsGet t (locate K members s namespace name (some options) cluster t).1
  unfolding locate
  locate_reads_with options cluster t = elim (Bool-cases (cluster == "")) [
    | inl e ↦ rw (e, locate_any-history) (go_all-probe_reads options s.clusters t)
    | inr e ↦ rw e (locate_in-reads options cluster t)
  ]

  -- Whatever the members answer, `locate` makes no call but gets.
  pub locate_reads :
      (options : Option K.GetOptions) (cluster : String) (t : History K)
      → Adds IsGet t (locate K members s namespace name options cluster t).1
  unfolding locate
  locate_reads none cluster t = locate_reads_with K.empty_get_options cluster t
  locate_reads (some options) cluster t = locate_reads_with options cluster t

  locate_in-known :
      (options : K.GetOptions) (cluster : String) (t : History K)
      → (lookup cluster s.clusters ≡ none
          → (x : K.Err) × ((locate_in K members s namespace name options cluster t).0
              ≡ err (failed x)))
        × ((hit : String × K.Obj)
            → (locate_in K members s namespace name options cluster t).0 ≡ ok hit
            → hit.0 ≡ cluster)
        × ((locate_in K members s namespace name options cluster t).0 ≢ err panicked)
  unfolding locate_in
  locate_in-known options cluster t = (
    λ e. (
      K.new_bad_request "cluster %q is not part of this aggregated API" (cluster ∷ []),
      rw (e, locate_in),
    ),
    λ hit h. ground (arith, h),
    λ h. ground (arith, h),
  )

  only_hit-known :
      (hits : List (String × K.Obj)) (t : History K)
      → All (λ (c, obj). lookup c s.clusters ≢ none) hits
      → ((hit : String × K.Obj)
          → (only_hit K members s name hits t).0 ≡ ok hit
          → lookup (hit.0) s.clusters ≢ none)
        × ((only_hit K members s name hits t).0 ≢ err panicked)
  unfolding only_hit
  only_hit-known [] t k = (λ hit h. absurd (ground (arith, h)), λ h. ground (arith, h))
  only_hit-known (x ∷ []) t k = (λ hit h n. k.0 (ground (arith, h, n)), λ h. ground (arith, h))
  only_hit-known (x ∷ y ∷ rest) t k = (λ hit h. absurd (ground (arith, h)), λ h. ground (arith, h))

  locate_any-known :
      (options : K.GetOptions) (t : History K)
      → ((hit : String × K.Obj)
          → (locate_any K members s namespace name options t).0 ≡ ok hit
          → lookup (hit.0) s.clusters ≢ none)
        × ((locate_any K members s namespace name options t).0 ≢ err panicked)
  unfolding locate_any
  locate_any-known options t =
      let job = probe K members s namespace name options in
      let (ended, u) = go_all K job s.clusters t in
      let known = only_hit-known ended.1 u (go_all-probe_known options s.clusters t) in
      (λ hit h. known.0 hit (ground (arith, h)), λ h. known.1 (ground (arith, h)))

  locate_known_with :
      (options : K.GetOptions) (cluster : String) (t : History K)
      → ((hit : String × K.Obj)
          → (locate K members s namespace name (some options) cluster t).0 ≡ ok hit
          → lookup (hit.0) s.clusters ≢ none)
        × ((locate K members s namespace name (some options) cluster t).0 ≢ err panicked)
  unfolding locate
  locate_known_with options cluster t =
      let given = locate_in-known options cluster t in
      elim (Bool-cases (cluster == "")) [
        | inl e ↦ rw e (locate_any-known options t)
        | inr e ↦ rw e (
          λ hit h n.
              let (x, f) = given.0 (ground (arith, given.1 hit h, n)) in ground (arith, f, h),
          given.2,
        )
      ]

  -- `locate` names a cluster of the storage whenever it returns an object, and never panics.
  pub locate_known :
      (options : Option K.GetOptions) (cluster : String) (t : History K)
      → ((hit : String × K.Obj)
          → (locate K members s namespace name options cluster t).0 ≡ ok hit
          → lookup (hit.0) s.clusters ≢ none)
        × ((locate K members s namespace name options cluster t).0 ≢ err panicked)
  unfolding locate
  locate_known none cluster t = locate_known_with K.empty_get_options cluster t
  locate_known (some options) cluster t = locate_known_with options cluster t
