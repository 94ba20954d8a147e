-- ===== src/Aggregator/Pass/Report.antt =====
-- What a pass of the api-aggregator's reconciler publishes, and when it ends without an error.
use aggregated_apiserver_ope.Prelude.{
  String, ◌<>◌, ◌≡◌, ◌↔◌, ◌⊎◌, ◌≢◌, All, map, refl, sym, subst, true, false, Option, none, some,
  List, [], ◌∷◌, inl, inr, arith, eq_iff, ◌==◌, string_eq, Bool-cases, Option-cases, Result-cases,
  ok,
}
use aggregated_apiserver_ope.Kube.{Kube}
use aggregated_apiserver_ope.Server.{Server}
use aggregated_apiserver_ope.Install.{Apiserver}
use aggregated_apiserver_ope.Aggregator.{Host, sync_members}
use aggregated_apiserver_ope.Aggregator.Pass.{
  Status, Served, Hub, kubeconfig_for_url, url_of, apply_kubeconfig_secret, report, patched,
  commit_status, reconcile_pass,
}

module _ (K : Kube) (hub : Hub K) where
  open hub use {Bytes, Conditions}

  module _ (api : Apiserver K) (host : Host K) (namespace name url server_url : String) where
    -- The condition Ready is true if no cluster failed, and otherwise false, with an error's text.
    abbrev pub IsReady : Served Conditions → List K.Err → Status Conditions → Type 0
    IsReady a failures new =
        ((failures ≡ [])
          × (new.conditions
              ≡ hub.set_status_condition
                  (record {
                    type_name = "Ready";
                    observed_generation = a.generation;
                    status = "True";
                    reason = "ClustersRegistered";
                    message = "all clusters registered";
                  })
                  a.status.conditions))
        ⊎ ((failures ≢ [])
            × ((e : K.Err) × (new.conditions
                  ≡ hub.set_status_condition
                      (record {
                        type_name = "Ready";
                        observed_generation = a.generation;
                        status = "False";
                        reason = "ClusterRegistrationFailed";
                        message = hub.error_text e;
                      })
                      a.status.conditions)))

    -- A kubeconfig for the URL is encoded, and applied as the Secret of the AggregatedAPI.
    abbrev pub Published : String → Served Conditions → Type 0
    Published to a =
        (raw : Bytes) × (hub.encode (record {
          entry = "aggregated";
          server = to;
          insecure_skip_tls_verify = true;
          token = "unused";
          current_context = "aggregated";
        })
          ≡ ok raw)
        × (hub.apply_secret
              (record { name = a.name <> "-kubeconfig"; namespace = a.namespace; kubeconfig = raw })
            ≡ none)

    apply-Published :
        (to : String) (a : Served Conditions)
        → (apply_kubeconfig_secret K hub to a ≡ none) ↔ Published to a
    unfolding apply_kubeconfig_secret kubeconfig_for_url
    apply-Published to a = (
      λ h.
          elim (Result-cases (
            hub.encode (record {
              entry = "aggregated";
              server = to;
              insecure_skip_tls_verify = true;
              token = "unused";
              current_context = "aggregated";
            }))) [
              | inr (e, f) ↦ absurd (ground (arith, h, f))
              | inl (raw, f) ↦ (raw, f, applied raw f h)
            ],
      λ (raw, e, f). ground (arith, e, f),
    )
      where
        applied :
            (raw : Bytes)
            → hub.encode (record {
              entry = "aggregated";
              server = to;
              insecure_skip_tls_verify = true;
              token = "unused";
              current_context = "aggregated";
            })
              ≡ ok raw
            → apply_kubeconfig_secret K hub to a ≡ none
            → hub.apply_secret (record {
              name = a.name <> "-kubeconfig";
              namespace = a.namespace;
              kubeconfig = raw;
            })
              ≡ none
        applied raw f h =
            elim (Option-cases (
              hub.apply_secret (record {
                name = a.name <> "-kubeconfig";
                namespace = a.namespace;
                kubeconfig = raw;
              }))) [ inl n ↦ n | inr (x, n) ↦ absurd (ground (arith, f, n, h)) ]

    -- The URL is the options', or the server's where that is empty.
    abbrev pub IsUrl : String → Type 0
    IsUrl u = ((url ≢ "") × (u ≡ url)) ⊎ ((url ≡ "") × (u ≡ server_url))

    url_of-IsUrl : IsUrl (url_of K hub url server_url)
    unfolding url_of
    url_of-IsUrl = elim (Bool-cases (url == "")) [
      | inl e ↦ inr ((eq_iff url "").0 e, ground (arith, e))
      | inr e ↦ inl (λ p. ground (arith, e, p, eq_iff url ""), ground (arith, e))
    ]

    -- The status is patched exactly where it changed, and `Committed` is that no such patch fails.
    abbrev pub IsPatched :
        Served Conditions → Status Conditions → Option (Status Conditions) → Type 0
    IsPatched a new patch =
        ((hub.same_status a.status new ≡ true) × (patch ≡ none))
        ⊎ ((hub.same_status a.status new ≡ false) × (patch ≡ some new))

    abbrev pub Committed : Served Conditions → Status Conditions → Type 0
    Committed a new = (hub.same_status a.status new ≡ true) ⊎ (hub.patch_status new ≡ none)

    patched-IsPatched :
        (a : Served Conditions) (new : Status Conditions) → IsPatched a new (patched K hub a new)
    unfolding patched
    patched-IsPatched a new = elim (Bool-cases (hub.same_status a.status new)) [
      | inl e ↦ inl (e, ground (arith, e))
      | inr e ↦ inr (e, ground (arith, e))
    ]

    commit-Committed :
        (a : Served Conditions) (new : Status Conditions)
        → (commit_status K hub a new ≡ none) ↔ Committed a new
    unfolding commit_status
    commit-Committed a new = elim (Bool-cases (hub.same_status a.status new)) [
      | inl e ↦ (λ h. inl e, λ h. ground (arith, e))
      | inr e ↦ elim (Option-cases (hub.patch_status new)) [
        | inl n ↦ (λ h. inr n, λ h. ground (arith, e, n))
        | inr (x, n) ↦ (
          λ h. absurd (ground (arith, e, n, h)),
          elim [ inl q ↦ absurd (ground (arith, e, q)) | inr q ↦ absurd (ground (arith, n, q)) ],
        )
      ]
    ]

    -- `errors.Join` returns nil exactly where all its errors are nil.
    abbrev pub JoinsErrors : Type 0
    JoinsErrors = (es : List (Option K.Err)) → (hub.join_errors es ≡ none) ↔ All (λ e. e ≡ none) es

    module _ (joins : JoinsErrors) where
      join_two :
          (x y : Option K.Err) → (hub.join_errors (x ∷ y ∷ []) ≡ none) ↔ ((x ≡ none) × (y ≡ none))
      join_two x y =
          let (f, g) = joins (x ∷ y ∷ []) in (λ h. ((f h).0, (f h).1.0), λ (p, q). g (p, (q, tt)))

      join_failures :
          (failures : List K.Err) → (hub.join_errors (map some failures) ≡ none) ↔ (failures ≡ [])
      join_failures [] = (λ h. refl, λ h. (joins []).1 tt)
      join_failures (e ∷ rest) = (
        λ h. absurd (ground (arith, ((joins (map some (e ∷ rest))).0 h).0)),
        λ h. absurd (ground (arith, h)),
      )

      report_lem :
          (to : String) (a : Served Conditions) (failures : List K.Err)
          → let (result, new) = report K hub to a failures in
            (new.url ≡ to)
            × IsReady a failures new
            × ((result ≡ none) ↔ ((failures ≡ []) × Published to a))
      unfolding report
      report_lem to a failures =
          let joined = join_failures failures in
          let published = apply-Published to a in
          elim (Option-cases (hub.join_errors (map some failures))) [
            | inl j ↦ elim (Option-cases (apply_kubeconfig_secret K hub to a)) [
              | inl p ↦
                  rw (report, p, j)
                    (refl, inl (joined.0 j, refl), (λ h. (joined.0 j, published.0 p), λ h. refl))
              | inr (x, p) ↦
                  rw (report, p, j)
                    (
                      refl,
                      inl (joined.0 j, refl),
                      (
                        λ h. absurd (ground (arith, ((join_two none _).0 h).1)),
                        λ h. absurd (ground (arith, published.1 h.1, p)),
                      ),
                    )
            ]
            | inr (e, j) ↦
                let some_failed : failures ≢ [] = λ n. absurd (ground (arith, j, joined.1 n)) in
                elim (Option-cases (apply_kubeconfig_secret K hub to a)) [
                  | inl p ↦
                      rw (report, p, j)
                        (
                          refl,
                          inr (some_failed, (e, refl)),
                          (λ h. absurd (ground (arith, h)), λ h. absurd (some_failed h.0)),
                        )
                  | inr (x, p) ↦
                      rw (report, p, j)
                        (
                          refl,
                          inr (some_failed, (e, refl)),
                          (
                            λ h. absurd (ground (arith, ((join_two (some e) _).0 h).0)),
                            λ h. absurd (some_failed h.0),
                          ),
                        )
                ]
          ]

      -- A pass for an object that is there. It leaves the members as its loops did, whatever fails
      -- behind them. The status has the options' URL, or the server's where that is empty, and the
      -- condition Ready, which is "True" if no cluster failed and "False" if one did. It is patched
      -- where it changed, even where a cluster or the Secret failed. And the pass ends without an
      -- error exactly if no cluster failed, the kubeconfig Secret for that URL was applied and the
      -- status was patched or had not changed.
      pub reconcile_pass_lem :
          (a : Served Conditions) (s : Server K)
          → hub.get_aggregated_api namespace name ≡ ok a
          → let (failures, members) = sync_members K api host namespace a.clusters s in
            let (error, status, later) =
              reconcile_pass K hub api host namespace name url server_url s in
            (later ≡ members)
            × ((new : Status Conditions) × IsPatched a new status
                × IsUrl new.url
                × IsReady a failures new
                × ((error ≡ none) ↔ ((failures ≡ []) × Published new.url a × Committed a new)))
      unfolding reconcile_pass
      reconcile_pass_lem a s h =
          let (failures, members) = sync_members K api host namespace a.clusters s in
          let to = url_of K hub url server_url in
          let (result, new) = report K hub to a failures in
          let (u, c, r) = report_lem to a failures in
          let two = join_two result (commit_status K hub a new) in
          let commit = commit-Committed a new in
          rw (reconcile_pass, h)
            (
              refl,
              (
                new,
                patched-IsPatched a new,
                subst IsUrl (sym u) url_of-IsUrl,
                c,
                (
                  λ e.
                      let (p, q) = r.0 ((two.0 e).0) in
                      (p, subst (λ x. Published x a) (sym u) q, commit.0 ((two.0 e).1)),
                  λ (p, q, w). two.1 (r.1 (p, subst (λ x. Published x a) u q), commit.1 w),
                ),
              ),
            )
