-- ===== src/Server/Rebuild.antt =====
-- What a rebuild leaves behind, on every branch.
use aggregated_apiserver_ope.Prelude.{
  ℕ, suc, String, ◌≡◌, ◌≢◌, ◌⊎◌, ◌↔◌, inl, inr, refl, sym, subst, true, Option, none, some, List,
  [], ◌∷◌, map, length, nat_eq, ◌==◌, Bool-cases, Option-cases, Result-cases, arith, ok, err,
  string_eq, list_eq, list_beq_iff,
}
use aggregated_apiserver_ope.Kube.{Kube}
use aggregated_apiserver_ope.Discovery.{ServedResource, served_eq, union}
use aggregated_apiserver_ope.Server.{
  Member, not_found, generic, Server, swap_handler, rebuild_with, by_cluster, same_resources,
  rebuild,
}
use aggregated_apiserver_ope.Configuration.{server_config}
use aggregated_apiserver_ope.Install.{
  Apiserver, GenericServer, install_resources, new_generic_server,
}

module _ (K : Kube) (api : Apiserver K) where
  abbrev pub clients : List (String × Member K) → List (String × K.Client)
  clients members = map (λ (name, m). (name, m.client)) members

  -- The contexts that are cancelled after the watches of the served handler are ended.
  abbrev pub watches_ended : Server K → List ℕ
  watches_ended s = elim s.stop_watches [ none ↦ s.cancelled | some stop ↦ stop ∷ s.cancelled ]

  -- The server afterwards serves nothing, and the context of the old watches is cancelled.
  abbrev pub Emptied : Server K → Server K → Type 0
  Emptied s later = later ≡ record s {
    handler = not_found;
    resources = none;
    stop_watches = none;
    cancelled = watches_ended s;
  }

  -- The server afterwards serves the resources from a new generic server with a new context, and
  -- the context of the old watches is cancelled.
  abbrev pub Replaced : List ServedResource → Server K → Server K → Type 0
  Replaced resources s later =
      (inner : GenericServer K) × (install_resources K api resources (clients s.members)
        ≡ ok inner.installed)
      × (inner.done ≡ s.contexts)
      × (later ≡ record s {
        handler = generic inner;
        resources = some resources;
        stop_watches = some s.contexts;
        contexts = suc s.contexts;
        cancelled = watches_ended s;
      })

  -- The server afterwards is as it was, but that a context was made and cancelled.
  abbrev pub Abandoned : Server K → Server K → Type 0
  Abandoned s later =
      later ≡ record s { contexts = suc s.contexts; cancelled = s.contexts ∷ s.cancelled }

  pub new_generic_server_ok :
      (hostname : String) (port : ℕ) (resources : List ServedResource)
      (cs : List (String × K.Client)) (done : ℕ) (inner : GenericServer K)
      → new_generic_server K api hostname port resources cs done ≡ ok inner
      → (install_resources K api resources cs ≡ ok inner.installed) × (inner.done ≡ done)
  unfolding new_generic_server
  new_generic_server_ok hostname port resources cs done inner h =
      elim (Option-cases (api.build (server_config api.net hostname port resources))) [
        | inr (e, b) ↦ absurd (ground (arith, b, h))
        | inl b ↦ elim (Result-cases (install_resources K api resources cs)) [
          | inr (e, i) ↦ absurd (ground (arith, b, i, h))
          | inl (groups, i) ↦ ground (arith, b, i, h)
        ]
      ]

  rebuild_with_lem :
      (resources : List ServedResource) (s : Server K)
      → let (result, later) = rebuild_with K api resources s in
        ((result ≡ none) × Replaced resources s later)
        ⊎ ((e : K.Err) × (result ≡ some e) × Abandoned s later)
  unfolding rebuild_with swap_handler
  rebuild_with_lem resources s =
      elim (Result-cases (
        new_generic_server K api s.opts.hostname s.opts.port resources (clients s.members)
          s.contexts)) [
            | inr (e, f) ↦ inr (e, rw (rebuild_with, f) refl, rw (rebuild_with, f) refl)
            | inl (inner, f) ↦
                let (i, d) =
                  new_generic_server_ok s.opts.hostname s.opts.port resources (clients s.members)
                    s.contexts inner f in
                inl (rw (rebuild_with, f) refl, (inner, i, d, rw (rebuild_with, f) refl))
          ]

  same_resources_iff :
      (rs : List ServedResource) (served : Option (List ServedResource))
      → (same_resources K api rs served ≡ true) ↔ (served ≡ some rs)
  same_resources_iff rs none = ground arith
  same_resources_iff rs (some xs) = ground (arith, list_beq_iff rs xs)

  none_of : (rs : List ServedResource) → (length rs == 0) ≡ true → rs ≡ []
  none_of [] h = refl
  none_of (x ∷ rs) h = absurd (ground (arith, h))

  -- The four ways of a rebuild. The members disagree: an error, and nothing changes. What they
  -- serve together is what is served: no error, and nothing changes. They serve nothing together:
  -- no error, the handler finds nothing any more, and the context of the old watches is cancelled.
  -- They serve something new: it is installed from the clients of the members, and its handler, with
  -- a new context, replaces the old one, whose context is cancelled; or that fails, with an error,
  -- and what is served stays.
  pub rebuild_lem :
      (s : Server K)
      → let (result, later) = rebuild K api s in
        ((e x : K.Err) × (union K (by_cluster K api s.members) ≡ err e)
          × (result ≡ some x)
          × (later ≡ s))
        ⊎ ((resources : List ServedResource) × (union K (by_cluster K api s.members) ≡ ok resources)
            × (((s.resources ≡ some resources) × (result ≡ none) × (later ≡ s))
                ⊎ ((resources ≡ []) × (result ≡ none) × Emptied s later)
                ⊎ ((s.resources ≢ some resources)
                    × (resources ≢ [])
                    × (((result ≡ none) × Replaced resources s later)
                        ⊎ ((e : K.Err) × (result ≡ some e) × Abandoned s later)))))
  unfolding rebuild swap_handler
  rebuild_lem s = elim (Result-cases (union K (by_cluster K api s.members))) [
    | inr (e, u) ↦ inl (
      e,
      K.wrapf "merging served resources: %w" [] e,
      u,
      rw (rebuild, u) refl,
      rw (rebuild, u) refl,
    )
    | inl (rs, u) ↦ inr (
      rs,
      u,
      elim (Bool-cases (same_resources K api rs s.resources)) [
        | inl y ↦ inl (
          (same_resources_iff rs s.resources).0 y,
          rw (rebuild, u, y) refl,
          rw (rebuild, u, y) refl,
        )
        | inr n ↦ elim (Bool-cases (length rs == 0)) [
          | inl z ↦ inr (inl (none_of rs z, rw (rebuild, u, n, z) refl, rw (rebuild, u, n, z) refl))
          | inr z ↦
              let same : rebuild K api s ≡ rebuild_with K api rs s = ground (arith, u, n, z) in
              inr (
                inr (
                  (λ p. absurd (ground (arith, n, (same_resources_iff rs s.resources).1 p))),
                  (λ p. absurd (ground (arith, z, p))),
                  subst
                      (λ r.
                        ((r.0 ≡ none) × Replaced rs s r.1)
                        ⊎ ((e : K.Err) × (r.0 ≡ some e) × Abandoned s r.1))
                      (sym same) (rebuild_with_lem rs s),
                ))
        ]
      ],
    )
  ]

  pub rebuild_same :
      (s : Server K) (resources : List ServedResource)
      → union K (by_cluster K api s.members) ≡ ok resources
      → s.resources ≡ some resources
      → rebuild K api s ≡ (none, s)
  unfolding rebuild
  rebuild_same s resources u e = ground (arith, u, (same_resources_iff resources s.resources).1 e)
