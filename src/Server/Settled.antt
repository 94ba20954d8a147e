-- ===== src/Server/Settled.antt =====
-- A server that serves what its members serve together.
use aggregated_apiserver_ope.Prelude.{
  ℕ, String, ◌≡◌, ◌≢◌, ◌⊎◌, ◌∙◌, inl, inr, ap, subst, false, Option, none, some, List, [], contains,
  arith, Result-cases, Result, ok, nat_eq, string_eq, update, remove, update-NodupKeys,
  remove-NodupKeys,
}
use aggregated_apiserver_ope.Meta.{ApiSelector}
use aggregated_apiserver_ope.Kube.{Kube}
use aggregated_apiserver_ope.Discovery.{ServedResource, ApiResourceList, union}
use aggregated_apiserver_ope.Server.{
  Member, Handler, not_found, generic, Server, swap_handler, by_cluster, rebuild, resolve,
  set_cluster, remove_cluster,
}
use aggregated_apiserver_ope.Install.{Apiserver, install_resources}
use aggregated_apiserver_ope.Server.Rebuild.{rebuild_lem}
use aggregated_apiserver_ope.Server.Members.{rebuild-members}
use aggregated_apiserver_ope.Server.Consistent.{
  Serves, OthersEnded, Consistent, Reachable, Reachable-Consistent, rebuild-Consistent,
  with_members-Consistent,
}

module _ (K : Kube) (api : Apiserver K) where
  -- A handler for these resources: none for no resources, and otherwise a generic server in which
  -- they are installed, from some clients, whose context is not cancelled.
  abbrev pub HandlerFor : List ServedResource → List ℕ → Handler K → Type 0
  HandlerFor rs cancelled not_found = rs ≡ []
  HandlerFor rs cancelled (generic inner) =
      (rs ≢ [])
      × ((cs : List (String × K.Client)) × (install_resources K api rs cs ≡ ok inner.installed))
      × (contains cancelled inner.done ≡ false)

  -- The members' resources have a union, and the handler is for it.
  abbrev pub Settled : Server K → Type 0
  Settled s =
      (rs : List ServedResource) × (union K (by_cluster K api s.members) ≡ ok rs)
      × HandlerFor rs s.cancelled s.handler

  -- The resources of a server after a rebuild that found `rs`.
  abbrev Remembers : List ServedResource → Option (List ServedResource) → Type 0
  Remembers rs resources = ((rs ≡ []) × (resources ≡ none)) ⊎ (resources ≡ some rs)

  handler_for :
      (handler : Handler K) (made : ℕ) (cancelled : List ℕ) (stop : Option ℕ)
      (resources : Option (List ServedResource)) (rs : List ServedResource)
      → Serves K api handler stop resources
      → OthersEnded K api made cancelled stop
      → Remembers rs resources
      → HandlerFor rs cancelled handler
  handler_for not_found made cancelled stop resources rs s o (inl (e, r)) = e
  handler_for not_found made cancelled stop resources rs s o (inr r) =
      absurd (ground (arith, s.1, r))
  handler_for (generic inner) made cancelled stop resources rs (p, q) o (inl (e, r)) =
      absurd (ground (arith, q.2, r))
  handler_for (generic inner) made cancelled stop resources rs (p, (xs, cs, x, filled, i)) o
        (inr r) =
      let same : xs ≡ rs = ground (arith, x, r) in
      (
        subst (λ ys. ys ≢ []) same filled,
        (cs, subst (λ ys. install_resources K api ys cs ≡ ok inner.installed) same i),
        (o.1 inner.done p).1,
      )

  rebuild-Remembers :
      (s : Server K)
      → (rebuild K api s).0 ≡ none
      → (rs : List ServedResource) × (union K (by_cluster K api s.members) ≡ ok rs)
        × Remembers rs (rebuild K api s).1.resources
  unfolding swap_handler
  rebuild-Remembers s h = elim (rebuild_lem K api s) [
    | inl (e, x, u, r, same) ↦ absurd (ground (arith, r, h))
    | inr (rs, u, inl (x, r, same)) ↦ (rs, u, inr (ap (λ t. t.resources) same ∙ x))
    | inr (rs, u, inr (inl (x, r, same))) ↦ (rs, u, inl (x, ap (λ t. t.resources) same))
    | inr (rs, u, inr (inr (x, y, inl (r, (inner, i, d, same))))) ↦
        (rs, u, inr (ap (λ t. t.resources) same))
    | inr (rs, u, inr (inr (x, y, inr (e, r, same)))) ↦ absurd (ground (arith, r, h))
  ]

  rebuild-Settled :
      (s : Server K) → Consistent K api s → (rebuild K api s).0 ≡ none → Settled (rebuild K api s).1
  rebuild-Settled s c h =
      let (rs, u, r) = rebuild-Remembers s h in
      let later = (rebuild K api s).1 in
      let k = rebuild-Consistent K api s c in
      (
        rs,
        ap (λ ms. union K (by_cluster K api ms)) (rebuild-members K api s) ∙ u,
        handler_for later.handler later.contexts later.cancelled later.stop_watches later.resources
            rs k.serves k.ended r,
      )

  pub set_cluster-Settled :
      (name : String) (client : K.Client) (discovery : K.Discovery) (selectors : List ApiSelector)
      (answer : Result K.Err (List ApiResourceList)) (s : Server K)
      → Reachable K api s
      → (set_cluster K api name client discovery selectors answer s).0 ≡ none
      → Settled (set_cluster K api name client discovery selectors answer s).1
  unfolding set_cluster
  set_cluster-Settled name client discovery selectors answer s r h =
      let fresh : Member K = record {
        client = client;
        discovery = discovery;
        selectors = selectors;
        resources = [];
      } in
      let c = Reachable-Consistent K api r in
      elim (Result-cases (resolve K answer fresh)) [
        | inr (x, e) ↦ absurd (ground (arith, e, h))
        | inl ((changed, m), e) ↦
            let s' : Server K = record s { members = update name m s.members } in
            let before =
              with_members-Consistent K api s s'.members
                (update-NodupKeys name m s.members c.members) c in
            let done : (rebuild K api s').0 ≡ none = ground (arith, e, h) in
            rw (set_cluster, e) (rebuild-Settled s' before done)
      ]

  pub remove_cluster-Settled :
      (name : String) (s : Server K)
      → Reachable K api s
      → (remove_cluster K api name s).0 ≡ none
      → Settled (remove_cluster K api name s).1
  unfolding remove_cluster
  remove_cluster-Settled name s r h =
      let c = Reachable-Consistent K api r in
      rebuild-Settled (record s { members = remove name s.members })
        (with_members-Consistent K api s (remove name s.members)
          (remove-NodupKeys name s.members c.members) c)
        h
