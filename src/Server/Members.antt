-- ===== src/Server/Members.antt =====
-- What becomes of the members: registering, removing, and a resync that fails for some of them.
use aggregated_apiserver_ope.Prelude.{
  String, ◌≡◌, ◌⊎◌, inl, inr, refl, ap, ◌∙◌, Bool, none, some, List, [], ◌∷◌, ◌==◌, string_eq,
  eq_iff, arith, lookup, lookup-update, lookup-remove, update, remove, Result-cases, Bool-cases,
  Result, ok, err, if◌then◌else◌,
}
use mathlib.Core.Option
use aggregated_apiserver_ope.Meta.{ApiSelector}
use aggregated_apiserver_ope.Kube.{Kube}
use aggregated_apiserver_ope.Discovery.{ServedResource, ApiResourceList, union}
use aggregated_apiserver_ope.Server.{
  Member, Server, by_cluster, rebuild, resolve, set_cluster, remove_cluster, Answers, resolve_all,
  resync, swap_handler,
}
use aggregated_apiserver_ope.Install.{Apiserver}
use aggregated_apiserver_ope.Server.Rebuild.{rebuild_lem, rebuild_same}

module _ (K : Kube) (api : Apiserver K) where
  by_cluster-update :
      (name : String) (m old : Member K) (members : List (String × Member K))
      → lookup name members ≡ some old
      → m.resources ≡ old.resources
      → by_cluster K api (update name m members) ≡ by_cluster K api members
  unfolding update
  by_cluster-update name m old [] h e = ground (arith, h)
  by_cluster-update name m old ((n, w) ∷ rest) h e =
      ground (arith, h, e, eq_iff n name, by_cluster-update name m old rest)

  -- A member that is registered anew, with other clients or selectors, but serves the same
  -- resources as before, changes the register only: where what the members serve together is
  -- what is served, the handler stays the one that was made from the old clients.
  pub set_cluster-same_resources :
      (name : String) (client : K.Client) (discovery : K.Discovery) (selectors : List ApiSelector)
      (answer : Result K.Err (List ApiResourceList)) (s : Server K) (changed : Bool)
      (m old : Member K) (resources : List ServedResource)
      → resolve K answer
          (record { client = client; discovery = discovery; selectors = selectors; resources = [] })
        ≡ ok (changed, m)
      → lookup name s.members ≡ some old
      → m.resources ≡ old.resources
      → union K (by_cluster K api s.members) ≡ ok resources
      → s.resources ≡ some resources
      → set_cluster K api name client discovery selectors answer s
        ≡ (none, record s { members = update name m s.members })
  unfolding set_cluster
  set_cluster-same_resources name client discovery selectors answer s changed m old resources r l e
        u served =
      let s' : Server K = record s { members = update name m s.members } in
      rw (set_cluster, r)
        (rebuild_same K api s' resources
          (ap (union K) (by_cluster-update name m old s.members l e) ∙ u) served)

  pub rebuild-members : (s : Server K) → (rebuild K api s).1.members ≡ s.members
  unfolding swap_handler
  rebuild-members s = elim (rebuild_lem K api s) [
    | inl (e, x, u, r, same) ↦ ap (λ t. t.members) same
    | inr (rs, u, inl (x, r, same)) ↦ ap (λ t. t.members) same
    | inr (rs, u, inr (inl (x, r, same))) ↦ ap (λ t. t.members) same
    | inr (rs, u, inr (inr (x, y, inl (r, (inner, i, d, same))))) ↦ ap (λ t. t.members) same
    | inr (rs, u, inr (inr (x, y, inr (e, r, same)))) ↦ ap (λ t. t.members) same
  ]

  pub lookup-set_cluster :
      (name other : String) (client : K.Client) (discovery : K.Discovery)
      (selectors : List ApiSelector) (answer : Result K.Err (List ApiResourceList)) (s : Server K)
      → let fresh : Member K = record {
        client = client;
        discovery = discovery;
        selectors = selectors;
        resources = [];
      } in
        let (result, later) = set_cluster K api name client discovery selectors answer s in
        ((e x : K.Err) × (resolve K answer fresh ≡ err e) × (result ≡ some x) × (later ≡ s))
        ⊎ ((changed : Bool) × (m : Member K) × (resolve K answer fresh ≡ ok (changed, m))
            × (lookup other later.members
                ≡ (if name == other then some m else lookup other s.members)))
  unfolding set_cluster
  lookup-set_cluster name other client discovery selectors answer s =
      let fresh : Member K = record {
        client = client;
        discovery = discovery;
        selectors = selectors;
        resources = [];
      } in
      elim (Result-cases (resolve K answer fresh)) [
        | inr (e, r) ↦ inl (
          e,
          K.wrapf "resolving cluster %q: %w" (name ∷ []) e,
          r,
          rw (set_cluster, r) refl,
          rw (set_cluster, r) refl,
        )
        | inl ((changed, m), r) ↦ inr (
          changed,
          m,
          r,
          rw (set_cluster, r)
              (ap (lookup other) (rebuild-members (record s { members = update name m s.members }))
                ∙ lookup-update name other m s.members),
        )
      ]

  pub lookup-remove_cluster :
      (name other : String) (s : Server K)
      → lookup other (remove_cluster K api name s).1.members
        ≡ (if name == other then none else lookup other s.members)
  unfolding remove_cluster
  lookup-remove_cluster name other s =
      ap (lookup other) (rebuild-members (record s { members = remove name s.members }))
      ∙ lookup-remove name other s.members

  -- What a resync makes of one member.
  abbrev pub resynced : Answers K api → String → Member K → Member K
  resynced answers name m = elim (resolve K (answers name m.discovery) m) [
    | err e ↦ m
    | ok (changed, resolved) ↦ resolved
  ]

  lookup-resolve_all :
      (answers : Answers K api) (name : String) (members : List (String × Member K))
      → lookup name (resolve_all K api answers members).1
        ≡ Option.map (resynced answers name) (lookup name members)
  unfolding resolve_all
  lookup-resolve_all answers name [] = refl
  lookup-resolve_all answers name ((n, m) ∷ rest) =
      elim (Result-cases (resolve K (answers n m.discovery) m)) [
        | inl ((changed, resolved), e) ↦
            ground (arith, e, eq_iff n name, lookup-resolve_all answers name rest)
        | inr (x, e) ↦ ground (arith, e, eq_iff n name, lookup-resolve_all answers name rest)
      ]

  lookup-resync :
      (answers : Answers K api) (s : Server K) (name : String)
      → lookup name (resync K api answers s).members
        ≡ Option.map (resynced answers name) (lookup name s.members)
  unfolding resync
  lookup-resync answers s name =
      let (changed, resolved) = resolve_all K api answers s.members in
      elim (Bool-cases changed) [
        | inl c ↦
            rw (resync, c)
              (ap (lookup name) (rebuild-members (record s { members = resolved }))
                ∙ lookup-resolve_all answers name s.members)
        | inr c ↦ rw (resync, c) (lookup-resolve_all answers name s.members)
      ]

  -- The register is a map, whether or not a rebuild fails: after `SetCluster` the name has the
  -- member that was resolved, or, where it could not be resolved, the server is unchanged; after
  -- `RemoveCluster` the name has none; and every other name has what it had. A resync resolves
  -- every member once, with its own discovery client: a member that is resolved has what it now
  -- serves, one that cannot be resolved keeps what it had, whatever becomes of the others; and no
  -- member comes or goes.
  pub lookup-members :
      (name other : String) (client : K.Client) (discovery : K.Discovery)
      (selectors : List ApiSelector) (answer : Result K.Err (List ApiResourceList))
      (answers : Answers K api) (s : Server K)
      → let fresh : Member K = record {
        client = client;
        discovery = discovery;
        selectors = selectors;
        resources = [];
      } in
        let (result, later) = set_cluster K api name client discovery selectors answer s in
        (((e x : K.Err) × (resolve K answer fresh ≡ err e) × (result ≡ some x) × (later ≡ s))
          ⊎ ((changed : Bool) × (m : Member K) × (resolve K answer fresh ≡ ok (changed, m))
              × (lookup other later.members
                  ≡ (if name == other then some m else lookup other s.members))))
        × (lookup other (remove_cluster K api name s).1.members
            ≡ (if name == other then none else lookup other s.members))
        × (lookup other (resync K api answers s).members
            ≡ Option.map (resynced answers other) (lookup other s.members))
  lookup-members name other client discovery selectors answer answers s = (
    lookup-set_cluster name other client discovery selectors answer s,
    lookup-remove_cluster name other s,
    lookup-resync answers s other,
  )
