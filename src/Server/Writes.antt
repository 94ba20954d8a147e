-- ===== src/Server/Writes.antt =====
-- pkg/apiserver/server.go, write by write: what an operation writes while it holds the mutex, in
-- its order. `ServeHTTP` reads the handler without the mutex, so it can see each state between.
use aggregated_apiserver_ope.Prelude.{
  ℕ, suc, String, Option, none, some, List, [], ◌∷◌, ◌++◌, map, length, nat_eq, ◌==◌, update,
  remove, string_eq, if◌then◌else◌, Result, ok, err,
}
use aggregated_apiserver_ope.Meta.{ApiSelector}
use aggregated_apiserver_ope.Kube.{Kube}
use aggregated_apiserver_ope.Discovery.{ServedResource, ApiResourceList, union}
use aggregated_apiserver_ope.Server.{
  Member, Handler, not_found, generic, Server, by_cluster, same_resources, resolve, Answers,
  resolve_all,
}
use aggregated_apiserver_ope.Install.{Apiserver, new_generic_server}

module _ (K : Kube) where
  pub data Write : Type 0 where
    -- to the map of members, or to the members in it
    registering : List (String × Member K) → Write
    -- `context.WithCancel`
    making_context : Write
    -- a call of a `CancelFunc`
    cancelling : ℕ → Write
    -- `storeHandler`
    storing : Handler K → Write
    -- to `stopWatches`
    keeping : Option ℕ → Write
    -- to `resources`
    remembering : Option (List ServedResource) → Write

  unfoldable pub apply : Write → Server K → Server K
  apply (registering members) s = record s { members = members }
  apply making_context s = record s { contexts = suc s.contexts }
  apply (cancelling c) s = record s { cancelled = c ∷ s.cancelled }
  apply (storing handler) s = record s { handler = handler }
  apply (keeping stop) s = record s { stop_watches = stop }
  apply (remembering resources) s = record s { resources = resources }

  unfoldable pub apply_all : List Write → Server K → Server K
  unfolding apply
  apply_all [] s = s
  apply_all (w ∷ rest) s = apply_all rest (apply w s)

  -- `ServeHTTP` serves by the handler that is stored when it loads it.
  unfoldable pub serve_http : Server K → Handler K
  serve_http s = s.handler

  -- `swapHandler`
  unfoldable pub swap_writes : Handler K → Option ℕ → Server K → List Write
  swap_writes handler stop s = storing handler ∷ elim s.stop_watches [
    | none ↦ keeping stop ∷ []
    | some old ↦ cancelling old ∷ keeping stop ∷ []
  ]

  module _ (api : Apiserver K) where
    -- The end of `rebuild`, for resources that are new and not empty.
    unfoldable pub replace_writes : List ServedResource → Server K → List Write
    unfolding swap_writes
    replace_writes resources s =
        let clusters = map (λ (name, m). (name, m.client)) s.members in
        making_context
        ∷ elim (new_generic_server K api s.opts.hostname s.opts.port resources clusters
            s.contexts) [
              | err e ↦ cancelling s.contexts ∷ []
              | ok inner ↦
                  swap_writes (generic inner) (some s.contexts) s
                  ++ (remembering (some resources) ∷ [])
            ]

    -- `rebuild`
    unfoldable pub rebuild_writes : Server K → List Write
    unfolding swap_writes replace_writes
    rebuild_writes s = elim (union K (by_cluster K api s.members)) [
      | err e ↦ []
      | ok resources ↦
          if same_resources K api resources s.resources
          then []
          else if length resources == 0
          then swap_writes not_found none s ++ (remembering none ∷ [])
          else replace_writes resources s
    ]

    -- A call of an exported operation, or a tick of the resync, with what the network answers it.
    pub data Operation : Type 0 where
      setting :
          String
          → K.Client
          → K.Discovery
          → List ApiSelector
          → Result K.Err (List ApiResourceList)
          → Operation
      removing : String → Operation
      ticking : Answers K api → Operation

    -- What an operation writes, from the state in which it gets the mutex.
    unfoldable pub writes : Operation → Server K → List Write
    unfolding rebuild_writes resolve resolve_all
    writes (setting name client discovery selectors answer) s =
        let member : Member K = record {
          client = client;
          discovery = discovery;
          selectors = selectors;
          resources = [];
        } in
        elim (resolve K answer member) [
          | err e ↦ []
          | ok (changed, resolved) ↦
              let members = update name resolved s.members in
              registering members ∷ rebuild_writes (record s { members = members })
        ]
    writes (removing name) s =
        let members = remove name s.members in
        registering members ∷ rebuild_writes (record s { members = members })
    writes (ticking answers) s =
        let (changed, members) = resolve_all K api answers s.members in
        let rebuilding = rebuild_writes (record s { members = members }) in
        registering members ∷ (if changed then rebuilding else [])
