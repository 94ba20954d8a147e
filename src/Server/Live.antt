-- ===== src/Server/Live.antt =====
-- The states between the writes of an operation: the handler is live in each.
use aggregated_apiserver_ope.Prelude.{
  ℕ, suc, ◌≡◌, inl, inr, false, Option, none, some, List, [], ◌∷◌, ◌++◌, length, nat_eq, ◌==◌,
  contains, update, remove, string_eq, Bool-cases, Option-cases, Result-cases, arith,
}
use aggregated_apiserver_ope.Kube.{Kube}
use aggregated_apiserver_ope.Discovery.{ServedResource, union}
use aggregated_apiserver_ope.Server.{
  Member, Handler, not_found, generic, Server, new, by_cluster, same_resources, resolve,
  resolve_all,
}
use aggregated_apiserver_ope.Server.Rebuild.{clients, new_generic_server_ok}
use aggregated_apiserver_ope.Server.Consistent.{Serves, Consistent, OthersEnded}
use aggregated_apiserver_ope.Server.Writes.{
  Write, remembering, swap_writes, apply, replace_writes, rebuild_writes, Operation, writes,
}
use aggregated_apiserver_ope.Install.{Apiserver, new_generic_server}

module _ (K : Kube) (api : Apiserver K) where
  -- A handler whose context, if it has one, is not cancelled.
  abbrev pub IsLive : Handler K → List ℕ → Type 0
  IsLive not_found cancelled = Unit
  IsLive (generic inner) cancelled = contains cancelled inner.done ≡ false

  -- The handler is live before, between and after these writes.
  abbrev pub LiveThrough : List (Write K) → Server K → Type 0
  LiveThrough [] s = IsLive s.handler s.cancelled
  LiveThrough (w ∷ rest) s = IsLive s.handler s.cancelled × LiveThrough rest (apply K w s)

  swap-LiveThrough :
      (handler : Handler K) (stop : Option ℕ) (resources : Option (List ServedResource))
      (s : Server K)
      → IsLive s.handler s.cancelled
      → IsLive handler s.cancelled
      → ((old : ℕ) → s.stop_watches ≡ some old → IsLive handler (old ∷ s.cancelled))
      → LiveThrough (swap_writes K handler stop s ++ (remembering resources ∷ [])) s
  unfolding apply swap_writes
  swap-LiveThrough handler stop resources s before new after = elim (Option-cases s.stop_watches) [
    | inl e ↦ rw (swap_writes, e) (before, (new, (new, new)))
    | inr (old, e) ↦
        let live = after old e in rw (swap_writes, e) (before, (new, (live, (live, live))))
  ]

  serves-IsLive :
      (handler : Handler K) (made : ℕ) (cancelled : List ℕ) (stop : Option ℕ)
      (resources : Option (List ServedResource))
      → Serves K api handler stop resources
      → OthersEnded K api made cancelled stop
      → IsLive handler cancelled
  serves-IsLive not_found made cancelled stop resources s o = tt
  serves-IsLive (generic inner) made cancelled stop resources s o = (o.1 inner.done s.0).1

  -- A context that is cancelled before it was made is not the handler's.
  abandoned-IsLive :
      (handler : Handler K) (made : ℕ) (cancelled : List ℕ) (stop : Option ℕ)
      (resources : Option (List ServedResource))
      → Serves K api handler stop resources
      → OthersEnded K api made cancelled stop
      → IsLive handler (made ∷ cancelled)
  abandoned-IsLive not_found made cancelled stop resources s o = tt
  abandoned-IsLive (generic inner) made cancelled stop resources s o =
      let (lt, live) = o.1 inner.done s.0 in ground (arith, lt, live)

  module _ (made : ℕ) (cancelled : List ℕ) (stop : Option ℕ)
      (o : OthersEnded K api made cancelled stop) where
    fresh_context : contains cancelled made ≡ false
    fresh_context = ground (arith, o.2 made)

    fresh_context_after : (old : ℕ) → stop ≡ some old → contains (old ∷ cancelled) made ≡ false
    fresh_context_after old e = let (lt, _) = o.1 old e in ground (arith, lt, o.2 made)

  replace-LiveThrough :
      (resources : List ServedResource) (s : Server K)
      → Serves K api s.handler s.stop_watches s.resources
      → OthersEnded K api s.contexts s.cancelled s.stop_watches
      → LiveThrough (replace_writes K api resources s) s
  unfolding replace_writes apply
  replace-LiveThrough resources s h o =
      let live = serves-IsLive s.handler s.contexts s.cancelled s.stop_watches s.resources h o in
      elim (Result-cases (
        new_generic_server K api s.opts.hostname s.opts.port resources (clients K api s.members)
          s.contexts)) [
            | inr (e, f) ↦
                rw (replace_writes, f)
                  (
                    live,
                    (
                      live,
                      abandoned-IsLive s.handler s.contexts s.cancelled s.stop_watches s.resources h
                          o,
                    ),
                  )
            | inl (inner, f) ↦
                let (_, d) =
                  new_generic_server_ok K api s.opts.hostname s.opts.port resources
                    (clients K api s.members) s.contexts inner f in
                rw (replace_writes, f)
                  (
                    live,
                    swap-LiveThrough (generic inner) (some s.contexts) (some resources)
                        (record s { contexts = suc s.contexts }) live
                        (rw d (fresh_context s.contexts s.cancelled s.stop_watches o))
                        (λ old e.
                          rw d (fresh_context_after s.contexts s.cancelled s.stop_watches o old e)),
                  )
          ]

  rebuild-LiveThrough :
      (s : Server K)
      → Serves K api s.handler s.stop_watches s.resources
      → OthersEnded K api s.contexts s.cancelled s.stop_watches
      → LiveThrough (rebuild_writes K api s) s
  unfolding rebuild_writes
  rebuild-LiveThrough s h o =
      let live = serves-IsLive s.handler s.contexts s.cancelled s.stop_watches s.resources h o in
      elim (Result-cases (union K (by_cluster K api s.members))) [
        | inr (e, u) ↦ rw (rebuild_writes, u) live
        | inl (rs, u) ↦ elim (Bool-cases (same_resources K api rs s.resources)) [
          | inl y ↦ rw (rebuild_writes, u, y) live
          | inr n ↦ elim (Bool-cases (length rs == 0)) [
            | inl z ↦
                rw (rebuild_writes, u, n, z)
                  (swap-LiveThrough not_found none none s live tt (λ old e. tt))
            | inr z ↦ rw (rebuild_writes, u, n, z) (replace-LiveThrough rs s h o)
          ]
        ]
      ]

  pub writes-LiveThrough :
      (op : Operation K api) (s : Server K) → Consistent K api s → LiveThrough (writes K api op s) s
  unfolding writes apply
  writes-LiveThrough (Operation.setting name client discovery selectors answer) s c =
      let fresh : Member K = record {
        client = client;
        discovery = discovery;
        selectors = selectors;
        resources = [];
      } in
      let live =
        serves-IsLive s.handler s.contexts s.cancelled s.stop_watches s.resources c.serves
          c.ended in
      elim (Result-cases (resolve K answer fresh)) [
        | inr (x, e) ↦ rw (writes, e) live
        | inl ((changed, m), e) ↦
            rw (writes, e)
              (
                live,
                rebuild-LiveThrough (record s { members = update name m s.members }) c.serves
                    c.ended,
              )
      ]
  writes-LiveThrough (Operation.removing name) s c = (
    serves-IsLive s.handler s.contexts s.cancelled s.stop_watches s.resources c.serves c.ended,
    rebuild-LiveThrough (record s { members = remove name s.members }) c.serves c.ended,
  )
  writes-LiveThrough (Operation.ticking answers) s c =
      let (changed, members) = resolve_all K api answers s.members in
      let live =
        serves-IsLive s.handler s.contexts s.cancelled s.stop_watches s.resources c.serves
          c.ended in
      elim (Bool-cases (resolve_all K api answers s.members).0) [
        | inl k ↦
            rw (writes, k)
              (live, rebuild-LiveThrough (record s { members = members }) c.serves c.ended)
        | inr k ↦ rw (writes, k) (live, live)
      ]
