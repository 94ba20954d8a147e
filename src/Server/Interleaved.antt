-- ===== src/Server/Interleaved.antt =====
-- Requests while operations run: `ServeHTTP` takes no lock, the operations take the mutex in any
-- order.
use aggregated_apiserver_ope.Prelude.{◌≡◌, subst, List, [], ◌∷◌, nat_eq, string_eq}
use aggregated_apiserver_ope.Kube.{Kube}
use aggregated_apiserver_ope.Server.{Options, Server, new}
use aggregated_apiserver_ope.Server.Consistent.{Reachable, starting, stepping, Reachable-Consistent}
use aggregated_apiserver_ope.Server.Writes.{Write, apply, apply_all, serve_http, Operation, writes}
use aggregated_apiserver_ope.Server.Moments.{writes-Step}
use aggregated_apiserver_ope.Server.Live.{IsLive, LiveThrough, writes-LiveThrough}
use aggregated_apiserver_ope.Install.{Apiserver}

module _ (K : Kube) (api : Apiserver K) where
  -- The server, and what the operation that holds the mutex has yet to write; nothing is left to
  -- write while the mutex is free.
  pub record System : Type 0 where
    pub server : Server K
    pub pending : List (Write K)

  -- An operation takes the mutex, or the one that holds it writes.
  pub data Turn (x : System) : System → Type 0 where
    locking :
        (op : Operation K api)
        → x.pending ≡ []
        → Turn x (record x { pending = writes K api op x.server })
    writing :
        (w : Write K) (rest : List (Write K))
        → x.pending ≡ w ∷ rest
        → Turn x (record { server = apply K w x.server; pending = rest })

  pub data Run : System → Type 0 where
    beginning : (o : Options) → Run (record { server = new K o; pending = [] })
    turning : {x y : System} → Run x → Turn x y → Run y

  Turn-LiveThrough :
      {x y : System}
      → Turn x y
      → Reachable K api (apply_all K x.pending x.server)
      → LiveThrough K api x.pending x.server
      → Reachable K api (apply_all K y.pending y.server) × LiveThrough K api y.pending y.server
  unfolding apply_all
  Turn-LiveThrough {x = x} (locking op free) r h =
      let idle : Reachable K api x.server =
        subst (λ ws. Reachable K api (apply_all K ws x.server)) free r in
      (
        stepping idle (writes-Step K api op x.server),
        writes-LiveThrough K api op x.server (Reachable-Consistent K api idle),
      )
  Turn-LiveThrough {x = x} (writing w rest p) r h = (
    subst (λ ws. Reachable K api (apply_all K ws x.server)) p r,
    (subst (λ ws. LiveThrough K api ws x.server) p h).1,
  )

  Run-LiveThrough :
      {x : System}
      → Run x
      → Reachable K api (apply_all K x.pending x.server) × LiveThrough K api x.pending x.server
  unfolding apply_all new
  Run-LiveThrough (beginning o) = (starting o, tt)
  Run-LiveThrough (turning run t) = let (r, h) = Run-LiveThrough run in Turn-LiveThrough t r h

  LiveThrough-IsLive :
      (ws : List (Write K)) (s : Server K)
      → LiveThrough K api ws s
      → IsLive K api s.handler s.cancelled
  LiveThrough-IsLive [] s h = h
  LiveThrough-IsLive (w ∷ rest) s h = h.0

  -- In whatever order operations and ticks of the resync take the mutex, and at whatever moment a
  -- request comes, between any two writes: the request is served by no handler whose context is
  -- cancelled. And what the operation under way has yet to write leads to a server that calls and
  -- ticks, one after the other, make of a new one; so that the server is such a one whenever the
  -- mutex is free.
  pub serve_http-IsLive :
      {x : System}
      → Run x
      → IsLive K api (serve_http K x.server) x.server.cancelled
        × Reachable K api (apply_all K x.pending x.server)
        × (x.pending ≡ [] → Reachable K api x.server)
  unfolding serve_http apply_all
  serve_http-IsLive {x} run =
      let (r, h) = Run-LiveThrough run in
      (
        LiveThrough-IsLive x.pending x.server h,
        r,
        λ free. subst (λ ws. Reachable K api (apply_all K ws x.server)) free r,
      )
