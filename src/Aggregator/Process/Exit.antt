-- ===== src/Aggregator/Process/Exit.antt =====
-- That the api-aggregator's process can end.
use aggregated_apiserver_ope.Prelude.{
  ◌≡◌, ◌≢◌, ◌⊎◌, ◌↔◌, inl, inr, refl, true, Option, none, Option-cases, Result-cases,
}
use aggregated_apiserver_ope.Kube.{Kube}
use aggregated_apiserver_ope.Server.Interleaved.{Run}
use aggregated_apiserver_ope.Server.Listen.{Listener, listen}
use aggregated_apiserver_ope.Install.{Apiserver}
use aggregated_apiserver_ope.Aggregator.Process.{
  RunPlace, to_listen, to_serve, awaiting_listener, awaiting_serving, run_returned, ManagerPlace,
  managing, manager_returned, Process, return_run, return_manager, listening_failed, listening,
  serving_failed, serving, listener_seen, serving_seen, listener_stopping, serving_stopping,
  manager_stopping, Running, Actions, finished, later,
}
use aggregated_apiserver_ope.Aggregator.Process.Status.{
  Running-IsSound, Running-Run, Exited, exit_status,
}

module _ (K : Kube) (L : Listener K) (api : Apiserver K) where
  Actions-trans :
      {p q r : Process K L api} → Actions K L api p q → Actions K L api q r → Actions K L api p r
  Actions-trans xs finished = xs
  Actions-trans xs (later ys b) = later (Actions-trans xs ys) b

  -- `Run` can return.
  abbrev Returns : Process K L api → Type 0
  Returns p =
      (q : Process K L api) × (r : Option K.Err) × Actions K L api p q
      × (q.run ≡ run_returned r)
      × (q.context_done ≡ true)

  prepend : {p q : Process K L api} → Actions K L api p q → Returns q → Returns p
  prepend xs (t, r, ys, e, d) = (t, r, Actions-trans xs ys, e, d)

  awaiting_serving-Returns :
      (p : Process K L api) → p.run ≡ awaiting_serving → p.context_done ≡ true → Returns p
  unfolding return_run
  awaiting_serving-Returns p e d =
      (_, none, later (later finished (serving_stopping d)) (serving_seen e refl), refl, d)

  awaiting_listener-Returns :
      (p : Process K L api) → p.run ≡ awaiting_listener → p.context_done ≡ true → Returns p
  awaiting_listener-Returns p e d =
      prepend (later (later finished (listener_stopping d)) (listener_seen e refl))
        (awaiting_serving-Returns _ refl d)

  to_serve-Returns :
      (info : L.Info) (p : Process K L api)
      → p.run ≡ to_serve info
      → p.context_done ≡ true
      → Returns p
  unfolding return_run
  to_serve-Returns info p e d = elim (Option-cases (L.serve info)) [
    | inl f ↦ prepend (later finished (serving info e f)) (awaiting_listener-Returns _ refl d)
    | inr (x, f) ↦ (_, _, later finished (serving_failed info x e f), refl, refl)
  ]

  to_listen-Returns : (p : Process K L api) → p.run ≡ to_listen → p.context_done ≡ true → Returns p
  unfolding return_run
  to_listen-Returns p e d = elim (Result-cases (listen K L p.system.server.opts)) [
    | inl (info, f) ↦ prepend (later finished (listening info e f)) (to_serve-Returns info _ refl d)
    | inr (x, f) ↦ (_, _, later finished (listening_failed x e f), refl, refl)
  ]

  run-Returns :
      (place : RunPlace K L api) (p : Process K L api)
      → p.run ≡ place
      → p.context_done ≡ true
      → Returns p
  run-Returns to_listen p e d = to_listen-Returns p e d
  run-Returns (to_serve info) p e d = to_serve-Returns info p e d
  run-Returns awaiting_listener p e d = awaiting_listener-Returns p e d
  run-Returns awaiting_serving p e d = awaiting_serving-Returns p e d
  run-Returns (run_returned r) p e d = (p, r, finished, e, d)

  manager_returns :
      (place : ManagerPlace K L api) (p : Process K L api) (r : Option K.Err)
      → p.manager ≡ place
      → p.run ≡ run_returned r
      → p.context_done ≡ true
      → (q : Process K L api) × (m : Option K.Err) × Actions K L api p q × Exited K L api q r m
  unfolding return_manager
  manager_returns managing p r e f d = (_, none, later finished (manager_stopping e d), (f, refl))
  manager_returns (manager_returned m) p r e f d = (p, m, finished, (f, e))

  -- However the goroutines, the calls, the ticks and the libraries' choices interleave: once a
  -- signal has come, or `Run` or the manager has returned an error, the process can always come to
  -- its end by what happens of itself, wherever `Run`, the manager and the resync loop are, without
  -- another signal, call or tick and without the mutex: `Run` and the manager both return. Whenever
  -- they both have returned, `Wait` returns no error exactly if neither of them did, and then a
  -- signal had come. And the server is at all times one that its operations, write by write, make of
  -- a new one.
  pub process_exits :
      (p : Process K L api)
      → Running K L api p
      → ((p.signalled ≡ true) ⊎ (p.first_error ≢ none)
          → (q : Process K L api) × (r m : Option K.Err) × Actions K L api p q
            × Exited K L api q r m)
        × ((r m : Option K.Err)
            → Exited K L api p r m
            → ((p.first_error ≡ none) ↔ ((r ≡ none) × (m ≡ none)))
              × (p.first_error ≡ none → p.signalled ≡ true))
        × Run K api p.system
  process_exits p running = (
    λ cause.
        let d = (Running-IsSound K L api running).forces cause in
        let (q, r, xs, e, d') = run-Returns p.run p refl d in
        let (t, m, ys, x) = manager_returns q.manager q r refl e d' in
        (t, r, m, Actions-trans xs ys, x),
    λ r m x. exit_status K L api r m running x,
    Running-Run K L api running,
  )
