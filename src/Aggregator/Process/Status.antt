-- ===== src/Aggregator/Process/Status.antt =====
-- What holds of the api-aggregator's process at all times, and of its exit status.
use aggregated_apiserver_ope.Prelude.{◌≡◌, ◌≢◌, ◌⊎◌, ◌↔◌, ap, ◌∙◌, true, Option, none, arith}
use aggregated_apiserver_ope.Kube.{Kube}
use aggregated_apiserver_ope.Server.Writes.{Operation}
use aggregated_apiserver_ope.Server.Interleaved.{Run, beginning, turning, locking, writing}
use aggregated_apiserver_ope.Server.Listen.{Listener}
use aggregated_apiserver_ope.Install.{Apiserver}
use aggregated_apiserver_ope.Aggregator.Process.{
  RunPlace, to_listen, to_serve, awaiting_listener, awaiting_serving, run_returned, ManagerPlace,
  managing, manager_returned, Process, return_run, return_manager, Action, listening_failed,
  listening, serving_failed, serving, listener_seen, serving_seen, loop_ending, listener_stopping,
  serving_stopping, manager_stopping, Event, signal, manager_failed, tick, resynced, call, write,
  Running, starting, acting, happening,
}

module _ (K : Kube) (L : Listener K) (api : Apiserver K) where
  abbrev pub run_error : RunPlace K L api → Option K.Err
  run_error to_listen = none
  run_error (to_serve info) = none
  run_error awaiting_listener = none
  run_error awaiting_serving = none
  run_error (run_returned result) = result

  abbrev pub manager_error : ManagerPlace K L api → Option K.Err
  manager_error managing = none
  manager_error (manager_returned result) = result

  pub record IsSound (p : Process K L api) : Type 0 where
    first : (p.first_error ≡ none) ↔ ((run_error p.run ≡ none) × (manager_error p.manager ≡ none))
    cause : p.context_done ≡ true → (p.signalled ≡ true) ⊎ (p.first_error ≢ none)
    pub forces : (p.signalled ≡ true) ⊎ (p.first_error ≢ none) → p.context_done ≡ true
    stopped : p.serving_stopped ≡ true → p.context_done ≡ true
    returned : p.run ≡ run_returned none → p.context_done ≡ true

  Action-IsSound : {p q : Process K L api} → Action K L api p q → IsSound p → IsSound q
  unfolding return_run return_manager
  Action-IsSound (listening_failed e r f) h = ground arith
  Action-IsSound (listening info r f) h = ground arith
  Action-IsSound (serving_failed info e r f) h = ground arith
  Action-IsSound (serving info r f) h = ground arith
  Action-IsSound (listener_seen r f) h = ground arith
  Action-IsSound (serving_seen r f) h = ground arith
  Action-IsSound (loop_ending r f) h = ground arith
  Action-IsSound (listener_stopping d) h = ground arith
  Action-IsSound (serving_stopping d) h = ground arith
  Action-IsSound (manager_stopping m d) h = ground arith

  Event-IsSound : {p q : Process K L api} → Event K L api p q → IsSound p → IsSound q
  unfolding return_manager
  Event-IsSound signal h = ground arith
  Event-IsSound (manager_failed e m) h = ground arith
  Event-IsSound (tick answers l f) h = ground arith
  Event-IsSound (resynced l f) h = ground arith
  Event-IsSound (call op l f) h = ground arith
  Event-IsSound (write w rest f) h = ground arith

  pub Running-IsSound : {p : Process K L api} → Running K L api p → IsSound p
  Running-IsSound (starting o) = ground arith
  Running-IsSound (acting r a) = Action-IsSound a (Running-IsSound r)
  Running-IsSound (happening r e) = Event-IsSound e (Running-IsSound r)

  Action-Run :
      {p q : Process K L api} → Action K L api p q → Run K api p.system → Run K api q.system
  unfolding return_run return_manager
  Action-Run (listening_failed e r f) h = h
  Action-Run (listening info r f) h = h
  Action-Run (serving_failed info e r f) h = h
  Action-Run (serving info r f) h = h
  Action-Run (listener_seen r f) h = h
  Action-Run (serving_seen r f) h = h
  Action-Run (loop_ending r f) h = h
  Action-Run (listener_stopping d) h = h
  Action-Run (serving_stopping d) h = h
  Action-Run (manager_stopping m d) h = h

  Event-Run : {p q : Process K L api} → Event K L api p q → Run K api p.system → Run K api q.system
  unfolding return_manager
  Event-Run signal h = h
  Event-Run (manager_failed e m) h = h
  Event-Run (tick answers l f) h = turning h (locking (Operation.ticking answers) f)
  Event-Run (resynced l f) h = h
  Event-Run (call op l f) h = turning h (locking op f)
  Event-Run (write w rest f) h = turning h (writing w rest f)

  pub Running-Run : {p : Process K L api} → Running K L api p → Run K api p.system
  Running-Run (starting o) = beginning o
  Running-Run (acting r a) = Action-Run a (Running-Run r)
  Running-Run (happening r e) = Event-Run e (Running-Run r)

  -- Both functions of the group have returned, with these results.
  abbrev pub Exited : Process K L api → Option K.Err → Option K.Err → Type 0
  Exited p r m = (p.run ≡ run_returned r) × (p.manager ≡ manager_returned m)

  pub exit_status :
      {p : Process K L api} (r m : Option K.Err)
      → Running K L api p
      → Exited p r m
      → ((p.first_error ≡ none) ↔ ((r ≡ none) × (m ≡ none)))
        × (p.first_error ≡ none → p.signalled ≡ true)
  exit_status {p} r m running (a, b) =
      let h = Running-IsSound running in
      let first : (p.first_error ≡ none) ↔ ((r ≡ none) × (m ≡ none)) =
        ground (arith, h.first, a, b) in
      (
        first,
        λ e.
            let clean = (first.0 e).0 in
            ground (arith, e, h.cause, h.returned (a ∙ ap run_returned clean)),
      )
