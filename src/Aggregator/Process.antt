-- ===== src/Aggregator/Process.antt =====
-- The running api-aggregator: the two goroutines of the errgroup in cmd/api-aggregator, `Run` and
-- `resyncLoop` of pkg/apiserver/server.go, beside the controller's calls of the server. What the
-- manager and the listener do, and when, is the libraries' choice.
pub mod Status
pub mod Exit
use aggregated_apiserver_ope.Prelude.{
  String, ◌≡◌, ◌≢◌, Bool, true, false, Option, none, some, List, [], ◌∷◌, Result, ok, err,
}
use aggregated_apiserver_ope.Kube.{Kube}
use aggregated_apiserver_ope.Server.{Options, Server, new, Answers}
use aggregated_apiserver_ope.Server.Writes.{Write, Operation, writes, apply}
use aggregated_apiserver_ope.Server.Interleaved.{System}
use aggregated_apiserver_ope.Server.Listen.{Listener, listen}
use aggregated_apiserver_ope.Install.{Apiserver}

module _ (K : Kube) (L : Listener K) (api : Apiserver K) where
  -- Where `Run` is: before `listen`, before `serving.Serve`, at the receipt from
  -- `listenerStoppedCh`, at that from `stoppedCh`, or behind its return.
  pub data RunPlace : Type 0 where
    to_listen : RunPlace
    to_serve : L.Info → RunPlace
    awaiting_listener awaiting_serving : RunPlace
    run_returned : Option K.Err → RunPlace

  -- Where `resyncLoop` is: not started, at its `select`, inside `resync`, or behind its return.
  pub data LoopPlace : Type 0 where
    no_loop selecting resyncing loop_returned : LoopPlace

  pub data ManagerPlace : Type 0 where
    managing : ManagerPlace
    manager_returned : Option K.Err → ManagerPlace

  -- `signalled` is whether the context of `SetupSignalHandler` is done, `context_done` whether the
  -- group's is; `first_error` is what the group's `Wait` is to return; the next two are whether the
  -- channels that `Serve` returned are closed.
  pub record Process : Type 0 where
    pub system : System K api
    pub run : RunPlace
    pub loop : LoopPlace
    pub manager : ManagerPlace
    pub signalled : Bool
    pub context_done : Bool
    pub first_error : Option K.Err
    pub listener_stopped : Bool
    pub serving_stopped : Bool

  -- The return of one of the group's functions, as errgroup documents it: the first error is kept
  -- for `Wait`, and cancels the group's context.
  abbrev pub group_error : Option K.Err → Option K.Err → Option K.Err
  group_error none result = result
  group_error (some first) result = some first

  abbrev pub group_done : Bool → Option K.Err → Bool
  group_done done none = done
  group_done done (some e) = true

  unfoldable pub return_run : Option K.Err → Process → Process
  return_run result p = record p {
    run = run_returned result;
    first_error = group_error p.first_error result;
    context_done = group_done p.context_done result;
  }

  unfoldable pub return_manager : Option K.Err → Process → Process
  return_manager result p = record p {
    manager = manager_returned result;
    first_error = group_error p.first_error result;
    context_done = group_done p.context_done result;
  }

  abbrev pub run_failed : K.Err → Option K.Err
  run_failed e = some (K.wrapf "running aggregated API server: %w" [] e)

  -- What happens of itself: a step of `Run`, the end of the loop, and, as the libraries document it,
  -- once the context is done, the return of `mgr.Start` and the closing of the listener's channels.
  pub data Action (p : Process) : Process → Type 0 where
    listening_failed :
        (e : K.Err)
        → p.run ≡ to_listen
        → listen K L p.system.server.opts ≡ err e
        → Action p (return_run (run_failed e) p)
    -- The loop is started behind `listen`.
    listening :
        (info : L.Info)
        → p.run ≡ to_listen
        → listen K L p.system.server.opts ≡ ok info
        → Action p (record p { run = to_serve info; loop = selecting })
    serving_failed :
        (info : L.Info) (e : K.Err)
        → p.run ≡ to_serve info
        → L.serve info ≡ some e
        → Action p (return_run (run_failed (K.wrapf "serving: %w" [] e)) p)
    serving :
        (info : L.Info)
        → p.run ≡ to_serve info
        → L.serve info ≡ none
        → Action p (record p { run = awaiting_listener })
    listener_seen :
        p.run ≡ awaiting_listener
        → p.listener_stopped ≡ true
        → Action p (record p { run = awaiting_serving })
    serving_seen :
        p.run ≡ awaiting_serving → p.serving_stopped ≡ true → Action p (return_run none p)
    loop_ending :
        p.loop ≡ selecting → p.context_done ≡ true → Action p (record p { loop = loop_returned })
    listener_stopping : p.context_done ≡ true → Action p (record p { listener_stopped = true })
    serving_stopping : p.context_done ≡ true → Action p (record p { serving_stopped = true })
    manager_stopping :
        p.manager ≡ managing → p.context_done ≡ true → Action p (return_manager none p)

  -- What else can happen: a signal, an error of the manager, a tick of the resync, a call of the
  -- controller, and the writes of what holds the mutex. The loop has the mutex inside `resync`.
  pub data Event (p : Process) : Process → Type 0 where
    signal : Event p (record p { signalled = true; context_done = true })
    manager_failed :
        (e : K.Err)
        → p.manager ≡ managing
        → Event p (return_manager (some (K.wrapf "running manager: %w" [] e)) p)
    tick :
        (answers : Answers K api)
        → p.loop ≡ selecting
        → p.system.pending ≡ []
        → Event p (record p {
          loop = resyncing;
          system = record p.system {
            pending = writes K api (Operation.ticking answers) p.system.server;
          };
        })
    resynced : p.loop ≡ resyncing → p.system.pending ≡ [] → Event p (record p { loop = selecting })
    call :
        (op : Operation K api)
        → p.loop ≢ resyncing
        → p.system.pending ≡ []
        → Event p
            (record p { system = record p.system { pending = writes K api op p.system.server } })
    write :
        (w : Write K) (rest : List (Write K))
        → p.system.pending ≡ w ∷ rest
        → Event p
            (record p { system = record { server = apply K w p.system.server; pending = rest } })

  abbrev pub started : Options → Process
  started o = record {
    system = record { server = new K o; pending = [] };
    run = to_listen;
    loop = no_loop;
    manager = managing;
    signalled = false;
    context_done = false;
    first_error = none;
    listener_stopped = false;
    serving_stopped = false;
  }

  pub data Running : Process → Type 0 where
    starting : (o : Options) → Running (started o)
    acting : {p q : Process} → Running p → Action p q → Running q
    happening : {p q : Process} → Running p → Event p q → Running q

  pub data Actions (p : Process) : Process → Type 0 where
    finished : Actions p p
    later : {q r : Process} → Actions p q → Action q r → Actions p r
