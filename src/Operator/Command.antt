-- ===== src/Operator/Command.antt =====
-- cmd/operator/main.go: the operator's process, from its arguments to its exit status. The flag
-- package, the host cluster's configuration and the manager are parameters.
use aggregated_apiserver_ope.Prelude.{
  ℕ, String, Option, none, some, List, [], ◌∷◌, ◌++◌, Result, ok, err,
}
use aggregated_apiserver_ope.Kube.{Kube}
use aggregated_apiserver_ope.Operator.{Options, Seams}
use aggregated_apiserver_ope.Operator.Setup.{ManagerClient, GivenSeams, operator_options, setup}

-- The names that `RegisterFlags` binds.
abbrev pub operator_flags : List String
operator_flags = "namespace" ∷ "service-account" ∷ []

-- The library: the flags of zap; `flag.Parse`, with the texts of the flags that are set, which
-- ends the process itself where it does not give them; `ctrl.GetConfig`; `ctrl.NewManager`, with
-- the address that metrics are served at; the manager's client; the builder's `Complete`; and
-- `Start` with the signal handler's context, by the error that it returns.
pub record Machine (K : Kube) : Type 1 where
  pub zap_flags : List String
  pub parse : List String → List String → Option (String → Option String)
  pub parse_status : ℕ
  pub Config : Type 0
  pub get_config : Result K.Err Config
  pub Manager : Type 0
  pub new_manager : Config → String → Result K.Err Manager
  pub client : Manager → ManagerClient K
  pub complete : Manager → Option K.Err
  pub start : Manager → Options → Seams K → Option K.Err

-- How a process ends: what it printed to stderr, and its exit status.
pub record Exit (K : Kube) : Type 0 where
  pub printed : List K.Err
  pub status : ℕ

module _ (K : Kube) (m : Machine K) where
  -- The functions that `config.Options{}` gives to the controller.
  abbrev pub no_functions : GivenSeams K
  no_functions = record { get = none; apply = none; update = none; delete = none }

  abbrev wrapped : String → Option K.Err → Option K.Err
  wrapped format none = none
  wrapped format (some e) = some (K.wrapf format [] e)

  -- `run`, with a manager: the controller, and the manager's own run.
  unfoldable pub run_manager : m.Manager → Options → Option K.Err
  unfolding setup
  run_manager manager o = elim (setup K (m.client manager) (m.complete manager) o no_functions) [
    | err e ↦ some (K.wrapf "setting up controllers: %w" [] e)
    | ok (opts, seams) ↦ wrapped "running manager: %w" (m.start manager opts seams)
  ]

  -- `run`, after the flags were parsed.
  unfoldable pub run : (String → Option String) → Option K.Err
  unfolding run_manager operator_options
  run set = elim m.get_config [
    | err e ↦ some (K.wrapf "loading rest config: %w" [] e)
    | ok config ↦ elim (m.new_manager config "0") [
      | err e ↦ some (K.wrapf "building manager: %w" [] e)
      | ok manager ↦ run_manager manager (operator_options set)
    ]
  ]

  -- `main`
  unfoldable pub main : List String → Exit K
  unfolding run
  main args = elim (m.parse (operator_flags ++ m.zap_flags) args) [
    | none ↦ record { printed = []; status = m.parse_status }
    | some set ↦ elim (run set) [
      | none ↦ record { printed = []; status = 0 }
      | some e ↦ record { printed = e ∷ []; status = 1 }
    ]
  ]
