-- ===== src/Operator/Commanded.antt =====
-- What the operator's process does with a manager: it runs the controller that converges.
use aggregated_apiserver_ope.Prelude.{String, ◌≡◌, Option, none, some, List, [], ◌∷◌, ◌++◌, ok}
use aggregated_apiserver_ope.Kube.{Kube}
use aggregated_apiserver_ope.Operator.World.{World}
use aggregated_apiserver_ope.Operator.Command.{Machine, Exit, operator_flags}

module _ (K : Kube) (m : Machine K) where
  -- The arguments parse, the host cluster's configuration loads, a manager is built that serves no
  -- metrics, and the controller registers with it.
  pub record Reaches (args : List String) (set : String → Option String) (manager : m.Manager)
      : Type 0 where
    pub config : m.Config
    pub parsed : m.parse (operator_flags ++ m.zap_flags) args ≡ some set
    pub loaded : m.get_config ≡ ok config
    pub built : m.new_manager config "0" ≡ ok manager
    pub registered : m.complete manager ≡ none

  -- How a process ends whose manager's run ended.
  abbrev pub exit_of : Option K.Err → Exit K
  exit_of none = record { printed = []; status = 0 }
  exit_of (some e) = record { printed = K.wrapf "running manager: %w" [] e ∷ []; status = 1 }
