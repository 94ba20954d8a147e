-- ===== src/Aggregator/Startup.antt =====
-- How the api-aggregator starts: the flags of pkg/apiserver/server.go and of
-- pkg/controllers/api-aggregator/aggregatedapi/controller.go, the construction of the server and of
-- the controller (also pkg/controllers/api-aggregator/config and cmd/api-aggregator), and the
-- requests that the controller takes. The flag package is a parameter.
pub mod Child
use aggregated_apiserver_ope.Prelude.{
  ℕ, String, Bool, true, false, not, ◌||◌, Option, none, some, List, [], ◌∷◌, ◌++◌, ◌==◌, string_eq,
  if◌then◌else◌, Result, ok, err, map_err, ◌>>=◌,
}
use aggregated_apiserver_ope.Kube.{Kube}
use aggregated_apiserver_ope.Operator.{NamespacedName}
use aggregated_apiserver_ope.Server as server

pub data FlagKind : Type 0 where
  text_flag int_flag duration_flag : FlagKind

-- The flag package: what the flags of zap are, `Parse` of all registered flags, which gives the
-- texts of those that are set, and the values of well-formed texts. A duration in nanoseconds.
pub record Flags (K : Kube) : Type 0 where
  pub zap_flags : List (String × FlagKind)
  pub parse : List (String × FlagKind) → List String → Result K.Err (String → Option String)
  pub int_value : String → Option ℕ
  pub duration_value : String → Option ℕ

-- `Options` of the controller; of the client and the server only whether they are there.
pub record Options : Type 0 where
  pub aggregated_api : String
  pub namespace : String
  pub url : String
  pub has_client : Bool
  pub has_server : Bool

-- `Options.defaults`
unfoldable pub defaults : Options → Options
defaults o = record o { namespace = if o.namespace == "" then "default" else o.namespace }

-- The map function of `SetupWithManager`: every Secret asks for the one AggregatedAPI.
unfoldable pub to_aggregated_api : Options → List NamespacedName
to_aggregated_api o = record { namespace = o.namespace; name = o.aggregated_api } ∷ []

-- `Reconcile` makes a pass for this request, and otherwise does nothing.
unfoldable pub accepts : Options → NamespacedName → Bool
accepts o req = not (not (req.name == o.aggregated_api) || not (req.namespace == o.namespace))

-- The names that the two `RegisterFlags` bind.
abbrev pub controller_flags : List (String × FlagKind)
controller_flags =
    ("aggregated-api", text_flag) ∷ ("namespace", text_flag) ∷ ("url", text_flag) ∷ []

abbrev pub server_flags : List (String × FlagKind)
server_flags =
    ("hostname", text_flag)
    ∷ ("port", int_flag)
    ∷ ("tls-cert-file", text_flag)
    ∷ ("tls-key-file", text_flag)
    ∷ ("resync-interval", duration_flag)
    ∷ []

-- The value of a flag that is set, and otherwise its default.
abbrev pub value_or : {A : Type 0} → (String → Option A) → Option String → A → A
value_or read none default = default
value_or read (some text) default = elim (read text) [ none ↦ default | some v ↦ v ]

module _ (K : Kube) where
  -- `validate`
  unfoldable pub validate : Options → Result K.Err Options
  unfolding defaults
  validate given =
      let o = defaults given in
      if o.aggregated_api == ""
      then err (K.errorf "an AggregatedAPI name is required" [])
      else if not o.has_client
      then err (K.errorf "a Client is required" [])
      else if not o.has_server
      then err (K.errorf "a Server is required" [])
      else ok o

  -- `NewController`; a controller is its options.
  unfoldable pub new_controller : Options → Result K.Err Options
  unfolding validate
  new_controller o =
      map_err (K.wrapf "invalid aggregatedapi controller options: %w" []) (validate o)

  -- `Setup` of the configuration, up to the wiring of the manager.
  unfoldable pub setup : Options → Result K.Err Options
  unfolding new_controller
  setup o =
      map_err (K.wrapf "building aggregatedapi controller: %w" [])
        (new_controller (record o { has_client = true; has_server = true }))

  module _ (flags : Flags K) where
    -- `RegisterFlags` of the controller, and the values after `Parse`.
    unfoldable pub controller_options : (String → Option String) → Options
    unfolding defaults
    controller_options set =
        let o = defaults (record {
          aggregated_api = "";
          namespace = "";
          url = "";
          has_client = false;
          has_server = false;
        }) in
        record o {
          aggregated_api = value_or some (set "aggregated-api") o.aggregated_api;
          namespace = value_or some (set "namespace") o.namespace;
          url = value_or some (set "url") o.url;
        }

    -- `RegisterFlags` of the server, and the values after `Parse`.
    unfoldable pub server_options : (String → Option String) → server.Options
    server_options set =
        let o = server.defaults (record {
          hostname = "";
          port = 0;
          tls_cert_file = "";
          tls_key_file = "";
          resync_interval = 0;
        }) in
        record {
          hostname = value_or some (set "hostname") o.hostname;
          port = value_or flags.int_value (set "port") o.port;
          tls_cert_file = value_or some (set "tls-cert-file") o.tls_cert_file;
          tls_key_file = value_or some (set "tls-key-file") o.tls_key_file;
          resync_interval = value_or flags.duration_value (set "resync-interval") o.resync_interval;
        }

    -- `run` of cmd/api-aggregator, up to the host cluster: the controller and the server.
    unfoldable pub start : List String → Result K.Err (Options × server.Server K)
    unfolding controller_options server_options setup
    start args = do
      set ← flags.parse (controller_flags ++ (server_flags ++ flags.zap_flags)) args
      let aggregated = server.new K (server_options set)
      controller ←
          map_err (K.wrapf "setting up controllers: %w" []) (setup (controller_options set))
      ok (controller, aggregated)
