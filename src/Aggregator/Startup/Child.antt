-- ===== src/Aggregator/Startup/Child.antt =====
-- The workload that the operator makes starts as the server of its AggregatedAPI.
use aggregated_apiserver_ope.Prelude.{
  ℕ, String, ◌<>◌, ◌≡◌, ◌≢◌, ◌↔◌, refl, ap, ◌∙◌, true, false, Option, none, some, List, [], ◌∷◌,
  ◌++◌, All, lookup, NodupKeys, arith, ◌==◌, string_eq, nat_eq, eq_iff, if◌then◌else◌, ok,
}
use aggregated_apiserver_ope.Kube.{Kube}
use aggregated_apiserver_ope.Operator as operator
use aggregated_apiserver_ope.Operator.{
  AggregatedApi, NamespacedName, child_args, child_name, deployment, service,
}
use aggregated_apiserver_ope.Server as server
use aggregated_apiserver_ope.Aggregator.Startup.{
  FlagKind, text_flag, int_flag, duration_flag, Flags, Options, defaults, accepts,
  to_aggregated_api, controller_flags, server_flags, validate, new_controller, setup,
  controller_options, server_options, start,
}

-- The arguments that set flags, one after the other.
abbrev pub set_flags : List (String × String) → List String
set_flags [] = []
set_flags ((name, value) ∷ rest) = ("--" <> name) ∷ value ∷ set_flags rest

module _ (K : Kube) (flags : Flags K) where
  abbrev pub IsWellFormed : FlagKind → String → Type 0
  IsWellFormed text_flag value = Unit
  IsWellFormed int_flag value = (n : ℕ) × (flags.int_value value ≡ some n)
  IsWellFormed duration_flag value = (n : ℕ) × (flags.duration_value value ≡ some n)

  -- A flag that is registered, with a value of its kind.
  abbrev pub IsFlag : List (String × FlagKind) → String × String → Type 0
  IsFlag registered (name, value) =
      (kind : FlagKind) × (lookup name registered ≡ some kind) × IsWellFormed kind value

  -- What the flag package documents: arguments that set registered flags to values of their kinds,
  -- each once, are parsed, and set those flags and no other.
  abbrev pub ParsesFlags : Type 0
  ParsesFlags =
      (registered : List (String × FlagKind)) (pairs : List (String × String))
      → NodupKeys pairs
      → All (IsFlag registered) pairs
      → (set : String → Option String) × (flags.parse registered (set_flags pairs) ≡ ok set)
        × ((name : String) → set name ≡ lookup name pairs)

  -- The interval of an AggregatedAPI: none, or one that its text gives back.
  abbrev pub IsInterval : Option K.Duration → Option ℕ → Type 0
  IsInterval none none = Unit
  IsInterval (some d) (some n) = flags.duration_value (K.duration_string d) ≡ some n
  IsInterval _ _ = ⊥

  abbrev pub interval_or_default : Option ℕ → ℕ
  interval_or_default none = 30_000_000_000
  interval_or_default (some n) = if n == 0 then 30_000_000_000 else n

  module _ (parses : ParsesFlags) (o : operator.Options) (a : AggregatedApi K) where
    abbrev child_url : String
    child_url =
        "https://" <> ((service K o a).name <> ("." <> ((service K o a).namespace <> ".svc:443")))

    abbrev child_flags : Option K.Duration → List (String × String)
    child_flags interval =
        ("aggregated-api", a.name)
        ∷ ("namespace", a.namespace)
        ∷ ("url", child_url)
        ∷ elim interval [ none ↦ [] | some d ↦ ("resync-interval", K.duration_string d) ∷ [] ]

    child_args-eq :
        (interval : Option K.Duration)
        → a.resync_interval ≡ interval
        → child_args K o a ≡ set_flags (child_flags interval)
    unfolding child_args service child_name
    child_args-eq none e = rw (child_args, e) refl
    child_args-eq (some d) e = rw (child_args, e) refl

    abbrev registered : List (String × FlagKind)
    registered = controller_flags ++ (server_flags ++ flags.zap_flags)

    child_flags-NodupKeys : (interval : Option K.Duration) → NodupKeys (child_flags interval)
    child_flags-NodupKeys none = (refl, (refl, (refl, tt)))
    child_flags-NodupKeys (some d) = (refl, (refl, (refl, (refl, tt))))

    child_flags-IsFlag :
        (interval : Option K.Duration) (n : Option ℕ)
        → IsInterval interval n
        → All (IsFlag registered) (child_flags interval)
    child_flags-IsFlag none n h =
        ((text_flag, refl, tt), ((text_flag, refl, tt), ((text_flag, refl, tt), tt)))
    child_flags-IsFlag (some d) none h = absurd h
    child_flags-IsFlag (some d) (some n) h = (
      (text_flag, refl, tt),
      ((text_flag, refl, tt), ((text_flag, refl, tt), ((duration_flag, refl, (n, h)), tt))),
    )

    -- The controller of the child.
    abbrev child_options : Options
    child_options = record {
      aggregated_api = a.name;
      namespace = a.namespace;
      url = child_url;
      has_client = true;
      has_server = true;
    }

    setup_child :
        (set : String → Option String)
        → set "aggregated-api" ≡ some a.name
        → set "namespace" ≡ some a.namespace
        → set "url" ≡ some child_url
        → a.name ≢ ""
        → a.namespace ≢ ""
        → setup K (controller_options K flags set) ≡ ok child_options
    unfolding setup new_controller validate defaults controller_options
    setup_child set name namespace url named in_namespace =
        let is_named : (a.name == "") ≡ false = ground (arith, named, eq_iff a.name "") in
        let is_in : (a.namespace == "") ≡ false =
          ground (arith, in_namespace, eq_iff a.namespace "") in
        rw (setup, controller_options, name, namespace, url, is_named, is_in) refl

    no_port_flag : (interval : Option K.Duration) → lookup "port" (child_flags interval) ≡ none
    no_port_flag none = refl
    no_port_flag (some d) = refl

    resync_of :
        (set : String → Option String) (interval : Option K.Duration) (n : Option ℕ)
        → IsInterval interval n
        → set "resync-interval" ≡ lookup "resync-interval" (child_flags interval)
        → (server.new K (server_options K flags set)).opts.resync_interval ≡ interval_or_default n
    unfolding server.new server.defaults server_options
    resync_of set none none h e = rw (server_options, e) refl
    resync_of set (some d) (some n) h e = rw (server_options, e, h) refl
    resync_of set none (some n) h e = absurd h
    resync_of set (some d) none h e = absurd h

    -- For an AggregatedAPI with a name and a namespace, and with no interval or one that its text
    -- gives back: the workload of its Deployment starts with the arguments there. Its controller
    -- takes exactly the requests for that AggregatedAPI, and every Secret asks for it; it publishes
    -- the URL of the Service, with the Service's port. Its server listens on the port that the container names and that the
    -- Service targets, and resyncs at the interval, or every 30 seconds where that is not set or 0.
    pub child_starts :
        (interval : Option ℕ)
        → IsInterval a.resync_interval interval
        → a.name ≢ ""
        → a.namespace ≢ ""
        → let container = (deployment K o a).container in
          let own : NamespacedName = record { namespace = a.namespace; name = a.name } in
          (c : Options) × (s : server.Server K) × (start K flags container.args ≡ ok (c, s))
          × ((req : NamespacedName) → (accepts c req ≡ true) ↔ (req ≡ own))
          × (to_aggregated_api c ≡ own ∷ [])
          × (c.url
              ≡ "https://"
                <> ((service K o a).name <> ("." <> ((service K o a).namespace <> ".svc:443"))))
          × ((service K o a).port ≡ 443)
          × (s.opts.port ≡ container.container_port)
          × (container.port_name ≡ (service K o a).target_port)
          × (s.opts.resync_interval ≡ interval_or_default interval)
    unfolding deployment accepts to_aggregated_api start service server_options server.new
        server.defaults
    child_starts n h named in_namespace =
        let (set, p, values) =
          parses registered (child_flags a.resync_interval)
            (child_flags-NodupKeys a.resync_interval) (child_flags-IsFlag a.resync_interval n h) in
        let ready =
          setup_child set (values "aggregated-api") (values "namespace") (values "url") named
            in_namespace in
        let parsed : flags.parse registered (child_args K o a) ≡ ok set =
          ap (flags.parse registered) (child_args-eq a.resync_interval refl) ∙ p in
        let no_port : set "port" ≡ none = values "port" ∙ no_port_flag a.resync_interval in
        (
          child_options,
          server.new K (server_options K flags set),
          rw (start, parsed, ready) refl,
          λ req. ground (arith, eq_iff req.name a.name, eq_iff req.namespace a.namespace),
          refl,
          refl,
          refl,
          rw no_port refl,
          refl,
          resync_of set a.resync_interval n h (values "resync-interval"),
        )
