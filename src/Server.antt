-- ===== src/Server.antt =====
-- pkg/apiserver/server.go: the members, the handler that is served, and when it is replaced. What
-- the discovery clients answer is a parameter.
pub mod Consistent
pub mod Rebuild
pub mod Members
pub mod Serving
pub mod Settled
pub mod Url
pub mod Listen
pub mod Writes
pub mod Moments
pub mod Live
pub mod Interleaved
use aggregated_apiserver_ope.Prelude.{
  ℕ, suc, String, ◌<>◌, Bool, true, false, ◌||◌, Option, none, some, List, [], ◌∷◌, map, length,
  lookup, update, remove, nat_eq, ◌==◌, string_eq, list_eq, if◌then◌else◌, Result, ok, err, map_err,
  ◌>>=◌,
}
use aggregated_apiserver_ope.Prelude.Text.{less}
use aggregated_apiserver_ope.Prelude.Sort.{sort}
use aggregated_apiserver_ope.Meta.{GroupVersion, gv_eq, ApiSelector}
use aggregated_apiserver_ope.Kube.{Kube}
use aggregated_apiserver_ope.Discovery.{
  ServedResource, served_eq, ApiResourceList, from_discovery, filter, union,
}
use aggregated_apiserver_ope.Configuration.{Net}
use aggregated_apiserver_ope.Storage as storage
use aggregated_apiserver_ope.Install.{Apiserver, GenericServer, new_generic_server}

-- `Options`; a duration in nanoseconds.
pub record Options : Type 0 where
  pub hostname : String
  pub port : ℕ
  pub tls_cert_file : String
  pub tls_key_file : String
  pub resync_interval : ℕ

-- `Options.defaults`
unfoldable pub defaults : Options → Options
defaults o = record o {
  hostname = if o.hostname == "" then "0.0.0.0" else o.hostname;
  port = if o.port == 0 then 6443 else o.port;
  resync_interval = if o.resync_interval == 0 then 30_000_000_000 else o.resync_interval;
}

-- `Options.URL`, and `Server.URL` for a server's options.
unfoldable pub url : Net → Options → String
url net o = "https://" <> (o.hostname <> (":" <> net.itoa o.port))

-- `memberCluster`
pub record Member (K : Kube) : Type 0 where
  pub client : K.Client
  pub discovery : K.Discovery
  pub selectors : List ApiSelector
  pub resources : List ServedResource

pub data Handler (K : Kube) : Type 0 where
  not_found : Handler K
  generic : GenericServer K → Handler K

-- `Server`. A nil slice of resources is `none`. Contexts are numbered in the order of their making;
-- a `CancelFunc` is the number of its context.
pub record Server (K : Kube) : Type 0 where
  pub opts : Options
  pub handler : Handler K
  pub members : List (String × Member K)
  pub resources : Option (List ServedResource)
  pub stop_watches : Option ℕ
  pub contexts : ℕ
  pub cancelled : List ℕ

module _ (K : Kube) where
  -- `New`
  unfoldable pub new : Options → Server K
  unfolding defaults
  new opts = record {
    opts = defaults opts;
    handler = not_found;
    members = [];
    resources = none;
    stop_watches = none;
    contexts = 0;
    cancelled = [];
  }

  -- `resolve`, with what the cluster's discovery client answers.
  unfoldable pub resolve :
      Result K.Err (List ApiResourceList) → Member K → Result K.Err (Bool × Member K)
  resolve answer m = do
    lists ← map_err (K.wrapf "discovering server resources: %w" []) answer
    resources ← map_err (K.wrapf "reading discovery: %w" []) (from_discovery K lists)
    let filtered = filter resources m.selectors
    ok (if filtered == m.resources then (false, m) else (true, record m { resources = filtered }))

  module _ (api : Apiserver K) where
    -- `swapHandler`
    unfoldable pub swap_handler : Handler K → Option ℕ → Server K → Server K
    swap_handler handler stop_watches s = record s {
      handler = handler;
      cancelled = elim s.stop_watches [ none ↦ s.cancelled | some c ↦ c ∷ s.cancelled ];
      stop_watches = stop_watches;
    }

    -- The end of `rebuild`, for resources that are new and not empty.
    unfoldable pub rebuild_with : List ServedResource → Server K → Option K.Err × Server K
    unfolding new_generic_server swap_handler
    rebuild_with resources s =
        let clusters = map (λ (name, m). (name, m.client)) s.members in
        let s' = record s { contexts = suc s.contexts } in
        elim (new_generic_server K api s.opts.hostname s.opts.port resources clusters s.contexts) [
          | err e ↦ (some e, record s' { cancelled = s.contexts ∷ s'.cancelled })
          | ok inner ↦ (
            none,
            record (swap_handler (generic inner) (some s.contexts) s') {
              resources = some resources;
            },
          )
        ]

    -- What `rebuild` gives to `Union`, in the order in which its loop meets the members.
    abbrev pub by_cluster : List (String × Member K) → List (String × List ServedResource)
    by_cluster members = map (λ (name, m). (name, m.resources)) members

    -- `reflect.DeepEqual(resources, s.resources)`, where only the second can be nil.
    abbrev pub same_resources : List ServedResource → Option (List ServedResource) → Bool
    same_resources resources none = false
    same_resources resources (some served) = resources == served

    -- `rebuild`: an error, or none, and the server afterwards.
    unfoldable pub rebuild : Server K → Option K.Err × Server K
    unfolding rebuild_with swap_handler
    rebuild s = elim (union K (by_cluster s.members)) [
      | err e ↦ (some (K.wrapf "merging served resources: %w" [] e), s)
      | ok resources ↦
          if same_resources resources s.resources
          then (none, s)
          else if length resources == 0
          then (none, record (swap_handler not_found none s) { resources = none })
          else rebuild_with resources s
    ]

    -- `SetCluster`
    unfoldable pub set_cluster :
        String
        → K.Client
        → K.Discovery
        → List ApiSelector
        → Result K.Err (List ApiResourceList)
        → Server K
        → Option K.Err × Server K
    unfolding resolve rebuild
    set_cluster name client discovery selectors answer s =
        let member : Member K = record {
          client = client;
          discovery = discovery;
          selectors = selectors;
          resources = [];
        } in
        elim (resolve answer member) [
          | err e ↦ (some (K.wrapf "resolving cluster %q: %w" (name ∷ []) e), s)
          | ok (changed, resolved) ↦ rebuild (record s { members = update name resolved s.members })
        ]

    -- `Clusters`
    unfoldable pub clusters : Server K → List String
    clusters s = sort less (map (λ (name, m). name) s.members)

    -- `RemoveCluster`
    unfoldable pub remove_cluster : String → Server K → Option K.Err × Server K
    unfolding rebuild
    remove_cluster name s = rebuild (record s { members = remove name s.members })

    -- What the discovery clients of the clusters answer during one resync.
    abbrev pub Answers : Type 0
    Answers = String → K.Discovery → Result K.Err (List ApiResourceList)

    -- The loop of `resync`; a cluster that cannot be resolved keeps what it had.
    unfoldable pub resolve_all :
        Answers → List (String × Member K) → Bool × List (String × Member K)
    unfolding resolve
    resolve_all answers [] = (false, [])
    resolve_all answers ((name, m) ∷ rest) =
        let (others_changed, others) = resolve_all answers rest in
        elim (resolve (answers name m.discovery) m) [
          | err e ↦ (others_changed, (name, m) ∷ others)
          | ok (changed, resolved) ↦ (changed || others_changed, (name, resolved) ∷ others)
        ]

    -- `resync`; its errors are only logged.
    unfoldable pub resync : Answers → Server K → Server K
    unfolding resolve_all rebuild
    resync answers s =
        let (changed, resolved) = resolve_all answers s.members in
        let s' = record s { members = resolved } in
        let (result, rebuilt) = rebuild s' in if changed then rebuilt else s'
