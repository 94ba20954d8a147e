-- ===== src/Aggregator.antt =====
-- pkg/controllers/api-aggregator/aggregatedapi: how a pass of the reconciler brings the members of
-- the server in line with the clusters of the AggregatedAPI (the first part of `run`).
pub mod Sync
pub mod Registered
pub mod Settled
pub mod Pass
pub mod Startup
pub mod Process
use mathlib.Core.Option
use aggregated_apiserver_ope.Prelude.{
  String, Bool, Option, none, some, List, [], ◌∷◌, ◌++◌, map, contains, ◌==◌, string_eq,
  if◌then◌else◌, Result, ok, err, map_err, ◌>>=◌,
}
use aggregated_apiserver_ope.Meta.{ApiSelector}
use aggregated_apiserver_ope.Kube.{Kube}
use aggregated_apiserver_ope.Discovery.{ApiResourceList}
use aggregated_apiserver_ope.Server.{Server, set_cluster, remove_cluster, clusters}
use aggregated_apiserver_ope.Install.{Apiserver}

-- `AggregatedCluster`
pub record AggregatedCluster : Type 0 where
  pub kubeconfig_name : String
  pub apis : List ApiSelector

-- `specClusters`
abbrev pub names : List AggregatedCluster → List String
names spec = map (λ (c : AggregatedCluster). c.kubeconfig_name) spec

-- What the pass asks of the host cluster and of client-go: a Secret's data by namespace and name,
-- a kubeconfig's configuration, the clients for it, and what a discovery client answers while a
-- cluster is registered.
pub record Host (K : Kube) : Type 1 where
  pub Bytes : Type 0
  pub Config : Type 0
  pub get_secret : String → String → Result K.Err (String → Option Bytes)
  pub rest_config : Bytes → Result K.Err Config
  pub dynamic_client : Config → Result K.Err K.Client
  pub discovery_client : Config → Result K.Err K.Discovery
  pub discovered : String → K.Discovery → Result K.Err (List ApiResourceList)

module _ (K : Kube) (api : Apiserver K) (host : Host K) (namespace : String) where
  open host use {Bytes, Config}

  -- `restConfigFromSecret`
  unfoldable pub rest_config_from_secret : (String → Option Bytes) → Result K.Err Config
  rest_config_from_secret data_of = elim (data_of "kubeconfig") [
    | none ↦ err (K.errorf "missing \"kubeconfig\" key" [])
    | some raw ↦ map_err (K.wrapf "parsing kubeconfig: %w" []) (host.rest_config raw)
  ]

  -- The part of `registerCluster` that makes the clients.
  unfoldable pub connect : String → Result K.Err (K.Client × K.Discovery)
  unfolding rest_config_from_secret
  connect name = do
    secret ← map_err (K.wrapf "getting kubeconfig Secret: %w" []) (host.get_secret namespace name)
    config ← map_err (K.wrapf "loading kubeconfig: %w" []) (rest_config_from_secret secret)
    client ← map_err (K.wrapf "building dynamic client: %w" []) (host.dynamic_client config)
    discovery ← map_err (K.wrapf "building discovery client: %w" []) (host.discovery_client config)
    ok (client, discovery)

  -- `registerCluster`
  unfoldable pub register_cluster : AggregatedCluster → Server K → Option K.Err × Server K
  unfolding connect
  register_cluster cluster s =
      let name = cluster.kubeconfig_name in
      elim (connect name) [
        | err e ↦ (some e, s)
        | ok (client, discovery) ↦
            let (result, later) =
              set_cluster K api name client discovery cluster.apis (host.discovered name discovery)
                s in
            (Option.map (K.wrapf "registering on the server: %w" []) result, later)
      ]

  abbrev pub with_failure : Option K.Err → List K.Err → List K.Err
  with_failure none failures = failures
  with_failure (some e) failures = e ∷ failures

  -- The first loop of `run`, and its failures.
  unfoldable pub register_all : List AggregatedCluster → Server K → List K.Err × Server K
  unfolding register_cluster
  register_all [] s = ([], s)
  register_all (cluster ∷ rest) s =
      let (result, s') = register_cluster cluster s in
      let (failures, later) = register_all rest s' in
      (
        with_failure (Option.map (K.wrapf "cluster %q: %w" (cluster.kubeconfig_name ∷ [])) result)
            failures,
        later,
      )

  -- The second loop, over the names that `Server.Clusters` returned.
  unfoldable pub remove_all : List String → List String → Server K → List K.Err × Server K
  remove_all spec_clusters [] s = ([], s)
  remove_all spec_clusters (name ∷ rest) s =
      let kept = remove_all spec_clusters rest s in
      let (result, s') = remove_cluster K api name s in
      let (failures, later) = remove_all spec_clusters rest s' in
      if contains spec_clusters name then kept else (
        with_failure (Option.map (K.wrapf "removing cluster %q: %w" (name ∷ [])) result) failures,
        later,
      )

  -- Both loops of `run`.
  unfoldable pub sync_members : List AggregatedCluster → Server K → List K.Err × Server K
  unfolding register_all remove_all
  sync_members spec s =
      let (failures, s') = register_all spec s in
      let (others, later) = remove_all (names spec) (clusters K api s') s' in
      (failures ++ others, later)
