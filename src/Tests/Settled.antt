-- ===== src/Tests/Settled.antt =====
-- A pass that registers the one cluster of an AggregatedAPI, which serves pods.
use aggregated_apiserver_ope.Prelude.{String, List, [], ◌∷◌, string_eq, ok}
use aggregated_apiserver_ope.Server.{Server, new, clusters}
use aggregated_apiserver_ope.Server.Settled.{Settled}
use aggregated_apiserver_ope.Storage as storage
use aggregated_apiserver_ope.Aggregator.{Host}
use aggregated_apiserver_ope.Aggregator.Pass.{Condition, Served, Hub, reconcile_pass}
use aggregated_apiserver_ope.Tests.Sample.{sample}
use aggregated_apiserver_ope.Tests.Server.{api, options, core, everything}
use aggregated_apiserver_ope.Tests.Aggregator.{host, hub, no_status}

abbrev pods_host : Host sample
pods_host = record host { discovered = λ name client. ok (core ∷ []) }

abbrev pods_api : Served (List Condition)
pods_api = record {
  namespace = "default";
  name = "apps";
  generation = 2;
  clusters = record { kubeconfig_name = "a"; apis = everything } ∷ [];
  status = no_status;
}

abbrev pods_hub : Hub sample
pods_hub = record hub { get_aggregated_api = λ namespace name. ok pods_api }

abbrev pods_pass : String → Server sample
pods_pass name =
    (reconcile_pass sample pods_hub api pods_host "default" name "https://apps.svc:443"
      "https://0.0.0.0:6443" (new sample options)).2
