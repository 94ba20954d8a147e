-- ===== src/Tests/Aggregator.antt =====
-- A pass for an AggregatedAPI that names one cluster, on a server that has another.
use aggregated_apiserver_ope.Prelude.{
  String, ◌≡◌, ◌↔◌, refl, ◌==◌, none, some, List, [], ◌∷◌, string_eq, ok,
}
use aggregated_apiserver_ope.Server.{Options, Server, new}
use aggregated_apiserver_ope.Install.{Apiserver}
use aggregated_apiserver_ope.Aggregator.{AggregatedCluster, Host, sync_members}
use aggregated_apiserver_ope.Aggregator.Pass.{Condition, Status, Served, Hub, reconcile_pass}
use aggregated_apiserver_ope.Aggregator.Pass.Report.{
  IsUrl, IsReady, IsPatched, Published, Committed, reconcile_pass_lem,
}
use aggregated_apiserver_ope.Tests.Install.{add_service}
use aggregated_apiserver_ope.Tests.Sample.{sample_net, sample, sample_GroupLaws}

abbrev api : Apiserver sample
api = record {
  net = sample_net;
  build = λ config. none;
  install_rest = λ install. none;
  add_service = add_service;
  group_order = λ groups. groups;
}

abbrev pub host : Host sample
host = record {
  Bytes = String;
  Config = String;
  get_secret = λ namespace name. ok (λ key. some name);
  rest_config = λ raw. ok raw;
  dynamic_client = λ config. ok config;
  discovery_client = λ config. ok config;
  discovered = λ name client. ok [];
}

abbrev spec : List AggregatedCluster
spec = record { kubeconfig_name = "a"; apis = [] } ∷ []

abbrev options : Options
options = record {
  hostname = "";
  port = 0;
  tls_cert_file = "";
  tls_key_file = "";
  resync_interval = 0;
}

abbrev with_b : Server sample
with_b = record (new sample options) {
  members = ("b", record { client = "b"; discovery = "b"; selectors = []; resources = [] }) ∷ [];
}

abbrev pub no_status : Status (List Condition)
no_status = record { conditions = []; url = ""; kubeconfig_secret = "" }

abbrev apps : Served (List Condition)
apps = record {
  namespace = "default";
  name = "apps";
  generation = 2;
  clusters = spec;
  status = no_status;
}

abbrev pub hub : Hub sample
hub = record {
  Bytes = String;
  Conditions = List Condition;
  set_status_condition = λ c cs. c ∷ [];
  same_status = λ a b. a.url == b.url;
  join_errors = sample.group_wait;
  error_text = λ e. "failed";
  encode = λ kubeconfig. ok kubeconfig.server;
  get_aggregated_api = λ namespace name. ok apps;
  apply_secret = λ secret. none;
  patch_status = λ status. none;
}

reconcile_pass_lem_example :
    let (failures, members) = sync_members sample api host "default" spec with_b in
    let (error, status, later) =
      reconcile_pass sample hub api host "default" "apps" "https://apps.svc:443"
        "https://0.0.0.0:6443" with_b in
    (later ≡ members)
    × ((new : Status (List Condition)) × IsPatched sample hub api host "default" "apps"
          "https://apps.svc:443" "https://0.0.0.0:6443" apps new status
        × IsUrl sample hub api host "default" "apps" "https://apps.svc:443" "https://0.0.0.0:6443"
            new.url
        × IsReady sample hub api host "default" "apps" "https://apps.svc:443" "https://0.0.0.0:6443"
            apps failures new
        × ((error ≡ none) ↔ (
            (failures ≡ [])
            × Published sample hub api host "default" "apps" "https://apps.svc:443"
                "https://0.0.0.0:6443" new.url apps
            × Committed sample hub api host "default" "apps" "https://apps.svc:443"
                "https://0.0.0.0:6443" apps new)))
reconcile_pass_lem_example =
    reconcile_pass_lem sample hub api host "default" "apps" "https://apps.svc:443"
      "https://0.0.0.0:6443"
      (λ es. (sample_GroupLaws.wait_failed es, sample_GroupLaws.wait_none es)) apps with_b refl
