-- ===== src/Tests/Converges.antt =====
-- The operator on an object that has no finalizer and no children yet.
use aggregated_apiserver_ope.Prelude.{
  String, false, Option, none, some, [], ◌∷◌, ◌==◌, string_eq, if◌then◌else◌, ok, err,
}
use aggregated_apiserver_ope.Operator.{AggregatedApi, NamespacedName}
use aggregated_apiserver_ope.Operator.World.{World, replay}
use aggregated_apiserver_ope.Operator.Setup.{ManagerClient}
use aggregated_apiserver_ope.Operator.Command.{Machine}
use aggregated_apiserver_ope.Tests.Sample.{sample, SampleErr, missing}

abbrev shop : AggregatedApi sample
shop = record {
  namespace = "team-a";
  name = "shop";
  deleting = false;
  finalizers = [];
  image = "";
  resync_interval = some 3600;
}

abbrev request : NamespacedName
request = record { namespace = "team-a"; name = "shop" }

abbrev empty_world : World sample
empty_world = record { object = some shop; deployments = λ name. none; services = λ name. none }

abbrev gone : SampleErr
gone = missing (record { group = "aggregation.ntnn.dev"; resource = "aggregatedapis" }) "shop"

abbrev client : ManagerClient sample
client = record {
  Content = String;
  to_unstructured = λ child. ok "converted";
  get = λ t req. elim (replay sample empty_world t).object [ none ↦ err gone | some a ↦ ok a ];
  update = λ t a. ok a;
  apply = λ t content options. none;
  delete = λ t child. none;
}

abbrev set_flags : String → Option String
set_flags name = if name == "namespace" then some "operators" else none

abbrev machine : Machine sample
machine = record {
  zap_flags = "zap-devel" ∷ [];
  parse = λ names args. some set_flags;
  parse_status = 2;
  Config = String;
  get_config = ok "host";
  Manager = String;
  new_manager = λ config address. ok config;
  client = λ manager. client;
  complete = λ manager. none;
  start = λ manager o seams. some gone;
}
