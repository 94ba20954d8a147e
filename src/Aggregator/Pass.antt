-- ===== src/Aggregator/Pass.antt =====
-- A whole pass of the reconciler of pkg/controllers/api-aggregator/aggregatedapi (reconciler.go,
-- conditions.go, kubeconfig.go): the members, the Ready condition, the published kubeconfig.
pub mod Report
use mathlib.Core.Option
use aggregated_apiserver_ope.Prelude.{
  ℕ, String, ◌<>◌, ◌≡◌, ◌↔◌, ◌⊎◌, ◌≢◌, All, map, refl, Bool, true, false, not, Option, none, some,
  List, [], ◌∷◌, inl, inr, arith, ◌==◌, string_eq, if◌then◌else◌, Option-cases, Result, ok, err,
}
use aggregated_apiserver_ope.Kube.{Kube}
use aggregated_apiserver_ope.Server.{Server}
use aggregated_apiserver_ope.Install.{Apiserver}
use aggregated_apiserver_ope.Aggregator.{AggregatedCluster, Host, sync_members}

-- The fields of `metav1.Condition` that are set.
pub record Condition : Type 0 where
  pub type_name : String
  pub observed_generation : ℕ
  pub status : String
  pub reason : String
  pub message : String

-- `AggregatedAPIStatus`; a list of conditions is the library's.
pub record Status (Conditions : Type 0) : Type 0 where
  pub conditions : Conditions
  pub url : String
  pub kubeconfig_secret : String

-- The parts of an AggregatedAPI that a pass reads and writes.
pub record Served (Conditions : Type 0) : Type 0 where
  pub namespace : String
  pub name : String
  pub generation : ℕ
  pub clusters : List AggregatedCluster
  pub status : Status Conditions

-- The kubeconfig that is published: one cluster, one user and one context, under one name.
pub record Kubeconfig : Type 0 where
  pub entry : String
  pub server : String
  pub insecure_skip_tls_verify : Bool
  pub token : String
  pub current_context : String

-- The Secret that is applied; its controller is the AggregatedAPI.
pub record Secret (Bytes : Type 0) : Type 0 where
  pub name : String
  pub namespace : String
  pub kubeconfig : Bytes

-- What a pass asks of the libraries and of the host cluster; `join_errors` is `errors.Join`.
pub record Hub (K : Kube) : Type 1 where
  pub Bytes : Type 0
  pub Conditions : Type 0
  pub set_status_condition : Condition → Conditions → Conditions
  pub same_status : Status Conditions → Status Conditions → Bool
  pub join_errors : List (Option K.Err) → Option K.Err
  pub error_text : K.Err → String
  pub encode : Kubeconfig → Result K.Err Bytes
  pub get_aggregated_api : String → String → Result K.Err (Served Conditions)
  pub apply_secret : Secret Bytes → Option K.Err
  pub patch_status : Status Conditions → Option K.Err

module _ (K : Kube) (hub : Hub K) where
  open hub use {Bytes, Conditions}

  -- `setConditionReady`
  unfoldable pub set_condition_ready : Served Conditions → Bool → String → String → Conditions
  set_condition_ready a status reason message =
      hub.set_status_condition
        (record {
          type_name = "Ready";
          observed_generation = a.generation;
          status = if not status then "False" else "True";
          reason = reason;
          message = message;
        })
        a.status.conditions

  -- `kubeconfigForURL`
  unfoldable pub kubeconfig_for_url : String → Result K.Err Bytes
  kubeconfig_for_url url =
      elim (hub.encode (record {
        entry = "aggregated";
        server = url;
        insecure_skip_tls_verify = true;
        token = "unused";
        current_context = "aggregated";
      })) [ err e ↦ err (K.wrapf "encoding kubeconfig: %w" [] e) | ok raw ↦ ok raw ]

  -- `url`, where the options' URL may be empty.
  unfoldable pub url_of : String → String → String
  url_of url server_url = if not (url == "") then url else server_url

  -- `applyKubeconfigSecret`, without the write of the status.
  unfoldable pub apply_kubeconfig_secret : String → Served Conditions → Option K.Err
  unfolding kubeconfig_for_url
  apply_kubeconfig_secret url a = elim (kubeconfig_for_url url) [
    | err e ↦ some e
    | ok raw ↦
        elim (hub.apply_secret
          (record { name = a.name <> "-kubeconfig"; namespace = a.namespace; kubeconfig = raw })) [
            | some e ↦ some (K.wrapf "applying Secret: %w" [] e)
            | none ↦ none
          ]
  ]

  abbrev pub secret_name : Served Conditions → String
  secret_name a = a.name <> "-kubeconfig"

  -- The Ready condition of `run`, by its joined failures.
  abbrev pub ready : Served Conditions → Option K.Err → Conditions
  ready a none = set_condition_ready a true "ClustersRegistered" "all clusters registered"
  ready a (some e) = set_condition_ready a false "ClusterRegistrationFailed" (hub.error_text e)

  -- The part of `run` behind its loops, from their failures: an error, or none, and the status.
  unfoldable pub report : String → Served Conditions → List K.Err → Option K.Err × Status Conditions
  unfolding set_condition_ready apply_kubeconfig_secret
  report url a failures =
      let joined = hub.join_errors (map some failures) in
      elim (apply_kubeconfig_secret url a) [
        | none ↦ (
          joined,
          record { conditions = ready a joined; url = url; kubeconfig_secret = secret_name a },
        )
        | some e ↦ (
          hub.join_errors (joined ∷ some (K.wrapf "applying kubeconfig Secret: %w" [] e) ∷ []),
          record a.status { conditions = ready a joined; url = url },
        )
      ]

  -- What `commitStatus` patches.
  unfoldable pub patched : Served Conditions → Status Conditions → Option (Status Conditions)
  patched a status = if hub.same_status a.status status then none else some status

  -- `commitStatus`
  unfoldable pub commit_status : Served Conditions → Status Conditions → Option K.Err
  commit_status a status =
      if hub.same_status a.status status
      then none
      else Option.map (K.wrapf "patching status: %w" []) (hub.patch_status status)

  module _ (api : Apiserver K) (host : Host K) (namespace name url server_url : String) where
    -- `reconcile`: an error, or none, the status that is patched, if any, and the server.
    unfoldable pub reconcile_pass : Server K → Option K.Err × Option (Status Conditions) × Server K
    unfolding url_of report commit_status patched
    reconcile_pass s = elim (hub.get_aggregated_api namespace name) [
      | err e ↦
          if K.is_not_found e
          then (none, none, s)
          else (some (K.wrapf "getting AggregatedAPI: %w" [] e), none, s)
      | ok a ↦
          let (failures, later) = sync_members K api host namespace a.clusters s in
          let (result, status) = report (url_of url server_url) a failures in
          (hub.join_errors (result ∷ commit_status a status ∷ []), patched a status, later)
    ]
