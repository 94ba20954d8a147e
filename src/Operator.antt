-- ===== src/Operator.antt =====
-- pkg/controllers/operator/aggregatedapi: the controller that runs one aggregator for each
-- AggregatedAPI. What the API server answers is a parameter, as in Members.
pub mod Setup
pub mod Command
pub mod Commanded
pub mod World
pub mod Stable
pub mod Converges
pub mod Started
pub mod Labels
pub mod Lengths
pub mod Reconcile
pub mod Success
use aggregated_apiserver_ope.Prelude.{
  ℕ, String, ◌<>◌, Bool, not, ◌&&◌, Option, none, some, List, [], ◌∷◌, ◌++◌, ◌==◌, string_eq,
  if◌then◌else◌, Result, ok, err,
}
use aggregated_apiserver_ope.Prelude.Text.{cut}
use aggregated_apiserver_ope.Meta.{StringMap, empty_map, put, index}
use aggregated_apiserver_ope.Kube.{Kube}

abbrev pub finalizer : String
finalizer = "aggregation.ntnn.dev/child-workloads"

abbrev pub field_owner : String
field_owner = "aggregatedapi-operator"

-- `v1alpha1.DefaultImage`
abbrev pub default_image : String
default_image = "ghcr.io/ntnn/aggregated-apiserver-operator/api-aggregator:latest"

-- The fields of the two options that are flags.
pub record Options : Type 0 where
  pub namespace : String
  pub service_account : String

-- `Options.defaults`
unfoldable pub defaults : Options → Options
defaults o = record {
  namespace = if o.namespace == "" then "aggregated-apiserver-operator" else o.namespace;
  service_account = if o.service_account == "" then "api-aggregator" else o.service_account;
}

-- The parts of a `v1alpha1.AggregatedAPI` that the controller reads; `deleting` is
-- `!DeletionTimestamp.IsZero()`.
pub record AggregatedApi (K : Kube) : Type 0 where
  pub namespace : String
  pub name : String
  pub deleting : Bool
  pub finalizers : List String
  pub image : String
  pub resync_interval : Option K.Duration

pub record NamespacedName : Type 0 where
  pub namespace : String
  pub name : String

-- The one container of the child's pods, with its one port.
pub record Container : Type 0 where
  pub name : String
  pub image : String
  pub args : List String
  pub port_name : String
  pub container_port : ℕ

pub record Deployment : Type 0 where
  pub name : String
  pub namespace : String
  pub labels : StringMap
  pub selector : StringMap
  pub template_labels : StringMap
  pub service_account : String
  pub container : Container

-- A service with its one port; the target port is a name.
pub record Service : Type 0 where
  pub name : String
  pub namespace : String
  pub labels : StringMap
  pub selector : StringMap
  pub port_name : String
  pub port : ℕ
  pub target_port : String

-- The map function of `SetupWithManager`: from a child's labels to the requests for its parent.
unfoldable pub to_aggregated_api : Option StringMap → List NamespacedName
to_aggregated_api labels = elim (cut (index "app.kubernetes.io/instance" labels) ".") [
  | none ↦ []
  | some (namespace, name) ↦ record { namespace = namespace; name = name } ∷ []
]

module _ (K : Kube) where
  pub data Call : Type 0 where
    get_call : NamespacedName → Call
    update_call : AggregatedApi K → Call
    apply_deployment : Deployment → Call
    apply_service : Service → Call
    delete_deployment : Deployment → Call
    delete_service : Service → Call

  -- The calls made so far, the latest first.
  abbrev pub History : Type 0
  History = List Call

  -- The function fields of `Options`, which may answer by every call made before. `update` writes
  -- the server's answer into the object that it is given.
  pub record Seams : Type 0 where
    pub get : History → NamespacedName → Result K.Err (AggregatedApi K)
    pub update : History → AggregatedApi K → Result K.Err (AggregatedApi K)
    pub apply_deployment : History → Deployment → Option K.Err
    pub apply_service : History → Service → Option K.Err
    pub delete_deployment : History → Deployment → Option K.Err
    pub delete_service : History → Service → Option K.Err

  -- `childName`
  unfoldable pub child_name : AggregatedApi K → String
  child_name a = "aggregator-" <> (a.namespace <> ("-" <> a.name))

  -- `labels`
  unfoldable pub child_labels : AggregatedApi K → StringMap
  child_labels a = put "app.kubernetes.io/managed-by" field_owner (
      put "app.kubernetes.io/instance" (a.namespace <> ("." <> a.name))
        (put "app.kubernetes.io/name" "api-aggregator" empty_map))

  -- `image`
  unfoldable pub child_image : AggregatedApi K → String
  child_image a = if not (a.image == "") then a.image else default_image

  -- `childArgs`
  unfoldable pub child_args : Options → AggregatedApi K → List String
  unfolding child_name
  child_args o a =
      let args =
        "--aggregated-api"
        ∷ a.name
        ∷ "--namespace"
        ∷ a.namespace
        ∷ "--url"
        ∷ ("https://" <> (child_name a <> ("." <> (o.namespace <> ".svc:443"))))
        ∷ [] in
      elim a.resync_interval [
        | none ↦ args
        | some interval ↦ args ++ ("--resync-interval" ∷ K.duration_string interval ∷ [])
      ]

  -- `deployment`
  unfoldable pub deployment : Options → AggregatedApi K → Deployment
  unfolding child_name child_labels child_image child_args
  deployment o a = record {
    name = child_name a;
    namespace = o.namespace;
    labels = child_labels a;
    selector = child_labels a;
    template_labels = child_labels a;
    service_account = o.service_account;
    container = record {
      name = "api-aggregator";
      image = child_image a;
      args = child_args o a;
      port_name = "https";
      container_port = 6443;
    };
  }

  -- `service`
  unfoldable pub service : Options → AggregatedApi K → Service
  unfolding child_name child_labels
  service o a = record {
    name = child_name a;
    namespace = o.namespace;
    labels = child_labels a;
    selector = child_labels a;
    port_name = "https";
    port = 443;
    target_port = "https";
  }

  -- A handler on the calls made so far: it ends with no error, or with one.
  abbrev pub Run : Type 0
  Run = History → Option K.Err × History

  module _ (seams : Seams) (o : Options) where
    -- A delete that may find nothing: `err != nil && !apierrors.IsNotFound(err)`.
    abbrev pub fatal : Option K.Err → Option K.Err
    fatal none = none
    fatal (some e) = if K.is_not_found e then none else some e

    -- The end of `finalize`, where the children are gone.
    unfoldable pub release : AggregatedApi K → Run
    release a t =
        let a' = record a { finalizers = K.remove_finalizer a.finalizers finalizer } in
        let u = update_call a' ∷ t in
        elim (seams.update t a') [
          | err e ↦ (some (K.wrapf "removing finalizer: %w" [] e), u)
          | ok _ ↦ (none, u)
        ]

    unfoldable pub finalize_service : AggregatedApi K → Run
    unfolding service release
    finalize_service a t =
        let u = delete_service (service o a) ∷ t in
        elim (fatal (seams.delete_service t (service o a))) [
          | some e ↦ (some (K.wrapf "deleting Service: %w" [] e), u)
          | none ↦ release a u
        ]

    -- `finalize`
    unfoldable pub finalize : AggregatedApi K → Run
    unfolding deployment finalize_service
    finalize a t =
        let u = delete_deployment (deployment o a) ∷ t in
        if not (K.contains_finalizer a.finalizers finalizer)
        then (none, t)
        else elim (fatal (seams.delete_deployment t (deployment o a))) [
          | some e ↦ (some (K.wrapf "deleting Deployment: %w" [] e), u)
          | none ↦ finalize_service a u
        ]

    unfoldable pub apply_child_service : AggregatedApi K → Run
    unfolding service
    apply_child_service a t =
        let u = apply_service (service o a) ∷ t in
        elim (seams.apply_service t (service o a)) [
          | some e ↦ (some (K.wrapf "applying Service: %w" [] e), u)
          | none ↦ (none, u)
        ]

    -- The end of `reconcile`, for an object that has the finalizer.
    unfoldable pub apply_children : AggregatedApi K → Run
    unfolding deployment apply_child_service
    apply_children a t =
        let u = apply_deployment (deployment o a) ∷ t in
        elim (seams.apply_deployment t (deployment o a)) [
          | some e ↦ (some (K.wrapf "applying Deployment: %w" [] e), u)
          | none ↦ apply_child_service a u
        ]

    -- `reconcile` of an object that is not being deleted.
    unfoldable pub ensure : AggregatedApi K → Run
    unfolding apply_children
    ensure a t =
        let (finalizers, added) = K.add_finalizer a.finalizers finalizer in
        let a' = record a { finalizers = finalizers } in
        if added
        then elim (seams.update t a') [
          | err e ↦ (some (K.wrapf "adding finalizer: %w" [] e), update_call a' ∷ t)
          | ok updated ↦ apply_children updated (update_call a' ∷ t)
        ]
        else apply_children a' t

    -- `reconcile`; its `ctrl.Result` is always empty.
    unfoldable pub reconcile : NamespacedName → Run
    unfolding finalize ensure
    reconcile req t =
        let u = get_call req ∷ t in
        elim (seams.get t req) [
          | err e ↦
              if K.is_not_found e
              then (none, u)
              else (some (K.wrapf "getting AggregatedAPI: %w" [] e), u)
          | ok a ↦ if a.deleting then finalize a u else ensure a u
        ]
