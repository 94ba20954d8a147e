-- ===== src/Operator/Setup.antt =====
-- How the operator's controller is made: RegisterFlags, NewController and SetupWithManager of
-- pkg/controllers/operator/aggregatedapi/controller.go, which takes the manager's client for every
-- function that the options leave out, and Setup of pkg/controllers/operator/config.
use aggregated_apiserver_ope.Prelude.{
  String, Option, none, some, List, [], ◌∷◌, Result, ok, err, map_err, ◌>>=◌,
}
use aggregated_apiserver_ope.Kube.{Kube}
use aggregated_apiserver_ope.Operator.{
  Options, defaults, AggregatedApi, NamespacedName, Deployment, Service, Seams, History,
  field_owner,
}

-- The objects that `Apply` and `Delete` are called for.
pub data Child : Type 0 where
  deployment_child : Deployment → Child
  service_child : Service → Child

-- `client.FieldOwner` and `client.ForceOwnership`.
pub data ApplyOption : Type 0 where
  owned_by : String → ApplyOption
  force_ownership : ApplyOption

-- The client of the manager, and `runtime.DefaultUnstructuredConverter`.
pub record ManagerClient (K : Kube) : Type 1 where
  pub Content : Type 0
  pub to_unstructured : Child → Result K.Err Content
  pub get : History K → NamespacedName → Result K.Err (AggregatedApi K)
  pub update : History K → AggregatedApi K → Result K.Err (AggregatedApi K)
  pub apply : History K → Content → List ApplyOption → Option K.Err
  pub delete : History K → Child → Option K.Err

-- The function fields of `Options`, where `none` is nil.
pub record GivenSeams (K : Kube) : Type 0 where
  pub get : Option (History K → NamespacedName → Result K.Err (AggregatedApi K))
  pub apply : Option (History K → Child → Option K.Err)
  pub update : Option (History K → AggregatedApi K → Result K.Err (AggregatedApi K))
  pub delete : Option (History K → Child → Option K.Err)

pub record Controller (K : Kube) : Type 0 where
  pub opts : Options
  pub seams : GivenSeams K

-- The value of a text flag that is set, and otherwise its default.
abbrev set_or : Option String → String → String
set_or none default = default
set_or (some text) default = text

-- `RegisterFlags`, and the values after the flags were parsed, by their names.
unfoldable pub operator_options : (String → Option String) → Options
unfolding defaults
operator_options set =
    let o = defaults (record { namespace = ""; service_account = "" }) in
    record {
      namespace = set_or (set "namespace") o.namespace;
      service_account = set_or (set "service-account") o.service_account;
    }

module _ (K : Kube) where
  -- `validate`, which refuses nothing.
  unfoldable pub validate : Options → Result K.Err Options
  unfolding defaults
  validate o = ok (defaults o)

  -- `NewController`
  unfoldable pub new_controller : Options → GivenSeams K → Result K.Err (Controller K)
  unfolding validate
  new_controller o seams = do
    valid ←
        map_err (K.wrapf "invalid operator aggregatedapi controller options: %w" []) (validate o)
    ok (record { opts = valid; seams = seams })

  abbrev or_default : {A : Type 0} → Option A → A → A
  or_default none default = default
  or_default (some given) default = given

  module _ (client : ManagerClient K) where
    -- The `Apply` of `SetupWithManager`.
    unfoldable pub default_apply : History K → Child → Option K.Err
    default_apply t child = elim (client.to_unstructured child) [
      | err e ↦ some (K.wrapf "converting %T to unstructured: %w" [] e)
      | ok content ↦ client.apply t content (owned_by field_owner ∷ force_ownership ∷ [])
    ]

    -- The functions of the controller after `SetupWithManager`.
    unfoldable pub setup_seams : GivenSeams K → Seams K
    unfolding default_apply
    setup_seams given =
        let apply = or_default given.apply default_apply in
        let delete = or_default given.delete client.delete in
        record {
          get = or_default given.get client.get;
          update = or_default given.update client.update;
          apply_deployment = λ t d. apply t (deployment_child d);
          apply_service = λ t s. apply t (service_child s);
          delete_deployment = λ t d. delete t (deployment_child d);
          delete_service = λ t s. delete t (service_child s);
        }

    -- `Setup` of the operator's configuration, with the registration of the controller, which may
    -- fail: the options and the functions of the controller that runs.
    unfoldable pub setup : Option K.Err → Options → GivenSeams K → Result K.Err (Options × Seams K)
    unfolding new_controller setup_seams
    setup registered o given = do
      controller ←
          map_err (K.wrapf "building aggregatedapi controller: %w" []) (new_controller o given)
      elim registered [
        | some e ↦ err (K.wrapf "setting up aggregatedapi controller: %w" [] e)
        | none ↦ ok (controller.opts, setup_seams controller.seams)
      ]
