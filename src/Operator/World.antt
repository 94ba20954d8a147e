-- ===== src/Operator/World.antt =====
-- What the operator's calls make of the API server, and what a pass is to make of it.
use aggregated_apiserver_ope.Prelude.{
  String, ◌≡◌, Bool, true, false, ◌&&◌, Option, none, some, List, [], ◌∷◌, ◌==◌, string_eq,
  if◌then◌else◌, ok, err,
}
use aggregated_apiserver_ope.Kube.{Kube}
use aggregated_apiserver_ope.Operator.{
  Options, AggregatedApi, NamespacedName, Deployment, Service, Seams, History, get_call,
  update_call, apply_deployment, apply_service, delete_deployment, delete_service, finalizer,
  child_name, deployment, service, fatal,
}

module _ (K : Kube) where
  -- The AggregatedAPI of one request, and the deployments and services of the operator's namespace,
  -- by their names.
  pub record World : Type 0 where
    pub object : Option (AggregatedApi K)
    pub deployments : String → Option Deployment
    pub services : String → Option Service

  abbrev pub with_entry : {A : Type 0} → String → Option A → (String → Option A) → String → Option A
  with_entry name entry entries n = if name == n then entry else entries n

  abbrev pub is_empty : List String → Bool
  is_empty [] = true
  is_empty (f ∷ fs) = false

  -- An object that is being deleted goes when its last finalizer is taken away.
  abbrev pub stored : AggregatedApi K → Option (AggregatedApi K)
  stored a = if a.deleting && is_empty a.finalizers then none else some a

  -- The API server after these calls, where none fails.
  abbrev pub replay : World → History K → World
  replay w [] = w
  replay w (get_call req ∷ t) = replay w t
  replay w (update_call a ∷ t) = record (replay w t) { object = stored a }
  replay w (apply_deployment d ∷ t) = record (replay w t) {
    deployments = with_entry d.name (some d) (replay w t).deployments;
  }
  replay w (apply_service s ∷ t) = record (replay w t) {
    services = with_entry s.name (some s) (replay w t).services;
  }
  replay w (delete_deployment d ∷ t) = record (replay w t) {
    deployments = with_entry d.name none (replay w t).deployments;
  }
  replay w (delete_service s ∷ t) = record (replay w t) {
    services = with_entry s.name none (replay w t).services;
  }

  module _ (o : Options) where
    -- The functions of the options are those of a server that has the object of this request and
    -- refuses nothing.
    pub record Serves (seams : Seams K) (req : NamespacedName) (w : World) : Type 0 where
      pub missing : K.Err
      pub missing_lem : K.is_not_found missing ≡ true
      pub get :
          (t : History K)
          → seams.get t req ≡ (elim (replay w t).object [ none ↦ err missing | some a ↦ ok a ])
      pub update : (t : History K) (a : AggregatedApi K) → seams.update t a ≡ ok a
      pub apply_deployment : (t : History K) (d : Deployment) → seams.apply_deployment t d ≡ none
      pub apply_service : (t : History K) (s : Service) → seams.apply_service t s ≡ none
      pub delete_deployment :
          (t : History K) (d : Deployment) → fatal K seams o (seams.delete_deployment t d) ≡ none
      pub delete_service :
          (t : History K) (s : Service) → fatal K seams o (seams.delete_service t s) ≡ none

    -- The two children of an object, or none.
    abbrev pub with_children : AggregatedApi K → Option Deployment → Option Service → World → World
    with_children a d s w = record w {
      deployments = with_entry (child_name K a) d w.deployments;
      services = with_entry (child_name K a) s w.services;
    }

    -- What a pass makes of the world: an object that is being deleted loses its children and the
    -- finalizer, if it has it; any other gets the finalizer and its children.
    abbrev pub passed_on : Option (AggregatedApi K) → World → World
    passed_on none w = w
    passed_on (some a) w =
        let (fs, added) = K.add_finalizer a.finalizers finalizer in
        if a.deleting
        then (if K.contains_finalizer a.finalizers finalizer
            then record (with_children a none none w) {
              object = stored (record a { finalizers = K.remove_finalizer a.finalizers finalizer });
            }
            else w)
        else record (with_children a (some (deployment K o a)) (some (service K o a)) w) {
          object = some (if added then record a { finalizers = fs } else a);
        }

    abbrev pub passed : World → World
    passed w = passed_on w.object w
