-- ===== src/Kube.antt =====
-- What the program takes from the Kubernetes libraries and from its member clusters: types and
-- functions that are not in the repository, as parameters. Kube/Laws has the documented behaviour
-- that the theorems rely on.
pub mod Laws
use aggregated_apiserver_ope.Prelude.{String, Bool, Option, List, Result}
use aggregated_apiserver_ope.Meta.{GroupResource, GroupVersion, Gvr, Gvk, StringMap}

pub record Kube : Type 1 where
  -- Go's error values: `fmt.Errorf` and `errors.New` by format and arguments, `wrapf` with a last
  -- `%w`, and the constructors and the test of apimachinery's package errors.
  pub Err : Type 0
  pub errorf : String → List String → Err
  pub wrapf : String → List String → Err → Err
  pub new_not_found : GroupResource → String → Err
  pub new_conflict : GroupResource → String → Err → Err
  pub new_bad_request : String → List String → Err
  pub new_internal_error : Err → Err
  pub is_not_found : Err → Bool
  -- `schema.ParseGroupVersion` and the `String` methods of its structs.
  pub parse_group_version : String → Result Err GroupVersion
  pub gvr_string : Gvr → String
  pub gv_string : GroupVersion → String
  -- `unstructured.Unstructured`, and every other `runtime.Object`; an annotation's key of metav1.
  pub Obj : Type 0
  pub OtherObj : Type 0
  pub new_obj : Obj
  pub set_gvk : Gvk → Obj → Obj
  pub get_kind : Obj → String
  pub get_namespace : Obj → String
  pub get_name : Obj → String
  pub get_annotations : Obj → Option StringMap
  pub set_annotations : Option StringMap → Obj → Obj
  pub get_labels : Obj → Option StringMap
  pub set_labels : Option StringMap → Obj → Obj
  pub set_resource_version : String → Obj → Obj
  pub initial_events_annotation_key : String
  -- Its type's name, and its annotations, `none` where it is no `metav1.Object`.
  pub other_type : OtherObj → String
  pub other_annotations : OtherObj → Option (Option StringMap)
  -- `labels.Selector`, `labels.Requirement` and `fields.Selector`.
  pub Selector : Type 0
  pub Requirement : Type 0
  pub FieldSelector : Type 0
  pub new_selector : Selector
  pub selector_empty : Selector → Bool
  pub selector_requirements : Selector → List Requirement × Bool
  pub selector_add : Selector → Requirement → Selector
  pub selector_matches : Selector → StringMap → Bool
  pub selector_string : Selector → String
  pub requirement_key : Requirement → String
  pub field_selector_string : FieldSelector → String
  -- The dynamic client and the discovery client of a cluster, and the options that are only passed through.
  pub Client : Type 0
  pub Discovery : Type 0
  pub GetOptions : Type 0
  pub DeleteOptions : Type 0
  pub empty_get_options : GetOptions
  -- `time.Duration`, and controllerutil's functions on an object's finalizers; `AddFinalizer` also
  -- reports whether it added one.
  pub Duration : Type 0
  pub duration_string : Duration → String
  pub contains_finalizer : List String → String → Bool
  pub add_finalizer : List String → String → List String × Bool
  pub remove_finalizer : List String → String → List String
  -- `errgroup.Group.Wait`, from what the goroutines returned.
  pub group_wait : List (Option Err) → Option Err
