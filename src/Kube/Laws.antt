-- ===== src/Kube/Laws.antt =====
-- The documented behaviour of the Kubernetes libraries that the theorems rely on.
use aggregated_apiserver_ope.Prelude.{
  String, ◌≡◌, Bool, true, false, not, ◌&&◌, Option, none, some, List, All, Any, every,
}
use aggregated_apiserver_ope.Meta.{StringMap}
use aggregated_apiserver_ope.Kube.{Kube}

module _ (K : Kube) where
  open K use {
    Err, errorf, wrapf, new_not_found, new_conflict, new_bad_request, new_internal_error,
    is_not_found, Obj, get_namespace, get_name, get_annotations, set_annotations, get_labels,
    set_labels, Selector, Requirement, new_selector, selector_empty, selector_requirements,
    selector_add, selector_matches, requirement_key, group_wait, contains_finalizer, add_finalizer,
    remove_finalizer,
  }

  -- The accessors of `unstructured.Unstructured`: a setter changes what its getter reads, and
  -- nothing that another getter reads.
  pub record ObjectLaws : Type 0 where
    pub get-set_annotations :
        (m : Option StringMap) (o : Obj) → get_annotations (set_annotations m o) ≡ m
    pub get-set_labels : (m : Option StringMap) (o : Obj) → get_labels (set_labels m o) ≡ m
    pub annotations-set_labels :
        (m : Option StringMap) (o : Obj) → get_annotations (set_labels m o) ≡ get_annotations o
    pub labels-set_annotations :
        (m : Option StringMap) (o : Obj) → get_labels (set_annotations m o) ≡ get_labels o
    pub name-set_annotations :
        (m : Option StringMap) (o : Obj) → get_name (set_annotations m o) ≡ get_name o
    pub name-set_labels : (m : Option StringMap) (o : Obj) → get_name (set_labels m o) ≡ get_name o
    pub namespace-set_annotations :
        (m : Option StringMap) (o : Obj) → get_namespace (set_annotations m o) ≡ get_namespace o
    pub namespace-set_labels :
        (m : Option StringMap) (o : Obj) → get_namespace (set_labels m o) ≡ get_namespace o

  -- `labels.Selector`: an empty selector matches everything, one that is not selectable nothing,
  -- and any other whatever all its requirements match. `Add` adds a requirement. A requirement
  -- reads one key of the set.
  pub record SelectorLaws : Type 0 where
    pub requirement_matches : Requirement → StringMap → Bool
    pub matches_empty :
        (s : Selector) (m : StringMap) → selector_empty s ≡ true → selector_matches s m ≡ true
    pub matches_unselectable :
        (s : Selector) (m : StringMap)
        → (selector_requirements s).1 ≡ false
        → selector_matches s m ≡ false
    pub matches_requirements :
        (s : Selector) (m : StringMap)
        → (selector_requirements s).1 ≡ true
        → selector_matches s m ≡ every (λ r. requirement_matches r m) (selector_requirements s).0
    pub empty_new : selector_empty new_selector ≡ true
    pub empty_add : (s : Selector) (r : Requirement) → selector_empty (selector_add s r) ≡ false
    pub matches_add :
        (s : Selector) (r : Requirement) (m : StringMap)
        → selector_matches (selector_add s r) m ≡ (selector_matches s m && requirement_matches r m)
    pub reads_key :
        (r : Requirement) (m n : StringMap)
        → m (requirement_key r) ≡ n (requirement_key r)
        → requirement_matches r m ≡ requirement_matches r n

  -- `Wait` returns an error exactly where a goroutine returned one, and it is one of those.
  pub record GroupLaws : Type 0 where
    pub wait_none : (es : List (Option Err)) → All (λ e. e ≡ none) es → group_wait es ≡ none
    pub wait_some :
        (es : List (Option Err)) (e : Err) → group_wait es ≡ some e → Any (λ x. x ≡ some e) es
    pub wait_failed : (es : List (Option Err)) → group_wait es ≡ none → All (λ e. e ≡ none) es

  -- `AddFinalizer` leaves a list that has the finalizer, and adds nothing where it is there;
  -- `RemoveFinalizer` leaves a list that has it no more.
  pub record FinalizerLaws : Type 0 where
    pub contains-add :
        (fs : List String) (f : String) → contains_finalizer (add_finalizer fs f).0 f ≡ true
    pub added_iff :
        (fs : List String) (f : String) → (add_finalizer fs f).1 ≡ not (contains_finalizer fs f)
    pub contains-remove :
        (fs : List String) (f : String) → contains_finalizer (remove_finalizer fs f) f ≡ false
