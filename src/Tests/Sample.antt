-- ===== src/Tests/Sample.antt =====
-- Small stand-ins for the Kubernetes libraries, for which the laws of Kube/Laws hold.
use aggregated_apiserver_ope.Prelude.{
  ℕ, String, ◌<>◌, ◌≡◌, refl, ap, Bool, true, false, not, ◌&&◌, Option, none, some, List, [], ◌∷◌,
  ◌==◌, nat_eq, string_eq, contains, select, every, All, Any, inl, inr, arith, eq_iff, ok,
  if◌then◌else◌,
}
use aggregated_apiserver_ope.Prelude.Text.{cut, contains_text}
use aggregated_apiserver_ope.Meta.{Gvk, GroupResource, StringMap}
use aggregated_apiserver_ope.Kube.{Kube}
use aggregated_apiserver_ope.Configuration.{Net}
use aggregated_apiserver_ope.Kube.Laws.{ObjectLaws, SelectorLaws, GroupLaws, FinalizerLaws}

pub data SampleErr : Type 0 where
  plain : String → List String → SampleErr
  wrapped : String → List String → SampleErr → SampleErr
  missing : GroupResource → String → SampleErr
  conflicting : GroupResource → String → SampleErr → SampleErr
  bad_request : String → List String → SampleErr
  internal_error : SampleErr → SampleErr

abbrev is_missing : SampleErr → Bool
is_missing (missing r name) = true
is_missing _ = false

pub record SampleObj : Type 0 where
  pub kind : Gvk
  pub namespace : String
  pub name : String
  pub annotations : Option StringMap
  pub labels : Option StringMap
  pub data_field : String
  pub resource_version : String

-- Each requirement asks for one value under one key.
pub record SampleRequirement : Type 0 where
  pub key : String
  pub expected : String

pub record SampleSelector : Type 0 where
  pub requirements : List SampleRequirement
  pub selectable : Bool

abbrev holds : SampleRequirement → StringMap → Bool
holds r m = elim (m r.key) [ none ↦ false | some v ↦ v == r.expected ]

abbrev is_nil : List SampleRequirement → Bool
is_nil [] = true
is_nil (r ∷ rs) = false

abbrev first_error : List (Option SampleErr) → Option SampleErr
first_error [] = none
first_error (none ∷ rest) = first_error rest
first_error (some e ∷ rest) = some e

abbrev without : List String → String → List String
without fs f = select (λ g. not (g == f)) fs

abbrev pub sample : Kube
sample = record {
  Err = SampleErr;
  errorf = plain;
  wrapf = wrapped;
  new_not_found = missing;
  new_conflict = conflicting;
  new_bad_request = bad_request;
  new_internal_error = internal_error;
  is_not_found = is_missing;
  parse_group_version = λ s. elim (cut s ".") [
    | none ↦ ok (record { group = ""; version = s })
    | some (g, v) ↦ ok (record { group = g; version = v })
  ];
  gvr_string = λ g. g.group <> ("/" <> (g.version <> (", Resource=" <> g.resource)));
  gv_string = λ g. g.group <> ("/" <> g.version);
  Obj = SampleObj;
  OtherObj = String;
  new_obj = record {
    kind = record { group = ""; version = ""; kind = "" };
    namespace = "";
    name = "";
    annotations = none;
    labels = none;
    data_field = "";
    resource_version = "";
  };
  set_gvk = λ k o. record o { kind = k };
  get_kind = λ o. o.kind.kind;
  get_namespace = λ o. o.namespace;
  get_name = λ o. o.name;
  get_annotations = λ o. o.annotations;
  set_annotations = λ m o. record o { annotations = m };
  get_labels = λ o. o.labels;
  set_labels = λ m o. record o { labels = m };
  set_resource_version = λ v o. record o { resource_version = v };
  initial_events_annotation_key = "k8s.io/initial-events-end";
  other_type = λ o. o;
  other_annotations = λ o. none;
  Selector = SampleSelector;
  Requirement = SampleRequirement;
  FieldSelector = String;
  new_selector = record { requirements = []; selectable = true };
  selector_empty = λ s. s.selectable && is_nil s.requirements;
  selector_requirements = λ s. (s.requirements, s.selectable);
  selector_add = λ s r. record s { requirements = r ∷ s.requirements };
  selector_matches = λ s m. s.selectable && every (λ r. holds r m) s.requirements;
  selector_string = λ s. "selector";
  requirement_key = λ r. r.key;
  field_selector_string = λ s. s;
  Client = String;
  Discovery = String;
  GetOptions = Unit;
  DeleteOptions = Unit;
  empty_get_options = tt;
  Duration = ℕ;
  duration_string = λ d. "1h";
  contains_finalizer = contains;
  add_finalizer = λ fs f. if contains fs f then (fs, false) else (f ∷ fs, true);
  remove_finalizer = without;
  group_wait = first_error;
}

pub sample_ObjectLaws : ObjectLaws sample
sample_ObjectLaws = record {
  get-set_annotations = λ m o. refl;
  get-set_labels = λ m o. refl;
  annotations-set_labels = λ m o. refl;
  labels-set_annotations = λ m o. refl;
  name-set_annotations = λ m o. refl;
  name-set_labels = λ m o. refl;
  namespace-set_annotations = λ m o. refl;
  namespace-set_labels = λ m o. refl;
}

holds_when_empty :
    (b : Bool) (rs : List SampleRequirement) (m : StringMap)
    → (b && is_nil rs) ≡ true
    → (b && every (λ r. holds r m) rs) ≡ true
holds_when_empty b [] m h = ground (arith, h)
holds_when_empty b (r ∷ rs) m h = absurd (ground (arith, h))

pub sample_SelectorLaws : SelectorLaws sample
sample_SelectorLaws = record {
  requirement_matches = holds;
  matches_empty = λ s m h. holds_when_empty s.selectable s.requirements m h;
  matches_unselectable = λ s m h. ground (arith, h);
  matches_requirements = λ s m h. ground (arith, h);
  empty_new = refl;
  empty_add = λ s r. ground arith;
  matches_add = λ s r m. ground arith;
  reads_key = λ r m n h. ap (λ o. elim o [ none ↦ false | some v ↦ v == r.expected ]) h;
}

wait_none : (es : List (Option SampleErr)) → All (λ e. e ≡ none) es → first_error es ≡ none
wait_none [] h = refl
wait_none (none ∷ es) h = wait_none es h.1
wait_none (some e ∷ es) h = h.0

wait_some :
    (es : List (Option SampleErr)) (e : SampleErr)
    → first_error es ≡ some e
    → Any (λ x. x ≡ some e) es
wait_some [] e h = absurd (ground (arith, h))
wait_some (none ∷ es) e h = inr (wait_some es e h)
wait_some (some x ∷ es) e h = inl h

wait_failed : (es : List (Option SampleErr)) → first_error es ≡ none → All (λ e. e ≡ none) es
wait_failed [] h = tt
wait_failed (none ∷ es) h = (refl, wait_failed es h)
wait_failed (some x ∷ es) h = absurd (ground (arith, h))

pub sample_GroupLaws : GroupLaws sample
sample_GroupLaws = record {
  wait_none = wait_none;
  wait_some = wait_some;
  wait_failed = wait_failed;
}

contains-without : (fs : List String) (f : String) → contains (without fs f) f ≡ false
contains-without [] f = refl
contains-without (g ∷ fs) f = ground (arith, contains-without fs f)

pub sample_FinalizerLaws : FinalizerLaws sample
sample_FinalizerLaws = record {
  contains-add = λ fs f. ground (arith, eq_iff f f);
  added_iff = λ fs f. ground arith;
  contains-remove = contains-without;
}

abbrev pub sample_net : Net
sample_net = record {
  join_host_port = λ host port.
      if contains_text host ":" then "[" <> (host <> ("]:" <> port)) else host <> (":" <> port);
  itoa = λ n. if n == 6443 then "6443" else "0";
}
