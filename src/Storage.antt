-- ===== src/Storage.antt =====
-- pkg/apiserver/storage/storage.go and what its handlers share; the handlers are in the children.
pub mod Metadata
pub mod Locate
pub mod Listing
pub mod Write
pub mod ReadBack
pub mod Watch
use aggregated_apiserver_ope.Prelude.{
  String, ◌<>◌, Bool, ◌&&◌, not, Option, none, some, List, [], ◌∷◌, length, nat_eq, ◌==◌, string_eq,
  if◌then◌else◌, Result, ok, err,
}
use aggregated_apiserver_ope.Meta.{Gvr, Gvk, GroupResource}
use aggregated_apiserver_ope.Kube.{Kube}
use aggregated_apiserver_ope.Members.{Target}

-- `Options`; the channel `Done` concerns watches only. The clusters are in the order in which
-- loops over the map meet them.
pub record Options (K : Kube) : Type 0 where
  pub gvr : Gvr
  pub kind : Gvk
  pub namespaced : Bool
  pub singular : String
  pub clusters : List (String × K.Client)

-- A `runtime.Object`, as the handlers take it apart.
pub data RuntimeObject (K : Kube) : Type 0 where
  unstructured : K.Obj → RuntimeObject K
  other : K.OtherObj → RuntimeObject K

-- An `unstructured.UnstructuredList`: its kind and its items.
pub record ObjectList (K : Kube) : Type 0 where
  pub kind : Gvk
  pub items : List K.Obj

module _ (K : Kube) where
  -- `Options.validate`
  unfoldable pub validate : Options K → Option K.Err
  validate o =
      if o.gvr.resource == ""
      then some (K.errorf "GVR is required" [])
      else if o.kind.kind == ""
      then some (K.errorf "Kind is required" [])
      else if length o.clusters == 0
      then some (K.errorf "at least one cluster is required" [])
      else none

  -- `New`; a storage is its options, the table convertor being apiserver's.
  unfoldable pub new_storage : Options K → Result K.Err (Options K)
  new_storage o = elim (validate o) [
    | some e ↦ err (K.wrapf "invalid storage options: %w" [] e)
    | none ↦ ok o
  ]

  module _ (s : Options K) where
    -- `Storage.New`
    unfoldable pub new_object : K.Obj
    new_object = K.set_gvk s.kind K.new_obj

    -- `Storage.NewList`
    unfoldable pub new_list : ObjectList K
    new_list = record {
      kind = record {
        group = s.kind.group;
        version = s.kind.version;
        kind = s.kind.kind <> "List";
      };
      items = [];
    }

    abbrev pub group_resource : GroupResource
    group_resource = record { group = s.gvr.group; resource = s.gvr.resource }

    -- `Storage.client`
    unfoldable pub client : K.Client → String → Target K
    client cluster namespace = record {
      client = cluster;
      gvr = s.gvr;
      namespace = if s.namespaced && not (namespace == "") then some namespace else none;
    }

    -- `asUnstructured`
    unfoldable pub as_unstructured : RuntimeObject K → Result K.Err K.Obj
    as_unstructured (unstructured u) = ok (if K.get_kind u == "" then K.set_gvk s.kind u else u)
    as_unstructured (other o) = err (
        K.new_internal_error
          (K.errorf "expected unstructured object, got %T" (K.other_type o ∷ [])))
