-- ===== src/Storage/Write.antt =====
-- pkg/apiserver/storage/writer.go and status.go: the handlers that write to member clusters.
pub mod Routing
pub mod Create
pub mod Update
pub mod Delete
pub mod Collection
use aggregated_apiserver_ope.Prelude.{
  String, Bool, true, false, not, ◌&&◌, Option, none, some, List, [], ◌∷◌, map, length, lookup,
  nat_eq, ◌==◌, string_eq, if◌then◌else◌, Result, ok, err,
}
use aggregated_apiserver_ope.Meta.{index, cluster_annotation}
use aggregated_apiserver_ope.Kube.{Kube}
use aggregated_apiserver_ope.Members.{
  Members, RemoteListOptions, ListOptions, WriteOptions, Failure, failed, panicked, create_call,
  update_call, update_status_call, delete_call, delete_collection_call, list_call, Exec, pure, fail,
  lift, call, check_with, ◌>>=◌, ◌>>◌, Job, in_group,
}
use aggregated_apiserver_ope.Storage.{
  Options, ObjectList, RuntimeObject, unstructured, other, client, new_list, new_object,
  as_unstructured,
}
use aggregated_apiserver_ope.Storage.Metadata.{stamp, strip, split_cluster_selector}
use aggregated_apiserver_ope.Storage.Locate.{locate}
use aggregated_apiserver_ope.Storage.Listing.{
  field_selector_string, label_selector_string, matching,
}

-- A validation that may be nil, and `rest.UpdatedObjectInfo.UpdatedObject`.
abbrev pub Validation : Kube → Type 0
Validation K = Option (K.Obj → Option K.Err)

abbrev pub UpdateValidation : Kube → Type 0
UpdateValidation K = Option (K.Obj → K.Obj → Option K.Err)

abbrev pub UpdatedObject : Kube → Type 0
UpdatedObject K = K.Obj → Result K.Err (RuntimeObject K)

module _ (K : Kube) where
  abbrev pub validated : Validation K → K.Obj → Option K.Err
  validated none obj = none
  validated (some validate) obj = validate obj

  abbrev pub update_validated : UpdateValidation K → K.Obj → K.Obj → Option K.Err
  update_validated none obj old = none
  update_validated (some validate) obj old = validate obj old

  -- `for name := range clusters { cluster = name }`
  unfoldable pub last_name : List (String × K.Client) → String → String
  last_name [] cluster = cluster
  last_name ((name, cl) ∷ rest) cluster = last_name rest name

  module _ (members : Members K) (s : Options K) (namespace : String) where
    -- The part of `Create` behind the choice of the cluster.
    unfoldable pub create_in : String → K.Obj → Validation K → WriteOptions → Exec K K.Obj
    create_in cluster u validation options = elim (lookup cluster s.clusters) [
      | none ↦
          fail (K.new_bad_request "cluster %q is not part of this aggregated API" (cluster ∷ []))
      | some cl ↦
          let target = client K s cl namespace in
          do
            check_with (validated validation u)
            created ←
                call (create_call target (strip K u) options)
                  (λ t. members.create t target (strip K u) options)
            pure (stamp K created cluster)
    ]

    -- The cluster that `Create` routes to: the annotation's, or the only one.
    unfoldable pub choose_cluster : K.Obj → Result K.Err String
    choose_cluster u =
        let cluster = index cluster_annotation (K.get_annotations u) in
        if cluster == ""
        then if not (length s.clusters == 1)
          then err (
              K.new_bad_request "create requires the %s annotation naming the target cluster"
                (cluster_annotation ∷ []))
          else ok (last_name s.clusters cluster)
        else ok cluster

    -- `Storage.Create`
    unfoldable pub create : RuntimeObject K → Validation K → WriteOptions → Exec K K.Obj
    unfolding create_in as_unstructured choose_cluster
    create obj validation options = do
      u ← lift (as_unstructured K s obj)
      cluster ← lift (choose_cluster u)
      create_in cluster u validation options

    -- `bodyCluster`
    unfoldable pub body_cluster : UpdatedObject K → String
    body_cluster updated_object = elim (updated_object (new_object K s)) [
      | err e ↦ ""
      | ok (unstructured u) ↦ index cluster_annotation (K.get_annotations u)
      | ok (other o) ↦ elim (K.other_annotations o) [
        | none ↦ ""
        | some annotations ↦ index cluster_annotation annotations
      ]
    ]

    -- `s.client(s.opts.Clusters[cluster], namespace)`, for the call that follows: an unknown
    -- cluster is a nil client.
    abbrev pub with_client : {A : Type 0} → String → (K.Client → Exec K A) → Exec K A
    with_client cluster use_client = elim (lookup cluster s.clusters) [
      | none ↦ λ t. (err panicked, t)
      | some cl ↦ use_client cl
    ]

    -- `Storage.Update` once the object is located.
    unfoldable pub update_in :
        String → K.Obj → UpdatedObject K → UpdateValidation K → WriteOptions → Exec K (K.Obj × Bool)
    unfolding as_unstructured
    update_in cluster located updated_object validation options =
        let existing = stamp K located cluster in
        do
          obj ← lift (updated_object existing)
          u ← lift (as_unstructured K s obj)
          check_with (update_validated validation u existing)
          updated ← with_client cluster λ cl.
              let target = client K s cl namespace in
              call (update_call target (strip K u) options)
                (λ t. members.update t target (strip K u) options)
          pure (stamp K updated cluster, false)

    -- `Storage.Update` where the object is in no cluster and creating is allowed.
    unfoldable pub create_missing :
        UpdatedObject K → Validation K → WriteOptions → Exec K (K.Obj × Bool)
    unfolding create
    create_missing updated_object validation options = do
      obj ← lift (updated_object (new_object K s))
      created ← create obj validation options
      pure (created, true)

    -- `Storage.Update`; the result holds the object and whether it was created.
    unfoldable pub update :
        String
        → UpdatedObject K
        → Validation K
        → UpdateValidation K
        → Bool
        → WriteOptions
        → Exec K (K.Obj × Bool)
    unfolding update_in create_missing
    update name updated_object create_validation update_validation force_allow_create options t =
        let (located, u) = locate K members s namespace name none (body_cluster updated_object) t in
        elim located [
          | ok (cluster, existing) ↦
              update_in cluster existing updated_object update_validation options u
          | err (failed e) ↦
              if K.is_not_found e && force_allow_create
              then create_missing updated_object create_validation options u
              else (err (failed e), u)
          | err panicked ↦ (err panicked, u)
        ]

    -- `Storage.Delete`
    unfoldable pub delete : String → Validation K → K.DeleteOptions → Exec K (K.Obj × Bool)
    delete name validation options = do
      (cluster, existing) ← locate K members s namespace name none ""
      check_with (validated validation existing)
      with_client cluster λ cl.
          let target = client K s cl namespace in
          call (delete_call target name options) (λ t. members.delete t target name options)
      pure (stamp K existing cluster, true)

    -- `StatusStorage.Update` of status.go
    unfoldable pub update_status :
        String → UpdatedObject K → UpdateValidation K → WriteOptions → Exec K (K.Obj × Bool)
    unfolding as_unstructured
    update_status name updated_object validation options = do
      (cluster, located) ← locate K members s namespace name none (body_cluster updated_object)
      let existing = stamp K located cluster
      obj ← lift (updated_object existing)
      u ← lift (as_unstructured K s obj)
      check_with (update_validated validation u existing)
      updated ← with_client cluster λ cl.
          let target = client K s cl namespace in
          call (update_status_call target (strip K u) options)
            (λ t. members.update_status t target (strip K u) options)
      pure (stamp K updated cluster, false)

    -- The goroutine that empties one cluster: it lists first, to report what it deletes.
    unfoldable pub delete_cluster : K.DeleteOptions → RemoteListOptions → Job K K.Obj
    delete_cluster options list_options cluster cl t =
        let target = client K s cl namespace in
        elim (members.list t target list_options) [
          | err e ↦ (
            err (K.wrapf "listing from cluster %q: %w" (cluster ∷ []) e),
            list_call target list_options ∷ t,
          )
          | ok items ↦
              let u = list_call target list_options ∷ t in
              (
                elim (members.delete_collection u target options list_options) [
                  | err e ↦ err (K.wrapf "deleting collection in cluster %q: %w" (cluster ∷ []) e)
                  | ok _ ↦ ok (map (λ item. stamp K item cluster) items)
                ],
                delete_collection_call target options list_options ∷ u,
              )
        ]

    -- `Storage.DeleteCollection`; nil list options select everything.
    unfoldable pub delete_collection :
        K.DeleteOptions → Option (ListOptions K) → Exec K (ObjectList K)
    unfolding in_group delete_cluster field_selector_string
    delete_collection options list_options =
        let list_options' : ListOptions K = elim list_options [
          | none ↦ record { label_selector = none; field_selector = none; limit = 0 }
          | some o ↦ o
        ] in
        let (remote, matches) = split_cluster_selector K list_options'.label_selector in
        let remote_options : RemoteListOptions = record {
          field_selector = field_selector_string K list_options';
          label_selector = label_selector_string K remote;
          limit = 0;
        } in
        do
          deleted ←
              in_group K (delete_cluster options remote_options) (matching K matches s.clusters)
          pure (record (new_list K s) { items = deleted })
