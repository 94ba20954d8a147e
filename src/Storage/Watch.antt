-- ===== src/Storage/Watch.antt =====
-- pkg/apiserver/storage/watcher.go, the opening: `Watch` up to the goroutines that it starts, whose
-- steps are in Watch/Stream. What the members answer is a parameter, as in Members.
pub mod OpenAll
pub mod Open
pub mod Stream
use mathlib.Core.List.{Permᴰ}
use aggregated_apiserver_ope.Prelude.{
  ℕ, String, Bool, true, false, ◌&&◌, Option, none, some, List, [], ◌∷◌, ◌++◌, map, if◌then◌else◌,
  Result, ok, err,
}
use aggregated_apiserver_ope.Meta.{put, empty_map}
use aggregated_apiserver_ope.Kube.{Kube}
use aggregated_apiserver_ope.Members.{Target, RemoteListOptions, ListOptions}
use aggregated_apiserver_ope.Storage.{Options, RuntimeObject, unstructured, client}
use aggregated_apiserver_ope.Storage.Metadata.{stamp, split_cluster_selector}
use aggregated_apiserver_ope.Storage.Listing.{
  field_selector_string, label_selector_string, matching,
}

-- `watch.EventType` and `watch.Event`
pub data EventType : Type 0 where
  added modified deleted bookmark error : EventType

pub record Event (K : Kube) : Type 0 where
  pub type_name : EventType
  pub object : RuntimeObject K

-- The fields of a `metainternalversion.ListOptions` that a watch reads.
pub record WatchRequest (K : Kube) : Type 0 where
  pub label_selector : Option K.Selector
  pub field_selector : Option K.FieldSelector
  pub send_initial_events : Option Bool
  pub allow_watch_bookmarks : Bool

-- The fields of the `metav1.ListOptions` that a member's watch is opened with.
pub record RemoteWatchOptions : Type 0 where
  pub field_selector : String
  pub label_selector : String
  pub allow_watch_bookmarks : Bool
  pub resource_version : String

-- What `Watch` does to the members and to its own context; `W` is a member's `watch.Interface`.
pub data Action (K : Kube) (W : Type 0) : Type 0 where
  listing : Target K → RemoteListOptions → Action K W
  watching : Target K → RemoteWatchOptions → Action K W
  stopping : W → Action K W
  cancelling : Action K W

-- The actions so far, the latest first.
abbrev pub Actions : Kube → Type 0 → Type 0
Actions K W = List (Action K W)

-- A member's answer to a list, with the list's resource version, and to a watch; and the order in
-- which Go ranges over the map of the watches that are open.
pub record Watchable (K : Kube) (W : Type 0) : Type 0 where
  pub list : Actions K W → Target K → RemoteListOptions → Result K.Err (List K.Obj × String)
  pub watch : Actions K W → Target K → RemoteWatchOptions → Result K.Err W
  pub stop_order : (remotes : List (String × W)) → (order : List (String × W)) × Permᴰ order remotes

-- What is open: the members' watches and the events that the client gets first.
pub record Opened (K : Kube) (W : Type 0) : Type 0 where
  pub remotes : List (String × W)
  pub initial_events : List (Event K)

module _ (K : Kube) where
  -- `watchListEnabled`
  unfoldable pub watch_list_enabled : WatchRequest K → Bool
  watch_list_enabled options = elim options.send_initial_events [
    | none ↦ false
    | some send ↦ send && options.allow_watch_bookmarks
  ]

  -- The error path: every open watch is stopped, and then the context is cancelled.
  unfoldable pub stop_all : {W : Type 0} → List (String × W) → Actions K W → Actions K W
  stop_all [] t = cancelling ∷ t
  stop_all ((cluster, open_watch) ∷ rest) t = stop_all rest (stopping open_watch ∷ t)

  -- The initial events of one cluster.
  abbrev pub added_events : String → List K.Obj → List (Event K)
  added_events cluster items =
      map (λ item. record { type_name = added; object = unstructured (stamp K item cluster) }) items

  module _ {W : Type 0} (members : Watchable K W) (s : Options K) (namespace : String) where
    abbrev pub resolve_options : Bool → RemoteWatchOptions → RemoteListOptions
    resolve_options watch_list options = record {
      field_selector = options.field_selector;
      label_selector = options.label_selector;
      limit = if watch_list then 0 else 1;
    }

    -- The loop over the selected clusters, with what is open so far.
    unfoldable pub open_all :
        Bool
        → RemoteWatchOptions
        → List (String × K.Client)
        → Opened K W
        → Actions K W
        → Result K.Err (Opened K W) × Actions K W
    unfolding stop_all
    open_all watch_list options [] opened t = (ok opened, t)
    open_all watch_list options ((cluster, cl) ∷ rest) opened t =
        let target = client K s cl namespace in
        let list_options = resolve_options watch_list options in
        elim (members.list t target list_options) [
          | err e ↦ (
            err (
                K.new_internal_error
                  (K.wrapf "resolving current resourceVersion of cluster %q: %w" (cluster ∷ []) e)),
            stop_all (members.stop_order opened.remotes).0 (listing target list_options ∷ t),
          )
          | ok (items, version) ↦
              let u = listing target list_options ∷ t in
              let per_cluster = record options { resource_version = version } in
              let events =
                if watch_list
                then opened.initial_events ++ added_events cluster items
                else opened.initial_events in
              elim (members.watch u target per_cluster) [
                | err e ↦ (
                  err (K.new_internal_error (K.wrapf "watching cluster %q: %w" (cluster ∷ []) e)),
                  stop_all (members.stop_order opened.remotes).0 (watching target per_cluster ∷ u),
                )
                | ok remote ↦
                    open_all watch_list options rest
                      (record {
                        remotes = opened.remotes ++ ((cluster, remote) ∷ []);
                        initial_events = events;
                      })
                      (watching target per_cluster ∷ u)
              ]
        ]

    -- The bookmark that ends the initial events.
    unfoldable pub initial_bookmark : Event K
    initial_bookmark = record {
      type_name = bookmark;
      object = unstructured (
          K.set_annotations (some (put K.initial_events_annotation_key "true" empty_map))
            (K.set_resource_version "0" (K.set_gvk s.kind K.new_obj)));
    }

    -- What a request for a watch asks of every member.
    abbrev pub watch_options : WatchRequest K → RemoteWatchOptions
    watch_options options = record {
      field_selector = field_selector_string K (record {
        label_selector = options.label_selector;
        field_selector = options.field_selector;
        limit = 0;
      });
      label_selector = label_selector_string K (split_cluster_selector K options.label_selector).0;
      allow_watch_bookmarks = false;
      resource_version = "";
    }

    -- Nil options select everything.
    abbrev pub requested : Option (WatchRequest K) → WatchRequest K
    requested none = record {
      label_selector = none;
      field_selector = none;
      send_initial_events = none;
      allow_watch_bookmarks = false;
    }
    requested (some options) = options

    -- `Watch`, up to the goroutines.
    unfoldable pub watch :
        Option (WatchRequest K) → Actions K W → Result K.Err (Opened K W) × Actions K W
    unfolding open_all watch_list_enabled initial_bookmark
    watch request t =
        let options = requested request in
        let matches = (split_cluster_selector K options.label_selector).1 in
        let watch_list = watch_list_enabled options in
        let (result, u) =
          open_all watch_list (watch_options options) (matching K matches s.clusters)
            (record { remotes = []; initial_events = [] }) t in
        elim result [
          | err e ↦ (err e, u)
          | ok opened ↦ (
            ok (
                if watch_list
                then record opened {
                  initial_events = opened.initial_events ++ (initial_bookmark ∷ []);
                }
                else opened),
            u,
          )
        ]
