-- ===== src/Storage/Watch/Open.antt =====
-- A watch is opened on every selected cluster, or every watch that was opened is stopped.
use mathlib.Core.List.{reverse}
use mathlib.Core.List.{Permᴰ}
use aggregated_apiserver_ope.Prelude.{
  String, ◌≡◌, ◌⊎◌, refl, sym, subst, ap, ◌∙◌, inl, inr, ◌↔◌, Bool, true, false, Option, none, some,
  Option-cases, arith, select, List, [], ◌∷◌, ◌++◌, map, if◌then◌else◌, Result, ok, err,
}
use aggregated_apiserver_ope.Kube.{Kube}
use aggregated_apiserver_ope.Meta.{put, empty_map}
use aggregated_apiserver_ope.Storage.{Options, unstructured}
use aggregated_apiserver_ope.Storage.Metadata.{split_selector, split_cluster_selector}
use aggregated_apiserver_ope.Storage.Listing.{
  matching, field_selector_string, label_selector_string,
}
use aggregated_apiserver_ope.Storage.Watch.{
  Event, bookmark, WatchRequest, RemoteWatchOptions, Actions, stopping, cancelling, Watchable,
  Opened, watch_list_enabled, initial_bookmark, requested, watch_options, watch,
}
use aggregated_apiserver_ope.Storage.Watch.OpenAll.{Opens, FailsOn, open_all_lem, stop_all-eq}

opened_if :
    {K : Kube} {W : Type 0} (b : Bool) (ws : List (String × W)) (es last : List (Event K))
    → let opened : Opened K W = record { remotes = ws; initial_events = es } in
      let both : Opened K W = record {
        remotes = ws;
        initial_events = if b then es ++ last else es;
      } in
      (if b then record opened { initial_events = es ++ last } else opened) ≡ both
opened_if true ws es last = refl
opened_if false ws es last = refl

select-true : {A : Type 0} (xs : List A) → select (λ x. true) xs ≡ xs
select-true [] = refl
select-true (x ∷ xs) = ap (λ ys. x ∷ ys) (select-true xs)

module _ (K : Kube) {W : Type 0} (members : Watchable K W) (s : Options K)
    (namespace : String) where
  -- The request asks for the initial events.
  abbrev pub WantsInitial : Option (WatchRequest K) → Type 0
  WantsInitial request =
      (r : WatchRequest K) × (request ≡ some r)
      × (r.send_initial_events ≡ some true)
      × (r.allow_watch_bookmarks ≡ true)

  -- What a request asks of the members, and which clusters it asks: whether they are to send
  -- initial events; the selectors without the requirements on the cluster, and no bookmarks; and
  -- the clusters that those requirements accept.
  pub record Plan (request : Option (WatchRequest K)) (initial : Bool)
      (options : RemoteWatchOptions) (chosen : List (String × K.Client)) : Type 0 where
    pub initial_iff : (initial ≡ true) ↔ WantsInitial request
    pub fields : options.field_selector ≡ (elim request [
      | none ↦ ""
      | some r ↦ elim r.field_selector [ none ↦ "" | some f ↦ K.field_selector_string f ]
    ])
    pub labels : options.label_selector ≡ (elim request [
      | none ↦ ""
      | some r ↦ elim r.label_selector [
        | none ↦ ""
        | some l ↦ K.selector_string (split_selector K l).0
      ]
    ])
    pub no_bookmarks : options.allow_watch_bookmarks ≡ false
    pub clusters : chosen ≡ (elim request [
      | none ↦ s.clusters
      | some r ↦ elim r.label_selector [
        | none ↦ s.clusters
        | some l ↦ select (λ (c, cl). (split_selector K l).1 c) s.clusters
      ]
    ])

  -- The bookmark that ends the initial events: an object of the storage's kind that has nothing but
  -- the resource version 0 and the annotation that marks the end.
  abbrev pub end_bookmark : Event K
  end_bookmark = record {
    type_name = bookmark;
    object = unstructured (
        K.set_annotations (some (put K.initial_events_annotation_key "true" empty_map))
          (K.set_resource_version "0" (K.set_gvk s.kind K.new_obj)));
  }

  module _ (initial : Bool) (options : RemoteWatchOptions) (chosen : List (String × K.Client)) where
    -- Each of the clusters was listed and then watched from the resource version of that list, in
    -- turn and with nothing else done.
    abbrev pub AllOpened : Actions K W → Result K.Err (Opened K W) → Actions K W → Type 0
    AllOpened t result u =
        (remotes : List (String × W)) × (events : List (Event K)) × (result
          ≡ ok (record {
            remotes = remotes;
            initial_events = if initial then events ++ (end_bookmark ∷ []) else events;
          }))
        × Opens K members s namespace initial options chosen t remotes events u

    -- One cluster answered its list or its watch with an error; every watch that was opened before
    -- was then stopped, in some order, and at last the context cancelled.
    abbrev pub NoneOpened : Actions K W → Result K.Err (Opened K W) → Actions K W → Type 0
    NoneOpened t result u =
        (before after : List (String × K.Client)) × (cluster : String) × (cl : K.Client)
        × (remotes : List (String × W)) × (events : List (Event K)) × (v w : Actions K W)
        × (e : K.Err) × (chosen ≡ before ++ ((cluster, cl) ∷ after))
        × Opens K members s namespace initial options before t remotes events v
        × FailsOn K members s namespace initial options cluster cl v e w
        × (result ≡ err e)
        × ((order : List (String × W)) × Permᴰ order remotes
            × (u ≡ cancelling ∷ (map (λ (c, x). stopping x) (reverse order) ++ w)))

  -- `Watch` follows the plan of its request.
  abbrev pub Watched :
      Option (WatchRequest K) → Actions K W → Result K.Err (Opened K W) → Actions K W → Type 0
  Watched request t result u =
      (initial : Bool) × (options : RemoteWatchOptions) × (chosen : List (String × K.Client)) × Plan
        request initial options chosen
      × (AllOpened initial options chosen t result u ⊎ NoneOpened initial options chosen t result u)

  enabled_iff :
      (r : WatchRequest K)
      → (watch_list_enabled K r ≡ true)
        ↔ ((r.send_initial_events ≡ some true) × (r.allow_watch_bookmarks ≡ true))
  unfolding watch_list_enabled
  enabled_iff r = elim (Option-cases r.send_initial_events) [
    | inl e ↦ (λ h. absurd (ground (arith, h, e)), λ h. absurd (ground (arith, h.0, e)))
    | inr (true, e) ↦ (λ h. (e, ground (arith, h, e)), λ h. ground (arith, h.1, e))
    | inr (false, e) ↦ (λ h. absurd (ground (arith, h, e)), λ h. absurd (ground (arith, h.0, e)))
  ]

  abbrev chosen_by : Option (WatchRequest K) → List (String × K.Client)
  chosen_by request =
      matching K
        (split_cluster_selector K (requested K members s namespace request).label_selector).1
        s.clusters

  same_request : {r q : WatchRequest K} → some r ≡ some q → r ≡ q
  same_request {r} e = ap (λ o. elim o [ none ↦ r | some x ↦ x ]) e

  labels_of :
      (o : Option K.Selector)
      → label_selector_string K (split_cluster_selector K o).0
        ≡ (elim o [ none ↦ "" | some l ↦ K.selector_string (split_selector K l).0 ])
  unfolding split_cluster_selector
  labels_of none = refl
  labels_of (some l) = refl

  clusters_of :
      (o : Option K.Selector)
      → matching K (split_cluster_selector K o).1 s.clusters ≡ (elim o [
        | none ↦ s.clusters
        | some l ↦ select (λ (c, cl). (split_selector K l).1 c) s.clusters
      ])
  unfolding split_cluster_selector
  clusters_of none = select-true s.clusters
  clusters_of (some l) = refl

  watch-Plan :
      (request : Option (WatchRequest K))
      → let options = requested K members s namespace request in
        Plan request
          (watch_list_enabled K options)
          (watch_options K members s namespace options)
          (chosen_by request)
  unfolding watch_list_enabled split_cluster_selector field_selector_string
  watch-Plan none = record {
    initial_iff = (λ h. absurd (ground (arith, h)), λ (r, e, h, k). absurd (ground (arith, e)));
    fields = refl;
    labels = refl;
    no_bookmarks = refl;
    clusters = select-true s.clusters;
  }
  watch-Plan (some r) = record {
    initial_iff = (
      λ h. let (a, b) = (enabled_iff r).0 h in (r, refl, a, b),
      λ (q, e, h, k). (enabled_iff r).1 (
          subst (λ o. (o.send_initial_events ≡ some true) × (o.allow_watch_bookmarks ≡ true))
            (sym (same_request e)) (h, k)),
    );
    fields = refl;
    labels = labels_of r.label_selector;
    no_bookmarks = refl;
    clusters = clusters_of r.label_selector;
  }

  -- `Watch` opens a watch on all clusters that the request selects, or on none. It asks them with
  -- the selectors of the request, less the requirements on the cluster, which select the clusters,
  -- and without bookmarks. Either each of them was listed, in full if the request asks for initial
  -- events and allows bookmarks, and otherwise for one object, and then watched from the resource
  -- version of that list, in turn and with nothing else done; the result holds those watches and,
  -- only if the request asks for initial events and allows bookmarks, the listed objects, stamped,
  -- as added, and behind them the bookmark that ends the initial events. Or one of them answered its
  -- list or its watch with an error, which is the result as an internal error, and every watch that
  -- was opened before was then stopped and at last the context cancelled.
  pub watch_lem :
      (request : Option (WatchRequest K)) (t : Actions K W)
      → let (result, u) = watch K members s namespace request t in Watched request t result u
  unfolding watch initial_bookmark
  watch_lem request t =
      let options = requested K members s namespace request in
      let watch_list = watch_list_enabled K options in
      let remote_options = watch_options K members s namespace options in
      let chosen = chosen_by request in
      let plan = watch-Plan request in
      elim (open_all_lem K members s namespace watch_list remote_options chosen
        (record { remotes = []; initial_events = [] }) t) [
          | inl (ws, es, r, h) ↦
              rw (watch, r)
                (
                  watch_list,
                  remote_options,
                  chosen,
                  plan,
                  inl (ws, es, ap ok (opened_if watch_list ws es (end_bookmark ∷ [])), h),
                )
          | inr (before, after, c, cl, ws, es, v, w, e, split, h, fails, r, stopped) ↦
              rw (watch, r)
                (
                  watch_list,
                  remote_options,
                  chosen,
                  plan,
                  inr (
                    before,
                    after,
                    c,
                    cl,
                    ws,
                    es,
                    v,
                    w,
                    e,
                    split,
                    h,
                    fails,
                    refl,
                    (
                      (members.stop_order ws).0,
                      (members.stop_order ws).1,
                      stopped
                          ∙ stop_all-eq K members s namespace watch_list remote_options
                              (members.stop_order ws).0 w,
                    ),
                  ),
                )
        ]
