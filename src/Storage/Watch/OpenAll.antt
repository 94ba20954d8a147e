-- ===== src/Storage/Watch/OpenAll.antt =====
-- The loop of `Watch` over the selected clusters.
use mathlib.Core.List.{append-nil, append_assoc, reverse, reverse-cons, map-append}
use aggregated_apiserver_ope.Prelude.{
  String, ◌≡◌, ◌⊎◌, refl, sym, ap, ◌∙◌, inl, inr, Bool, true, false, List, [], ◌∷◌, ◌++◌, map,
  Result-cases, if◌then◌else◌, Result, ok, err,
}
use aggregated_apiserver_ope.Kube.{Kube}
use aggregated_apiserver_ope.Members.{RemoteListOptions}
use aggregated_apiserver_ope.Storage.{Options, unstructured, client}
use aggregated_apiserver_ope.Storage.Metadata.{stamp}
use aggregated_apiserver_ope.Storage.Watch.{
  Event, added, RemoteWatchOptions, Actions, listing, watching, stopping, cancelling, Watchable,
  Opened, added_events, stop_all, resolve_options, open_all,
}

append_if :
    {A : Type 0} (b : Bool) (xs ys : List A)
    → (if b then xs ++ ys else xs) ≡ xs ++ (if b then ys else [])
append_if true xs ys = refl
append_if false xs ys = sym (append-nil xs)

module _ (K : Kube) {W : Type 0} (members : Watchable K W) (s : Options K)
    (namespace : String) where
  module _ (watch_list : Bool) (options : RemoteWatchOptions) where
    -- What one cluster is asked to list: all that is selected, where the initial events are wanted,
    -- and otherwise one object, for the resource version of the list.
    abbrev pub listed_with : RemoteListOptions
    listed_with = record {
      field_selector = options.field_selector;
      label_selector = options.label_selector;
      limit = if watch_list then 0 else 1;
    }

    -- The watch of one cluster is opened: the list's resource version is where the watch starts.
    pub record OpenedOn (cluster : String) (cl : K.Client) (t : Actions K W) (remote : W)
        (events : List (Event K)) : Type 0 where
      pub items : List K.Obj
      pub version : String
      pub listed : members.list t (client K s cl namespace) listed_with ≡ ok (items, version)
      pub watched :
          members.watch
            (listing (client K s cl namespace) listed_with ∷ t)
            (client K s cl namespace)
            (record options { resource_version = version })
          ≡ ok remote
      pub initial : events ≡ (
          if watch_list
          then map
              (λ item. record { type_name = added; object = unstructured (stamp K item cluster) })
              items
          else [])

    abbrev pub asks : K.Client → String → Actions K W → Actions K W
    asks cl version t =
        watching (client K s cl namespace) (record options { resource_version = version })
        ∷ listing (client K s cl namespace) listed_with
        ∷ t

    -- The watches of all these clusters are opened, one after the other, and nothing else is done.
    abbrev pub Opens :
        List (String × K.Client)
        → Actions K W
        → List (String × W)
        → List (Event K)
        → Actions K W
        → Type 0
    Opens [] t remotes events u = (remotes ≡ []) × (events ≡ []) × (u ≡ t)
    Opens ((cluster, cl) ∷ rest) t remotes events u =
        (remote : W) × (first others : List (Event K)) × (later : List (String × W)) × (o : OpenedOn
          cluster cl t remote first)
        × (remotes ≡ (cluster, remote) ∷ later)
        × (events ≡ first ++ others)
        × Opens rest (asks cl o.version t) later others u

    -- The watch of one cluster is not opened, for an error of its list or of its watch.
    abbrev pub FailsOn : String → K.Client → Actions K W → K.Err → Actions K W → Type 0
    FailsOn cluster cl t e u =
        ((x : K.Err) × (members.list t (client K s cl namespace) listed_with ≡ err x)
          × (e
              ≡ K.new_internal_error
                  (K.wrapf "resolving current resourceVersion of cluster %q: %w" (cluster ∷ []) x))
          × (u ≡ listing (client K s cl namespace) listed_with ∷ t))
        ⊎ ((x : K.Err) × (items : List K.Obj) × (version : String) × (members.list t
                (client K s cl namespace) listed_with
              ≡ ok (items, version))
            × (members.watch (listing (client K s cl namespace) listed_with ∷ t)
                  (client K s cl namespace) (record options { resource_version = version })
                ≡ err x)
            × (e ≡ K.new_internal_error (K.wrapf "watching cluster %q: %w" (cluster ∷ []) x))
            × (u ≡ asks cl version t))

    pub stop_all-eq :
        (remotes : List (String × W)) (t : Actions K W)
        → stop_all K remotes t ≡ cancelling ∷ (map (λ (c, w). stopping w) (reverse remotes) ++ t)
    unfolding stop_all
    stop_all-eq [] t = refl
    stop_all-eq ((c, w) ∷ rest) t =
        stop_all-eq rest (stopping w ∷ t) ∙ sym (simp (reverse-cons, map-append, append_assoc))

    -- What the loop does from what is open already.
    abbrev Outcome :
        List (String × K.Client)
        → Opened K W
        → Actions K W
        → Result K.Err (Opened K W)
        → Actions K W
        → Type 0
    Outcome cs opened t result u =
        ((remotes : List (String × W)) × (events : List (Event K)) × (result
            ≡ ok (record {
              remotes = opened.remotes ++ remotes;
              initial_events = opened.initial_events ++ events;
            }))
          × Opens cs t remotes events u)
        ⊎ ((before after : List (String × K.Client)) × (cluster : String) × (cl : K.Client)
            × (remotes : List (String × W)) × (events : List (Event K)) × (v w : Actions K W)
            × (e : K.Err) × (cs ≡ before ++ ((cluster, cl) ∷ after))
            × Opens before t remotes events v
            × FailsOn cluster cl v e w
            × (result ≡ err e)
            × (u ≡ stop_all K (members.stop_order (opened.remotes ++ remotes)).0 w))

    Outcome-cons :
        (c : String) (cl : K.Client) (rest : List (String × K.Client)) (opened opened' : Opened K W)
        (t : Actions K W) (remote : W) (first : List (Event K)) (o : OpenedOn c cl t remote first)
        → opened'.remotes ≡ opened.remotes ++ ((c, remote) ∷ [])
        → opened'.initial_events ≡ opened.initial_events ++ first
        → (result : Result K.Err (Opened K W)) (u : Actions K W)
        → Outcome rest opened' (asks cl o.version t) result u
        → Outcome ((c, cl) ∷ rest) opened t result u
    Outcome-cons c cl rest opened opened' t remote first o p q result u (inl (ws, es, r, h)) = inl (
      (c, remote) ∷ ws,
      first ++ es,
      r ∙ rw (p, q) (rw (append_assoc, append_assoc) refl),
      (remote, first, es, ws, o, refl, refl, h),
    )
    Outcome-cons c cl rest opened opened' t remote first o p q result u
          (inr (before, after, d, dl, ws, es, v, w, e, split, h, fails, r, stopped)) =
        inr (
          (c, cl) ∷ before,
          after,
          d,
          dl,
          (c, remote) ∷ ws,
          first ++ es,
          v,
          w,
          e,
          ap (λ l. (c, cl) ∷ l) split,
          (remote, first, es, ws, o, refl, refl, h),
          fails,
          r,
          stopped ∙ rw p (rw append_assoc refl),
        )

    pub open_all_lem :
        (cs : List (String × K.Client)) (opened : Opened K W) (t : Actions K W)
        → let (result, u) = open_all K members s namespace watch_list options cs opened t in
          Outcome cs opened t result u
    unfolding open_all
    open_all_lem [] opened t = inl ([], [], rw (append-nil, append-nil) refl, (refl, refl, refl))
    open_all_lem ((c, cl) ∷ rest) opened t =
        let target = client K s cl namespace in
        let list_options = resolve_options K members s namespace watch_list options in
        elim (Result-cases (members.list t target list_options)) [
          | inr (x, e) ↦
              rw (open_all, e)
                (inr (
                  [],
                  rest,
                  c,
                  cl,
                  [],
                  [],
                  t,
                  _,
                  _,
                  refl,
                  (refl, refl, refl),
                  inl (x, e, refl, refl),
                  refl,
                  rw append-nil refl,
                ))
          | inl ((items, version), e) ↦
              let u = listing target list_options ∷ t in
              let per_cluster : RemoteWatchOptions = record options {
                resource_version = version;
              } in
              elim (Result-cases (members.watch u target per_cluster)) [
                | inr (x, f) ↦
                    rw (open_all, e, f)
                      (inr (
                        [],
                        rest,
                        c,
                        cl,
                        [],
                        [],
                        t,
                        _,
                        _,
                        refl,
                        (refl, refl, refl),
                        inr (x, items, version, e, f, refl, refl),
                        refl,
                        rw append-nil refl,
                      ))
                | inl (remote, f) ↦
                    let first = if watch_list then added_events K c items else [] in
                    let opened' : Opened K W = record {
                      remotes = opened.remotes ++ ((c, remote) ∷ []);
                      initial_events =
                          if watch_list
                          then opened.initial_events ++ added_events K c items
                          else opened.initial_events;
                    } in
                    let one : OpenedOn c cl t remote first = record {
                      items = items;
                      version = version;
                      listed = e;
                      watched = f;
                      initial = refl;
                    } in
                    rw (open_all, e, f)
                      (Outcome-cons c cl rest opened opened' t remote first one refl
                        (append_if watch_list opened.initial_events (added_events K c items)) _ _
                        (open_all_lem rest opened' (asks cl version t)))
              ]
        ]
