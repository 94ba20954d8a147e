-- ===== src/Storage/Write/Collection.antt =====
-- What `DeleteCollection` asks of the clusters, and what it returns.
use aggregated_apiserver_ope.Prelude.{
  String, ◌≡◌, refl, subst, Option, none, some, List, [], ◌∷◌, map, All, Any, inl, inr,
  Option-cases, Result-cases, arith, Result, ok, err,
}
use aggregated_apiserver_ope.Kube.{Kube}
use aggregated_apiserver_ope.Kube.Laws.{GroupLaws}
use aggregated_apiserver_ope.Members.{
  Members, RemoteListOptions, ListOptions, History, Call, get_call, create_call, update_call,
  update_status_call, delete_call, list_call, delete_collection_call, failed, go_all, Adds, no_more,
  one_more,
}
use aggregated_apiserver_ope.Storage.{Options, client, new_list}
use aggregated_apiserver_ope.Storage.Listing.Laws.{remote_options, asked, stamped}
use aggregated_apiserver_ope.Storage.Write.{delete_cluster, delete_collection}

module _ (K : Kube) where
  -- Nil list options select everything.
  abbrev pub given : Option (ListOptions K) → ListOptions K
  given none = record { label_selector = none; field_selector = none; limit = 0 }
  given (some o) = o

  -- The list options that the clusters get, which have no limit.
  abbrev pub unlimited : Option (ListOptions K) → RemoteListOptions
  unlimited o = record (remote_options K (given o)) { limit = 0 }

  -- What a cluster listed, if it then deleted its collection.
  abbrev pub emptied :
      (K.Client → Result K.Err (List K.Obj))
      → (K.Client → Result K.Err (Unit {0}))
      → K.Client
      → Result K.Err (List K.Obj)
  emptied listed deleted cl = elim (listed cl) [
    | err e ↦ err e
    | ok items ↦ elim (deleted cl) [ err e ↦ err e | ok _ ↦ ok items ]
  ]

module _ (K : Kube) (members : Members K) (s : Options K) (namespace : String)
    (options : K.DeleteOptions) (list_options : Option (ListOptions K)) where
  -- A call for one of these clusters, with the options of the request.
  abbrev pub AsksFor : List (String × K.Client) → Call K → Type 0
  AsksFor cs (list_call target o) =
      Any (λ (c, cl). target ≡ client K s cl namespace) cs × (o ≡ unlimited K list_options)
  AsksFor cs (delete_collection_call target d o) =
      Any (λ (c, cl). target ≡ client K s cl namespace) cs
      × (d ≡ options)
      × (o ≡ unlimited K list_options)
  AsksFor cs _ = ⊥

  AsksFor-cons :
      (x : String × K.Client) (cs : List (String × K.Client)) (c : Call K)
      → AsksFor cs c
      → AsksFor (x ∷ cs) c
  AsksFor-cons x cs (list_call target o) (h, e) = (inr h, e)
  AsksFor-cons x cs (delete_collection_call target d o) (h, e, k) = (inr h, e, k)
  AsksFor-cons x cs (get_call _ _ _) h = absurd h
  AsksFor-cons x cs (create_call _ _ _) h = absurd h
  AsksFor-cons x cs (update_call _ _ _) h = absurd h
  AsksFor-cons x cs (update_status_call _ _ _) h = absurd h
  AsksFor-cons x cs (delete_call _ _ _) h = absurd h

  Adds-imp :
      (P Q : Call K → Type 0) {t u : History K}
      → ((c : Call K) → P c → Q c)
      → Adds P t u
      → Adds Q t u
  Adds-imp P Q f no_more = no_more
  Adds-imp P Q f (one_more c p h) = one_more c (f c p) (Adds-imp P Q f h)

  Adds-trans : {P : Call K → Type 0} {t u v : History K} → Adds P t u → Adds P u v → Adds P t v
  Adds-trans h no_more = h
  Adds-trans h (one_more c p k) = one_more c p (Adds-trans h k)

  delete_cluster-Adds :
      (c : String) (cl : K.Client) (rest : List (String × K.Client)) (t : History K)
      → Adds
          (AsksFor ((c, cl) ∷ rest))
          t
          (delete_cluster K members s namespace options (unlimited K list_options) c cl t).1
  unfolding delete_cluster
  delete_cluster-Adds c cl rest t =
      elim (Result-cases (members.list t (client K s cl namespace) (unlimited K list_options))) [
        | inr (x, e) ↦ rw (delete_cluster, e) (one_more _ (inl refl, refl) no_more)
        | inl (items, e) ↦
            rw (delete_cluster, e)
              (one_more _ (inl refl, refl, refl) (one_more _ (inl refl, refl) no_more))
      ]

  go_all-Adds :
      (cs : List (String × K.Client)) (t : History K)
      → Adds
          (AsksFor cs)
          t
          (go_all K
            (delete_cluster K members s namespace options (unlimited K list_options))
            cs
            t).1
  unfolding go_all
  go_all-Adds [] t = no_more
  go_all-Adds ((c, cl) ∷ rest) t = Adds-trans (delete_cluster-Adds c cl rest t) (
      Adds-imp (AsksFor rest) (AsksFor ((c, cl) ∷ rest)) (AsksFor-cons (c, cl) rest)
        (go_all-Adds rest _))

  -- Whatever the members answer, `DeleteCollection` calls only clusters that the selector accepts,
  -- and asks each to list and to delete with the same selectors, without a limit.
  pub delete_collection-AsksFor :
      (t : History K)
      → Adds
          (AsksFor (asked K s (given K list_options)))
          t
          (delete_collection K members s namespace options list_options t).1
  unfolding delete_collection
  delete_collection-AsksFor t =
      let cs = asked K s (given K list_options) in
      subst (Adds (AsksFor cs) t) (ground arith) (go_all-Adds cs t)

  module _ (G : GroupLaws K) (listed : K.Client → Result K.Err (List K.Obj))
      (deleted : K.Client → Result K.Err (Unit {0}))
      (steady_list : (t : History K) (cl : K.Client)
        → members.list t (client K s cl namespace) (unlimited K list_options) ≡ listed cl)
      (steady_delete : (t : History K) (cl : K.Client)
        → members.delete_collection t (client K s cl namespace) options (unlimited K list_options)
          ≡ deleted cl) where
    abbrev error_of : String × K.Client → Option K.Err
    error_of (c, cl) = elim (listed cl) [
      | err e ↦ some (K.wrapf "listing from cluster %q: %w" (c ∷ []) e)
      | ok items ↦ elim (deleted cl) [
        | err e ↦ some (K.wrapf "deleting collection in cluster %q: %w" (c ∷ []) e)
        | ok _ ↦ none
      ]
    ]

    go_all-delete_cluster :
        (cs : List (String × K.Client)) (t : History K)
        → (go_all K
            (delete_cluster K members s namespace options (unlimited K list_options))
            cs
            t).0
          ≡ (map error_of cs, stamped K (emptied K listed deleted) cs)
    unfolding go_all delete_cluster
    go_all-delete_cluster [] t = refl
    go_all-delete_cluster ((c, cl) ∷ rest) t =
        let target = client K s cl namespace in
        let u = list_call target (unlimited K list_options) ∷ t in
        ground (
          arith,
          steady_list t cl,
          steady_delete u cl,
          go_all-delete_cluster rest u,
          go_all-delete_cluster rest
              (delete_collection_call target options (unlimited K list_options) ∷ u),
        )

    emptied-error_of :
        (cs : List (String × K.Client))
        → All (λ (c, cl). (items : List K.Obj) × (emptied K listed deleted cl ≡ ok items)) cs
        → All (λ e. e ≡ none) (map error_of cs)
    emptied-error_of [] h = tt
    emptied-error_of ((c, cl) ∷ rest) h =
        let (items, e) = h.0 in (ground (arith, e), emptied-error_of rest h.1)

    broken-error_of :
        (cs : List (String × K.Client))
        → Any (λ (c, cl). (x : K.Err) × (emptied K listed deleted cl ≡ err x)) cs
        → All (λ e. e ≡ none) (map error_of cs)
        → ⊥
    broken-error_of [] b h = b
    broken-error_of ((c, cl) ∷ rest) (inl (x, e)) h = ground (arith, e, h.0)
    broken-error_of ((c, cl) ∷ rest) (inr b) h = broken-error_of rest b h.1

    abbrev errors : List (Option K.Err)
    errors = map error_of (asked K s (given K list_options))

    -- `DeleteCollection`, while each cluster gives one answer to the listing and one to the
    -- deletion. If every cluster that is asked lists its objects and deletes them, the result has
    -- exactly the listed objects, each stamped with its cluster. If one of them answers either with
    -- an error, the result is an internal error.
    pub delete_collection_lem :
        (t : History K)
        → let cs = asked K s (given K list_options) in
          (All (λ (c, cl). (items : List K.Obj) × (emptied K listed deleted cl ≡ ok items)) cs
            → (delete_collection K members s namespace options list_options t).0
              ≡ ok (record (new_list K s) { items = stamped K (emptied K listed deleted) cs }))
          × (Any (λ (c, cl). (x : K.Err) × (emptied K listed deleted cl ≡ err x)) cs
              → (x : K.Err) × ((delete_collection K members s namespace options list_options t).0
                  ≡ err (failed (K.new_internal_error x))))
    unfolding delete_collection
    delete_collection_lem t =
        let cs = asked K s (given K list_options) in
        (
          λ h.
              ground
                (arith, go_all-delete_cluster cs t, G.wait_none errors (emptied-error_of cs h)),
          λ b. elim (Option-cases (K.group_wait errors)) [
            | inl w ↦ absurd (broken-error_of cs b (G.wait_failed errors w))
            | inr (x, w) ↦ (x, ground (arith, go_all-delete_cluster cs t, w))
          ],
        )
