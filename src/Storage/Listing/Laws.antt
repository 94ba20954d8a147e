-- ===== src/Storage/Listing/Laws.antt =====
-- What `List` returns: the answers of the selected clusters, stamped and in order, or an error.
use mathlib.Core.List.{Perm}
use aggregated_apiserver_ope.Prelude.{
  String, ◌≡◌, refl, sym, subst, Bool, not, Option, none, some, List, [], ◌∷◌, ◌++◌, map, select,
  true, false, ◌⊎◌, Bool-cases, All, All-imp, Any, inl, inr, Option-cases, arith, eq_iff, ◌==◌,
  string_eq, if◌then◌else◌, Result, ok, err,
}
use aggregated_apiserver_ope.Prelude.Text.{less, less_asym, less_ge_trans, less_antisym}
use aggregated_apiserver_ope.Prelude.Sort.{IsOrder, sort, IsSorted, sort-perm, sort-IsSorted}
use aggregated_apiserver_ope.Meta.{index, cluster_annotation}
use aggregated_apiserver_ope.Kube.{Kube}
use aggregated_apiserver_ope.Kube.Laws.{GroupLaws}
use aggregated_apiserver_ope.Members.{
  Members, RemoteListOptions, ListOptions, History, list_call, failed, go_all,
}
use aggregated_apiserver_ope.Storage.{Options, ObjectList, client, new_list}
use aggregated_apiserver_ope.Storage.Metadata.{stamp, split_cluster_selector}
use aggregated_apiserver_ope.Storage.Listing.{
  field_selector_string, label_selector_string, item_less, list_cluster, list,
}

-- By a key first, and by a second order where the keys are the same.
module _ {A : Type 0} (key : A → String) (second : A → A → Bool) (o : IsOrder second) where
  abbrev lex : A → A → Bool
  lex a b = if not (key a == key b) then less (key a) (key b) else second a b

  lex-IsOrder : IsOrder lex
  lex-IsOrder = record {
    asym = λ a b h. ground (
      arith,
      h,
      eq_iff (key a) (key b),
      eq_iff (key b) (key a),
      less_asym (key a) (key b),
      o.asym a b,
    );
    ge_trans = λ a b c h k. ground (
      arith,
      h,
      k,
      eq_iff (key b) (key a),
      eq_iff (key c) (key b),
      eq_iff (key c) (key a),
      less_ge_trans (key a) (key b) (key c),
      less_antisym (key a) (key b),
      less_antisym (key b) (key c),
      less_antisym (key a) (key c),
      o.ge_trans a b c,
    );
  }

less_differs : (x y : String) → less x y ≡ true → (x == y) ≡ false
less_differs x y h = elim (Bool-cases (x == y)) [
  | inr e ↦ e
  | inl e ↦
      let same = (eq_iff x y).0 e in
      let above : less y x ≡ true =
        subst (λ z. less z x ≡ true) same (subst (λ z. less x z ≡ true) (sym same) h) in
      absurd (ground (arith, above, less_asym x y h))
]

module _ (K : Kube) where
  abbrev cluster_of : K.Obj → String
  cluster_of a = index cluster_annotation (K.get_annotations a)

  by_cluster-IsOrder : IsOrder {A = K.Obj} (λ a b. less (cluster_of a) (cluster_of b))
  by_cluster-IsOrder = record {
    asym = λ a b. less_asym (cluster_of a) (cluster_of b);
    ge_trans = λ a b c. less_ge_trans (cluster_of a) (cluster_of b) (cluster_of c);
  }

  item_less-IsOrder : IsOrder (item_less K)
  unfolding item_less
  item_less-IsOrder = lex-IsOrder K.get_namespace _ (lex-IsOrder K.get_name _ by_cluster-IsOrder)

  -- `a` comes before `b`: by namespace, in one namespace by name, and for one name by cluster.
  abbrev pub Before : K.Obj → K.Obj → Type 0
  Before a b =
      (less (K.get_namespace a) (K.get_namespace b) ≡ true)
      ⊎ ((K.get_namespace a ≡ K.get_namespace b)
          × ((less (K.get_name a) (K.get_name b) ≡ true)
              ⊎ ((K.get_name a ≡ K.get_name b)
                  × (less (index cluster_annotation (K.get_annotations a))
                        (index cluster_annotation (K.get_annotations b))
                      ≡ true))))

  -- No object comes before one that is listed ahead of it.
  abbrev pub InOrder : List K.Obj → Type 0
  InOrder [] = Unit
  InOrder (x ∷ xs) = All (λ y. Before y x → ⊥) xs × InOrder xs

  Before-item_less : (a b : K.Obj) → Before a b → item_less K a b ≡ true
  unfolding item_less
  Before-item_less a b (inl h) =
      ground (arith, h, less_differs (K.get_namespace a) (K.get_namespace b) h)
  Before-item_less a b (inr (n, inl h)) = ground (
    arith,
    h,
    less_differs (K.get_name a) (K.get_name b) h,
    (eq_iff (K.get_namespace a) (K.get_namespace b)).1 n,
  )
  Before-item_less a b (inr (n, inr (m, h))) = ground (
    arith,
    h,
    (eq_iff (K.get_name a) (K.get_name b)).1 m,
    (eq_iff (K.get_namespace a) (K.get_namespace b)).1 n,
  )

  sorted-InOrder : (xs : List K.Obj) → IsSorted (item_less K) xs → InOrder xs
  sorted-InOrder [] h = tt
  sorted-InOrder (x ∷ xs) h = (
    All-imp (λ y. item_less K y x ≡ false) (λ y. Before y x → ⊥) xs
        (λ y e b. ground (arith, e, Before-item_less y x b)) h.0,
    sorted-InOrder xs h.1,
  )

  -- What `List` asks every cluster that it asks.
  abbrev pub remote_options : ListOptions K → RemoteListOptions
  remote_options options = record {
    field_selector = field_selector_string K options;
    label_selector = label_selector_string K (split_cluster_selector K options.label_selector).0;
    limit = options.limit;
  }

  -- The clusters that it asks.
  abbrev pub asked : Options K → ListOptions K → List (String × K.Client)
  asked s options =
      select (λ (c, cl). (split_cluster_selector K options.label_selector).1 c) s.clusters

  module _ (answer : K.Client → Result K.Err (List K.Obj)) where
    abbrev error_of : String × K.Client → Option K.Err
    error_of (c, cl) = elim (answer cl) [
      | ok items ↦ none
      | err e ↦ some (K.wrapf "listing from cluster %q: %w" (c ∷ []) e)
    ]

    -- The objects of the clusters, each with the mark of its cluster.
    abbrev pub stamped : List (String × K.Client) → List K.Obj
    stamped [] = []
    stamped ((c, cl) ∷ rest) =
        let others = stamped rest in
        elim (answer cl) [
          | ok items ↦ map (λ item. stamp K item c) items ++ others
          | err e ↦ others
        ]

    answered-error_of :
        (cs : List (String × K.Client))
        → All (λ (c, cl). (items : List K.Obj) × (answer cl ≡ ok items)) cs
        → All (λ e. e ≡ none) (map error_of cs)
    answered-error_of [] h = tt
    answered-error_of ((c, cl) ∷ rest) h =
        let (items, e) = h.0 in (ground (arith, e), answered-error_of rest h.1)

    broken-error_of :
        (cs : List (String × K.Client))
        → Any (λ (c, cl). (x : K.Err) × (answer cl ≡ err x)) cs
        → All (λ e. e ≡ none) (map error_of cs)
        → ⊥
    broken-error_of [] b h = b
    broken-error_of ((c, cl) ∷ rest) (inl (x, e)) h = ground (arith, e, h.0)
    broken-error_of ((c, cl) ∷ rest) (inr b) h = broken-error_of rest b h.1

module _ (K : Kube) (G : GroupLaws K) (members : Members K) (s : Options K) (namespace : String)
    (options : ListOptions K) (answer : K.Client → Result K.Err (List K.Obj))
    (steady : (t : History K) (cl : K.Client)
      → members.list t (client K s cl namespace) (remote_options K options) ≡ answer cl) where
  go_all-list_cluster :
      (cs : List (String × K.Client)) (t : History K)
      → (go_all K (list_cluster K members s namespace (remote_options K options)) cs t).0
        ≡ (map (error_of K answer) cs, stamped K answer cs)
  unfolding go_all list_cluster
  go_all-list_cluster [] t = refl
  go_all-list_cluster ((c, cl) ∷ rest) t = ground (
    arith,
    steady t cl,
    go_all-list_cluster rest (list_call (client K s cl namespace) (remote_options K options) ∷ t),
  )

  abbrev errors : List (Option K.Err)
  errors = map (error_of K answer) (asked K s options)

  -- `List`, while each cluster gives one answer. If every cluster that is asked answers with
  -- objects, the result has exactly those objects, each stamped with its cluster, and they are in
  -- order of namespace, name and cluster. If one of them answers with an error, the result is an
  -- internal error and no part of the list.
  pub list_lem :
      (t : History K)
      → (All (λ (c, cl). (items : List K.Obj) × (answer cl ≡ ok items)) (asked K s options)
          → (l : ObjectList K) × ((list K members s namespace options t).0 ≡ ok l)
            × (l.kind ≡ (new_list K s).kind)
            × Perm l.items (stamped K answer (asked K s options))
            × InOrder K l.items)
        × (Any (λ (c, cl). (x : K.Err) × (answer cl ≡ err x)) (asked K s options)
            → (x : K.Err) × ((list K members s namespace options t).0
                ≡ err (failed (K.new_internal_error x))))
  unfolding list
  list_lem t = (
    λ answered.
        let items = stamped K answer (asked K s options) in
        (
          record (new_list K s) { items = sort (item_less K) items },
          ground (
            arith,
            go_all-list_cluster (asked K s options) t,
            G.wait_none errors (answered-error_of K answer (asked K s options) answered),
          ),
          refl,
          sort-perm (item_less K) items,
          sorted-InOrder K (sort (item_less K) items)
              (sort-IsSorted (item_less K) (item_less-IsOrder K) items),
        ),
    λ broken. elim (Option-cases (K.group_wait errors)) [
      | inl w ↦
          absurd (broken-error_of K answer (asked K s options) broken (G.wait_failed errors w))
      | inr (x, w) ↦ (x, ground (arith, go_all-list_cluster (asked K s options) t, w))
    ],
  )
