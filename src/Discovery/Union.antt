-- ===== src/Discovery/Union.antt =====
-- The result of `Union`.
use mathlib.Core.Option
use mathlib.Core.Bool.{or-false, or_assoc}
use mathlib.Core.List.{append-nil, append_assoc}
use aggregated_apiserver_ope.Prelude.{
  String, ◌≡◌, ◌↔◌, ◌∙◌, refl, ap, false, ◌||◌, Option, none, some, List, [], ◌∷◌, ◌++◌, map, All,
  any, lookup, arith, ◌==◌, if◌then◌else◌, ok, >>=-eq-ok,
}
use aggregated_apiserver_ope.Prelude.Text.{less, less_asym, less_ge_trans}
use aggregated_apiserver_ope.Prelude.Sort.{sort, insert, IsOrder, IsSorted, sort-IsSorted}
use aggregated_apiserver_ope.Meta.{Gvr, gvr_eq}
use aggregated_apiserver_ope.Kube.{Kube}
use aggregated_apiserver_ope.Discovery.{
  ServedResource, Merged, sort_clusters, merge_clusters, gvr_less, union,
}
use aggregated_apiserver_ope.Discovery.Table.{Keyed, IsTable, merge_clusters-IsTable}
use aggregated_apiserver_ope.Discovery.Merge.{
  serving, absorb_all, Agrees, Uniform, lookup-merge_clusters, merge_clusters-Uniform,
  Uniform-merge_clusters,
}

abbrev pub find : Gvr → List ServedResource → Option ServedResource
find g [] = none
find g (r ∷ rest) = if r.gvr == g then some r else find g rest

-- No group-version-resource is listed twice.
abbrev pub NodupGvrs : List ServedResource → Type 0
NodupGvrs [] = Unit
NodupGvrs (r ∷ rest) = (find r.gvr rest ≡ none) × NodupGvrs rest

absorb_all-some :
    (e : ServedResource) (xs : List (String × ServedResource))
    → absorb_all (some e) xs
      ≡ some (record e {
        status = e.status || any (λ (c, r). r.status) xs;
        clusters = e.clusters ++ map (λ (c, r). c) xs;
      })
absorb_all-some e [] = rw (or-false, append-nil)
absorb_all-some e ((c, r) ∷ xs) =
    absorb_all-some (record e { status = e.status || r.status; clusters = e.clusters ++ (c ∷ []) })
      xs
    ∙ rw (or_assoc, append_assoc)

Uniform-some_iff :
    (e : ServedResource) (xs : List (String × ServedResource))
    → Uniform (some e) xs ↔ All (λ (c, r). Agrees e r) xs
Uniform-some_iff e [] = (λ h. h, λ h. h)
Uniform-some_iff e ((c, r) ∷ xs) =
    let ih =
      Uniform-some_iff
        (record e { status = e.status || r.status; clusters = e.clusters ++ (c ∷ []) }) xs in
    (λ h. (h.0, ih.0 h.1), λ h. (h.0, ih.1 h.1))

-- The union's entry for `g`, from the clusters that serve it: the first one's resource, with the
-- status subresource if any cluster has it, and with the sorted names of all of them.
abbrev pub merged_resource : List (String × ServedResource) → Option ServedResource
merged_resource [] = none
merged_resource ((c, r) ∷ xs) = some (record r {
  status = r.status || any (λ (d, s). s.status) xs;
  clusters = sort less (c ∷ map (λ (d, s). d) xs);
})

-- All clusters that serve a resource agree on its kind and scope.
abbrev pub AllAgree : List (String × ServedResource) → Type 0
AllAgree [] = Unit
AllAgree ((c, r) ∷ xs) = All (λ (d, s). Agrees r s) xs

Uniform-none_iff : (xs : List (String × ServedResource)) → Uniform none xs ↔ AllAgree xs
Uniform-none_iff [] = (λ h. h, λ h. h)
Uniform-none_iff ((c, r) ∷ xs) =
    let some_iff = Uniform-some_iff (record r { clusters = c ∷ [] }) xs in
    (λ h. some_iff.0 h.1, λ h. (tt, some_iff.1 h))

merged_resource-absorb_all :
    (xs : List (String × ServedResource))
    → Option.map sort_clusters (absorb_all none xs) ≡ merged_resource xs
unfolding sort_clusters
merged_resource-absorb_all [] = refl
merged_resource-absorb_all ((c, r) ∷ xs) = rw absorb_all-some

module _ (K : Kube) where
  less_irrefl : (s : String) → less s s ≡ false
  less_irrefl s = ground (arith, less_asym s s)

  gvr_less-IsOrder : IsOrder (gvr_less K)
  gvr_less-IsOrder = record {
    asym = λ a b. less_asym (K.gvr_string a.gvr) (K.gvr_string b.gvr);
    ge_trans =
        λ a b c. less_ge_trans (K.gvr_string a.gvr) (K.gvr_string b.gvr) (K.gvr_string c.gvr);
  }

  find-insert :
      (g : Gvr) (x : ServedResource) (xs : List ServedResource)
      → find g (insert (gvr_less K) x xs) ≡ (if x.gvr == g then some x else find g xs)
  unfolding insert
  find-insert g x [] = refl
  find-insert g x (y ∷ ys) = ground (
    arith,
    find-insert g x ys,
    gvr_eq.beq_iff x.gvr g,
    gvr_eq.beq_iff y.gvr g,
    ap (λ (h : Gvr). less (K.gvr_string h) (K.gvr_string h)),
    less_irrefl (K.gvr_string g),
  )

  insert-NodupGvrs :
      (x : ServedResource) (xs : List ServedResource)
      → find x.gvr xs ≡ none
      → NodupGvrs xs
      → NodupGvrs (insert (gvr_less K) x xs)
  unfolding insert
  insert-NodupGvrs x [] e h = (refl, tt)
  insert-NodupGvrs x (y ∷ ys) e h = ground (
    arith,
    find-insert y.gvr x ys,
    gvr_eq.beq_iff x.gvr y.gvr,
    gvr_eq.beq_iff y.gvr x.gvr,
    insert-NodupGvrs x ys,
  )

  abbrev values : Merged → List ServedResource
  values m = map (λ (g, r). sort_clusters r) m

  find-sort-values :
      (g : Gvr) (m : Merged)
      → Keyed m
      → find g (sort (gvr_less K) (values m)) ≡ Option.map sort_clusters (lookup g m)
  unfolding sort sort_clusters
  find-sort-values g [] h = refl
  find-sort-values g ((j, r) ∷ m) h = rw find-insert (ground (arith, h.0, find-sort-values g m h.1))

  sort-values-NodupGvrs : (m : Merged) → IsTable m → NodupGvrs (sort (gvr_less K) (values m))
  unfolding sort sort_clusters
  sort-values-NodupGvrs [] h = tt
  sort-values-NodupGvrs ((j, r) ∷ m) h =
      insert-NodupGvrs (sort_clusters r) (sort (gvr_less K) (values m))
        (rw (find-sort-values (sort_clusters r).gvr m h.keyed.1) (rw (h.keyed.0, h.nodup.0)))
        (sort-values-NodupGvrs m (record { keyed = h.keyed.1; nodup = h.nodup.1 }))

  abbrev no_entries : IsTable []
  no_entries = record { keyed = tt; nodup = tt }

  -- `Union` succeeds exactly if, for every group-version-resource, the clusters that serve it agree
  -- on its kind and its scope.
  pub union_ok_iff :
      (bc : List (String × List ServedResource))
      → ((rs : List ServedResource) × (union K bc ≡ ok rs)) ↔ ((g : Gvr) → AllAgree (serving g bc))
  unfolding union
  union_ok_iff bc = (
    λ (rs, h) g.
        let (m, e, _) =
          >>=-eq-ok (λ m. ok (sort (gvr_less K) (values m))) (merge_clusters K bc []) h in
        (Uniform-none_iff (serving g bc)).0 (merge_clusters-Uniform K bc [] e g),
    λ h.
        let (m, e) =
          Uniform-merge_clusters K bc [] (λ g. (Uniform-none_iff (serving g bc)).1 (h g)) in
        (sort (gvr_less K) (values m), rw e),
  )

  -- A successful `Union` lists a group-version-resource exactly if some cluster serves it, once,
  -- as the first such cluster describes it, with `Status` set if any cluster has the status
  -- subresource and with the sorted names of all clusters that serve it; and the list is sorted
  -- by the texts of the group-version-resources.
  pub union_lem :
      (bc : List (String × List ServedResource)) {rs : List ServedResource}
      → union K bc ≡ ok rs
      → ((g : Gvr) → find g rs ≡ merged_resource (serving g bc))
        × NodupGvrs rs
        × IsSorted (gvr_less K) rs
  unfolding union
  union_lem bc {rs} h =
      let (m, e, f) =
        >>=-eq-ok (λ m. ok (sort (gvr_less K) (values m))) (merge_clusters K bc []) h in
      let table = merge_clusters-IsTable K bc [] no_entries e in
      let result : sort (gvr_less K) (values m) ≡ rs = ground (arith, f) in
      rw (← result) (
        λ g.
            find-sort-values g m table.keyed
            ∙ rw (lookup-merge_clusters K bc [] g e) (merged_resource-absorb_all (serving g bc)),
        sort-values-NodupGvrs m table,
        sort-IsSorted (gvr_less K) gvr_less-IsOrder (values m),
      )
