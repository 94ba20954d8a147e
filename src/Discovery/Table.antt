-- ===== src/Discovery/Table.antt =====
-- The map `merged` of `Union` stays a table: each entry under its own name, and one for a name.
use aggregated_apiserver_ope.Prelude.{
  String, ◌≡◌, subst, some, List, [], ◌∷◌, inl, inr, Option-cases, lookup, update, NodupKeys,
  update-NodupKeys, arith, ok, >>=-eq-ok,
}
use aggregated_apiserver_ope.Meta.{Gvr, gvr_eq}
use aggregated_apiserver_ope.Kube.{Kube}
use aggregated_apiserver_ope.Discovery.{
  ServedResource, Merged, merge, merge_resources, merge_clusters,
}
use aggregated_apiserver_ope.Discovery.Merge.{absorb, merge-eq-ok}

-- The keys of the map are the names of its values, and none is there twice.
abbrev pub Keyed : Merged → Type 0
Keyed [] = Unit
Keyed ((g, r) ∷ m) = (r.gvr ≡ g) × Keyed m

update-Keyed :
    (g : Gvr) (r : ServedResource) (m : Merged) → r.gvr ≡ g → Keyed m → Keyed (update g r m)
unfolding update
update-Keyed g r [] e h = (e, tt)
update-Keyed g r ((j, s) ∷ m) e h = ground (arith, update-Keyed g r m e h.1)

lookup-Keyed :
    (g : Gvr) (m : Merged) {r : ServedResource} → Keyed m → lookup g m ≡ some r → r.gvr ≡ g
lookup-Keyed g [] h e = cc
lookup-Keyed g ((j, s) ∷ m) {r} h e =
    ground (arith, gvr_eq.beq_iff j g, lookup-Keyed g m {r = r} h.1)

pub record IsTable (m : Merged) : Type 0 where
  pub keyed : Keyed m
  pub nodup : NodupKeys m

module _ (K : Kube) where
  merge-IsTable :
      (c : String) (r : ServedResource) (m : Merged) {n : Merged}
      → IsTable m
      → merge K c r m ≡ ok n
      → IsTable n
  merge-IsTable c r m t h =
      let (_, (v, a, w)) = merge-eq-ok K c r m h in
      rw w (record {
        keyed = update-Keyed r.gvr v m (named v a) t.keyed;
        nodup = update-NodupKeys r.gvr v m t.nodup;
      })
    where
      named : (v : ServedResource) → absorb (lookup r.gvr m) (c, r) ≡ some v → v.gvr ≡ r.gvr
      named v a = elim (Option-cases (lookup r.gvr m)) [
        | inl e ↦ ground (arith, a, e)
        | inr (x, e) ↦ ground (arith, a, e, lookup-Keyed r.gvr m {r = x} t.keyed e)
      ]

  merge_resources-IsTable :
      (c : String) (rs : List ServedResource) (m : Merged) {n : Merged}
      → IsTable m
      → merge_resources K c rs m ≡ ok n
      → IsTable n
  unfolding merge_resources
  merge_resources-IsTable c [] m t h = subst IsTable (ground (arith, h)) t
  merge_resources-IsTable c (r ∷ rs) m t h =
      let (k, e, f) = >>=-eq-ok (merge_resources K c rs) (merge K c r m) h in
      merge_resources-IsTable c rs k (merge-IsTable c r m t e) f

  pub merge_clusters-IsTable :
      (bc : List (String × List ServedResource)) (m : Merged) {n : Merged}
      → IsTable m
      → merge_clusters K bc m ≡ ok n
      → IsTable n
  unfolding merge_clusters
  merge_clusters-IsTable [] m t h = subst IsTable (ground (arith, h)) t
  merge_clusters-IsTable ((c, rs) ∷ rest) m t h =
      let (k, e, f) = >>=-eq-ok (merge_clusters K rest) (merge_resources K c rs m) h in
      merge_clusters-IsTable rest k (merge_resources-IsTable c rs m t e) f
