-- ===== src/Server/Serving.antt =====
-- From the members to the stores: what a rebuild installs for what the members serve.
use mathlib.Core.Option
use aggregated_apiserver_ope.Prelude.{
  String, ◌≡◌, ◌≢◌, ◌∙◌, inl, inr, refl, sym, ap, subst, Bool, false, ◌||◌, Option, none, some,
  List, [], ◌∷◌, map, lookup, contains, Bool-cases, arith, ◌==◌, string_eq, if◌then◌else◌, ok,
}
use aggregated_apiserver_ope.Prelude.Text.{less}
use aggregated_apiserver_ope.Prelude.Sort.{sort, insert}
use aggregated_apiserver_ope.Meta.{Gvr, gvr_eq, gvr_beq_iff}
use aggregated_apiserver_ope.Kube.{Kube}
use aggregated_apiserver_ope.Discovery.{ServedResource, union}
use aggregated_apiserver_ope.Discovery.Merge.{serving}
use aggregated_apiserver_ope.Discovery.Union.{find, merged_resource, union_lem}
use aggregated_apiserver_ope.Storage as storage
use aggregated_apiserver_ope.Server.{Member, generic, Server, by_cluster, rebuild, swap_handler}
use aggregated_apiserver_ope.Server.Rebuild.{clients, rebuild_lem}
use aggregated_apiserver_ope.Install.{
  Apiserver, GenericServer, Store, resource_store, install_resources,
}
use aggregated_apiserver_ope.Install.Writer.{NamesNoStatus, gvr_version, writer-find}
use aggregated_apiserver_ope.Install.Stores.{store_at, Holds, install_resources_lem}

contains-insert :
    (x : String) (xs : List String) (c : String)
    → contains (insert less x xs) c ≡ (x == c || contains xs c)
unfolding insert
contains-insert x [] c = refl
contains-insert x (y ∷ ys) c = ground (arith, contains-insert x ys c)

contains-sort : (xs : List String) (c : String) → contains (sort less xs) c ≡ contains xs c
unfolding sort
contains-sort [] c = refl
contains-sort (x ∷ xs) c =
    contains-insert x (sort less xs) c ∙ ap (λ b. x == c || b) (contains-sort xs c)

find-gvr :
    (g : Gvr) (rs : List ServedResource) (r : ServedResource) → find g rs ≡ some r → r.gvr ≡ g
find-gvr g [] r h = absurd (ground (arith, h))
find-gvr g (x ∷ rest) r h = elim (Bool-cases (x.gvr == g)) [
  | inl e ↦
      let same : x ≡ r = ground (arith, e, h) in
      subst (λ y. y.gvr ≡ g) same ((gvr_beq_iff x.gvr g).0 e)
  | inr e ↦ find-gvr g rest r (ground (arith, e, h))
]

merged_resource-clusters :
    (xs : List (String × ServedResource)) (r : ServedResource)
    → merged_resource xs ≡ some r
    → (c : String) → contains r.clusters c ≡ contains (map (λ (d, s). d) xs) c
merged_resource-clusters [] r h c = absurd (ground (arith, h))
merged_resource-clusters ((d, x) ∷ xs) r h c =
    let names = d ∷ map (λ (e, s). e) xs in
    let sorted : r.clusters ≡ sort less names = ground (arith, h) in
    rw sorted (contains-sort names c)

module _ (K : Kube) (api : Apiserver K) where
  lookup-clients :
      (c : String) (members : List (String × Member K))
      → lookup c (clients K api members) ≡ Option.map (λ m. m.client) (lookup c members)
  lookup-clients c [] = refl
  lookup-clients c ((d, m) ∷ rest) = ground (arith, lookup-clients c rest)

  -- Who serves a resource, by name.
  abbrev pub serves : Gvr → List (String × Member K) → String → Bool
  serves g members c = contains (map (λ (d, r). d) (serving g (by_cluster K api members))) c

  -- The store for a group-version-resource that the members serve as `r`: it has the client of
  -- every member that serves it, and no other.
  abbrev pub ServedBy :
      Gvr → List (String × Member K) → Option ServedResource → Option (Store K) → Type 0
  ServedBy g members none store = store ≡ none
  ServedBy g members (some r) store =
      (o : storage.Options K) × (store ≡ some (resource_store o))
      × (o.gvr ≡ g)
      × (o.kind ≡ r.kind)
      × (o.namespaced ≡ r.namespaced)
      × (o.singular ≡ r.singular)
      × ((c : String)
          → lookup c o.clusters
            ≡ (if serves g members c then Option.map (λ m. m.client) (lookup c members) else none))

  Holds-ServedBy :
      (g : Gvr) (members : List (String × Member K)) (entry : Option ServedResource)
      (store : Option (Store K))
      → ((r : ServedResource) → entry ≡ some r → r.gvr ≡ g)
      → merged_resource (serving g (by_cluster K api members)) ≡ entry
      → Holds K (clients K api members) (Option.map (λ r. (r, false)) entry) store none
      → ServedBy g members entry store
  Holds-ServedBy g members none store named merged h = h
  Holds-ServedBy g members (some r) store named merged (o, s, p) = (
    o,
    p,
    s.gvr ∙ named r refl,
    s.kind,
    s.namespaced,
    s.singular,
    λ c.
        s.clients c
        ∙ rw
            (
              merged_resource-clusters (serving g (by_cluster K api members)) r merged c,
              lookup-clients c members,
            )
            refl,
  )

  installed_ServedBy :
      (s : Server K) (resources : List ServedResource) (inner : GenericServer K)
      → union K (by_cluster K api s.members) ≡ ok resources
      → install_resources K api resources (clients K api s.members) ≡ ok inner.installed
      → (g : Gvr) → NamesNoStatus g
      → ServedBy g s.members
          (merged_resource (serving g (by_cluster K api s.members)))
          (store_at K (gvr_version g) g.resource inner.installed.groups)
  installed_ServedBy s resources inner u i g h =
      let (found, nodup, _) = union_lem K (by_cluster K api s.members) u in
      let held =
        install_resources_lem K api resources (clients K api s.members) i (gvr_version g)
          g.resource in
      let store = store_at K (gvr_version g) g.resource inner.installed.groups in
      Holds-ServedBy g s.members (merged_resource (serving g (by_cluster K api s.members))) store
        (λ r e. find-gvr g resources r (found g ∙ e)) refl
        (subst (λ w. Holds K (clients K api s.members) w store none)
          (writer-find g resources h nodup ∙ ap (Option.map (λ r. (r, false))) (found g)) held)

  -- When the members' resources have a union, which is not empty and not what was served, and the
  -- rebuild has no error, then a new generic server is the handler, and each group-version-resource
  -- has a store in it exactly if some member serves it: with the kind and scope of the union's
  -- entry, and with the client of every member that serves it and of no other.
  pub rebuild-ServedBy :
      (s : Server K) {resources : List ServedResource}
      → union K (by_cluster K api s.members) ≡ ok resources
      → resources ≢ []
      → s.resources ≢ some resources
      → (rebuild K api s).0 ≡ none
      → (inner : GenericServer K) × ((rebuild K api s).1.handler ≡ generic inner)
        × ((g : Gvr)
            → NamesNoStatus g
            → ServedBy g s.members
                (merged_resource (serving g (by_cluster K api s.members)))
                (store_at K (gvr_version g) g.resource inner.installed.groups))
  unfolding swap_handler
  rebuild-ServedBy s {resources} u filled new no_error = elim (rebuild_lem K api s) [
    | inl (e, x, f, _, _) ↦ absurd (ground (arith, u, f))
    | inr (rs, f, ways) ↦
        let same : rs ≡ resources = ground (arith, u, f) in
        elim ways [
          | inl (kept, _, _) ↦ absurd (new (kept ∙ ap some same))
          | inr (inl (empty, _, _)) ↦ absurd (filled (sym same ∙ empty))
          | inr (inr (_, _, inr (e, failed, _))) ↦ absurd (ground (arith, failed, no_error))
          | inr (inr (_, _, inl (_, (inner, i, d, later)))) ↦ (
            inner,
            ap (λ t. t.handler) later,
            installed_ServedBy s resources inner u (
                subst
                  (λ x. install_resources K api x (clients K api s.members) ≡ ok inner.installed)
                  same i),
          )
        ]
  ]
