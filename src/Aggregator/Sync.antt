-- ===== src/Aggregator/Sync.antt =====
-- After a pass the server has no member that the AggregatedAPI does not name.
use aggregated_apiserver_ope.Prelude.{
  String, ◌≡◌, ◌≢◌, inl, inr, refl, sym, ap, ◌∙◌, true, false, ◌||◌, none, List, [], ◌∷◌, map,
  contains, lookup, arith, eq_iff, ◌==◌, string_eq, Bool-cases, Result-cases, if◌then◌else◌,
}
use aggregated_apiserver_ope.Prelude.Text.{less}
use aggregated_apiserver_ope.Prelude.Sort.{sort, insert}
use aggregated_apiserver_ope.Kube.{Kube}
use aggregated_apiserver_ope.Server.{Member, Server, remove_cluster, clusters}
use aggregated_apiserver_ope.Install.{Apiserver}
use aggregated_apiserver_ope.Server.Members.{lookup-remove_cluster, lookup-set_cluster}
use aggregated_apiserver_ope.Aggregator.{
  AggregatedCluster, Host, connect, register_cluster, register_all, remove_all, names, sync_members,
}

contains-insert :
    (x : String) (xs : List String) (a : String)
    → contains (insert less x xs) a ≡ (x == a || contains xs a)
unfolding insert
contains-insert x [] a = refl
contains-insert x (y ∷ ys) a = ground (arith, contains-insert x ys a)

contains-sort : (xs : List String) (a : String) → contains (sort less xs) a ≡ contains xs a
unfolding sort
contains-sort [] a = refl
contains-sort (x ∷ xs) a =
    contains-insert x (sort less xs) a ∙ ap (λ b. x == a || b) (contains-sort xs a)

module _ (K : Kube) (api : Apiserver K) (host : Host K) (namespace : String) where
  contains-keys :
      (members : List (String × Member K)) (name : String)
      → contains (map (λ (n, m). n) members) name ≡ false
      → lookup name members ≡ none
  contains-keys [] name h = refl
  contains-keys ((n, m) ∷ rest) name h = ground (arith, h, contains-keys rest name)

  not_listed :
      (s : Server K) (name : String)
      → contains (clusters K api s) name ≡ false
      → lookup name s.members ≡ none
  unfolding clusters
  not_listed s name h =
      contains-keys s.members name (sym (contains-sort (map (λ (n, m). n) s.members) name) ∙ h)

  register_cluster-keeps :
      (cluster : AggregatedCluster) (s : Server K) (name : String)
      → (lookup name s.members ≢ none
          → lookup name (register_cluster K api host namespace cluster s).1.members ≢ none)
  unfolding register_cluster
  register_cluster-keeps cluster s name h =
      elim (Result-cases (connect K api host namespace cluster.kubeconfig_name)) [
        | inr (x, e) ↦ rw (register_cluster, e) h
        | inl ((client, discovery), e) ↦
            rw (register_cluster, e)
              (elim (lookup-set_cluster K api cluster.kubeconfig_name name client discovery
                cluster.apis (host.discovered cluster.kubeconfig_name discovery) s) [
                  | inl (x, y, r, f, same) ↦ rw same h
                  | inr (changed, m, r, f) ↦ λ g. ground (arith, f, g, h)
                ])
      ]

  register_all-keeps :
      (spec : List AggregatedCluster) (s : Server K) (name : String)
      → lookup name s.members ≢ none
      → lookup name (register_all K api host namespace spec s).1.members ≢ none
  unfolding register_all
  register_all-keeps [] s name h = h
  register_all-keeps (c ∷ rest) s name h =
      register_all-keeps rest _ name (register_cluster-keeps c s name h)

  pub lookup-remove_all :
      (spec listed : List String) (s : Server K) (name : String)
      → lookup name (remove_all K api host namespace spec listed s).1.members ≡ (
          if contains spec name
          then lookup name s.members
          else if contains listed name
          then none
          else lookup name s.members)
  unfolding remove_all
  lookup-remove_all spec [] s name = ground arith
  lookup-remove_all spec (n ∷ rest) s name = ground (
    arith,
    eq_iff n name,
    lookup-remove_all spec rest s name,
    lookup-remove_all spec rest (remove_cluster K api n s).1 name,
    lookup-remove_cluster K api n name s,
  )

  -- After both loops of a pass the server has no member that the AggregatedAPI does not name,
  -- whatever fails; and a member that it had before and that the AggregatedAPI names is still
  -- there, even if it could not be registered anew.
  pub lookup-sync_members :
      (spec : List AggregatedCluster) (s : Server K) (name : String)
      → let (failures, later) = sync_members K api host namespace spec s in
        (contains (names spec) name ≡ false → lookup name later.members ≡ none)
        × (contains (names spec) name ≡ true
            → lookup name s.members ≢ none
            → lookup name later.members ≢ none)
  unfolding sync_members
  lookup-sync_members spec s name =
      let s' = (register_all K api host namespace spec s).1 in
      let removed = lookup-remove_all (names spec) (clusters K api s') s' name in
      (
        λ out. elim (Bool-cases (contains (clusters K api s') name)) [
          | inl l ↦ ground (arith, removed, out, l)
          | inr l ↦ ground (arith, removed, out, l, not_listed s' name l)
        ],
        λ named h e. register_all-keeps spec s name h (ground (arith, removed, named, e)),
      )
