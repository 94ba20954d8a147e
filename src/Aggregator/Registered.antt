-- ===== src/Aggregator/Registered.antt =====
-- The first loop of a pass, where no cluster fails: the members afterwards.
use mathlib.Core.Option
use aggregated_apiserver_ope.Prelude.{
  String, ◌≡◌, ◌≢◌, ◌⊎◌, ◌↔◌, ◌∙◌, inl, inr, refl, sym, subst, Bool, false, Option, none, some,
  List, [], ◌∷◌, ◌++◌, contains, lookup, arith, ◌==◌, string_eq, Bool-cases, Result-cases,
  if◌then◌else◌, ok,
}
use aggregated_apiserver_ope.Kube.{Kube}
use aggregated_apiserver_ope.Server.{Member, Server, resolve, set_cluster}
use aggregated_apiserver_ope.Server.Consistent.{Reachable, stepping, setting}
use aggregated_apiserver_ope.Server.Members.{lookup-set_cluster}
use aggregated_apiserver_ope.Server.Settled.{Settled, set_cluster-Settled}
use aggregated_apiserver_ope.Install.{Apiserver}
use aggregated_apiserver_ope.Aggregator.{
  AggregatedCluster, Host, connect, register_cluster, register_all, names, with_failure,
}

-- The last cluster of this name, which is registered over the others.
abbrev pub last_named : String → List AggregatedCluster → Option AggregatedCluster
last_named name [] = none
last_named name (c ∷ rest) = elim (last_named name rest) [
  | some d ↦ some d
  | none ↦ if c.kubeconfig_name == name then some c else none
]

pub last_named-none :
    (name : String) (spec : List AggregatedCluster)
    → (last_named name spec ≡ none) ↔ (contains (names spec) name ≡ false)
last_named-none name [] = (λ h. refl, λ h. refl)
last_named-none name (c ∷ rest) = let (f, g) = last_named-none name rest in ground (arith, f, g)

pub append_nil {ℓ} : {A : Type ℓ} (xs ys : List A) → xs ++ ys ≡ [] → (xs ≡ []) × (ys ≡ [])
append_nil [] ys h = (refl, h)
append_nil (x ∷ xs) ys h = absurd (ground (arith, h))

module _ (K : Kube) (api : Apiserver K) (host : Host K) (namespace : String) where
  -- The member for a cluster: with the clients that its Secret gives, and with what its discovery
  -- client answered.
  abbrev pub Joined : AggregatedCluster → Option (Member K) → Type 0
  Joined c entry =
      (client : K.Client) × (discovery : K.Discovery) × (changed : Bool) × (m : Member K) × (connect
          K api host namespace c.kubeconfig_name
        ≡ ok (client, discovery))
      × (resolve K (host.discovered c.kubeconfig_name discovery)
            (record { client = client; discovery = discovery; selectors = c.apis; resources = [] })
          ≡ ok (changed, m))
      × (entry ≡ some m)

  -- The entry of a name afterwards, from the cluster of that name.
  abbrev pub EntryOf : Option AggregatedCluster → Option (Member K) → Option (Member K) → Type 0
  EntryOf none before entry = entry ≡ before
  EntryOf (some c) before entry = Joined c entry

  register_cluster-Reachable :
      (c : AggregatedCluster) (s : Server K)
      → Reachable K api s
      → Reachable K api (register_cluster K api host namespace c s).1
  unfolding register_cluster
  register_cluster-Reachable c s r =
      elim (Result-cases (connect K api host namespace c.kubeconfig_name)) [
        | inr (x, e) ↦ rw (register_cluster, e) r
        | inl ((client, discovery), e) ↦
            rw (register_cluster, e)
              (stepping r (
                setting c.kubeconfig_name client discovery c.apis
                  (host.discovered c.kubeconfig_name discovery)))
      ]

  register_cluster_ok :
      (c : AggregatedCluster) (s : Server K)
      → Reachable K api s
      → (register_cluster K api host namespace c s).0 ≡ none
      → Settled K api (register_cluster K api host namespace c s).1
        × ((name : String)
            → EntryOf
                (if c.kubeconfig_name == name then some c else none)
                (lookup name s.members)
                (lookup name (register_cluster K api host namespace c s).1.members))
  unfolding register_cluster
  register_cluster_ok c s r h =
      elim (Result-cases (connect K api host namespace c.kubeconfig_name)) [
        | inr (x, e) ↦ absurd (ground (arith, e, h))
        | inl ((client, discovery), e) ↦
            let answer = host.discovered c.kubeconfig_name discovery in
            let done : (set_cluster K api c.kubeconfig_name client discovery c.apis answer s).0
                ≡ none =
              ground (arith, e, h) in
            let settled =
              set_cluster-Settled K api c.kubeconfig_name client discovery c.apis answer s r done in
            rw (register_cluster, e)
              (
                settled,
                λ name.
                    elim (lookup-set_cluster K api c.kubeconfig_name name client discovery c.apis
                      answer s) [
                        | inl (x, y, f, failed, same) ↦ absurd (ground (arith, failed, done))
                        | inr (changed, m, f, entry) ↦
                            elim (Bool-cases (c.kubeconfig_name == name)) [
                              | inl n ↦
                                  rw n (client, discovery, changed, m, e, f, entry ∙ rw n refl)
                              | inr n ↦ rw n (entry ∙ rw n refl)
                            ]
                      ],
              )
      ]

  pub no_failure :
      (result : Option K.Err) (failures : List K.Err)
      → with_failure K api host namespace result failures ≡ []
      → (result ≡ none) × (failures ≡ [])
  no_failure none failures h = (refl, h)
  no_failure (some e) failures h = absurd (ground (arith, h))

  pub map-none :
      (f : K.Err → K.Err) (result : Option K.Err) → Option.map f result ≡ none → result ≡ none
  map-none f result h = ground (arith, h)

  pub register_all-Reachable :
      (spec : List AggregatedCluster) (s : Server K)
      → Reachable K api s
      → Reachable K api (register_all K api host namespace spec s).1
  unfolding register_all
  register_all-Reachable [] s r = r
  register_all-Reachable (c ∷ rest) s r =
      register_all-Reachable rest _ (register_cluster-Reachable c s r)

  EntryOf-trans :
      (c rest : Option AggregatedCluster) (before between entry : Option (Member K))
      → EntryOf c before between
      → EntryOf rest between entry
      → EntryOf (elim rest [ some d ↦ some d | none ↦ c ]) before entry
  EntryOf-trans c (some d) before between entry h k = k
  EntryOf-trans c none before between entry h k = subst (EntryOf c before) (sym k) h

  pub register_all_ok :
      (spec : List AggregatedCluster) (s : Server K)
      → Reachable K api s
      → (register_all K api host namespace spec s).0 ≡ []
      → ((spec ≢ []) ⊎ Settled K api s → Settled K api (register_all K api host namespace spec s).1)
        × ((name : String)
            → EntryOf
                (last_named name spec)
                (lookup name s.members)
                (lookup name (register_all K api host namespace spec s).1.members))
  unfolding register_all
  register_all_ok [] s r h = (
    λ given. elim given [ inl filled ↦ absurd (filled refl) | inr settled ↦ settled ],
    λ name. refl,
  )
  register_all_ok (c ∷ rest) s r h =
      let (p, q) = no_failure _ _ h in
      let s' = (register_cluster K api host namespace c s).1 in
      let (settled, entry) = register_cluster_ok c s r (map-none _ _ p) in
      let (later, entries) = register_all_ok rest s' (register_cluster-Reachable c s r) q in
      (
        λ given. later (inr settled),
        λ name.
            EntryOf-trans (if c.kubeconfig_name == name then some c else none)
              (last_named name rest) (lookup name s.members) (lookup name s'.members)
              (lookup name (register_all K api host namespace rest s').1.members) (entry name)
              (entries name),
      )
