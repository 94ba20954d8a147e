-- ===== src/Install/Discovered.antt =====
-- What installing the groups adds to the discovery documents.
use aggregated_apiserver_ope.Prelude.{
  sym, subst, ◌∙◌, String, ◌≡◌, ◌≢◌, ◌⊎◌, inl, inr, refl, Any, some, ap, true, false, List, [], ◌∷◌,
  ◌++◌, map, Bool-cases, Option-cases, Result-cases, nat_eq, ◌==◌, string_eq, eq_iff, arith,
  if◌then◌else◌, ok,
}
use aggregated_apiserver_ope.Meta.{GroupVersion}
use aggregated_apiserver_ope.Kube.{Kube}
use aggregated_apiserver_ope.Codec.{SchemeEntry}
use aggregated_apiserver_ope.Install.{
  Store, Groups, Apiserver, Registration, rest_installed, version_added, legacy_version_added,
  group_added, group_handler_added, legacy_root_added, ApiGroup, api_group, install_group_version,
  install_groups, group_version_install, WebService, group_service, legacy_service, service_of,
}

module _ (K : Kube) where
  -- The discovery entries of a group, and the web services that are added for it.
  abbrev pub entries : String → List (Registration K) → List ApiGroup
  entries name [] = []
  entries name (group_added g ∷ rest) =
      let others = entries name rest in if g.name == name then g ∷ others else others
  entries name (_ ∷ rest) = entries name rest

  abbrev pub handlers : String → List (Registration K) → List ApiGroup
  handlers name [] = []
  handlers name (group_handler_added g ∷ rest) =
      let others = handlers name rest in if g.name == name then g ∷ others else others
  handlers name (_ ∷ rest) = handlers name rest

  -- The versions of a group that are installed, each as a group of its own.
  abbrev pub versions : String → Groups K → List ApiGroup
  versions name [] = []
  versions name ((gv, stores) ∷ rest) =
      let others = versions name rest in
      if gv.group == name then api_group K gv ∷ others else others

  abbrev pub prefix_of : GroupVersion → String
  prefix_of gv = if gv.group == "" then "/api" else "/apis"

  -- The REST handlers that are installed.
  abbrev pub rests : List (Registration K) → List (String × GroupVersion × List (String × Store K))
  rests [] = []
  rests (rest_installed prefix gv stores ∷ rest) = (prefix, gv, stores) ∷ rests rest
  rests (_ ∷ rest) = rests rest

  entries-append :
      (name : String) (xs ys : List (Registration K))
      → entries name (xs ++ ys) ≡ entries name xs ++ entries name ys
  entries-append name [] ys = refl
  entries-append name (rest_installed p g s ∷ xs) ys = entries-append name xs ys
  entries-append name (version_added g ∷ xs) ys = entries-append name xs ys
  entries-append name (legacy_version_added g ∷ xs) ys = entries-append name xs ys
  entries-append name (group_added g ∷ xs) ys = ground (arith, entries-append name xs ys)
  entries-append name (group_handler_added g ∷ xs) ys = entries-append name xs ys
  entries-append name (legacy_root_added p ∷ xs) ys = entries-append name xs ys

  handlers-append :
      (name : String) (xs ys : List (Registration K))
      → handlers name (xs ++ ys) ≡ handlers name xs ++ handlers name ys
  handlers-append name [] ys = refl
  handlers-append name (rest_installed p g s ∷ xs) ys = handlers-append name xs ys
  handlers-append name (version_added g ∷ xs) ys = handlers-append name xs ys
  handlers-append name (legacy_version_added g ∷ xs) ys = handlers-append name xs ys
  handlers-append name (group_added g ∷ xs) ys = handlers-append name xs ys
  handlers-append name (group_handler_added g ∷ xs) ys = ground (arith, handlers-append name xs ys)
  handlers-append name (legacy_root_added p ∷ xs) ys = handlers-append name xs ys

  rests-append : (xs ys : List (Registration K)) → rests (xs ++ ys) ≡ rests xs ++ rests ys
  rests-append [] ys = refl
  rests-append (rest_installed p g s ∷ xs) ys = ap (λ l. (p, g, s) ∷ l) (rests-append xs ys)
  rests-append (version_added g ∷ xs) ys = rests-append xs ys
  rests-append (legacy_version_added g ∷ xs) ys = rests-append xs ys
  rests-append (group_added g ∷ xs) ys = rests-append xs ys
  rests-append (group_handler_added g ∷ xs) ys = rests-append xs ys
  rests-append (legacy_root_added p ∷ xs) ys = rests-append xs ys

  module _ (api : Apiserver K) where
    -- What one group version adds.
    abbrev Added : String → GroupVersion → List (String × Store K) → List (Registration K) → Type 0
    Added name gv stores first =
        (rests first ≡ (prefix_of gv, gv, stores) ∷ [])
        × (entries name first ≡ versions name ((gv, stores) ∷ []))
        × (handlers name first ≡ versions name ((gv, stores) ∷ []))

    install_group_version-Added :
        (scheme : List SchemeEntry) (services : List WebService) (name : String) (gv : GroupVersion)
        (stores : List (String × Store K)) (first : List (Registration K))
        → name ≢ ""
        → install_group_version K api scheme services (prefix_of gv) gv stores ≡ ok first
        → Added name gv stores first
    unfolding install_group_version
    install_group_version-Added scheme services name gv stores first n h =
        elim (Option-cases
          (api.install_rest (group_version_install K scheme (prefix_of gv) gv stores))) [
            | inr (e, r) ↦ absurd (ground (arith, r, h))
            | inl r ↦
                elim (Option-cases (api.add_service services (service_of K (prefix_of gv) gv))) [
                  | inr (e, w) ↦ absurd (ground (arith, r, w, h))
                  | inl w ↦ elim (Bool-cases (gv.group == "")) [
                    | inl core ↦
                        let legacy : prefix_of gv ≡ "/api" = rw core refl in
                        let differs : (prefix_of gv == "/apis") ≡ false = rw legacy refl in
                        let same : first
                            ≡ rest_installed (prefix_of gv) gv stores
                              ∷ legacy_version_added gv
                              ∷ legacy_root_added (prefix_of gv)
                              ∷ [] =
                          ground (arith, differs, r, w, h) in
                        let other : (gv.group == name) ≡ false =
                          ground (arith, core, n, eq_iff gv.group "", eq_iff gv.group name) in
                        rw (same, core, other) (refl, refl, refl)
                    | inr named ↦
                        let prefix : prefix_of gv ≡ "/apis" = rw named refl in
                        let same_prefix : (prefix_of gv == "/apis") ≡ true = rw prefix refl in
                        let same : first
                            ≡ rest_installed (prefix_of gv) gv stores
                              ∷ version_added gv
                              ∷ group_added (api_group K gv)
                              ∷ group_handler_added (api_group K gv)
                              ∷ [] =
                          ground (arith, same_prefix, r, w, h) in
                        rw same (refl, refl, refl)
                  ]
                ]
          ]

    -- A web service of the group.
    abbrev IsServiceOf : String → WebService → Type 0
    IsServiceOf name (group_service g) = g.name ≡ name
    IsServiceOf name (legacy_service prefix) = ⊥

    install_groups-Added :
        (scheme : List SchemeEntry) (services : List WebService) (groups : Groups K)
        {registrations : List (Registration K)}
        → install_groups K api scheme services groups ≡ ok registrations
        → (name : String) → name ≢ ""
        → (rests registrations ≡ map (λ (gv, stores). (prefix_of gv, gv, stores)) groups)
          × (entries name registrations ≡ versions name groups)
          × (handlers name registrations ≡ versions name groups)
    unfolding install_groups
    install_groups-Added scheme services [] {registrations} h name n =
        let same : [] ≡ registrations = ground (arith, h) in rw (← same) (refl, refl, refl)
    install_groups-Added scheme services ((gv, stores) ∷ rest) {registrations} h name n =
        let after = service_of K (prefix_of gv) gv ∷ services in
        elim (Result-cases (install_group_version K api scheme services (prefix_of gv) gv stores)) [
          | inr (e, f) ↦ absurd (ground (arith, f, h))
          | inl (first, f) ↦ elim (Result-cases (install_groups K api scheme after rest)) [
            | inr (e, g) ↦ absurd (ground (arith, f, g, h))
            | inl (later, g) ↦
                let same : first ++ later ≡ registrations = ground (arith, f, g, h) in
                let (a, b, c) =
                  install_group_version-Added scheme services name gv stores first n f in
                let (p, q, r) = install_groups-Added scheme after rest g name n in
                rw (← same, rests-append, entries-append, handlers-append, a, b, c, p, q, r)
                  (refl, one_more name gv stores rest, one_more name gv stores rest)
          ]
        ]
      where
        one_more :
            (name : String) (gv : GroupVersion) (stores : List (String × Store K)) (rest : Groups K)
            → versions name ((gv, stores) ∷ []) ++ versions name rest
              ≡ versions name ((gv, stores) ∷ rest)
        one_more name gv stores rest = ground arith

    -- `Container.Add` does not add a second web service of one group: its root path is a duplicate.
    abbrev pub RefusesDuplicates : Type 0
    RefusesDuplicates =
        (services : List WebService) (g : ApiGroup)
        → Any (IsServiceOf g.name) services
        → (e : K.Err) × (api.add_service services (group_service g) ≡ some e)

    module _ (refuses : RefusesDuplicates) where
      abbrev after : List WebService → GroupVersion → List WebService
      after services gv = service_of K (prefix_of gv) gv ∷ services

      service_of-group :
          (gv : GroupVersion)
          → gv.group ≢ ""
          → service_of K (prefix_of gv) gv ≡ group_service (api_group K gv)
      service_of-group gv n =
          let named : (gv.group == "") ≡ false = ground (arith, n, eq_iff gv.group "") in
          let prefix : prefix_of gv ≡ "/apis" = rw named refl in rw prefix refl

      unserved :
          (scheme : List SchemeEntry) (services : List WebService) (gv : GroupVersion)
          (stores : List (String × Store K)) (first : List (Registration K))
          → install_group_version K api scheme services (prefix_of gv) gv stores ≡ ok first
          → gv.group ≢ ""
          → Any (IsServiceOf gv.group) services
          → ⊥
      unfolding install_group_version
      unserved scheme services gv stores first h n w =
          let (e, d) = refuses services (api_group K gv) w in
          let refused : api.add_service services (service_of K (prefix_of gv) gv) ≡ some e =
            ap (api.add_service services) (service_of-group gv n) ∙ d in
          elim (Option-cases
            (api.install_rest (group_version_install K scheme (prefix_of gv) gv stores))) [
              | inr (x, r) ↦ ground (arith, r, h)
              | inl r ↦ ground (arith, r, refused, h)
            ]

      -- The parts of a successful turn: the service of a named group was not there, and the other
      -- group versions are installed too.
      turn_ok :
          (scheme : List SchemeEntry) (services : List WebService) (gv : GroupVersion)
          (stores : List (String × Store K)) (rest : Groups K)
          {registrations : List (Registration K)}
          → install_groups K api scheme services ((gv, stores) ∷ rest) ≡ ok registrations
          → (gv.group ≢ "" → Any (IsServiceOf gv.group) services → ⊥)
            × ((later : List (Registration K)) × (install_groups K api scheme
                    (after services gv)
                    rest
                  ≡ ok later))
      unfolding install_groups
      turn_ok scheme services gv stores rest h =
          elim (Result-cases
            (install_group_version K api scheme services (prefix_of gv) gv stores)) [
              | inr (e, f) ↦ absurd (ground (arith, f, h))
              | inl (first, f) ↦
                  elim (Result-cases (install_groups K api scheme (after services gv) rest)) [
                    | inr (e, g) ↦ absurd (ground (arith, f, g, h))
                    | inl (later, g) ↦ (unserved scheme services gv stores first f, (later, g))
                  ]
            ]

      -- A group that has its service is not installed again.
      versions-eq-nil :
          (scheme : List SchemeEntry) (services : List WebService) (groups : Groups K)
          {registrations : List (Registration K)}
          → install_groups K api scheme services groups ≡ ok registrations
          → (name : String) → name ≢ ""
          → Any (IsServiceOf name) services
          → versions name groups ≡ []
      versions-eq-nil scheme services [] h name n w = refl
      versions-eq-nil scheme services ((gv, stores) ∷ rest) h name n w =
          let (fresh, (later, g)) = turn_ok scheme services gv stores rest h in
          let others = versions-eq-nil scheme (after services gv) rest g name n (inr w) in
          elim (Bool-cases (gv.group == name)) [
            | inr e ↦ rw e others
            | inl e ↦
                let same = (eq_iff gv.group name).0 e in
                absurd (
                  fresh (λ p. n (sym same ∙ p))
                    (subst (λ m. Any (IsServiceOf m) services) (sym same) w))
          ]

      -- At most one version of the group.
      abbrev pub AtMostOne : List ApiGroup → Type 0
      AtMostOne groups = (groups ≡ []) ⊎ ((g : ApiGroup) × (groups ≡ g ∷ []))

      versions-AtMostOne :
          (scheme : List SchemeEntry) (services : List WebService) (groups : Groups K)
          {registrations : List (Registration K)}
          → install_groups K api scheme services groups ≡ ok registrations
          → (name : String) → name ≢ ""
          → AtMostOne (versions name groups)
      versions-AtMostOne scheme services [] h name n = inl refl
      versions-AtMostOne scheme services ((gv, stores) ∷ rest) h name n =
          let (fresh, (later, g)) = turn_ok scheme services gv stores rest h in
          elim (Bool-cases (gv.group == name)) [
            | inr e ↦ rw e (versions-AtMostOne scheme (after services gv) rest g name n)
            | inl e ↦
                let same = (eq_iff gv.group name).0 e in
                let service = service_of-group gv (λ p. n (sym same ∙ p)) in
                let there : Any (IsServiceOf name) (after services gv) =
                  inl (subst (IsServiceOf name) (sym service) same) in
                rw (e, versions-eq-nil scheme (after services gv) rest g name n there)
                  (inr (api_group K gv, refl))
          ]

      -- Where the groups are installed, without an error and without the end of the process, the
      -- REST handlers of each group version are installed once, in the order of the groups and under
      -- the prefix of its group; and each named group has one version at most, which is its one
      -- entry in the discovery document and its one web service. Two versions of a named group are
      -- never installed: the second web service has a duplicate root path, which ends the process.
      pub install_groups_lem :
          (scheme : List SchemeEntry) (groups : Groups K) {registrations : List (Registration K)}
          → install_groups K api scheme [] groups ≡ ok registrations
          → (name : String) → name ≢ ""
          → (rests registrations ≡ map (λ (gv, stores). (prefix_of gv, gv, stores)) groups)
            × (entries name registrations ≡ versions name groups)
            × (handlers name registrations ≡ versions name groups)
            × AtMostOne (versions name groups)
      install_groups_lem scheme groups h name n =
          let (p, q, r) = install_groups-Added scheme [] groups h name n in
          (p, q, r, versions-AtMostOne scheme [] groups h name n)
