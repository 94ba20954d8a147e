-- ===== src/Install/Stores.antt =====
-- Which store is installed under which name, and for which clusters.
use aggregated_apiserver_ope.Prelude.{
  String, ◌<>◌, ◌≡◌, inl, inr, refl, sym, subst, ◌∙◌, Bool, true, false, ◌&&◌, Option, none, some,
  List, [], ◌∷◌, lookup, update, lookup-update, contains, Bool-cases, Option-cases, Result-cases,
  nat_eq, ◌==◌, string_eq, eq_iff, arith, if◌then◌else◌, ok, >>=-eq-ok,
}
use aggregated_apiserver_ope.Meta.{GroupVersion, gv_eq, gv_beq_iff, gvr_eq}
use aggregated_apiserver_ope.Kube.{Kube}
use aggregated_apiserver_ope.Discovery.{ServedResource}
use aggregated_apiserver_ope.Codec.{new_scheme}
use aggregated_apiserver_ope.Storage as storage
use aggregated_apiserver_ope.Install.{
  Store, resource_store, status_store, Groups, Apiserver, Installed, clients_of, or_empty_list,
  put_store, storage_options, install_resource, group_versions, install_groups, install_resources,
}
use aggregated_apiserver_ope.Install.Writer.{version_of, writes, writer}

module _ (K : Kube) where
  abbrev pub store_at : GroupVersion → String → Groups K → Option (Store K)
  store_at gv name groups = elim (lookup gv groups) [
    | none ↦ none
    | some stores ↦ lookup name stores
  ]

  -- The storage of a resource, with the clients of exactly its clusters.
  pub record IsStorageOf (clusters : List (String × K.Client)) (r : ServedResource)
      (o : storage.Options K) : Type 0 where
    pub gvr : o.gvr ≡ r.gvr
    pub kind : o.kind ≡ r.kind
    pub namespaced : o.namespaced ≡ r.namespaced
    pub singular : o.singular ≡ r.singular
    pub clients :
        (c : String)
        → lookup c o.clusters ≡ (if contains r.clusters c then lookup c clusters else none)

  store_at-put_store :
      (gv : GroupVersion) (name : String) (gv' : GroupVersion) (name' : String) (store : Store K)
      (groups : Groups K)
      → store_at gv name (put_store K gv' name' store groups)
        ≡ (if gv' == gv && name' == name then some store else store_at gv name groups)
  store_at-put_store gv name gv' name' store groups =
      let stores = or_empty_list K (lookup gv' groups) in
      let outer = lookup-update gv' gv (update name' store stores) groups in
      let inner = lookup-update name' name store stores in
      elim (Bool-cases (gv' == gv)) [
        | inr e ↦ rw (store_at, outer, e) refl
        | inl e ↦
            let p = (gv_beq_iff gv' gv).0 e in
            rw (store_at, outer, e, inner)
              (elim (Option-cases (lookup gv groups)) [
                | inl n ↦ rw (p, store_at, n) refl
                | inr (m, q) ↦ rw (p, store_at, q) refl
              ])
      ]

  lookup-clients_of :
      (r : ServedResource) (names : List String) (clusters cs : List (String × K.Client))
      → clients_of K r names clusters ≡ ok cs
      → (c : String) → lookup c cs ≡ (if contains names c then lookup c clusters else none)
  unfolding clients_of
  lookup-clients_of r [] clusters cs h c = ground (arith, h)
  lookup-clients_of r (n ∷ names) clusters cs h c = elim (Option-cases (lookup n clusters)) [
    | inl e ↦ absurd (ground (arith, e, h))
    | inr (cl, e) ↦ elim (Result-cases (clients_of K r names clusters)) [
      | inr (x, f) ↦ absurd (ground (arith, e, f, h))
      | inl (others, f) ↦
          let last : cs ≡ update n cl others = ground (arith, e, f, h) in
          rw (last, lookup-update n c cl others, lookup-clients_of r names clusters others f c)
            (elim (Bool-cases (n == c)) [
              | inl y ↦ rw (y, ← (eq_iff n c).0 y, e) refl
              | inr y ↦ rw y refl
            ])
    ]
  ]

  -- The store under a name, where the name was written, and otherwise the one before.
  abbrev pub Holds :
      List (String × K.Client)
      → Option (ServedResource × Bool)
      → Option (Store K)
      → Option (Store K)
      → Type 0
  Holds clusters none value before = value ≡ before
  Holds clusters (some (r, is_status)) value before =
      (o : storage.Options K) × IsStorageOf clusters r o
      × (value ≡ some (if is_status then status_store o else resource_store o))

  Holds-trans :
      (clusters : List (String × K.Client)) (later first : Option (ServedResource × Bool))
      (value middle before : Option (Store K))
      → Holds clusters later value middle
      → Holds clusters first middle before
      → Holds clusters (elim later [ some w ↦ some w | none ↦ first ]) value before
  Holds-trans clusters none first value middle before h g =
      subst (λ v. Holds clusters first v before) (sym h) g
  Holds-trans clusters (some (r, b)) first value middle before h g = h

  abbrev after_resource : ServedResource → storage.Options K → Groups K → Groups K
  after_resource r o groups =
      let with_store = put_store K (version_of r) r.gvr.resource (resource_store o) groups in
      if r.status
      then put_store K (version_of r) (r.gvr.resource <> "/status") (status_store o) with_store
      else with_store

  install_resource_ok :
      (clusters : List (String × K.Client)) (r : ServedResource) (groups later : Groups K)
      → install_resource K clusters r groups ≡ ok later
      → (o : storage.Options K) × IsStorageOf clusters r o × (later ≡ after_resource r o groups)
  unfolding install_resource storage.new_storage
  install_resource_ok clusters r groups later h =
      elim (Result-cases (clients_of K r r.clusters clusters)) [
        | inr (e, f) ↦ absurd (ground (arith, f, h))
        | inl (cs, f) ↦ elim (Option-cases (storage.validate K (storage_options K r cs))) [
          | inr (e, v) ↦ absurd (ground (arith, f, v, h))
          | inl v ↦ (
            storage_options K r cs,
            record {
              gvr = refl;
              kind = refl;
              namespaced = refl;
              singular = refl;
              clients = lookup-clients_of r r.clusters clusters cs f;
            },
            ground (arith, f, v, h),
          )
        ]
      ]

  -- `writes` and what is written, for the outcomes of its tests.
  written :
      (clusters : List (String × K.Client)) (r : ServedResource) (o : storage.Options K)
      (in_version has_status is_status is_name : Bool) (value before : Option (Store K))
      → IsStorageOf clusters r o
      → value ≡ (
          if has_status
          then if in_version && is_status
            then some (status_store o)
            else if in_version && is_name
            then some (resource_store o)
            else before
          else if in_version && is_name
          then some (resource_store o)
          else before)
      → Holds clusters
          (if in_version
            then if has_status && is_status
              then some (r, true)
              else if is_name
              then some (r, false)
              else none
            else none)
          value
          before
  written clusters r o false true s n value before h p = p
  written clusters r o false false s n value before h p = p
  written clusters r o true true true n value before h p = (o, h, p)
  written clusters r o true true false true value before h p = (o, h, p)
  written clusters r o true true false false value before h p = p
  written clusters r o true false s true value before h p = (o, h, p)
  written clusters r o true false s false value before h p = p

  writes-Holds :
      (clusters : List (String × K.Client)) (r : ServedResource) (o : storage.Options K)
      (groups : Groups K) (gv : GroupVersion) (name : String)
      → IsStorageOf clusters r o
      → Holds clusters
          (writes r gv name)
          (store_at gv name (after_resource r o groups))
          (store_at gv name groups)
  writes-Holds clusters r o groups gv name h =
      let with_store = put_store K (version_of r) r.gvr.resource (resource_store o) groups in
      let first =
        store_at-put_store gv name (version_of r) r.gvr.resource (resource_store o) groups in
      let second =
        store_at-put_store gv name (version_of r) (r.gvr.resource <> "/status") (status_store o)
          with_store in
      written clusters r o (version_of r == gv) r.status ((r.gvr.resource <> "/status") == name)
        (r.gvr.resource == name) _ (store_at gv name groups) h
        (elim (Bool-cases r.status) [ inl s ↦ rw s (second ∙ rw first refl) | inr s ↦ rw s first ])

  group_versions-Holds :
      (clusters : List (String × K.Client)) (rs : List ServedResource) (groups later : Groups K)
      → group_versions K clusters rs groups ≡ ok later
      → (gv : GroupVersion) (name : String)
      → Holds clusters (writer rs gv name) (store_at gv name later) (store_at gv name groups)
  unfolding group_versions
  group_versions-Holds clusters [] groups later h gv name = ground (arith, h)
  group_versions-Holds clusters (r ∷ rest) groups later h gv name =
      let (middle, e, f) =
        >>=-eq-ok (group_versions K clusters rest) (install_resource K clusters r groups) h in
      let (o, is_storage, p) = install_resource_ok clusters r groups middle e in
      Holds-trans clusters (writer rest gv name) (writes r gv name) _ _ _
        (group_versions-Holds clusters rest middle later f gv name)
        (subst
          (λ g. Holds clusters (writes r gv name) (store_at gv name g) (store_at gv name groups))
          (sym p) (writes-Holds clusters r o groups gv name is_storage))

  module _ (api : Apiserver K) where
    -- When the resources are installed, the store under a name of a group version is that of the
    -- last resource that writes the name, for the resource itself or for its status, with that
    -- resource's kind and scope and with the clients of exactly its clusters; and there is none
    -- under a name that no resource writes.
    pub install_resources_lem :
        (rs : List ServedResource) (clusters : List (String × K.Client)) {installed : Installed K}
        → install_resources K api rs clusters ≡ ok installed
        → (gv : GroupVersion) (name : String)
        → Holds clusters (writer rs gv name) (store_at gv name installed.groups) none
    unfolding install_resources
    install_resources_lem rs clusters {installed} h gv name =
        elim (Result-cases (group_versions K clusters rs [])) [
          | inr (e, f) ↦ absurd (ground (arith, f, h))
          | inl (groups, f) ↦
              elim (Result-cases
                (install_groups K api (new_scheme rs) [] (api.group_order groups))) [
                  | inr (e, g) ↦ absurd (ground (arith, f, g, h))
                  | inl (registrations, g) ↦
                      let same : groups ≡ installed.groups = ground (arith, f, g, h) in
                      subst (λ x. Holds clusters (writer rs gv name) (store_at gv name x) none) same
                        (group_versions-Holds clusters rs [] groups f gv name)
                ]
        ]
