-- ===== src/Discovery/Parse.antt =====
-- `FromDiscovery` against a description that has no loop state.
use aggregated_apiserver_ope.Prelude.{
  String, ◌<>◌, ◌≡◌, ◌∙◌, refl, ap, Bool, true, false, not, ◌||◌, some, List, [], ◌∷◌, ◌++◌, map,
  inl, inr, Option-cases, any, select, arith, eq_iff, ◌==◌, string_eq, Result, ok, ◌>>=◌,
  Result-cases, map_err,
}
use aggregated_apiserver_ope.Prelude.Text.{
  cut_suffix, contains_text, cut_suffix-append, append-cut_suffix,
}
use aggregated_apiserver_ope.Meta.{GroupVersion}
use aggregated_apiserver_ope.Kube.{Kube}
use aggregated_apiserver_ope.Discovery.{
  ServedResource, ApiResource, ApiResourceList, mark, status_map, served_of, from_discovery,
}

-- The list has an entry for the status subresource of `name`.
abbrev pub has_status : List ApiResource → String → Bool
has_status resources name = any (λ (r : ApiResource). r.name == (name <> "/status")) resources

-- What one resource of a group version is served as.
abbrev pub served : GroupVersion → List ApiResource → ApiResource → ServedResource
served gv resources r = record {
  gvr = record { group = gv.group; version = gv.version; resource = r.name };
  kind = record { group = gv.group; version = gv.version; kind = r.kind };
  namespaced = r.namespaced;
  singular = r.singular_name;
  status = has_status resources r.name;
  clusters = [];
}

abbrev pub is_subresource : ApiResource → Bool
is_subresource r = contains_text r.name "/"

-- One list of the discovery: its resources with no slash in their names, in their order.
abbrev pub discovered : GroupVersion → List ApiResource → List ServedResource
discovered gv resources = map (served gv resources) (select (λ r. not (is_subresource r)) resources)

parent_iff :
    (s p : String)
    → (cut_suffix s "/status" ≡ some p → (s == (p <> "/status")) ≡ true)
      × ((s == (p <> "/status")) ≡ true → cut_suffix s "/status" ≡ some p)
parent_iff s p = (
  λ h. (eq_iff s (p <> "/status")).1 (append-cut_suffix s "/status" p h),
  λ h.
      ap (λ t. cut_suffix t "/status") ((eq_iff s (p <> "/status")).0 h)
      ∙ cut_suffix-append p "/status",
)

mark_lem :
    (r : ApiResource) (status : String → Bool) (name : String)
    → mark r status name ≡ (r.name == (name <> "/status") || status name)
unfolding mark
mark_lem r status name = elim (Option-cases (cut_suffix r.name "/status")) [
  | inl e ↦ ground (arith, e, (parent_iff r.name name).1)
  | inr (p, e) ↦ ground (
    arith,
    e,
    eq_iff p name,
    eq_iff r.name (name <> "/status"),
    (parent_iff r.name name).1,
    append-cut_suffix r.name "/status" p e,
  )
]

status_map_lem :
    (resources : List ApiResource) (status : String → Bool) (name : String)
    → status_map resources status name ≡ (has_status resources name || status name)
unfolding status_map
status_map_lem [] status name = refl
status_map_lem (r ∷ rest) status name =
    ground (arith, status_map_lem rest (mark r status) name, mark_lem r status name)

served_of-eq :
    (gv : GroupVersion) (all resources : List ApiResource)
    → served_of gv (status_map all (λ name. false)) resources
      ≡ map (served gv all) (select (λ r. not (is_subresource r)) resources)
unfolding served_of
served_of-eq gv all [] = refl
served_of-eq gv all (r ∷ rest) =
    ground (arith, served_of-eq gv all rest, status_map_lem all (λ name. false) r.name)

module _ (K : Kube) where
  open K use {Err, wrapf, parse_group_version}

  -- The whole discovery: the lists one after the other, and an error at the first group version
  -- that does not parse.
  abbrev pub discovered_all : List ApiResourceList → Result Err (List ServedResource)
  discovered_all [] = ok []
  discovered_all (list ∷ rest) = do
    gv ←
        map_err (wrapf "parsing discovered groupVersion %q: %w" (list.group_version ∷ []))
          (parse_group_version list.group_version)
    others ← discovered_all rest
    ok (discovered gv list.api_resources ++ others)

  -- `FromDiscovery` returns, list by list and in order, the resources whose names hold no slash,
  -- with `Status` set exactly where the same list names the resource's status subresource; it
  -- fails at the first group version that does not parse, with that error wrapped.
  pub from_discovery-discovered :
      (lists : List ApiResourceList) → from_discovery K lists ≡ discovered_all lists
  unfolding from_discovery
  from_discovery-discovered [] = refl
  from_discovery-discovered (list ∷ rest) =
      elim (Result-cases (parse_group_version list.group_version)) [
        | inl (gv, e) ↦ rw (
          e,
          from_discovery-discovered rest,
          served_of-eq gv list.api_resources list.api_resources,
        )
        | inr (x, e) ↦ rw e
      ]
