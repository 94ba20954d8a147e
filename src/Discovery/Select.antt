-- ===== src/Discovery/Select.antt =====
-- `Filter` keeps what some selector of the AggregatedAPI asks for, and `matches` decides that.
use aggregated_apiserver_ope.Prelude.{
  ◌≡◌, ◌↔◌, ◌⊎◌, refl, true, List, [], ◌∷◌, inl, inr, Bool-cases, Any, contains, arith, eq_iff,
  string_eq,
}
use aggregated_apiserver_ope.Meta.{Gvr, ApiSelector}
use aggregated_apiserver_ope.Discovery.{ServedResource, selector_matches, matches, filter}

-- A selector asks for a resource: its group is the resource's or "*", its versions are empty or
-- name the resource's, and its resources are empty or name the resource's or "*".
pub record Selects (selector : ApiSelector) (gvr : Gvr) : Type 0 where
  pub group : (selector.group ≡ "*") ⊎ (selector.group ≡ gvr.group)
  pub version : (selector.versions ≡ []) ⊎ (contains selector.versions gvr.version ≡ true)
  pub resource :
      (selector.resources ≡ [])
      ⊎ ((contains selector.resources "*" ≡ true)
          ⊎ (contains selector.resources gvr.resource ≡ true))

selector_matches-Selects :
    (gvr : Gvr) (selector : ApiSelector)
    → (selector_matches gvr selector ≡ true)
    → Selects selector gvr
unfolding selector_matches
selector_matches-Selects gvr selector h = record {
  group = ground (arith, eq_iff selector.group "*", eq_iff selector.group gvr.group);
  version = ground arith;
  resource = ground arith;
}

Selects-selector_matches :
    (gvr : Gvr) (selector : ApiSelector)
    → Selects selector gvr
    → (selector_matches gvr selector ≡ true)
unfolding selector_matches
Selects-selector_matches gvr selector h =
    ground (arith, eq_iff selector.group "*", eq_iff selector.group gvr.group)

matches_iff :
    (gvr : Gvr) (selectors : List ApiSelector)
    → (matches gvr selectors ≡ true) ↔ Any (λ s. Selects s gvr) selectors
unfolding matches
matches_iff gvr [] = (λ h. cc, λ h. absurd h)
matches_iff gvr (s ∷ rest) = elim (Bool-cases (selector_matches gvr s)) [
  | inl e ↦ rw e (λ h. inl (selector_matches-Selects gvr s e), λ h. refl)
  | inr e ↦ rw e (
    λ h. inr ((matches_iff gvr rest).0 h),
    elim [ inl h ↦ cc (e, Selects-selector_matches gvr s h) | inr h ↦ (matches_iff gvr rest).1 h ],
  )
]

-- A resource is in the result of `Filter` exactly if it is in the input and some selector asks for
-- its group, version and resource, "*" and empty lists being wildcards.
pub filter_iff :
    (resources : List ServedResource) (selectors : List ApiSelector) (r : ServedResource)
    → Any (λ x. x ≡ r) (filter resources selectors)
      ↔ (Any (λ x. x ≡ r) resources × Any (λ s. Selects s r.gvr) selectors)
unfolding filter
filter_iff [] selectors r = (λ h. absurd h, λ h. h.0)
filter_iff (x ∷ rest) selectors r = elim (Bool-cases (matches x.gvr selectors)) [
  | inl e ↦ rw e (
    elim [
      | inl p ↦ (inl p, (matches_iff r.gvr selectors).0 (rw (← p) e))
      | inr h ↦ let (m, s) = (filter_iff rest selectors r).0 h in (inr m, s)
    ],
    λ h. elim h.0 [ inl p ↦ inl p | inr m ↦ inr ((filter_iff rest selectors r).1 (m, h.1)) ],
  )
  | inr e ↦ rw e (
    λ h. let (m, s) = (filter_iff rest selectors r).0 h in (inr m, s),
    λ h. elim h.0 [
      | inl p ↦ cc (e, p, (matches_iff r.gvr selectors).1 h.1)
      | inr m ↦ (filter_iff rest selectors r).1 (m, h.1)
    ],
  )
]
