-- ===== src/Storage/Locate/Owner.antt =====
-- `locate` without a given cluster finds the one cluster that has the object, or fails.
use aggregated_apiserver_ope.Prelude.{
  String, ◌≡◌, ◌↔◌, ◌⊎◌, ◌∙◌, refl, ap, true, false, Option, none, some, List, [], ◌∷◌, inl, inr,
  Option-cases, Result-cases, All, Any, arith, if◌then◌else◌, Result, ok, err,
}
use aggregated_apiserver_ope.Kube.{Kube}
use aggregated_apiserver_ope.Kube.Laws.{GroupLaws}
use aggregated_apiserver_ope.Members.{
  Members, History, Adds, no_more, one_more, IsGet, get_call, failed, go_all,
}
use aggregated_apiserver_ope.Storage.{Options, client, group_resource}
use aggregated_apiserver_ope.Storage.Locate.{probe, only_hit, locate}

-- From `t` on, while there are only reads, each cluster gives one answer for the name.
abbrev pub Steady :
    (K : Kube) (members : Members K) (s : Options K) (namespace name : String) (o : K.GetOptions)
    → (K.Client → Result K.Err K.Obj)
    → History K
    → Type 0
Steady K members s namespace name o answer t =
    (u : History K)
    → Adds IsGet t u
    → (cl : K.Client) → members.get u (client K s cl namespace) name o ≡ answer cl

module _ (K : Kube) (answer : K.Client → Result K.Err K.Obj) where
  -- The cluster has no such object.
  abbrev pub Lacks : K.Client → Type 0
  Lacks cl = (e : K.Err) × (answer cl ≡ err e) × (K.is_not_found e ≡ true)

  -- One cluster of the list has the object, and every other answers that it has none.
  abbrev pub OnlyIn : String → K.Obj → List (String × K.Client) → Type 0
  OnlyIn c obj [] = ⊥
  OnlyIn c obj ((d, cl) ∷ rest) =
      ((d ≡ c) × (answer cl ≡ ok obj) × All (λ (b, x). Lacks x) rest)
      ⊎ (Lacks cl × OnlyIn c obj rest)

  abbrev pub error_of : String → String × K.Client → Option K.Err
  error_of name (c, cl) = elim (answer cl) [
    | ok obj ↦ none
    | err e ↦
        if K.is_not_found e
        then none
        else some (K.wrapf "getting %s from cluster %q: %w" (name ∷ c ∷ []) e)
  ]

  abbrev pub errors_of : String → List (String × K.Client) → List (Option K.Err)
  errors_of name [] = []
  errors_of name (x ∷ rest) = error_of name x ∷ errors_of name rest

  abbrev pub found : List (String × K.Client) → List (String × K.Obj)
  found [] = []
  found ((c, cl) ∷ rest) =
      let others = found rest in elim (answer cl) [ ok obj ↦ (c, obj) ∷ others | err e ↦ others ]

  -- No error and no hit: every cluster lacks the object.
  found-eq-nil :
      (name : String) (cs : List (String × K.Client))
      → All (λ e. e ≡ none) (errors_of name cs)
      → found cs ≡ []
      → All (λ (b, x). Lacks x) cs
  found-eq-nil name [] h f = tt
  found-eq-nil name ((c, cl) ∷ rest) h f = elim (Result-cases (answer cl)) [
    | inl (obj, e) ↦ absurd (ground (arith, e, f))
    | inr (x, e) ↦
        ((x, e, ground (arith, e, h.0)), found-eq-nil name rest h.1 (ground (arith, e, f)))
  ]

  found-one :
      (name : String) (cs : List (String × K.Client)) (c : String) (obj : K.Obj)
      → All (λ e. e ≡ none) (errors_of name cs)
      → found cs ≡ (c, obj) ∷ []
      → OnlyIn c obj cs
  found-one name [] c obj h f = ground arith
  found-one name ((d, cl) ∷ rest) c obj h f = elim (Result-cases (answer cl)) [
    | inl (o, e) ↦ inl (
      ground (arith, e, f),
      ground (arith, e, f),
      found-eq-nil name rest h.1 (ground (arith, e, f)),
    )
    | inr (x, e) ↦
        inr ((x, e, ground (arith, e, h.0)), found-one name rest c obj h.1 (ground (arith, e, f)))
  ]

  lacking :
      (name : String) (cs : List (String × K.Client))
      → All (λ (b, x). Lacks x) cs
      → All (λ e. e ≡ none) (errors_of name cs) × (found cs ≡ [])
  lacking name [] h = (tt, refl)
  lacking name ((c, cl) ∷ rest) h =
      let (x, e, n) = h.0 in
      let (es, f) = lacking name rest h.1 in ((ground (arith, e, n), es), ground (arith, e, f))

  only :
      (name : String) (cs : List (String × K.Client)) (c : String) (obj : K.Obj)
      → OnlyIn c obj cs
      → All (λ e. e ≡ none) (errors_of name cs) × (found cs ≡ (c, obj) ∷ [])
  only name [] c obj h = absurd h
  only name ((d, cl) ∷ rest) c obj (inl (p, q, r)) =
      let (es, f) = lacking name rest r in ((ground (arith, q), es), ground (arith, p, q, f))
  only name ((d, cl) ∷ rest) c obj (inr (p, q)) =
      let (x, e, n) = p in
      let (es, f) = only name rest c obj q in ((ground (arith, e, n), es), ground (arith, e, f))

  broken_error :
      (name : String) (cs : List (String × K.Client))
      → Any (λ (c, cl). (x : K.Err) × (answer cl ≡ err x) × (K.is_not_found x ≡ false)) cs
      → All (λ e. e ≡ none) (errors_of name cs)
      → ⊥
  broken_error name [] b h = b
  broken_error name ((c, cl) ∷ rest) (inl (x, e, n)) h = ground (arith, e, n, h.0)
  broken_error name ((c, cl) ∷ rest) (inr b) h = broken_error name rest b h.1

module _ (K : Kube) (G : GroupLaws K) (members : Members K) (s : Options K)
    (namespace name : String) (options : K.GetOptions) (answer : K.Client → Result K.Err K.Obj)
    (t : History K) (steady : Steady K members s namespace name options answer t) where
  go_all-probe :
      (cs : List (String × K.Client)) (u : History K)
      → Adds IsGet t u
      → (go_all K (probe K members s namespace name options) cs u).0
        ≡ (errors_of K answer name cs, found K answer cs)
  unfolding go_all probe
  go_all-probe [] u h = refl
  go_all-probe ((c, cl) ∷ rest) u h =
      let called = get_call (client K s cl namespace) name options in
      ground (arith, steady u h cl, go_all-probe rest (called ∷ u) (one_more called tt h))

  only_hit-eq-ok :
      (hits : List (String × K.Obj)) (t : History K) (hit : String × K.Obj)
      → (only_hit K members s name hits t).0 ≡ ok hit
      → hits ≡ hit ∷ []
  unfolding only_hit
  only_hit-eq-ok [] t hit h = absurd (ground (arith, h))
  only_hit-eq-ok (x ∷ []) t hit h = ground (arith, h)
  only_hit-eq-ok (x ∷ y ∷ rest) t hit h = absurd (ground (arith, h))

  only_hit-one :
      (t : History K) (hit : String × K.Obj) → (only_hit K members s name (hit ∷ []) t).0 ≡ ok hit
  unfolding only_hit
  only_hit-one t hit = refl

  only_hit-nil :
      (t : History K)
      → (only_hit K members s name [] t).0
        ≡ err (failed (K.new_not_found (group_resource K s) name))
  unfolding only_hit
  only_hit-nil t = refl

  abbrev pub errors : List (Option K.Err)
  errors = errors_of K answer name s.clusters

  -- After the probes: an error among them, or the hits alone.
  locate_failed :
      (e : K.Err)
      → K.group_wait errors ≡ some e
      → (locate K members s namespace name (some options) "" t).0
        ≡ err (failed (K.new_internal_error e))
  unfolding locate
  locate_failed e w = ground (arith, go_all-probe s.clusters t no_more, w)

  pub locate_joined :
      K.group_wait errors ≡ none
      → (u : History K) × ((locate K members s namespace name (some options) "" t).0
          ≡ (only_hit K members s name (found K answer s.clusters) u).0)
  unfolding locate
  locate_joined w = (
    (go_all K (probe K members s namespace name options) s.clusters t).1,
    ground (arith, go_all-probe s.clusters t no_more, w),
  )

  -- `locate` with no cluster given finds the object `obj` in cluster `c` exactly if `c` has `obj`
  -- under the name and every other cluster answers that it has no such object.
  pub locate_iff :
      (c : String) (obj : K.Obj)
      → ((locate K members s namespace name (some options) "" t).0 ≡ ok (c, obj))
        ↔ OnlyIn K answer c obj s.clusters
  locate_iff c obj = elim (Option-cases (K.group_wait errors)) [
    | inl w ↦
        let (u, e) = locate_joined w in
        (
          λ h.
              found-one K answer name s.clusters c obj (G.wait_failed errors w)
                (only_hit-eq-ok (found K answer s.clusters) u (c, obj) (ground (arith, e, h))),
          λ h.
              e
              ∙ ap (λ hits. (only_hit K members s name hits u).0)
                  (only K answer name s.clusters c obj h).1
              ∙ only_hit-one u (c, obj),
        )
    | inr (x, w) ↦ (
      λ h. absurd (ground (arith, h, locate_failed x w)),
      λ h. absurd (ground (arith, w, G.wait_none errors (only K answer name s.clusters c obj h).0)),
    )
  ]

  -- `locate` fails closed: if some cluster answers with an error other than "not found", the result
  -- is an internal error, whatever the other clusters answer; and if all clusters lack the object,
  -- it is "not found".
  pub locate_fails :
      (Any (λ (c, cl). (x : K.Err) × (answer cl ≡ err x) × (K.is_not_found x ≡ false)) s.clusters
        → (x : K.Err) × ((locate K members s namespace name (some options) "" t).0
            ≡ err (failed (K.new_internal_error x))))
      × (All (λ (c, cl). Lacks K answer cl) s.clusters
          → (locate K members s namespace name (some options) "" t).0
            ≡ err (failed (K.new_not_found (group_resource K s) name)))
  locate_fails = (
    λ broken. elim (Option-cases (K.group_wait errors)) [
      | inl w ↦ absurd (broken_error K answer name s.clusters broken (G.wait_failed errors w))
      | inr (x, w) ↦ (x, locate_failed x w)
    ],
    λ lacks.
        let (es, f) = lacking K answer name s.clusters lacks in
        let (u, e) = locate_joined (G.wait_none errors es) in
        e ∙ ap (λ hits. (only_hit K members s name hits u).0) f ∙ only_hit-nil u,
  )
