-- ===== src/Storage/Locate/Several.antt =====
-- `locate` without a given cluster, where several clusters have the object.
use aggregated_apiserver_ope.Prelude.{
  String, ◌≡◌, ◌≢◌, ◌⊎◌, ◌∙◌, refl, ap, subst, none, some, List, [], ◌∷◌, inl, inr, Bool-cases,
  Result-cases, All, Any, NodupKeys, lookup, arith, Result, ok, err, ◌==◌, string_eq, eq_iff,
}
use aggregated_apiserver_ope.Kube.{Kube}
use aggregated_apiserver_ope.Kube.Laws.{GroupLaws}
use aggregated_apiserver_ope.Members.{Members, History, failed}
use aggregated_apiserver_ope.Storage.{Options, group_resource}
use aggregated_apiserver_ope.Storage.Locate.{only_hit, locate}
use aggregated_apiserver_ope.Storage.Locate.Owner.{
  Steady, Lacks, OnlyIn, errors_of, found, locate_joined,
}

module _ (K : Kube) (answer : K.Client → Result K.Err K.Obj) where
  abbrev pub Has : K.Client → Type 0
  Has cl = (obj : K.Obj) × (answer cl ≡ ok obj)

  lack_elsewhere :
      (c : String) (cs : List (String × K.Client))
      → lookup c cs ≡ none
      → All (λ (d, cl). (d ≡ c) ⊎ Lacks K answer cl) cs
      → All (λ (b, x). Lacks K answer x) cs
  lack_elsewhere c [] n h = tt
  lack_elsewhere c ((d, cl) ∷ rest) n (inl e, h) = absurd (ground (arith, n, e, eq_iff d c))
  lack_elsewhere c ((d, cl) ∷ rest) n (inr l, h) = (l, lack_elsewhere c rest (ground (arith, n)) h)

  -- The cluster has the object, and every other one lacks it.
  pub only_in :
      (c : String) (cl : K.Client) (obj : K.Obj) (cs : List (String × K.Client))
      → NodupKeys cs
      → lookup c cs ≡ some cl
      → answer cl ≡ ok obj
      → All (λ (d, x). (d ≡ c) ⊎ Lacks K answer x) cs
      → OnlyIn K answer c obj cs
  only_in c cl obj [] u n a h = absurd (ground (arith, n))
  only_in c cl obj ((d, x) ∷ rest) u n a h = elim (Bool-cases (d == c)) [
    | inl e ↦
        let same : d ≡ c = (eq_iff d c).0 e in
        inl (
          same,
          ground (arith, n, e, a),
          lack_elsewhere c rest (subst (λ k. lookup k rest ≡ none) same u.0) h.1,
        )
    | inr e ↦ elim h.0 [
      | inl same ↦ absurd (ground (arith, e, same, eq_iff d c))
      | inr l ↦ inr (l, only_in c cl obj rest u.1 (ground (arith, n, e)) a h.1)
    ]
  ]

  -- The clusters answer, if only that they lack the object.
  abbrev pub Answers : K.Client → Type 0
  Answers cl = Has cl ⊎ Lacks K answer cl

  no_errors :
      (name : String) (cs : List (String × K.Client))
      → All (λ (d, cl). Answers cl) cs
      → All (λ e. e ≡ none) (errors_of K answer name cs)
  no_errors name [] h = tt
  no_errors name ((d, cl) ∷ rest) (inl (obj, e), h) = (ground (arith, e), no_errors name rest h)
  no_errors name ((d, cl) ∷ rest) (inr (x, e, n), h) = (ground (arith, e, n), no_errors name rest h)

  found_one_more :
      (d : String) (cl : K.Client) (rest : List (String × K.Client))
      → Has cl
      → (obj : K.Obj) × (found K answer ((d, cl) ∷ rest) ≡ (d, obj) ∷ found K answer rest)
  found_one_more d cl rest (obj, e) = (obj, ground (arith, e))

  -- At least one hit, and at least two.
  abbrev Hit : List (String × K.Client) → Type 0
  Hit cs = (x : String × K.Obj) × (xs : List (String × K.Obj)) × (found K answer cs ≡ x ∷ xs)

  abbrev TwoHits : List (String × K.Client) → Type 0
  TwoHits cs =
      (x y : String × K.Obj) × (xs : List (String × K.Obj)) × (found K answer cs ≡ x ∷ y ∷ xs)

  Any-Hit : (cs : List (String × K.Client)) → Any (λ (d, cl). Has cl) cs → Hit cs
  Any-Hit [] h = absurd h
  Any-Hit ((d, cl) ∷ rest) (inl h) =
      let (obj, e) = found_one_more d cl rest h in ((d, obj), found K answer rest, e)
  Any-Hit ((d, cl) ∷ rest) (inr h) =
      let (x, xs, f) = Any-Hit rest h in
      elim (Result-cases (answer cl)) [
        | inl (obj, e) ↦ ((d, obj), x ∷ xs, ground (arith, e, f))
        | inr (y, e) ↦ (x, xs, ground (arith, e, f))
      ]

  lookup-Hit :
      (c : String) (cl : K.Client) (cs : List (String × K.Client))
      → lookup c cs ≡ some cl
      → Has cl
      → Any (λ (d, x). Has x) cs
  lookup-Hit c cl [] n h = absurd (ground (arith, n))
  lookup-Hit c cl ((d, x) ∷ rest) n h = elim (Bool-cases (d == c)) [
    | inl e ↦ inl (h.0, ground (arith, n, e, h.1))
    | inr e ↦ inr (lookup-Hit c cl rest (ground (arith, n, e)) h)
  ]

  head-TwoHits :
      (d : String) (cl : K.Client) (rest : List (String × K.Client))
      → Has cl
      → Any (λ (b, x). Has x) rest
      → TwoHits ((d, cl) ∷ rest)
  head-TwoHits d cl rest h a =
      let (x, xs, f) = Any-Hit rest a in
      let (obj, e) = found_one_more d cl rest h in ((d, obj), x, xs, e ∙ ap (λ ys. (d, obj) ∷ ys) f)

  Any-TwoHits :
      (c : String) (cl : K.Client) (cs : List (String × K.Client))
      → lookup c cs ≡ some cl
      → Has cl
      → Any (λ (d, x). (d ≢ c) × Has x) cs
      → TwoHits cs
  Any-TwoHits c cl [] n h a = absurd a
  Any-TwoHits c cl ((d, x) ∷ rest) n h (inl (other, k)) =
      head-TwoHits d x rest k (lookup-Hit c cl rest (ground (arith, n, other, eq_iff d c)) h)
  Any-TwoHits c cl ((d, x) ∷ rest) n h (inr a) = elim (Bool-cases (d == c)) [
    | inl e ↦ head-TwoHits d x rest (h.0, ground (arith, n, e, h.1)) (any_other rest a)
    | inr e ↦
        let (y, z, ys, f) = Any-TwoHits c cl rest (ground (arith, n, e)) h a in
        elim (Result-cases (answer x)) [
          | inl (obj, p) ↦ ((d, obj), y, z ∷ ys, ground (arith, p, f))
          | inr (w, p) ↦ (y, z, ys, ground (arith, p, f))
        ]
  ]
    where
      any_other :
          (cs : List (String × K.Client))
          → Any (λ (b, w). (b ≢ c) × Has w) cs
          → Any (λ (b, w). Has w) cs
      any_other [] b = b
      any_other (w ∷ ws) (inl b) = inl (b.1)
      any_other (w ∷ ws) (inr b) = inr (any_other ws b)

module _ (K : Kube) (G : GroupLaws K) (members : Members K) (s : Options K)
    (namespace name : String) (options : K.GetOptions) (answer : K.Client → Result K.Err K.Obj)
    (t : History K) (steady : Steady K members s namespace name options answer t) where
  only_hit-conflict :
      (x y : String × K.Obj) (xs : List (String × K.Obj)) (u : History K)
      → (e : K.Err) × ((only_hit K members s name (x ∷ y ∷ xs) u).0
          ≡ err (failed (K.new_conflict (group_resource K s) name e)))
  unfolding only_hit
  only_hit-conflict x y xs u = (_, refl)

  -- Every cluster answers, and two of them have the object: a conflict.
  pub locate-conflict :
      (c : String) (cl : K.Client)
      → All (λ (d, x). Answers K answer x) s.clusters
      → lookup c s.clusters ≡ some cl
      → Has K answer cl
      → Any (λ (d, x). (d ≢ c) × Has K answer x) s.clusters
      → (e : K.Err) × ((locate K members s namespace name (some options) "" t).0
          ≡ err (failed (K.new_conflict (group_resource K s) name e)))
  locate-conflict c cl answers n h a =
      let (x, y, xs, f) = Any-TwoHits K answer c cl s.clusters n h a in
      let quiet = G.wait_none _ (no_errors K answer name s.clusters answers) in
      let (u, joined) = locate_joined K G members s namespace name options answer t steady quiet in
      let (e, conflict) = only_hit-conflict x y xs u in
      (e, joined ∙ ap (λ hits. (only_hit K members s name hits u).0) f ∙ conflict)
