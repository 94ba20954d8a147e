-- ===== src/Discovery/Order.antt =====
-- `Union` and the order in which Go ranges over the clusters.
use mathlib.Core.List.{Permᴰ}
use aggregated_apiserver_ope.Prelude.{
  String, ◌≡◌, ◌≢◌, ◌∙◌, inl, inr, refl, sym, subst, false, none, some, List, [], ◌∷◌, All,
  Bool-cases, arith, ◌==◌, ok,
}
use aggregated_apiserver_ope.Prelude.Text.{less_antisym}
use aggregated_apiserver_ope.Prelude.Sort.{IsSorted}
use aggregated_apiserver_ope.Meta.{Gvr, gvr_eq, gvr_beq_iff}
use aggregated_apiserver_ope.Kube.{Kube}
use aggregated_apiserver_ope.Discovery.{ServedResource, gvr_less, union}
use aggregated_apiserver_ope.Discovery.Merge.{serving}
use aggregated_apiserver_ope.Discovery.Reordered.{
  OneSingular, serving-perm, serving-gvr, AllAgree-perm,
}
use aggregated_apiserver_ope.Discovery.Union.{find, NodupGvrs, union_ok_iff, union_lem}

All-find :
    (P : ServedResource → Type 0) (rs : List ServedResource) (g : Gvr) (r : ServedResource)
    → All P rs
    → find g rs ≡ some r
    → P r
All-find P [] g r h f = absurd (ground (arith, f))
All-find P (x ∷ rest) g r h f = elim (Bool-cases (x.gvr == g)) [
  | inl e ↦ let same : x ≡ r = ground (arith, e, f) in subst P same h.0
  | inr e ↦ All-find P rest g r h.1 (ground (arith, e, f))
]

module _ (K : Kube) where
  -- No two of the resources have one text.
  abbrev pub DistinctTexts : List ServedResource → Type 0
  DistinctTexts [] = Unit
  DistinctTexts (r ∷ rest) =
      All (λ (s : ServedResource). K.gvr_string r.gvr ≢ K.gvr_string s.gvr) rest
      × DistinctTexts rest

  find_head : (r : ServedResource) (rest : List ServedResource) → find r.gvr (r ∷ rest) ≡ some r
  find_head r rest = rw ((gvr_beq_iff r.gvr r.gvr).1 refl) refl

  same_head :
      (r x : ServedResource) (rs xs : List ServedResource)
      → IsSorted (gvr_less K) (r ∷ rs)
      → IsSorted (gvr_less K) (x ∷ xs)
      → DistinctTexts (r ∷ rs)
      → ((g : Gvr) → find g (r ∷ rs) ≡ find g (x ∷ xs))
      → r ≡ x
  same_head r x rs xs sorted ordered distinct f = elim (Bool-cases (x.gvr == r.gvr)) [
    | inl e ↦
        let found : some r ≡ some x = sym (find_head r rs) ∙ f r.gvr ∙ rw e refl in
        ground (arith, found)
    | inr e ↦
        let back : (r.gvr == x.gvr) ≡ false =
          ground (arith, e, gvr_beq_iff x.gvr r.gvr, gvr_beq_iff r.gvr x.gvr) in
        let later : find r.gvr xs ≡ some r = ground (arith, e, f r.gvr, find_head r rs) in
        let among : find x.gvr rs ≡ some x = ground (arith, back, f x.gvr, find_head x xs) in
        let at_least = All-find (λ y. gvr_less K y x ≡ false) xs r.gvr r ordered.0 later in
        let at_most = All-find (λ y. gvr_less K y r ≡ false) rs x.gvr x sorted.0 among in
        let other =
          All-find (λ s. K.gvr_string r.gvr ≢ K.gvr_string s.gvr) rs x.gvr x distinct.0 among in
        absurd (other (less_antisym (K.gvr_string r.gvr) (K.gvr_string x.gvr) at_least at_most))
  ]

  sorted_unique :
      (rs xs : List ServedResource)
      → IsSorted (gvr_less K) rs
      → IsSorted (gvr_less K) xs
      → NodupGvrs rs
      → NodupGvrs xs
      → DistinctTexts rs
      → ((g : Gvr) → find g rs ≡ find g xs)
      → rs ≡ xs
  sorted_unique [] [] s t n m d f = refl
  sorted_unique [] (x ∷ xs) s t n m d f = absurd (ground (arith, f x.gvr, find_head x xs))
  sorted_unique (r ∷ rs) [] s t n m d f = absurd (ground (arith, f r.gvr, find_head r rs))
  sorted_unique (r ∷ rs) (x ∷ xs) s t n m d f =
      let same = same_head r x rs xs s t d f in
      let alone : find r.gvr xs ≡ none =
        subst (λ (y : ServedResource). find y.gvr xs ≡ none) (sym same) m.0 in
      let rest = sorted_unique rs xs s.1 t.1 n.1 m.1 d.1 (λ g. elim (Bool-cases (r.gvr == g)) [
        | inl e ↦ subst (λ h. find h rs ≡ find h xs) ((gvr_beq_iff r.gvr g).0 e) (n.0 ∙ sym alone)
        | inr e ↦
            let other : (x.gvr == g) ≡ false =
              subst (λ (y : ServedResource). (y.gvr == g) ≡ false) same e in
            ground (arith, e, other, f g)
      ]) in
      rw (same, rest) refl

  -- If `Union` succeeds, all clusters that serve a resource give it one singular name, and no two
  -- listed resources have one text, then `Union` gives the same list in whatever order Go ranges
  -- over the clusters.
  pub union_of_perm :
      (bc reordered : List (String × List ServedResource)) (rs : List ServedResource)
      → union K bc ≡ ok rs
      → Permᴰ bc reordered
      → ((g : Gvr) → OneSingular (serving g bc))
      → DistinctTexts rs
      → union K reordered ≡ ok rs
  union_of_perm bc reordered rs h p singular distinct =
      let agree = (union_ok_iff K bc).0 (rs, h) in
      let both = λ (g : Gvr).
        AllAgree-perm g (serving g bc) (serving g reordered) (serving-perm g p) (serving-gvr g bc)
          (agree g) (singular g) in
      let (xs, e) = (union_ok_iff K reordered).1 (λ g. (both g).0) in
      let (found, nodup, sorted) = union_lem K bc h in
      let (found_too, nodup_too, sorted_too) = union_lem K reordered e in
      let same =
        sorted_unique rs xs sorted sorted_too nodup nodup_too distinct
          (λ g. found g ∙ (both g).1 ∙ sym (found_too g)) in
      subst (λ l. union K reordered ≡ ok l) (sym same) e
