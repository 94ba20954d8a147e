-- ===== src/Discovery/Reordered.antt =====
-- What the clusters serve, in another order of the clusters.
use mathlib.Core.List.{Permᴰ, append_assoc}
use mathlib.Core.List.Permᴰ
use aggregated_apiserver_ope.Prelude.{
  String, ◌≡◌, ◌∙◌, inl, inr, refl, sym, subst, Bool, some, List, [], ◌∷◌, ◌++◌, map, length-perm,
  All, All-append, any, Bool-cases, arith, ◌==◌,
}
use aggregated_apiserver_ope.Prelude.Text.{less, less_asym, less_ge_trans, less_antisym}
use aggregated_apiserver_ope.Prelude.Sort.{sort, IsOrder, sort_of_perm}
use aggregated_apiserver_ope.Meta.{Gvr, gvr_eq, gvr_beq_iff}
use aggregated_apiserver_ope.Discovery.{ServedResource}
use aggregated_apiserver_ope.Discovery.Merge.{of_gvr, serving, Agrees}
use aggregated_apiserver_ope.Discovery.Union.{merged_resource, AllAgree}

less-IsOrder : IsOrder less
less-IsOrder = record { asym = less_asym; ge_trans = less_ge_trans }

All-perm : {A : Type 0} (P : A → Type 0) {xs ys : List A} → Permᴰ xs ys → All P xs → All P ys
All-perm P Permᴰ.nil h = tt
All-perm P (Permᴰ.cons e p) h = (subst P e h.0, All-perm P p h.1)
All-perm P (Permᴰ.swap e f) h = (subst P f h.1.0, (subst P e h.0, h.1.1))
All-perm P (Permᴰ.trans p q) h = All-perm P q (All-perm P p h)

any-perm : {A : Type 0} (f : A → Bool) {xs ys : List A} → Permᴰ xs ys → any f xs ≡ any f ys
any-perm f Permᴰ.nil = refl
any-perm f (Permᴰ.cons e p) = rw (e, any-perm f p) refl
any-perm f (Permᴰ.swap {a} {b} {l = l} e g) = rw (e, g) (ground arith)
any-perm f (Permᴰ.trans p q) = any-perm f p ∙ any-perm f q

perm_swap : {A : Type 0} (xs ys zs : List A) → Permᴰ (xs ++ (ys ++ zs)) (ys ++ (xs ++ zs))
perm_swap xs ys zs =
    rw (← append_assoc xs ys zs, ← append_assoc ys xs zs)
      (Permᴰ.append_right zs (Permᴰ.append_comm xs ys))

pub serving-perm :
    (g : Gvr) {xs ys : List (String × List ServedResource)}
    → Permᴰ xs ys
    → Permᴰ (serving g xs) (serving g ys)
serving-perm g Permᴰ.nil = Permᴰ.nil
serving-perm g (Permᴰ.cons {a = a} {b = b} {l₁ = xs} {l₂ = ys} e p) =
    subst (λ x. Permᴰ (of_gvr g a.0 a.1 ++ serving g xs) (of_gvr g x.0 x.1 ++ serving g ys)) e
      (Permᴰ.append_left (of_gvr g a.0 a.1) (serving-perm g p))
serving-perm g (Permᴰ.swap {a = a} {b = b} {l = l} e f) =
    rw (← e, ← f) (perm_swap (of_gvr g a.0 a.1) (of_gvr g b.0 b.1) (serving g l))
serving-perm g (Permᴰ.trans p q) = Permᴰ.trans (serving-perm g p) (serving-perm g q)

-- Two entries for one group-version-resource that differ in clusters and status at most.
abbrev Same : ServedResource → String × ServedResource → Type 0
Same base (c, r) =
    (r.gvr ≡ base.gvr)
    × (r.kind ≡ base.kind)
    × (r.namespaced ≡ base.namespaced)
    × (r.singular ≡ base.singular)

merged_resource-Same :
    (base : ServedResource) (x : String × ServedResource) (xs : List (String × ServedResource))
    → Same base x
    → merged_resource (x ∷ xs)
      ≡ some (record base {
        status = any (λ (d, s). s.status) (x ∷ xs);
        clusters = sort less (map (λ (d, s). d) (x ∷ xs));
      })
merged_resource-Same base (c, r) xs h = ground (arith, h)

merged_resource-perm :
    (base : ServedResource) (xs ys : List (String × ServedResource))
    → Permᴰ xs ys
    → All (Same base) xs
    → merged_resource xs ≡ merged_resource ys
merged_resource-perm base [] [] p h = refl
merged_resource-perm base [] (y ∷ ys) p h = absurd (ground (arith, length-perm p))
merged_resource-perm base (x ∷ xs) [] p h = absurd (ground (arith, length-perm p))
merged_resource-perm base (x ∷ xs) (y ∷ ys) p h =
    let sorted = sort_of_perm less less-IsOrder less_antisym (Permᴰ.map (λ (d, s). d) p) in
    let with_status = any-perm (λ (d, s). s.status) p in
    merged_resource-Same base x xs h.0
    ∙ rw (sorted, with_status) refl
    ∙ sym (merged_resource-Same base y ys (All-perm (Same base) p h).0)

of_gvr-gvr :
    (g : Gvr) (c : String) (rs : List ServedResource) → All (λ (d, r). r.gvr ≡ g) (of_gvr g c rs)
of_gvr-gvr g c [] = tt
of_gvr-gvr g c (r ∷ rest) = elim (Bool-cases (r.gvr == g)) [
  | inl e ↦ rw e ((gvr_beq_iff r.gvr g).0 e, of_gvr-gvr g c rest)
  | inr e ↦ rw e (of_gvr-gvr g c rest)
]

pub serving-gvr :
    (g : Gvr) (bc : List (String × List ServedResource)) → All (λ (d, r). r.gvr ≡ g) (serving g bc)
serving-gvr g [] = tt
serving-gvr g ((c, rs) ∷ rest) =
    All-append (λ (d, r). r.gvr ≡ g) (of_gvr g c rs) (serving g rest) (of_gvr-gvr g c rs)
      (serving-gvr g rest)

-- All clusters that serve a resource give it one singular name.
abbrev pub OneSingular : List (String × ServedResource) → Type 0
OneSingular [] = Unit
OneSingular ((c, r) ∷ xs) = All (λ (d, s). s.singular ≡ r.singular) xs

All-Same :
    (g : Gvr) (base : ServedResource) (xs : List (String × ServedResource))
    → base.gvr ≡ g
    → All (λ (d, r). r.gvr ≡ g) xs
    → All (λ (d, s). Agrees base s) xs
    → All (λ (d, s). s.singular ≡ base.singular) xs
    → All (Same base) xs
All-Same g base [] b h a s = tt
All-Same g base ((c, r) ∷ xs) b h a s =
    ((h.0 ∙ sym b, sym a.0.0, sym a.0.1, s.0), All-Same g base xs b h.1 a.1 s.1)

Same-Agrees :
    (base x : ServedResource) (xs : List (String × ServedResource)) (c : String)
    → Same base (c, x)
    → All (Same base) xs
    → All (λ (d, s). Agrees x s) xs
Same-Agrees base x [] c h k = tt
Same-Agrees base x ((d, s) ∷ xs) c h k =
    ((h.1 ∙ sym k.0.1, h.2 ∙ sym k.0.2), Same-Agrees base x xs c h k.1)

serving-Same :
    (g : Gvr) (c : String) (r : ServedResource) (xs : List (String × ServedResource))
    → All (λ (d, s). s.gvr ≡ g) ((c, r) ∷ xs)
    → AllAgree ((c, r) ∷ xs)
    → OneSingular ((c, r) ∷ xs)
    → All (Same r) ((c, r) ∷ xs)
serving-Same g c r xs h a s = ((refl, refl, refl, refl), All-Same g r xs h.0 h.1 a s)

pub AllAgree-perm :
    (g : Gvr) (xs ys : List (String × ServedResource))
    → Permᴰ xs ys
    → All (λ (d, s). s.gvr ≡ g) xs
    → AllAgree xs
    → OneSingular xs
    → AllAgree ys × (merged_resource xs ≡ merged_resource ys)
AllAgree-perm g [] [] p h a s = (tt, refl)
AllAgree-perm g [] (y ∷ ys) p h a s = absurd (ground (arith, length-perm p))
AllAgree-perm g (x ∷ xs) [] p h a s = absurd (ground (arith, length-perm p))
AllAgree-perm g ((c, r) ∷ xs) ((d, t) ∷ ys) p h a s =
    let same = serving-Same g c r xs h a s in
    let back = All-perm (Same r) p same in
    (Same-Agrees r t ys d back.0 back.1, merged_resource-perm r ((c, r) ∷ xs) ((d, t) ∷ ys) p same)
