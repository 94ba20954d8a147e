-- ===== src/Prelude/Sort.antt =====
-- `sort.Strings` and `sort.Slice`, as insertion sort by the comparison that the source passes.
-- Elements that compare neither way are kept in their order here; the source's sort is free there.
use mathlib.Core.Path.{◌≡◌, refl, ◌∙◌}
use mathlib.Core.Logic.{inl, inr}
use mathlib.Core.Bool.{Bool, true, false}
use mathlib.Core.List.{List, [], ◌∷◌, Perm, Permᴰ}
use mathlib.Core.List.Perm
use native.Mathlib.Omega.{arith}
use aggregated_apiserver_ope.Prelude.Tests.{if◌then◌else◌, Bool-cases}
use aggregated_apiserver_ope.Prelude.Lists.{All, All-imp}

-- What a comparison has to satisfy for the sorted list to be in order.
pub record IsOrder {ℓ} {A : Type ℓ} (less : A → A → Bool) : Type ℓ where
  pub asym : (a b : A) → less a b ≡ true → less b a ≡ false
  pub ge_trans : (a b c : A) → less b a ≡ false → less c b ≡ false → less c a ≡ false

module _ {ℓ} {A : Type ℓ} (less : A → A → Bool) where
  unfoldable pub insert : A → List A → List A
  insert x [] = x ∷ []
  insert x (y ∷ ys) = let rest = insert x ys in if less y x then y ∷ rest else x ∷ y ∷ ys

  unfoldable pub sort : List A → List A
  unfolding insert
  sort [] = []
  sort (x ∷ xs) = insert x (sort xs)

  -- No element is less than one before it.
  abbrev pub IsSorted : List A → Type 0
  IsSorted [] = Unit
  IsSorted (x ∷ xs) = All (λ y. less y x ≡ false) xs × IsSorted xs

  insert-perm : (x : A) (xs : List A) → Perm (insert x xs) (x ∷ xs)
  unfolding insert
  insert-perm x [] = Perm.refl (x ∷ [])
  insert-perm x (y ∷ ys) = elim (Bool-cases (less y x)) [
    | inl e ↦ rw e (Perm.trans (Perm.cons y (insert-perm x ys)) (Perm.swap x y ys))
    | inr e ↦ rw e (Perm.refl (x ∷ y ∷ ys))
  ]

  -- Sorting loses nothing and adds nothing.
  pub sort-perm : (xs : List A) → Perm (sort xs) xs
  unfolding sort
  sort-perm [] = Perm.refl []
  sort-perm (x ∷ xs) = Perm.trans (insert-perm x (sort xs)) (Perm.cons x (sort-perm xs))

  All-insert : (P : A → Type 0) (x : A) (xs : List A) → P x → All P xs → All P (insert x xs)
  unfolding insert
  All-insert P x [] hx h = (hx, tt)
  All-insert P x (y ∷ ys) hx h = ground (arith, All-insert P x ys hx h.1)

  module _ (o : IsOrder less) where
    insert-IsSorted : (x : A) (xs : List A) → IsSorted xs → IsSorted (insert x xs)
    unfolding insert
    insert-IsSorted x [] h = (tt, tt)
    insert-IsSorted x (y ∷ ys) h = elim (Bool-cases (less y x)) [
      | inl e ↦
          rw e
            (All-insert (λ z. less z y ≡ false) x ys (o.asym y x e) h.0, insert-IsSorted x ys h.1)
      | inr e ↦ rw e (
        (
          e,
          All-imp (λ z. less z y ≡ false) (λ z. less z x ≡ false) ys (λ z k. o.ge_trans x y z e k)
              h.0,
        ),
        h,
      )
    ]

    pub sort-IsSorted : (xs : List A) → IsSorted (sort xs)
    unfolding sort
    sort-IsSorted [] = tt
    sort-IsSorted (x ∷ xs) = insert-IsSorted x (sort xs) (sort-IsSorted xs)

    module _ (antisym : (a b : A) → less a b ≡ false → less b a ≡ false → a ≡ b) where
      insert_comm : (x y : A) (xs : List A) → insert x (insert y xs) ≡ insert y (insert x xs)
      unfolding insert
      insert_comm x y [] = ground (arith, antisym x y, o.asym x y, o.asym y x)
      insert_comm x y (z ∷ zs) = ground (
        arith,
        insert_comm x y zs,
        antisym x y,
        o.asym x y,
        o.asym y x,
        o.ge_trans x y z,
        o.ge_trans y x z,
        o.asym z x,
        o.asym z y,
      )

      -- The sorted list does not depend on the order of the input.
      pub sort_of_perm : {xs ys : List A} → Permᴰ xs ys → sort xs ≡ sort ys
      unfolding sort
      sort_of_perm Permᴰ.nil = refl
      sort_of_perm (Permᴰ.cons {b = b} e p) = cc (e, sort_of_perm p)
      sort_of_perm (Permᴰ.swap {a = a} {b = b} {l = l} e f) = cc (e, f, insert_comm a b (sort l))
      sort_of_perm (Permᴰ.trans p q) = sort_of_perm p ∙ sort_of_perm q
