-- ===== src/Prelude/Lists.antt =====
-- Lists: lengths over the native numbers, predicates by recursion, and association lists.
use Prim.Native.Nat.{ℕ, suc}
use mathlib.Core.Path.{◌≡◌, refl, ap, ◌∙◌}
use mathlib.Core.Logic.{◌⊎◌, ◌↔◌, inl, inr}
use mathlib.Core.Bool.{Bool, true, false, ◌||◌, ◌&&◌}
use mathlib.Core.Option.{Option, none, some}
use mathlib.Core.List.{List, [], ◌∷◌, ◌++◌, Permᴰ}
use native.Mathlib.Omega.{arith}
use aggregated_apiserver_ope.Prelude.Tests.{Eq, ◌==◌, if◌then◌else◌}

module _ {ℓ} {A : Type ℓ} where
  abbrev pub length : List A → ℕ
  length [] = 0
  length (x ∷ xs) = suc (length xs)

  -- A predicate at every place of a list; it computes to a tuple.
  abbrev pub All {κ} : (A → Type κ) → List A → Type κ
  All P [] = Unit
  All P (x ∷ xs) = P x × All P xs

  -- The place of an element, kept.
  abbrev pub Any : (A → Type 0) → List A → Type 0
  Any P [] = ⊥
  Any P (x ∷ xs) = P x ⊎ Any P xs

  abbrev pub any : (A → Bool) → List A → Bool
  any p [] = false
  any p (x ∷ xs) = p x || any p xs

  abbrev pub every : (A → Bool) → List A → Bool
  every p [] = true
  every p (x ∷ xs) = p x && every p xs

  -- The elements that pass a test, in their order.
  abbrev pub select : (A → Bool) → List A → List A
  select p [] = []
  select p (x ∷ xs) = let rest = select p xs in if p x then x ∷ rest else rest

  pub All-append {κ} : (P : A → Type κ) (xs ys : List A) → All P xs → All P ys → All P (xs ++ ys)
  All-append P [] ys hx hy = hy
  All-append P (x ∷ xs) ys hx hy = (hx.0, All-append P xs ys hx.1 hy)

  pub All-imp {κ ι} :
      (P : A → Type κ) (Q : A → Type ι) (xs : List A) → ((x : A) → P x → Q x) → All P xs → All Q xs
  All-imp P Q [] f h = tt
  All-imp P Q (x ∷ xs) f h = (f x h.0, All-imp P Q xs f h.1)

  pub Any-imp : (P Q : A → Type 0) (xs : List A) → ((x : A) → P x → Q x) → Any P xs → Any Q xs
  Any-imp P Q [] f h = h
  Any-imp P Q (x ∷ xs) f (inl h) = inl (f x h)
  Any-imp P Q (x ∷ xs) f (inr h) = inr (Any-imp P Q xs f h)

  -- Two predicates on the elements together give a third.
  pub All-both :
      (P Q R : A → Type 0) (xs : List A)
      → ((x : A) → P x → Q x → R x)
      → All P xs
      → All Q xs
      → All R xs
  All-both P Q R [] h p q = tt
  All-both P Q R (x ∷ xs) h p q = (h x p.0 q.0, All-both P Q R xs h p.1 q.1)

  pub Any-both :
      (P Q R : A → Type 0) (xs : List A)
      → ((x : A) → P x → Q x → R x)
      → All P xs
      → Any Q xs
      → Any R xs
  Any-both P Q R [] h p q = q
  Any-both P Q R (x ∷ xs) h p (inl q) = inl (h x p.0 q)
  Any-both P Q R (x ∷ xs) h p (inr q) = inr (Any-both P Q R xs h p.1 q)

  pub select-append :
      (p : A → Bool) (xs ys : List A) → select p (xs ++ ys) ≡ select p xs ++ select p ys
  select-append p [] ys = refl
  select-append p (x ∷ xs) ys = ground (arith, select-append p xs ys)

  pub any-append : (p : A → Bool) (xs ys : List A) → any p (xs ++ ys) ≡ (any p xs || any p ys)
  any-append p [] ys = refl
  any-append p (x ∷ xs) ys = ground (arith, any-append p xs ys)

module _ {ℓ} {A : Type ℓ} ⦃e : Eq A⦄ where
  -- `slices.Contains`
  abbrev pub contains : List A → A → Bool
  contains [] a = false
  contains (x ∷ xs) a = x == a || contains xs a

  unfoldable pub list_beq : List A → List A → Bool
  list_beq [] [] = true
  list_beq [] (y ∷ ys) = false
  list_beq (x ∷ xs) [] = false
  list_beq (x ∷ xs) (y ∷ ys) = x == y && list_beq xs ys

  pub list_beq_iff : (xs ys : List A) → (list_beq xs ys ≡ true) ↔ (xs ≡ ys)
  unfolding list_beq
  list_beq_iff [] [] = (λ h. refl, λ h. refl)
  list_beq_iff [] (y ∷ ys) = ground arith
  list_beq_iff (x ∷ xs) [] = ground arith
  list_beq_iff (x ∷ xs) (y ∷ ys) = ground (arith, e.beq_iff x y, list_beq_iff xs ys)

  instance abbrev pub list_eq : Eq (List A)
  list_eq = record { beq = list_beq; beq_iff = list_beq_iff }

-- Go maps that are ranged over: association lists, in the order in which the loop meets them.
module _ {ℓ κ} {K : Type ℓ} {V : Type κ} ⦃e : Eq K⦄ where
  abbrev pub lookup : K → List (K × V) → Option V
  lookup k [] = none
  lookup k ((j, v) ∷ m) = if j == k then some v else lookup k m

  -- `m[k] = v`: a write to a key that is there replaces its value.
  unfoldable pub update : K → V → List (K × V) → List (K × V)
  update k v [] = (k, v) ∷ []
  update k v ((j, w) ∷ m) = if j == k then (k, v) ∷ m else (j, w) ∷ update k v m

  pub lookup-update :
      (k j : K) (v : V) (m : List (K × V))
      → lookup j (update k v m) ≡ (if k == j then some v else lookup j m)
  unfolding update
  lookup-update k j v [] = refl
  lookup-update k j v ((i, w) ∷ m) =
      ground (arith, e.beq_iff k j, e.beq_iff i k, e.beq_iff i j, lookup-update k j v m)

  -- `delete(m, k)`
  abbrev pub remove : K → List (K × V) → List (K × V)
  remove k [] = []
  remove k ((j, v) ∷ m) = let rest = remove k m in if j == k then rest else (j, v) ∷ rest

  pub lookup-remove :
      (k j : K) (m : List (K × V)) → lookup j (remove k m) ≡ (if k == j then none else lookup j m)
  lookup-remove k j [] = ground arith
  lookup-remove k j ((i, w) ∷ m) =
      ground (arith, e.beq_iff k j, e.beq_iff i k, e.beq_iff i j, lookup-remove k j m)

  -- No key is listed twice.
  abbrev pub NodupKeys : List (K × V) → Type κ
  NodupKeys [] = Unit
  NodupKeys ((k, v) ∷ m) = (lookup k m ≡ none) × NodupKeys m

  pub update-NodupKeys : (k : K) (v : V) (m : List (K × V)) → NodupKeys m → NodupKeys (update k v m)
  unfolding update
  update-NodupKeys k v [] h = (refl, tt)
  update-NodupKeys k v ((j, w) ∷ m) h =
      ground
        (arith, e.beq_iff j k, e.beq_iff k j, lookup-update k j v m, update-NodupKeys k v m h.1)

  pub remove-NodupKeys : (k : K) (m : List (K × V)) → NodupKeys m → NodupKeys (remove k m)
  remove-NodupKeys k [] h = tt
  remove-NodupKeys k ((j, w) ∷ m) h = ground (arith, lookup-remove k j m, remove-NodupKeys k m h.1)

-- Lists that differ in their order only are of one length.
pub length-perm : {A : Type 0} {xs ys : List A} → Permᴰ xs ys → length xs ≡ length ys
length-perm Permᴰ.nil = refl
length-perm (Permᴰ.cons e p) = ap suc (length-perm p)
length-perm (Permᴰ.swap e f) = refl
length-perm (Permᴰ.trans p q) = length-perm p ∙ length-perm q
