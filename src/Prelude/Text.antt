-- ===== src/Prelude/Text.antt =====
-- The functions of Go's package `strings` that the program calls, and Go's order of strings.
use Prim.Native.Nat.{◌+◌}
use Prim.Native.Char.{Char, code}
use Prim.Native.String.{String, [], ◌∷◌, ◌++◌, count}
use Prim.Native.String.count
use Prim.Native.String.append
use mathlib.Core.Path.{◌≡◌, refl, ap, ◌∙◌}
use mathlib.Core.Bool.{Bool, true, false, ◌||◌, ◌&&◌}
use mathlib.Core.List.{List}
use mathlib.Core.Option
use mathlib.Core.Option.{Option, none, some}
use native.Mathlib.Omega.{arith}
use text.Mathlib.TextEquality.{eq_iff, Char-path}
use text.Mathlib.TextPositions.{eq_refl}
use text.Mathlib.TextLemmas.{length-append}
use mathlib.Core.Logic.{inl, inr}
use aggregated_apiserver_ope.Prelude.Tests.{
  ◌==◌, nat_eq, string_eq, ltb, if◌then◌else◌, Bool-cases, Option-cases,
}

-- `strings.HasPrefix`
abbrev pub has_prefix : String → String → Bool
has_prefix s [] = true
has_prefix [] (◌∷◌ d t) = false
has_prefix (◌∷◌ c s) (◌∷◌ d t) = code c == code d && has_prefix s t

-- `strings.Contains`
abbrev pub contains_text : String → String → Bool
contains_text [] t = has_prefix [] t
contains_text (◌∷◌ c s) t = has_prefix (c ∷ s) t || contains_text s t

-- `strings.CutSuffix`: what stands before the suffix, or `none` where the source has
-- `found == false`.
unfoldable pub cut_suffix : String → String → Option String
cut_suffix [] t = if [] == t then some [] else none
cut_suffix (◌∷◌ c s) t = if (c ∷ s) == t then some [] else Option.map (λ r. c ∷ r) (cut_suffix s t)

-- `strings.CutPrefix`
unfoldable pub cut_prefix : String → String → Option String
cut_prefix s [] = some s
cut_prefix [] (◌∷◌ d t) = none
cut_prefix (◌∷◌ c s) (◌∷◌ d t) = if code c == code d then cut_prefix s t else none

-- `strings.Cut`: what stands before and behind the first separator, or `none` where the source has
-- `found == false`.
unfoldable pub cut : String → String → Option (String × String)
unfolding cut_prefix
cut [] t = Option.map (λ r. ([], r)) (cut_prefix [] t)
cut (◌∷◌ c s) t = elim (cut_prefix (c ∷ s) t) [
  | some r ↦ some ([], r)
  | none ↦ Option.map (λ (a, r). (c ∷ a, r)) (cut s t)
]

-- `strings.Join`
unfoldable pub join : List String → String → String
join List.[] sep = []
join (List.◌∷◌ s List.[]) sep = s
join (List.◌∷◌ s (List.◌∷◌ t rest)) sep = s ++ (sep ++ join (List.◌∷◌ t rest) sep)

-- `a < b`, by the first character in which the texts differ.
unfoldable pub less : String → String → Bool
less [] [] = false
less [] (◌∷◌ d t) = true
less (◌∷◌ c s) [] = false
less (◌∷◌ c s) (◌∷◌ d t) = if code c == code d then less s t else ltb (code c) (code d)

pub less_asym : (s t : String) → less s t ≡ true → less t s ≡ false
unfolding less
less_asym [] [] h = refl
less_asym [] (◌∷◌ d t) h = refl
less_asym (◌∷◌ c s) [] h = ground arith
less_asym (◌∷◌ c s) (◌∷◌ d t) h = ground (arith, less_asym s t)

-- `≥` is transitive.
pub less_ge_trans : (a b c : String) → less b a ≡ false → less c b ≡ false → less c a ≡ false
unfolding less
less_ge_trans [] b [] h k = refl
less_ge_trans [] b (◌∷◌ z c) h k = refl
less_ge_trans (◌∷◌ x a) [] c h k = ground arith
less_ge_trans (◌∷◌ x a) (◌∷◌ y b) [] h k = ground arith
less_ge_trans (◌∷◌ x a) (◌∷◌ y b) (◌∷◌ z c) h k = ground (arith, less_ge_trans a b c)

pub less_antisym : (s t : String) → less s t ≡ false → less t s ≡ false → s ≡ t
unfolding less
less_antisym [] [] h k = refl
less_antisym [] (◌∷◌ d t) h k = ground arith
less_antisym (◌∷◌ c s) [] h k = ground arith
less_antisym (◌∷◌ c s) (◌∷◌ d t) h k = ground (arith, less_antisym s t, Char-path c d)

append_length : (p t : String) → count (p ++ t) ≡ count p + count t
append_length p t = length-append p t

not_own_suffix : (c : Char) (p t : String) → ((c ∷ (p ++ t)) == t) ≡ false
not_own_suffix c p t = elim (Bool-cases ((c ∷ (p ++ t)) == t)) [
  | inr e ↦ e
  | inl e ↦ absurd (
      omega
        (arith, ap count ((eq_iff (c ∷ (p ++ t)) t).0 e), count.cons c (p ++ t), append_length p t))
]

cut_suffix_self : (t : String) → cut_suffix t t ≡ some []
unfolding cut_suffix
cut_suffix_self [] = refl
cut_suffix_self (◌∷◌ c t) = rw (eq_refl (c ∷ t))

cut_suffix-cons :
    (c : Char) (p t : String)
    → cut_suffix (p ++ t) t ≡ some p
    → cut_suffix (c ∷ (p ++ t)) t ≡ some (c ∷ p)
unfolding cut_suffix
cut_suffix-cons c p t h = rw (not_own_suffix c p t) (rw h)

pub cut_suffix-append : (p t : String) → cut_suffix (p ++ t) t ≡ some p
cut_suffix-append [] t = rw (append.nil t) (cut_suffix_self t)
cut_suffix-append (◌∷◌ c p) t =
    rw (append.cons c p t) (cut_suffix-cons c p t (cut_suffix-append p t))

dot-append : (t : String) → ("." ++ t) ≡ ("." ∷ t)
dot-append t = append.cons "." [] t ∙ ap (λ r. "." ∷ r) (append.nil t)

-- A text that a separator of one character is not in is what `cut` finds before it.
pub cut-append :
    (p t : String) → contains_text p "." ≡ false → cut (p ++ ("." ++ t)) "." ≡ some (p, t)
unfolding cut
cut-append [] t h = rw (append.nil ("." ++ t), dot-append t) refl
cut-append (◌∷◌ c p) t h = rw (append.cons c p ("." ++ t)) (ground (arith, h, cut-append p t))

pub append-cut_suffix : (s t p : String) → cut_suffix s t ≡ some p → s ≡ p ++ t
unfolding cut_suffix
append-cut_suffix [] t p h = elim (Bool-cases ([] == t)) [
  | inl e ↦ cc (rw e at h, (eq_iff [] t).0 e, append.nil t)
  | inr e ↦ cc (rw e at h)
]
append-cut_suffix (◌∷◌ c s) t p h = elim (Bool-cases ((c ∷ s) == t)) [
  | inl e ↦ cc (rw e at h, (eq_iff (c ∷ s) t).0 e, append.nil t)
  | inr e ↦ elim (Option-cases (cut_suffix s t)) [
    | inl n ↦ cc (rw (e, n) at h)
    | inr (r, m) ↦ cc (rw (e, m) at h, append-cut_suffix s t r m, append.cons c r t)
  ]
]

pub cut_prefix-append : (p t : String) → cut_prefix (p ++ t) p ≡ some t
unfolding cut_prefix
cut_prefix-append [] t = rw (append.nil t) refl
cut_prefix-append (◌∷◌ c p) t = rw (append.cons c p t) (ground (arith, cut_prefix-append p t))
