-- ===== src/Install/Writer.antt =====
-- The names that resources write in the map `byGroupVersion` of `installResources`.
use mathlib.Core.Option
use aggregated_apiserver_ope.Prelude.{
  String, ◌<>◌, ◌≡◌, ◌≢◌, inl, inr, refl, ap, subst, ◌∙◌, Bool, true, false, ◌&&◌, Option, none,
  some, List, [], ◌∷◌, Bool-cases, nat_eq, ◌==◌, string_eq, eq_iff, arith, if◌then◌else◌,
}
use aggregated_apiserver_ope.Meta.{GroupVersion, Gvr, gv_eq, gv_beq, gvr_eq, gvr_beq, gvr_beq_iff}
use aggregated_apiserver_ope.Discovery.{ServedResource}
use aggregated_apiserver_ope.Discovery.Union.{find, NodupGvrs}

abbrev pub version_of : ServedResource → GroupVersion
version_of r = record { group = r.gvr.group; version = r.gvr.version }

-- The name that a resource writes, and whether it is the name of its status.
abbrev pub writes : ServedResource → GroupVersion → String → Option (ServedResource × Bool)
writes r gv name =
    if version_of r == gv
    then if r.status && ((r.gvr.resource <> "/status") == name)
      then some (r, true)
      else if r.gvr.resource == name
      then some (r, false)
      else none
    else none

-- The last resource that writes a name.
abbrev pub writer : List ServedResource → GroupVersion → String → Option (ServedResource × Bool)
writer [] gv name = none
writer (r ∷ rest) gv name =
    let later = writer rest gv name in elim later [ some x ↦ some x | none ↦ writes r gv name ]

abbrev pub gvr_version : Gvr → GroupVersion
gvr_version g = record { group = g.group; version = g.version }

-- A resource that is not the status of another.
abbrev pub NamesNoStatus : Gvr → Type 0
NamesNoStatus g = (name : String) → (name <> "/status") ≢ g.resource

writes-eq :
    (r : ServedResource) (g : Gvr)
    → NamesNoStatus g
    → writes r (gvr_version g) g.resource ≡ (if r.gvr == g then some (r, false) else none)
unfolding gv_beq gvr_beq
writes-eq r g h = ground (arith, h r.gvr.resource, eq_iff (r.gvr.resource <> "/status") g.resource)

abbrev or_else :
    Option (ServedResource × Bool) → Option (ServedResource × Bool) → Option (ServedResource × Bool)
or_else first later = elim later [ some x ↦ some x | none ↦ first ]

or_else-none : (o : Option (ServedResource × Bool)) → or_else none o ≡ o
or_else-none none = refl
or_else-none (some x) = refl

-- Where no group-version-resource is listed twice, its storage is that of its entry.
pub writer-find :
    (g : Gvr) (rs : List ServedResource)
    → NamesNoStatus g
    → NodupGvrs rs
    → writer rs (gvr_version g) g.resource ≡ Option.map (λ r. (r, false)) (find g rs)
writer-find g [] h d = refl
writer-find g (r ∷ rest) h d = elim (Bool-cases (r.gvr == g)) [
  | inl e ↦
      let alone = subst (λ x. find x rest ≡ none) ((gvr_beq_iff r.gvr g).0 e) d.0 in
      ap (or_else (writes r (gvr_version g) g.resource))
        (writer-find g rest h d.1 ∙ ap (Option.map (λ x. (x, false))) alone)
      ∙ writes-eq r g h
      ∙ rw e refl
  | inr e ↦
      ap (λ o. or_else o (writer rest (gvr_version g) g.resource)) (writes-eq r g h ∙ rw e refl)
      ∙ or_else-none _
      ∙ writer-find g rest h d.1
      ∙ rw e refl
]
