-- ===== src/Meta.antt =====
-- The names of apimachinery that the program passes about: schema.GroupVersion and its kin are
-- plain structs, compared field by field. apis/v1alpha1/metadata.go and the APISelector of
-- apis/v1alpha1/aggregatedapi.go stand here too.
use aggregated_apiserver_ope.Prelude.{
  String, ◌≡◌, ◌↔◌, Bool, true, ◌&&◌, Option, none, some, List, arith, Eq, ◌==◌, string_eq, eq_iff,
  if◌then◌else◌,
}

pub record GroupVersion : Type 0 where
  pub group : String
  pub version : String

pub record Gvr : Type 0 where
  pub group : String
  pub version : String
  pub resource : String

pub record Gvk : Type 0 where
  pub group : String
  pub version : String
  pub kind : String

pub record GroupResource : Type 0 where
  pub group : String
  pub resource : String

unfoldable pub gvr_beq : Gvr → Gvr → Bool
gvr_beq a b = a.group == b.group && a.version == b.version && a.resource == b.resource

pub gvr_beq_iff : (a b : Gvr) → (gvr_beq a b ≡ true) ↔ (a ≡ b)
unfolding gvr_beq
gvr_beq_iff a b =
    ground (arith, eq_iff a.group b.group, eq_iff a.version b.version, eq_iff a.resource b.resource)

instance abbrev pub gvr_eq : Eq Gvr
gvr_eq = record { beq = gvr_beq; beq_iff = gvr_beq_iff }

unfoldable pub gvk_beq : Gvk → Gvk → Bool
gvk_beq a b = a.group == b.group && a.version == b.version && a.kind == b.kind

pub gvk_beq_iff : (a b : Gvk) → (gvk_beq a b ≡ true) ↔ (a ≡ b)
unfolding gvk_beq
gvk_beq_iff a b =
    ground (arith, eq_iff a.group b.group, eq_iff a.version b.version, eq_iff a.kind b.kind)

instance abbrev pub gvk_eq : Eq Gvk
gvk_eq = record { beq = gvk_beq; beq_iff = gvk_beq_iff }

unfoldable pub gv_beq : GroupVersion → GroupVersion → Bool
gv_beq a b = a.group == b.group && a.version == b.version

pub gv_beq_iff : (a b : GroupVersion) → (gv_beq a b ≡ true) ↔ (a ≡ b)
unfolding gv_beq
gv_beq_iff a b = ground (arith, eq_iff a.group b.group, eq_iff a.version b.version)

instance abbrev pub gv_eq : Eq GroupVersion
gv_eq = record { beq = gv_beq; beq_iff = gv_beq_iff }

-- A `map[string]string` is read by key only, so it is the function from keys to values.
abbrev pub StringMap : Type 0
StringMap = String → Option String

abbrev pub empty_map : StringMap
empty_map k = none

-- `m[key] = value`
abbrev pub put : String → String → StringMap → StringMap
put k v m j = if k == j then some v else m j

-- `delete(m, key)`; nothing happens to a nil map.
abbrev pub delete : String → Option StringMap → Option StringMap
delete k none = none
delete k (some m) = some (λ j. if k == j then none else m j)

-- `m[key]`, the empty text where the map is nil or has no such key.
abbrev pub index : String → Option StringMap → String
index k none = ""
index k (some m) = elim (m k) [ none ↦ "" | some v ↦ v ]

-- `m[key]` with its presence.
abbrev pub value : String → Option StringMap → Option String
value k none = none
value k (some m) = m k

abbrev pub cluster_annotation : String
cluster_annotation = "aggregation.ntnn.dev/cluster"

abbrev pub cluster_label : String
cluster_label = "aggregation.ntnn.dev/cluster"

pub record ApiSelector : Type 0 where
  pub group : String
  pub resources : List String
  pub versions : List String
