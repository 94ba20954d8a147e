-- ===== src/Operator/Stable.antt =====
-- A second pass has nothing left to do.
use aggregated_apiserver_ope.Prelude.{
  String, ◌≡◌, ◌∙◌, refl, sym, ap, inl, inr, true, false, Option, none, some, string_eq,
  if◌then◌else◌, Bool-cases, Option-cases, arith,
}
use mathlib.Core.Path.{fun_ext}
use aggregated_apiserver_ope.Kube.{Kube}
use aggregated_apiserver_ope.Kube.Laws.{FinalizerLaws}
use aggregated_apiserver_ope.Operator.{
  Options, AggregatedApi, Deployment, Service, finalizer, child_name, deployment, service,
}
use aggregated_apiserver_ope.Operator.World.{
  World, stored, passed, passed_on, with_children, with_entry,
}

module _ (K : Kube) (o : Options) where
  pub passed_live :
      (x : World K) (a : AggregatedApi K)
      → x.object ≡ some a
      → a.deleting ≡ false
      → let (fs, added) = K.add_finalizer a.finalizers finalizer in
        passed K o x
        ≡ record (with_children K o a (some (deployment K o a)) (some (service K o a)) x) {
          object = some (if added then record a { finalizers = fs } else a);
        }
  passed_live x a here live = ap (λ y. passed_on K o y x) here ∙ rw live refl

  pub passed_deleting :
      (x : World K) (a : AggregatedApi K)
      → x.object ≡ some a
      → a.deleting ≡ true
      → K.contains_finalizer a.finalizers finalizer ≡ true
      → passed K o x ≡ record (with_children K o a none none x) {
        object = stored K (record a { finalizers = K.remove_finalizer a.finalizers finalizer });
      }
  passed_deleting x a here gone h = ap (λ y. passed_on K o y x) here ∙ rw (gone, h) refl

  pub passed_released :
      (x : World K) (a : AggregatedApi K)
      → x.object ≡ some a
      → a.deleting ≡ true
      → K.contains_finalizer a.finalizers finalizer ≡ false
      → passed K o x ≡ x
  passed_released x a here gone h = ap (λ y. passed_on K o y x) here ∙ rw (gone, h) refl

  pub passed_missing : (x : World K) → x.object ≡ none → passed K o x ≡ x
  passed_missing x e = ap (λ y. passed_on K o y x) e

  with_entry_twice :
      {A : Type 0} (name : String) (entry : Option A) (entries : String → Option A)
      → with_entry K name entry (with_entry K name entry entries) ≡ with_entry K name entry entries
  with_entry_twice name entry entries = fun_ext (λ n. ground arith)

  with_children_twice :
      (a : AggregatedApi K) (d : Option Deployment) (s : Option Service) (x : World K)
      → with_children K o a d s (with_children K o a d s x) ≡ with_children K o a d s x
  with_children_twice a d s x =
      rw
        (
          with_entry_twice (child_name K a) d x.deployments,
          with_entry_twice (child_name K a) s x.services,
        )
        refl

  -- The world in which `b` is served.
  abbrev served : AggregatedApi K → World K → World K
  served b x = record (with_children K o b (some (deployment K o b)) (some (service K o b)) x) {
    object = some b;
  }

  served_twice : (b : AggregatedApi K) (x : World K) → served b (served b x) ≡ served b x
  served_twice b x =
      ap {B = World K} (λ (y : World K). record y { object = some b })
        (with_children_twice b (some (deployment K o b)) (some (service K o b))
          (record x { object = some b }))

  module _ (laws : FinalizerLaws K) where
    -- A world that a pass left.
    passed-served :
        (b : AggregatedApi K) (x : World K)
        → b.deleting ≡ false
        → K.contains_finalizer b.finalizers finalizer ≡ true
        → passed K o (served b x) ≡ served b x
    passed-served b x live h =
        let kept : (K.add_finalizer b.finalizers finalizer).1 ≡ false =
          laws.added_iff b.finalizers finalizer ∙ rw h refl in
        passed_live (served b x) b refl live ∙ rw kept (served_twice b x)

    passed_twice_live :
        (x : World K) (a : AggregatedApi K)
        → x.object ≡ some a
        → a.deleting ≡ false
        → passed K o (passed K o x) ≡ passed K o x
    unfolding deployment service child_name
    passed_twice_live x a here live =
        let (fs, added) = K.add_finalizer a.finalizers finalizer in
        let a' : AggregatedApi K = record a { finalizers = fs } in
        elim (Bool-cases added) [
          | inl y ↦
              let first : passed K o x ≡ served a' x = passed_live x a here live ∙ rw y refl in
              ap (passed K o) first
              ∙ passed-served a' x live (laws.contains-add a.finalizers finalizer)
              ∙ sym first
          | inr n ↦
              let first : passed K o x ≡ served a x = passed_live x a here live ∙ rw n refl in
              let has : K.contains_finalizer a.finalizers finalizer ≡ true =
                ground (arith, laws.added_iff a.finalizers finalizer, n) in
              ap (passed K o) first ∙ passed-served a x live has ∙ sym first
        ]

    passed_twice_deleting :
        (x : World K) (a : AggregatedApi K)
        → x.object ≡ some a
        → a.deleting ≡ true
        → passed K o (passed K o x) ≡ passed K o x
    passed_twice_deleting x a here gone =
        let a' : AggregatedApi K = record a {
          finalizers = K.remove_finalizer a.finalizers finalizer;
        } in
        elim (Bool-cases (K.contains_finalizer a.finalizers finalizer)) [
          | inr h ↦ ap (passed K o) (passed_released x a here gone h)
          | inl h ↦
              let first = passed_deleting x a here gone h in
              let y : World K = record (with_children K o a none none x) { object = stored K a' } in
              elim (Option-cases (stored K a')) [
                | inl e ↦ ap (passed K o) first ∙ passed_missing y e ∙ sym first
                | inr (b, e) ↦
                    let same : a' ≡ b = ground (arith, e) in
                    let released =
                      passed_released y a' (e ∙ ap some (sym same)) gone
                        (laws.contains-remove a.finalizers finalizer) in
                    ap (passed K o) first ∙ released ∙ sym first
              ]
        ]

    pub passed_twice : (x : World K) → passed K o (passed K o x) ≡ passed K o x
    passed_twice x = elim (Option-cases x.object) [
      | inl e ↦ ap (passed K o) (passed_missing x e)
      | inr (a, e) ↦ elim (Bool-cases a.deleting) [
        | inl gone ↦ passed_twice_deleting x a e gone
        | inr live ↦ passed_twice_live x a e live
      ]
    ]
