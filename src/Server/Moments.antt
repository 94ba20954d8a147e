-- ===== src/Server/Moments.antt =====
-- The writes of an operation make up the operation.
use aggregated_apiserver_ope.Prelude.{
  ℕ, suc, ◌≡◌, inl, inr, refl, sym, subst, Option, none, some, List, [], ◌∷◌, ◌++◌, length, nat_eq,
  ◌==◌, update, remove, string_eq, Bool-cases, Option-cases, Result-cases, ◌∙◌,
}
use aggregated_apiserver_ope.Kube.{Kube}
use aggregated_apiserver_ope.Discovery.{ServedResource, union}
use aggregated_apiserver_ope.Server.{
  Member, Handler, not_found, generic, Server, swap_handler, by_cluster, same_resources,
  rebuild_with, rebuild, resolve, set_cluster, remove_cluster, resolve_all, resync,
}
use aggregated_apiserver_ope.Server.Rebuild.{clients}
use aggregated_apiserver_ope.Server.Consistent.{Step}
use aggregated_apiserver_ope.Server.Writes.{
  remembering, apply_all, swap_writes, replace_writes, rebuild_writes, Operation, writes,
}
use aggregated_apiserver_ope.Install.{Apiserver, new_generic_server}

module _ (K : Kube) (api : Apiserver K) where
  swap-apply_all :
      (handler : Handler K) (stop : Option ℕ) (resources : Option (List ServedResource))
      (s : Server K)
      → apply_all K (swap_writes K handler stop s ++ (remembering resources ∷ [])) s
        ≡ record (swap_handler K api handler stop s) { resources = resources }
  unfolding apply_all swap_writes swap_handler
  swap-apply_all handler stop resources s = elim (Option-cases s.stop_watches) [
    | inl e ↦ rw (swap_writes, swap_handler, e) refl
    | inr (old, e) ↦ rw (swap_writes, swap_handler, e) refl
  ]

  replace-apply_all :
      (resources : List ServedResource) (s : Server K)
      → apply_all K (replace_writes K api resources s) s ≡ (rebuild_with K api resources s).1
  unfolding apply_all replace_writes rebuild_with
  replace-apply_all resources s =
      elim (Result-cases (
        new_generic_server K api s.opts.hostname s.opts.port resources (clients K api s.members)
          s.contexts)) [
            | inr (e, f) ↦ rw (replace_writes, rebuild_with, f) refl
            | inl (inner, f) ↦
                rw (replace_writes, rebuild_with, f)
                  (swap-apply_all (generic inner) (some s.contexts) (some resources)
                    (record s { contexts = suc s.contexts }))
          ]

  rebuild-apply_all : (s : Server K) → apply_all K (rebuild_writes K api s) s ≡ (rebuild K api s).1
  unfolding apply_all rebuild_writes rebuild
  rebuild-apply_all s = elim (Result-cases (union K (by_cluster K api s.members))) [
    | inr (e, u) ↦ rw (rebuild_writes, rebuild, u) refl
    | inl (rs, u) ↦ elim (Bool-cases (same_resources K api rs s.resources)) [
      | inl y ↦ rw (rebuild_writes, rebuild, u, y) refl
      | inr n ↦ elim (Bool-cases (length rs == 0)) [
        | inl z ↦ rw (rebuild_writes, rebuild, u, n, z) (swap-apply_all not_found none none s)
        | inr z ↦ rw (rebuild_writes, rebuild, u, n, z) (replace-apply_all rs s)
      ]
    ]
  ]

  -- The writes of an operation, all of them, are the operation.
  pub writes-Step :
      (op : Operation K api) (s : Server K) → Step K api s (apply_all K (writes K api op s) s)
  unfolding apply_all writes set_cluster remove_cluster resync
  writes-Step (Operation.setting name client discovery selectors answer) s =
      let fresh : Member K = record {
        client = client;
        discovery = discovery;
        selectors = selectors;
        resources = [];
      } in
      let step = Step.setting name client discovery selectors answer in
      elim (Result-cases (resolve K answer fresh)) [
        | inr (x, e) ↦
            let same : s ≡ (set_cluster K api name client discovery selectors answer s).1 =
              rw (set_cluster, e) refl in
            rw (writes, e) (subst (Step K api s) (sym same) step)
        | inl ((changed, m), e) ↦
            let members = update name m s.members in
            let same = rebuild-apply_all (record s { members = members }) in
            let whole : (rebuild K api (record s { members = members })).1
                ≡ (set_cluster K api name client discovery selectors answer s).1 =
              rw (set_cluster, e) refl in
            rw (writes, e) (subst (Step K api s) (sym (same ∙ whole)) step)
      ]
  writes-Step (Operation.removing name) s =
      subst (Step K api s) (sym (rebuild-apply_all (record s { members = remove name s.members })))
        (Step.removing name)
  writes-Step (Operation.ticking answers) s =
      let (changed, members) = resolve_all K api answers s.members in
      let s' : Server K = record s { members = members } in
      elim (Bool-cases (resolve_all K api answers s.members).0) [
        | inl c ↦
            let whole : (rebuild K api s').1 ≡ resync K api answers s = rw (resync, c) refl in
            rw (writes, c)
              (subst (Step K api s) (sym (rebuild-apply_all s' ∙ whole)) (Step.ticking answers))
        | inr c ↦
            let whole : s' ≡ resync K api answers s = rw (resync, c) refl in
            rw (writes, c) (subst (Step K api s) (sym whole) (Step.ticking answers))
      ]
