-- ===== src/Tests/Interleaved.antt =====
-- A request that comes while `SetCluster` replaces the handler.
use aggregated_apiserver_ope.Prelude.{◌≡◌, refl, List, [], ◌∷◌, length, list_beq, update, ok}
use aggregated_apiserver_ope.Prelude.Sort.{sort, insert}
use aggregated_apiserver_ope.Prelude.Text.{less, cut, cut_suffix}
use aggregated_apiserver_ope.Meta.{gvr_beq, gvk_beq}
use aggregated_apiserver_ope.Discovery.{
  served_beq, from_discovery, filter, matches, selector_matches, served_of, status_map, mark, union,
  merge_clusters, merge_resources, merge, sort_clusters,
}
use aggregated_apiserver_ope.Server.{new, resolve}
use aggregated_apiserver_ope.Server.Consistent.{Reachable}
use aggregated_apiserver_ope.Server.Writes.{
  Write, apply, apply_all, serve_http, Operation, writes, rebuild_writes, replace_writes,
  swap_writes,
}
use aggregated_apiserver_ope.Server.Live.{IsLive}
use aggregated_apiserver_ope.Server.Interleaved.{
  System, Run, beginning, turning, locking, writing, serve_http-IsLive,
}
use aggregated_apiserver_ope.Install.{
  clients_of, install_resource, group_versions, install_group_version, install_groups,
  install_resources, new_generic_server,
}
use aggregated_apiserver_ope.Storage as storage
use aggregated_apiserver_ope.Tests.Sample.{sample}
use aggregated_apiserver_ope.Tests.Server.{api, options, core, everything}

-- The operation that holds the mutex makes its next write.
abbrev advance_by : List (Write sample) → System sample api → System sample api
advance_by [] x = x
advance_by (w ∷ rest) x = record { server = apply sample w x.server; pending = rest }

abbrev advance : System sample api → System sample api
advance x = advance_by x.pending x

Run-advance_by :
    (ws : List (Write sample)) (x : System sample api)
    → x.pending ≡ ws
    → Run sample api x
    → Run sample api (advance_by ws x)
Run-advance_by [] x e run = run
Run-advance_by (w ∷ rest) x e run = turning run (writing w rest e)

Run-advance : (x : System sample api) → Run sample api x → Run sample api (advance x)
Run-advance x = Run-advance_by x.pending x refl

abbrev idle : System sample api
idle = record { server = new sample options; pending = [] }

abbrev adding : Operation sample api
adding = Operation.setting "a" "client" "discovery" everything (ok (core ∷ []))

abbrev held : System sample api
held = record idle { pending = writes sample api adding idle.server }

held_writes : length held.pending ≡ 5
unfolding writes rebuild_writes replace_writes swap_writes resolve from_discovery filter matches
    selector_matches served_of status_map mark cut_suffix list_beq served_beq gvr_beq gvk_beq cut
    union merge_clusters merge_resources merge sort_clusters sort insert less new update
    new_generic_server install_resources group_versions install_resource clients_of
    storage.new_storage storage.validate install_groups install_group_version
held_writes = refl

-- Registered, with a context, and with the new handler stored.
abbrev swapping : System sample api
swapping = advance (advance (advance held))

serve_http-IsLive_example :
    IsLive sample api (serve_http sample swapping.server) swapping.server.cancelled
    × Reachable sample api (apply_all sample swapping.pending swapping.server)
    × (swapping.pending ≡ [] → Reachable sample api swapping.server)
serve_http-IsLive_example = serve_http-IsLive sample api (
    Run-advance (advance (advance held)) (
      Run-advance (advance held)
        (Run-advance held (turning (beginning options) (locking adding refl)))))
