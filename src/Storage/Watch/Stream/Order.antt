-- ===== src/Storage/Watch/Stream/Order.antt =====
-- The stream of a watch as the client sees it.
use mathlib.Core.List.{Memᴰ, append-nil, append_assoc, map-append}
use aggregated_apiserver_ope.Prelude.{
  String, ◌≡◌, ◌⊎◌, refl, sym, ap, subst, ◌∙◌, inl, inr, none, some, List, [], ◌∷◌, ◌++◌, map, All,
  All-append,
}
use aggregated_apiserver_ope.Kube.{Kube}
use aggregated_apiserver_ope.Storage.Watch.{Event, Opened}
use aggregated_apiserver_ope.Storage.Watch.Stream.{
  FanIn, initial, waiting, finished, Received, Stream, from_cluster, Step, send_initial,
  leave_initial, start_forwards, forward, deferred_cancel, all_returned, client_stop, context_done,
  see_context, options_done, stop_remote, close, Reach, begin, later,
}
use aggregated_apiserver_ope.Storage.Watch.Stream.Turns.{Turn, forward_waits, Reach-Turn}
use aggregated_apiserver_ope.Storage.Watch.Stream.Flow.{Flow, received_from, Reach-Flows}

module _ {K : Kube} where
  abbrev pub from_initial : List (Event K) → List (Received K)
  from_initial events = map (λ e. record { source = none; event = e }) events

  -- What is left of the initial events, and whether a cluster's event can have been received.
  abbrev pub Rest : FanIn K → List (Event K) → List (Received K) → Type 0
  Rest (initial events) rest relays = (rest ≡ events) × (relays ≡ [])
  Rest waiting rest relays = rest ≡ []
  Rest finished rest relays = (rest ≡ []) ⊎ (relays ≡ [])

  module _ {W : Type 0} (opened : Opened K W) where
    abbrev pub IsRelayed : Received K → Type 0
    IsRelayed x = (c : String) × (w : W) × Memᴰ (c, w) opened.remotes × (x.source ≡ some c)

    abbrev Ordered : FanIn K → List (Received K) → Type 0
    Ordered fan_in received =
        (sent rest : List (Event K)) × (relays : List (Received K)) × (opened.initial_events
          ≡ sent ++ rest)
        × (received ≡ from_initial sent ++ relays)
        × All IsRelayed relays
        × Rest fan_in rest relays

    from_cluster-IsRelayed :
        (c : String) (w : W)
        → Memᴰ (c, w) opened.remotes
        → (es : List (Event K)) → All IsRelayed (from_cluster K c es)
    from_cluster-IsRelayed c w m [] = tt
    from_cluster-IsRelayed c w m (e ∷ es) = ((c, w, m, refl), from_cluster-IsRelayed c w m es)

    Step-Ordered :
        {s t : Stream K W}
        → Step K opened s t
        → Turn opened s.fan_in s.forwards
        → Ordered s.fan_in s.received
        → Ordered t.fan_in t.received
    Step-Ordered {s} (send_initial e es p) turn (sent, rest, relays, i, r, h, left) =
        let (same, no_relays) = subst (λ x. Rest x rest relays) p left in
        (
          sent ++ (e ∷ []),
          es,
          [],
          i ∙ rw same (sym (append_assoc sent (e ∷ []) es)),
          rw r (rw (no_relays, append-nil) (sym (append-nil _ ∙ map-append _ sent (e ∷ [])))),
          tt,
          (refl, refl),
        )
    Step-Ordered {s} (leave_initial e es p b) turn (sent, rest, relays, i, r, h, left) =
        let (same, no_relays) = subst (λ x. Rest x rest relays) p left in
        (sent, rest, relays, i, r, h, inr no_relays)
    Step-Ordered {s} (start_forwards p) turn (sent, rest, relays, i, r, h, left) =
        let (same, no_relays) = subst (λ x. Rest x rest relays) p left in
        (sent, rest, relays, i, r, h, same)
    Step-Ordered {s} (forward c w {sent = out} m mv) turn (sent, rest, relays, i, r, h, left) =
        let waits = forward_waits opened s c w turn m mv in
        (
          sent,
          rest,
          relays ++ from_cluster K c out,
          i,
          ap (λ l. l ++ from_cluster K c out) r ∙ append_assoc (from_initial sent) relays _,
          All-append IsRelayed relays _ h (from_cluster-IsRelayed c w m out),
          subst (λ x. Rest x rest (relays ++ from_cluster K c out)) (sym waits)
              (subst (λ x. Rest x rest relays) waits left),
        )
    Step-Ordered (deferred_cancel d w m p) turn h = h
    Step-Ordered (all_returned p q) turn (sent, rest, relays, i, r, h, left) =
        (sent, rest, relays, i, r, h, inl (subst (λ x. Rest x rest relays) p left))
    Step-Ordered client_stop turn h = h
    Step-Ordered context_done turn h = h
    Step-Ordered (see_context order o p b) turn h = h
    Step-Ordered (options_done order o p) turn h = h
    Step-Ordered (stop_remote c w rest p) turn h = h
    Step-Ordered (close p q) turn h = h

    Reach-Ordered : {s : Stream K W} → Reach K opened s → Ordered s.fan_in s.received
    Reach-Ordered begin = ([], opened.initial_events, [], refl, refl, tt, (refl, refl))
    Reach-Ordered (later r st) = Step-Ordered st (Reach-Turn opened r) (Reach-Ordered r)

    -- In whatever order the goroutines run, the client receives the initial events in their order
    -- and then, once it has all of them, events of the opened clusters. Those that it received from
    -- one cluster are, in their order, the events that the member's watch sent, without its
    -- bookmarks and stamped with the cluster, up to one event that is read and not yet sent, or that
    -- was given up when the watch ended; while a forward is at its first select, none is.
    pub stream_lem :
        {s : Stream K W}
        → Reach K opened s
        → (sent rest : List (Event K)) × (relays : List (Received K)) × (opened.initial_events
            ≡ sent ++ rest)
          × (s.received ≡ from_initial sent ++ relays)
          × All IsRelayed relays
          × ((rest ≡ []) ⊎ (relays ≡ []))
          × ((c : String) → Flow c (s.forwards c) (received_from c s.received))
    stream_lem {s} r =
        let (sent, rest, relays, i, q, h, left) = Reach-Ordered r in
        (
          sent,
          rest,
          relays,
          i,
          q,
          h,
          rest_or_relays s.fan_in rest relays left,
          Reach-Flows opened r,
        )
      where
        rest_or_relays :
            (fan_in : FanIn K) (rest : List (Event K)) (relays : List (Received K))
            → Rest fan_in rest relays
            → (rest ≡ []) ⊎ (relays ≡ [])
        rest_or_relays (initial es) rest relays h = inr h.1
        rest_or_relays waiting rest relays h = inl h
        rest_or_relays finished rest relays h = h
