-- ===== src/Storage/Watch/Stream/Flow.antt =====
-- What the client of a watch receives: the initial events, and then every member's events.
use mathlib.Core.List.{map-append, append-nil}
use aggregated_apiserver_ope.Prelude.{
  true, map, not, select, select-append, String, ◌≡◌, ◌≤◌, refl, sym, ap, subst, ◌∙◌, inl, inr,
  Bool, false, Option, none, some, List, [], ◌∷◌, ◌++◌, length, Bool-cases, arith, ◌==◌, string_eq,
  eq_iff, if◌then◌else◌,
}
use aggregated_apiserver_ope.Kube.{Kube}
use aggregated_apiserver_ope.Storage.Watch.{EventType, bookmark, Event, Opened}
use aggregated_apiserver_ope.Storage.Watch.Stream.{
  stamp_object, relayed, Place, unstarted, reading, returned, sending, Forward, Move,
  done_while_reading, remote_closed, skip, take, deliver, done_while_sending, Received, Stream,
  from_cluster, set_forward, Step, send_initial, leave_initial, start_forwards, forward,
  deferred_cancel, all_returned, client_stop, context_done, see_context, options_done, stop_remote,
  close, Reach, begin, later,
}
use aggregated_apiserver_ope.Storage.Watch.Stream.Turns.{Turn, Reach-Turn}

abbrev is_from : String → Option String → Bool
is_from c none = false
is_from c (some d) = c == d

pending_none : {A : Type 0} (d lost : List A) → lost ≡ [] → d ++ lost ≡ (d ++ []) ++ []
pending_none d lost p = rw p (sym (append-nil (d ++ [])))

abbrev pub is_bookmark : EventType → Bool
is_bookmark bookmark = true
is_bookmark _ = false

module _ {K : Kube} where
  abbrev pub stamped_event : String → Event K → Event K
  stamped_event c e = record e { object = stamp_object K c e.object }

  -- The events of a member that are no bookmarks, stamped, in their order.
  abbrev pub relayed_all : String → List (Event K) → List (Event K)
  relayed_all c es = map (stamped_event c) (select (λ e. not (is_bookmark e.type_name)) es)

  -- What the client received from a cluster's `forward`.
  abbrev pub received_from : String → List (Received K) → List (Event K)
  received_from c [] = []
  received_from c (x ∷ xs) =
      let rest = received_from c xs in if is_from c x.source then x.event ∷ rest else rest

  relayed_all-append :
      (c : String) (xs ys : List (Event K))
      → relayed_all c (xs ++ ys) ≡ relayed_all c xs ++ relayed_all c ys
  relayed_all-append c xs ys =
      rw (select-append (λ e. not (is_bookmark e.type_name)) xs ys) (map-append _ _ _)

  nothing_kept : (c : String) (e : Event K) → relayed K c e ≡ none → relayed_all c (e ∷ []) ≡ []
  unfolding relayed
  nothing_kept c e q = ground (arith, q)

  one_kept :
      (c : String) (e out : Event K) → relayed K c e ≡ some out → relayed_all c (e ∷ []) ≡ out ∷ []
  unfolding relayed
  one_kept c e out q = ground (arith, q)

  relayed_all-none :
      (c : String) (xs : List (Event K)) (e : Event K)
      → relayed K c e ≡ none
      → relayed_all c (xs ++ (e ∷ [])) ≡ relayed_all c xs
  relayed_all-none c xs e q =
      relayed_all-append c xs (e ∷ [])
      ∙ ap (λ l. relayed_all c xs ++ l) (nothing_kept c e q)
      ∙ append-nil _

  relayed_all-some :
      (c : String) (xs : List (Event K)) (e out : Event K)
      → relayed K c e ≡ some out
      → relayed_all c (xs ++ (e ∷ [])) ≡ relayed_all c xs ++ (out ∷ [])
  relayed_all-some c xs e out q =
      relayed_all-append c xs (e ∷ []) ∙ ap (λ l. relayed_all c xs ++ l) (one_kept c e out q)

  received_from-append :
      (c : String) (xs ys : List (Received K))
      → received_from c (xs ++ ys) ≡ received_from c xs ++ received_from c ys
  received_from-append c [] ys = refl
  received_from-append c (x ∷ xs) ys = ground (arith, received_from-append c xs ys)

  received_from-cluster :
      (c d : String) (es : List (Event K))
      → received_from c (from_cluster K d es) ≡ (if c == d then es else [])
  received_from-cluster c d [] = ground arith
  received_from-cluster c d (e ∷ es) = ground (arith, received_from-cluster c d es)

  -- What a `forward` has read and not sent.
  abbrev pub Pending : Place K → List (Event K) → Type 0
  Pending unstarted lost = lost ≡ []
  Pending reading lost = lost ≡ []
  Pending (sending out) lost = lost ≡ out ∷ []
  Pending _ lost = length lost ≤ 1

  -- Of what a `forward` has read, the client has received all in its order, but for one event at
  -- most that is pending, or was lost when the watch ended.
  abbrev pub Flow : String → Forward K → List (Event K) → Type 0
  Flow c f delivered =
      (lost : List (Event K)) × (relayed_all c f.seen ≡ delivered ++ lost) × Pending f.place lost

  Move-Flow :
      {c : String} {b : Bool} {f g : Forward K} {sent : List (Event K)}
      → Move K c b f g sent
      → (delivered : List (Event K)) → Flow c f delivered
      → Flow c g (delivered ++ sent)
  Move-Flow (done_while_reading p b) d (lost, e, h) =
      let none_lost = subst (λ x. Pending x lost) p h in
      ([], e ∙ pending_none d lost none_lost, omega arith)
  Move-Flow (remote_closed p) d (lost, e, h) =
      let none_lost = subst (λ x. Pending x lost) p h in
      ([], e ∙ pending_none d lost none_lost, omega arith)
  Move-Flow {c} {f = f} (skip event p q) d (lost, e, h) =
      let none_lost = subst (λ x. Pending x lost) p h in
      (
        [],
        relayed_all-none c f.seen event q ∙ e ∙ pending_none d lost none_lost,
        subst (λ x. Pending x []) (sym p) refl,
      )
  Move-Flow {c} {f = f} (take event out p q) d (lost, e, h) =
      let none_lost = subst (λ x. Pending x lost) p h in
      (
        out ∷ [],
        relayed_all-some c f.seen event out q ∙ ap (λ l. l ++ (out ∷ [])) (e ∙ rw none_lost refl),
        refl,
      )
  Move-Flow (deliver out p) d (lost, e, h) =
      let one_lost = subst (λ x. Pending x lost) p h in
      ([], e ∙ rw one_lost (sym (append-nil (d ++ (out ∷ [])))), refl)
  Move-Flow (done_while_sending out p b) d (lost, e, h) =
      let one_lost = subst (λ x. Pending x lost) p h in
      (out ∷ [], e ∙ rw (one_lost, append-nil) refl, omega arith)

  -- One `forward` changes place, and nothing of the others is received.
  Flow-set_forward :
      (forwards : String → Forward K) (received : List (Received K)) (d : String) (f : Forward K)
      (sent : List (Event K))
      → ((c : String) → Flow c (forwards c) (received_from c received))
      → Flow d f (received_from d received ++ sent)
      → (c : String)
      → Flow c (set_forward K d f forwards c) (received_from c (received ++ from_cluster K d sent))
  Flow-set_forward forwards received d f sent h g c =
      let split = received_from-append c received (from_cluster K d sent) in
      let own = received_from-cluster c d sent in
      elim (Bool-cases (c == d)) [
        | inl same ↦
            let p = (eq_iff c d).0 same in
            rw (split, own, same)
              (subst (λ x. Flow x f (received_from x received ++ sent)) (sym p) g)
        | inr differ ↦ rw (split, own, differ, append-nil) (h c)
      ]

  module _ {W : Type 0} (opened : Opened K W) where
    abbrev pub Flows : Stream K W → Type 0
    Flows s = (c : String) → Flow c (s.forwards c) (received_from c s.received)

    -- What a `forward` that has not read an event can have sent.
    unread :
        (c : String) (d : List (Event K))
        → Flow c (record { place = unstarted; seen = [] }) d
        → d ≡ []
    unread c [] h = refl
    unread c (e ∷ es) (lost, p, h) = absurd (ground (arith, p))

    Step-Flows :
        {s t : Stream K W} → Step K opened s t → Turn opened s.fan_in s.forwards → Flows s → Flows t
    Step-Flows {s} (send_initial e rest p) turn h = λ c.
        let added = received_from-append c s.received (record { source = none; event = e } ∷ []) in
        subst (Flow c (s.forwards c)) (sym (added ∙ append-nil _)) (h c)
    Step-Flows (leave_initial e rest p b) turn h = h
    Step-Flows {s} (start_forwards p) turn h =
        let pristine = subst (λ x. Turn opened x s.forwards) p turn in
        λ c.
          let nothing =
            unread c (received_from c s.received)
              (subst (λ f. Flow c f (received_from c s.received)) (pristine c) (h c)) in
          ([], sym (append-nil _ ∙ nothing), refl)
    Step-Flows {s} (forward d w {f} {sent} m mv) turn h =
        Flow-set_forward s.forwards s.received d f sent h (Move-Flow mv _ (h d))
    Step-Flows {s} (deferred_cancel d w m p) turn h =
        let (lost, e, pending) = h d in
        let returned_now : Forward K = record (s.forwards d) { place = returned } in
        let kept : Flow d returned_now (received_from d s.received ++ []) = (
          lost,
          e ∙ ap (λ l. l ++ lost) (sym (append-nil _)),
          subst (λ x. Pending x lost) p pending,
        ) in
        λ c.
          subst (Flow c (set_forward K d returned_now s.forwards c))
            (received_from-append c s.received [] ∙ append-nil _)
            (Flow-set_forward s.forwards s.received d returned_now [] h kept c)
    Step-Flows (all_returned p q) turn h = h
    Step-Flows client_stop turn h = h
    Step-Flows context_done turn h = h
    Step-Flows (see_context order o p b) turn h = h
    Step-Flows (options_done order o p) turn h = h
    Step-Flows (stop_remote c w rest p) turn h = h
    Step-Flows (close p q) turn h = h

    pub Reach-Flows : {s : Stream K W} → Reach K opened s → Flows s
    Reach-Flows begin = λ c. ([], refl, refl)
    Reach-Flows (later r st) = Step-Flows st (Reach-Turn opened r) (Reach-Flows r)
