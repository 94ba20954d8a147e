-- ===== src/Storage/Watch/Stream/Cancels.antt =====
-- What cancels the context of a watch: the client's Stop, and every `forward` that returns.
use aggregated_apiserver_ope.Prelude.{
  String, ◌≡◌, refl, sym, subst, inl, inr, Bool, true, Bool-cases, List, ◌==◌, string_eq,
}
use aggregated_apiserver_ope.Kube.{Kube}
use aggregated_apiserver_ope.Storage.Watch.{Event, Opened}
use aggregated_apiserver_ope.Storage.Watch.Stream.{
  Place, Forward, returned, Move, done_while_reading, remote_closed, skip, take, deliver,
  done_while_sending, Stream, set_forward, Step, send_initial, leave_initial, start_forwards,
  forward, deferred_cancel, all_returned, client_stop, context_done, see_context, options_done,
  stop_remote, close, Reach, begin, later,
}

module _ {K : Kube} where
  abbrev pub IsReturned : Place K → Type 0
  IsReturned returned = Unit
  IsReturned _ = ⊥

  Move-under_way :
      {c : String} {b : Bool} {f g : Forward K} {sent : List (Event K)}
      → Move K c b f g sent
      → IsReturned g.place
      → ⊥
  Move-under_way (done_while_reading p b) h = h
  Move-under_way (remote_closed p) h = h
  Move-under_way (skip e p q) h = subst IsReturned p h
  Move-under_way (take e out p q) h = h
  Move-under_way (deliver out p) h = h
  Move-under_way (done_while_sending out p b) h = h

module _ {K : Kube} {W : Type 0} (opened : Opened K W) where
  abbrev Cancels : Stream K W → Type 0
  Cancels s =
      (s.stop_called ≡ true → s.cancelled ≡ true)
      × ((c : String) → (s.forwards c).place ≡ returned → s.cancelled ≡ true)

  set_forward-under_way :
      (forwards : String → Forward K) (d : String) (f : Forward K) (b : Bool)
      → (IsReturned f.place → ⊥)
      → ((c : String) → (forwards c).place ≡ returned → b ≡ true)
      → (c : String) → (set_forward K d f forwards c).place ≡ returned
      → b ≡ true
  set_forward-under_way forwards d f b n h c = elim (Bool-cases (c == d)) [
    | inl e ↦ rw e (λ p. absurd (n (subst IsReturned (sym p) tt)))
    | inr e ↦ rw e (h c)
  ]

  Step-Cancels : {s t : Stream K W} → Step K opened s t → Cancels s → Cancels t
  Step-Cancels (send_initial e rest p) h = h
  Step-Cancels (leave_initial e rest p b) h = h
  Step-Cancels (start_forwards p) h = (h.0, λ c q. absurd (subst IsReturned (sym q) tt))
  Step-Cancels {s} (forward c w m mv) h =
      (h.0, set_forward-under_way s.forwards c _ s.cancelled (Move-under_way mv) h.1)
  Step-Cancels (deferred_cancel c w m p) h = (λ q. refl, λ d q. refl)
  Step-Cancels (all_returned p q) h = h
  Step-Cancels {s} client_stop h = elim (Bool-cases s.stop_called) [
    | inl e ↦ rw e (λ q. h.0 e, h.1)
    | inr e ↦ rw e (λ q. refl, λ c q. refl)
  ]
  Step-Cancels context_done h = (λ q. refl, λ c q. refl)
  Step-Cancels (see_context order o p b) h = h
  Step-Cancels (options_done order o p) h = (λ q. refl, λ c q. refl)
  Step-Cancels (stop_remote c w rest p) h = h
  Step-Cancels (close p q) h = h

  pub Reach-Cancels : {s : Stream K W} → Reach K opened s → Cancels s
  Reach-Cancels begin = (λ h. h, λ c q. absurd (subst IsReturned (sym q) tt))
  Reach-Cancels (later r st) = Step-Cancels st (Reach-Cancels r)
