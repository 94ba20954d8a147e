-- ===== src/Storage/Watch/Stream/Turns.antt =====
-- The `forward`s run between the initial events and the end of the goroutine `fanIn`.
use mathlib.Core.List.{Memᴰ}
use aggregated_apiserver_ope.Prelude.{
  String, ◌≡◌, ◌⊎◌, refl, sym, ap, subst, inl, inr, Bool, Bool-cases, List, [], ◌==◌, string_eq,
}
use aggregated_apiserver_ope.Kube.{Kube}
use aggregated_apiserver_ope.Storage.Watch.{Event, Opened}
use aggregated_apiserver_ope.Storage.Watch.Stream.{
  Place, unstarted, returned, Forward, Move, done_while_reading, remote_closed, skip, take, deliver,
  done_while_sending, FanIn, initial, waiting, finished, Stream, set_forward, Step, send_initial,
  leave_initial, start_forwards, forward, deferred_cancel, all_returned, client_stop, context_done,
  see_context, options_done, stop_remote, close, Reach, begin, later,
}

module _ {K : Kube} where
  -- A `forward` that has not started, or has returned, makes no step.
  abbrev pub IsActive : Place K → Type 0
  IsActive unstarted = ⊥
  IsActive returned = ⊥
  IsActive _ = Unit

  abbrev pub IsStarted : Place K → Type 0
  IsStarted unstarted = ⊥
  IsStarted _ = Unit

  Move-IsStarted :
      {c : String} {b : Bool} {f g : Forward K} {sent : List (Event K)}
      → Move K c b f g sent
      → IsStarted g.place
  Move-IsStarted (done_while_reading p b) = tt
  Move-IsStarted (remote_closed p) = tt
  Move-IsStarted (skip e p q) = subst IsStarted (sym p) tt
  Move-IsStarted (take e out p q) = tt
  Move-IsStarted (deliver out p) = tt
  Move-IsStarted (done_while_sending out p b) = tt

  Move-IsActive :
      {c : String} {b : Bool} {f g : Forward K} {sent : List (Event K)}
      → Move K c b f g sent
      → IsActive f.place
  Move-IsActive (done_while_reading p b) = subst IsActive (sym p) tt
  Move-IsActive (remote_closed p) = subst IsActive (sym p) tt
  Move-IsActive (skip e p q) = subst IsActive (sym p) tt
  Move-IsActive (take e out p q) = subst IsActive (sym p) tt
  Move-IsActive (deliver out p) = subst IsActive (sym p) tt
  Move-IsActive (done_while_sending out p b) = subst IsActive (sym p) tt

module _ {K : Kube} {W : Type 0} where
  -- Which `forward`s can be under way.
  abbrev pub Turn : Opened K W → FanIn K → (String → Forward K) → Type 0
  Turn opened (initial rest) forwards =
      (c : String) → forwards c ≡ record { place = unstarted; seen = [] }
  Turn opened waiting forwards = (c : String) → IsStarted (forwards c).place
  Turn opened finished forwards =
      (c : String) (w : W)
      → Memᴰ (c, w) opened.remotes
      → ((forwards c).place ≡ unstarted) ⊎ ((forwards c).place ≡ returned)

  active_waits :
      (opened : Opened K W) (fan_in : FanIn K) (forwards : String → Forward K) (c : String) (w : W)
      → Turn opened fan_in forwards
      → Memᴰ (c, w) opened.remotes
      → IsActive (forwards c).place
      → fan_in ≡ waiting
  active_waits opened (initial rest) fs c w h m a =
      absurd (subst IsActive (ap (λ f. f.place) (h c)) a)
  active_waits opened waiting fs c w h m a = refl
  active_waits opened finished fs c w h m a = elim (h c w m) [
    | inl p ↦ absurd (subst IsActive p a)
    | inr p ↦ absurd (subst IsActive p a)
  ]

  module _ (opened : Opened K W) where
    waiting-Turn :
        (fan_in : FanIn K) (forwards : String → Forward K) (d : String) (f : Forward K)
        → fan_in ≡ waiting
        → Turn opened fan_in forwards
        → IsStarted f.place
        → Turn opened fan_in (set_forward K d f forwards)
    waiting-Turn fan_in forwards d f p h started =
        let all_started = subst (λ x. Turn opened x forwards) p h in
        subst (λ x. Turn opened x (set_forward K d f forwards)) (sym p)
          (λ c. elim (Bool-cases (c == d)) [
            | inl same ↦ rw same started
            | inr differ ↦ rw differ (all_started c)
          ])

    pub forward_waits :
        (s : Stream K W) (c : String) (w : W) {g : Forward K} {sent : List (Event K)}
        → Turn opened s.fan_in s.forwards
        → Memᴰ (c, w) opened.remotes
        → Move K c s.cancelled (s.forwards c) g sent
        → s.fan_in ≡ waiting
    forward_waits s c w h m mv = active_waits opened s.fan_in s.forwards c w h m (Move-IsActive mv)

    Step-Turn :
        {s t : Stream K W}
        → Step K opened s t
        → Turn opened s.fan_in s.forwards
        → Turn opened t.fan_in t.forwards
    Step-Turn {s} (send_initial e rest p) h = subst (λ x. Turn opened x s.forwards) p h
    Step-Turn {s} (leave_initial e rest p b) h =
        let pristine = subst (λ x. Turn opened x s.forwards) p h in
        λ c w m. inl (ap (λ f. f.place) (pristine c))
    Step-Turn (start_forwards p) h = λ c. tt
    Step-Turn {s} (forward c w m mv) h =
        waiting-Turn _ _ c _ (forward_waits s c w h m mv) h (Move-IsStarted mv)
    Step-Turn {s} (deferred_cancel c w m p) h =
        let active = subst IsActive (sym p) tt in
        waiting-Turn _ _ c _ (active_waits opened s.fan_in s.forwards c w h m active) h tt
    Step-Turn (all_returned p q) h = λ c w m. inr (q c w m)
    Step-Turn client_stop h = h
    Step-Turn context_done h = h
    Step-Turn (see_context order o p b) h = h
    Step-Turn (options_done order o p) h = h
    Step-Turn (stop_remote c w rest p) h = h
    Step-Turn (close p q) h = h

    pub Reach-Turn : {s : Stream K W} → Reach K opened s → Turn opened s.fan_in s.forwards
    Reach-Turn begin = λ c. refl
    Reach-Turn (later r st) = Step-Turn st (Reach-Turn r)
