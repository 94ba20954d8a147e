-- ===== src/Storage/Watch/Stream/Closing.antt =====
-- The channel of a watch is closed once, after the last event and after every remote is stopped.
use mathlib.Core.List.{Permᴰ, Memᴰ, append-nil, append_assoc}
use aggregated_apiserver_ope.Prelude.{
  String, ◌≡◌, ◌⊎◌, refl, sym, subst, ◌∙◌, Bool, true, List, [], ◌∷◌, ◌++◌, arith, string_eq,
}
use aggregated_apiserver_ope.Kube.{Kube}
use aggregated_apiserver_ope.Storage.Watch.{Opened}
use aggregated_apiserver_ope.Storage.Watch.Stream.{
  unstarted, returned, FanIn, finished, Closer, guarding, stopping_remotes, closed, Stream, Step,
  send_initial, leave_initial, start_forwards, forward, deferred_cancel, all_returned, client_stop,
  context_done, see_context, options_done, stop_remote, close, Reach, begin, later,
}
use aggregated_apiserver_ope.Storage.Watch.Stream.Turns.{Turn, forward_waits, Reach-Turn}

module _ {K : Kube} {W : Type 0} (opened : Opened K W) where
  pub Step-cancelled :
      {s t : Stream K W} → Step K opened s t → s.cancelled ≡ true → t.cancelled ≡ true
  Step-cancelled (send_initial e rest p) h = h
  Step-cancelled (leave_initial e rest p b) h = h
  Step-cancelled (start_forwards p) h = h
  Step-cancelled (forward c w m mv) h = h
  Step-cancelled (deferred_cancel c w m p) h = refl
  Step-cancelled (all_returned p q) h = h
  Step-cancelled client_stop h = ground (arith, h)
  Step-cancelled context_done h = refl
  Step-cancelled (see_context order o p b) h = h
  Step-cancelled (options_done order o p) h = refl
  Step-cancelled (stop_remote c w rest p) h = h
  Step-cancelled (close p q) h = h

  -- What has been stopped, by where the last goroutine stands.
  abbrev pub Stopped : Closer K W → FanIn K → Bool → List (String × W) → Type 0
  Stopped guarding fan_in cancelled stopped = stopped ≡ []
  Stopped (stopping_remotes left) fan_in cancelled stopped =
      (cancelled ≡ true) × Permᴰ (stopped ++ left) opened.remotes
  Stopped closed fan_in cancelled stopped =
      (cancelled ≡ true) × Permᴰ stopped opened.remotes × (fan_in ≡ finished)

  -- A step of the others keeps it, as long as it does not undo the cancel or the end of `fanIn`.
  Stopped-kept :
      (closer : Closer K W) (f g : FanIn K) (b d : Bool) (stopped : List (String × W))
      → (b ≡ true → d ≡ true)
      → (f ≡ finished → g ≡ finished)
      → Stopped closer f b stopped
      → Stopped closer g d stopped
  Stopped-kept guarding f g b d stopped cancel finish h = h
  Stopped-kept (stopping_remotes left) f g b d stopped cancel finish h = (cancel h.0, h.1)
  Stopped-kept closed f g b d stopped cancel finish (c, q, e) = (cancel c, q, finish e)

  abbrev IsFinished : FanIn K → Type 0
  IsFinished finished = Unit
  IsFinished _ = ⊥

  Step-Stopped :
      {s t : Stream K W}
      → Step K opened s t
      → Stopped s.closer s.fan_in s.cancelled s.stopped
      → Stopped t.closer t.fan_in t.cancelled t.stopped
  Step-Stopped {s} (send_initial e rest p) h =
      Stopped-kept s.closer _ _ _ _ s.stopped (λ c. c)
        (λ f. absurd (subst IsFinished (sym f ∙ p) tt)) h
  Step-Stopped {s} (leave_initial e rest p b) h =
      Stopped-kept s.closer _ _ _ _ s.stopped (λ c. c) (λ f. refl) h
  Step-Stopped {s} (start_forwards p) h =
      Stopped-kept s.closer _ _ _ _ s.stopped (λ c. c)
        (λ f. absurd (subst IsFinished (sym f ∙ p) tt)) h
  Step-Stopped (forward c w m mv) h = h
  Step-Stopped {s} (deferred_cancel c w m p) h =
      Stopped-kept s.closer _ _ _ _ s.stopped (λ c. refl) (λ f. f) h
  Step-Stopped {s} (all_returned p q) h =
      Stopped-kept s.closer _ _ _ _ s.stopped (λ c. c) (λ f. refl) h
  Step-Stopped {s} client_stop h =
      Stopped-kept s.closer _ _ _ _ s.stopped (Step-cancelled {s = s} client_stop) (λ f. f) h
  Step-Stopped {s} context_done h = Stopped-kept s.closer _ _ _ _ s.stopped (λ c. refl) (λ f. f) h
  Step-Stopped {s} (see_context order o p b) h =
      let none_stopped = subst (λ x. Stopped x s.fan_in s.cancelled s.stopped) p h in
      (b, rw none_stopped o)
  Step-Stopped {s} (options_done order o p) h =
      let none_stopped = subst (λ x. Stopped x s.fan_in s.cancelled s.stopped) p h in
      (refl, rw none_stopped o)
  Step-Stopped {s} (stop_remote c w rest p) h =
      let (b, q) = subst (λ x. Stopped x s.fan_in s.cancelled s.stopped) p h in
      (b, rw (append_assoc s.stopped ((c, w) ∷ []) rest) q)
  Step-Stopped {s} (close p q) h =
      let (b, r) = subst (λ x. Stopped x s.fan_in s.cancelled s.stopped) p h in
      (b, subst (λ l. Permᴰ l opened.remotes) (append-nil s.stopped) r, q)

  pub Reach-Stopped :
      {s : Stream K W} → Reach K opened s → Stopped s.closer s.fan_in s.cancelled s.stopped
  Reach-Stopped begin = refl
  Reach-Stopped (later r st) = Step-Stopped st (Reach-Stopped r)

  abbrev IsClosed : Closer K W → Type 0
  IsClosed closed = Unit
  IsClosed _ = ⊥

  -- A state in which the channel is closed, and the steps that are left from it.
  silent :
      {s t : Stream K W}
      → Step K opened s t
      → Turn opened s.fan_in s.forwards
      → s.closer ≡ closed
      → s.fan_in ≡ finished
      → (t.received ≡ s.received) × (t.closer ≡ closed)
  silent (send_initial e rest p) turn c f = absurd (subst IsFinished (sym f ∙ p) tt)
  silent (leave_initial e rest p b) turn c f = (refl, c)
  silent (start_forwards p) turn c f = (refl, c)
  silent {s} (forward d w m mv) turn c f =
      absurd (subst IsFinished (sym f ∙ forward_waits opened s d w turn m mv) tt)
  silent (deferred_cancel d w m p) turn c f = (refl, c)
  silent (all_returned p q) turn c f = (refl, c)
  silent client_stop turn c f = (refl, c)
  silent context_done turn c f = (refl, c)
  silent (see_context order o p b) turn c f = absurd (subst IsClosed (sym c ∙ p) tt)
  silent (options_done order o p) turn c f = absurd (subst IsClosed (sym c ∙ p) tt)
  silent (stop_remote d w rest p) turn c f = absurd (subst IsClosed (sym c ∙ p) tt)
  silent (close p q) turn c f = absurd (subst IsClosed (sym c ∙ p) tt)

  -- When the channel is closed, the context is cancelled, the remotes were stopped, each once,
  -- the sender of the initial events is done and no `forward` is under way. From then on no step
  -- sends an event on the closed channel, and none closes it again.
  pub closed_lem :
      {s : Stream K W}
      → Reach K opened s
      → s.closer ≡ closed
      → (s.cancelled ≡ true)
        × Permᴰ s.stopped opened.remotes
        × (s.fan_in ≡ finished)
        × ((c : String) (w : W)
            → Memᴰ (c, w) opened.remotes
            → ((s.forwards c).place ≡ unstarted) ⊎ ((s.forwards c).place ≡ returned))
        × ((t : Stream K W) → Step K opened s t → (t.received ≡ s.received) × (t.closer ≡ closed))
  closed_lem {s} r c =
      let (b, q, f) = subst (λ x. Stopped x s.fan_in s.cancelled s.stopped) c (Reach-Stopped r) in
      let turn = Reach-Turn opened r in
      (b, q, f, subst (λ x. Turn opened x s.forwards) f turn, λ t st. silent st turn c f)
