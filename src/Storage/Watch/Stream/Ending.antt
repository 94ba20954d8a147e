-- ===== src/Storage/Watch/Stream/Ending.antt =====
-- A cancelled watch comes to its end by the steps of its own goroutines.
use mathlib.Core.List.Permᴰ
use mathlib.Core.List.{Permᴰ, Memᴰ}
use mathlib.Core.List.Memᴰ
use aggregated_apiserver_ope.Prelude.{
  String, ◌≡◌, ◌⊎◌, refl, sym, ap, subst, ◌∙◌, inl, inr, true, false, Bool-cases, List, [], ◌∷◌,
  ◌==◌, string_eq, eq_iff,
}
use aggregated_apiserver_ope.Kube.{Kube}
use aggregated_apiserver_ope.Storage.Watch.{Event, Opened}
use aggregated_apiserver_ope.Storage.Watch.Stream.{
  Place, Forward, unstarted, reading, leaving, returned, sending, Move, done_while_reading,
  done_while_sending, FanIn, initial, waiting, finished, Closer, guarding, stopping_remotes, closed,
  Stream, after_move, leave_initial, start_forwards, forward, deferred_cancel, all_returned,
  see_context, stop_remote, close, Reach, later,
}
use aggregated_apiserver_ope.Storage.Watch.Stream.Turns.{Turn, IsStarted, Reach-Turn}
use aggregated_apiserver_ope.Storage.Watch.Stream.Alone.{
  Quits, Alone, still, next, Alone-trans, Alone-Reach, Alone-cancelled, Alone-received, Comes,
}
use aggregated_apiserver_ope.Storage.Watch.Stream.Cancels.{IsReturned, Reach-Cancels}
use aggregated_apiserver_ope.Storage.Watch.Stream.Closing.{closed_lem}

module _ {K : Kube} {W : Type 0} (opened : Opened K W) where
  abbrev IsDone : Stream K W → String → Type 0
  IsDone s c = (s.forwards c).place ≡ returned

  -- The `forward` of a cluster has returned, and no other that had returned is under way.
  abbrev HasLeft : Stream K W → String → Stream K W → Type 0
  HasLeft s c t = (t.fan_in ≡ waiting) × IsDone t c × ((d : String) → IsDone s d → IsDone t d)

  quit_leaving :
      (s : Stream K W) (c : String) (w : W)
      → Memᴰ (c, w) opened.remotes
      → s.fan_in ≡ waiting
      → (s.forwards c).place ≡ leaving
      → Comes opened s (HasLeft s c)
  quit_leaving s c w m f p = (
    _,
    next still (deferred_cancel c w m p) tt,
    (
      f,
      rw ((eq_iff c c).1 refl) refl,
      λ d h. elim (Bool-cases (d == c)) [ inl e ↦ rw e refl | inr e ↦ rw e h ],
    ),
  )

  quit_by :
      (s : Stream K W) (c : String) (w : W) {g : Forward K} {sent : List (Event K)}
      → Memᴰ (c, w) opened.remotes
      → s.fan_in ≡ waiting
      → (mv : Move K c s.cancelled (s.forwards c) g sent) → Quits mv
      → g.place ≡ leaving
      → ((d : String) → IsDone s d → (d == c) ≡ false)
      → Comes opened s (HasLeft s c)
  quit_by s c w {g} {sent} m f mv h p other =
      let t = after_move K s c g sent in
      let (u, a, (waits, done, kept)) = quit_leaving t c w m f (rw ((eq_iff c c).1 refl) p) in
      (
        u,
        Alone-trans opened (next still (forward c w m mv) h) a,
        (waits, done, λ d e. kept d (rw (other d e) e)),
      )

  -- A place that is not `returned` is that of another `forward`.
  other_than :
      (s : Stream K W) (c : String)
      → ((s.forwards c).place ≡ returned → ⊥)
      → (d : String) → IsDone s d
      → (d == c) ≡ false
  other_than s c n d h = elim (Bool-cases (d == c)) [
    | inl e ↦ absurd (n (subst (IsDone s) ((eq_iff d c).0 e) h))
    | inr e ↦ e
  ]

  quit_one :
      (s : Stream K W) (c : String) (w : W) (place : Place K)
      → Memᴰ (c, w) opened.remotes
      → s.fan_in ≡ waiting
      → s.cancelled ≡ true
      → IsStarted place
      → (s.forwards c).place ≡ place
      → Comes opened s (HasLeft s c)
  quit_one s c w unstarted m f b h p = absurd h
  quit_one s c w reading m f b h p =
      quit_by s c w m f (done_while_reading p b) tt refl
        (other_than s c (λ q. subst IsReturned (sym q ∙ p) tt))
  quit_one s c w (sending out) m f b h p =
      quit_by s c w m f (done_while_sending out p b) tt refl
        (other_than s c (λ q. subst IsReturned (sym q ∙ p) tt))
  quit_one s c w leaving m f b h p = quit_leaving s c w m f p
  quit_one s c w returned m f b h p = (s, still, (f, p, λ d q. q))

  with_first :
      (t : Stream K W) (c : String) (w : W) (rest : List (String × W))
      → IsDone t c
      → ((d : String) (x : W) → Memᴰ (d, x) rest → IsDone t d)
      → (d : String) (x : W) → Memᴰ (d, x) ((c, w) ∷ rest)
      → IsDone t d
  with_first t c w rest first others d x (Memᴰ.head p) =
      subst (IsDone t) (sym (ap (λ y. y.0) p)) first
  with_first t c w rest first others d x (Memᴰ.tail m) = others d x m

  -- The `forward`s of these clusters return, one after the other.
  quit_all :
      (s : Stream K W) (remotes : List (String × W))
      → Reach K opened s
      → s.fan_in ≡ waiting
      → s.cancelled ≡ true
      → ((c : String) (w : W) → Memᴰ (c, w) remotes → Memᴰ (c, w) opened.remotes)
      → Comes opened s (λ t.
        (t.fan_in ≡ waiting)
        × ((c : String) (w : W) → Memᴰ (c, w) remotes → IsDone t c)
        × ((d : String) → IsDone s d → IsDone t d))
  quit_all s [] r f b inside = (s, still, (f, λ c w m. absurd (Memᴰ.not-nil m), λ d h. h))
  quit_all s ((c, w) ∷ rest) r f b inside =
      let started = subst (λ x. Turn opened x s.forwards) f (Reach-Turn opened r) in
      let (t, a, (waits, done, kept)) =
        quit_one s c w (s.forwards c).place (inside c w (Memᴰ.head refl)) f b (started c) refl in
      let (u, later_steps, (still_waits, all_done, all_kept)) =
        quit_all t rest (Alone-Reach opened r a) waits (Alone-cancelled opened b a)
          (λ d x m. inside d x (Memᴰ.tail m)) in
      (
        u,
        Alone-trans opened a later_steps,
        (
          still_waits,
          with_first u c w rest (all_kept c done) all_done,
          λ d h. all_kept d (kept d h),
        ),
      )

  ends_waiting :
      (s : Stream K W)
      → Reach K opened s
      → s.fan_in ≡ waiting
      → s.cancelled ≡ true
      → Comes opened s (λ t. t.fan_in ≡ finished)
  ends_waiting s r f b =
      let (t, a, (waits, done, kept)) = quit_all s opened.remotes r f b (λ c w m. m) in
      (_, next a (all_returned waits done) tt, refl)

  ends_fan_in :
      (s : Stream K W) (fan_in : FanIn K)
      → Reach K opened s
      → s.cancelled ≡ true
      → s.fan_in ≡ fan_in
      → Comes opened s (λ t. t.fan_in ≡ finished)
  ends_fan_in s (initial []) r b p =
      let st = start_forwards p in
      let (t, a, f) = ends_waiting _ (later r st) refl b in
      (t, Alone-trans opened (next still st tt) a, f)
  ends_fan_in s (initial (e ∷ rest)) r b p = (_, next still (leave_initial e rest p b) tt, refl)
  ends_fan_in s waiting r b p = ends_waiting s r p b
  ends_fan_in s finished r b p = (s, still, p)

  ends_stopping :
      (left : List (String × W)) (s : Stream K W)
      → s.fan_in ≡ finished
      → s.closer ≡ stopping_remotes left
      → Comes opened s (λ t. t.closer ≡ closed)
  ends_stopping [] s f p = (_, next still (close p f) tt, refl)
  ends_stopping ((c, w) ∷ rest) s f p =
      let st = stop_remote c w rest p in
      let (t, a, q) = ends_stopping rest _ f refl in (t, Alone-trans opened (next still st tt) a, q)

  ends_closer :
      (s : Stream K W) (closer : Closer K W)
      → s.cancelled ≡ true
      → s.fan_in ≡ finished
      → s.closer ≡ closer
      → Comes opened s (λ t. t.closer ≡ closed)
  ends_closer s guarding b f p =
      let st = see_context opened.remotes (Permᴰ.refl opened.remotes) p b in
      let (t, a, q) = ends_stopping opened.remotes _ f refl in
      (t, Alone-trans opened (next still st tt) a, q)
  ends_closer s (stopping_remotes left) b f p = ends_stopping left s f p
  ends_closer s closed b f p = (s, still, p)

  pub ends_cancelled :
      (s : Stream K W)
      → Reach K opened s
      → s.cancelled ≡ true
      → Comes opened s (λ t. t.closer ≡ closed)
  ends_cancelled s r b =
      let (t, a, f) = ends_fan_in s s.fan_in r b refl in
      let (u, c, q) = ends_closer t t.closer (Alone-cancelled opened b a) f refl in
      (u, Alone-trans opened a c, q)

  -- The reasons for a watch to end: the context is done, the client called Stop, or a `forward` is
  -- past its loop, as it is when its member's watch ended.
  abbrev pub Ends : Stream K W → Type 0
  Ends s =
      (s.cancelled ≡ true)
      ⊎ ((s.stop_called ≡ true)
          ⊎ ((c : String) × (w : W) × Memᴰ (c, w) opened.remotes
              × (((s.forwards c).place ≡ leaving) ⊎ ((s.forwards c).place ≡ returned))))

  ends : (s : Stream K W) → Reach K opened s → Ends s → Comes opened s (λ t. t.closer ≡ closed)
  ends s r (inl b) = ends_cancelled s r b
  ends s r (inr (inl p)) = ends_cancelled s r ((Reach-Cancels opened r).0 p)
  ends s r (inr (inr (c, w, m, inl p))) =
      let st = deferred_cancel c w m p in
      let (t, a, q) = ends_cancelled _ (later r st) refl in
      (t, Alone-trans opened (next still st tt) a, q)
  ends s r (inr (inr (c, w, m, inr p))) = ends_cancelled s r ((Reach-Cancels opened r).1 c p)

  -- Once the context is done, the client called Stop or one member's watch ended, the watch can
  -- always come to its end by steps of its own goroutines, with nothing more received by the client
  -- or sent by a member: the channel is closed, and every remote was stopped.
  pub ending_lem :
      (s : Stream K W)
      → Reach K opened s
      → Ends s
      → (t : Stream K W) × Alone opened s t
        × (t.closer ≡ closed)
        × (t.received ≡ s.received)
        × Permᴰ t.stopped opened.remotes
  ending_lem s r h =
      let (t, a, q) = ends s r h in
      (t, a, q, Alone-received opened a, (closed_lem opened (Alone-Reach opened r a) q).1)
