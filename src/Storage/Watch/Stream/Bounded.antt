-- ===== src/Storage/Watch/Stream/Bounded.antt =====
-- A cancelled watch ends however its own goroutines are scheduled.
use Prim.Native.Nat.{◌*◌}
use mathlib.Core.List.{Memᴰ}
use aggregated_apiserver_ope.Prelude.{
  ℕ, suc, ◌+◌, ◌≤◌, ◌<◌, String, ◌≡◌, ◌⊎◌, refl, sym, ap, subst, inl, inr, Bool, true, Bool-cases,
  List, [], ◌∷◌, ◌++◌, length, length-perm, arith, ◌==◌, string_eq, eq_iff,
}
use aggregated_apiserver_ope.Kube.{Kube}
use aggregated_apiserver_ope.Storage.Watch.{Event, Opened}
use aggregated_apiserver_ope.Storage.Watch.Stream.{
  Place, Forward, unstarted, reading, leaving, returned, sending, Move, done_while_reading,
  remote_closed, skip, take, deliver, done_while_sending, FanIn, initial, waiting, finished, Closer,
  guarding, stopping_remotes, closed, Stream, set_forward, Step, send_initial, leave_initial,
  start_forwards, forward, deferred_cancel, all_returned, client_stop, context_done, see_context,
  options_done, stop_remote, close, Reach,
}
use aggregated_apiserver_ope.Storage.Watch.Stream.Alone.{
  Quits, IsAlone, Alone, still, next, Alone-Reach, Alone-cancelled,
}
use aggregated_apiserver_ope.Storage.Watch.Stream.Closing.{Stopped, Reach-Stopped}
use aggregated_apiserver_ope.Storage.Watch.Stream.Ending.{ends_cancelled}

module _ {K : Kube} where
  -- How many own steps are left to a `forward`.
  abbrev steps_of : Place K → ℕ
  steps_of unstarted = 0
  steps_of reading = 2
  steps_of (sending e) = 2
  steps_of leaving = 1
  steps_of returned = 0

  Quits-steps_of :
      {c : String} {b : Bool} {f g : Forward K} {sent : List (Event K)} (mv : Move K c b f g sent)
      → Quits mv
      → steps_of g.place < steps_of f.place
  Quits-steps_of (done_while_reading p b) h = rw p (omega arith)
  Quits-steps_of (remote_closed p) h = absurd h
  Quits-steps_of (skip e p q) h = absurd h
  Quits-steps_of (take e out p q) h = absurd h
  Quits-steps_of (deliver out p) h = absurd h
  Quits-steps_of (done_while_sending out p b) h = rw p (omega arith)

module _ {K : Kube} {W : Type 0} where
  abbrev total : (String → Forward K) → List (String × W) → ℕ
  total forwards [] = 0
  total forwards ((c, w) ∷ rest) = steps_of (forwards c).place + total forwards rest

  total-set_forward-le :
      (forwards : String → Forward K) (d : String) (f : Forward K) (remotes : List (String × W))
      → steps_of f.place ≤ steps_of (forwards d).place
      → total (set_forward K d f forwards) remotes ≤ total forwards remotes
  total-set_forward-le forwards d f [] h = omega arith
  total-set_forward-le forwards d f ((c, w) ∷ rest) h =
      let later = total-set_forward-le forwards d f rest h in
      elim (Bool-cases (c == d)) [
        | inl e ↦ rw (e, (eq_iff c d).0 e) (omega (arith, later, h))
        | inr e ↦ rw e (omega (arith, later))
      ]

  total-set_forward-lt :
      (forwards : String → Forward K) (d : String) (x : W) (f : Forward K)
      (remotes : List (String × W))
      → Memᴰ (d, x) remotes
      → steps_of f.place < steps_of (forwards d).place
      → total (set_forward K d f forwards) remotes < total forwards remotes
  total-set_forward-lt forwards d x f [] m h = elim m [ ]
  total-set_forward-lt forwards d x f ((c, w) ∷ rest) (Memᴰ.head p) h =
      let same : c ≡ d = sym (ap (λ y. y.0) p) in
      let later = total-set_forward-le forwards d f rest (omega (arith, h)) in
      rw ((eq_iff c d).1 same, same) (omega (arith, later, h))
  total-set_forward-lt forwards d x f ((c, w) ∷ rest) (Memᴰ.tail m) h =
      let later = total-set_forward-lt forwards d x f rest m h in
      elim (Bool-cases (c == d)) [
        | inl e ↦ rw (e, (eq_iff c d).0 e) (omega (arith, later, h))
        | inr e ↦ rw e (omega (arith, later))
      ]

  total-le :
      (forwards : String → Forward K) (remotes : List (String × W))
      → total forwards remotes ≤ 2 * length remotes
  total-le forwards [] = omega arith
  total-le forwards ((c, w) ∷ rest) =
      omega (arith, total-le forwards rest, small (forwards c).place)
    where
      small : (p : Place K) → steps_of p ≤ 2
      small p = ground arith

module _ {K : Kube} {W : Type 0} (opened : Opened K W) where
  abbrev fan_in_steps : FanIn K → ℕ
  fan_in_steps (initial events) = 2 + 2 * length opened.remotes
  fan_in_steps waiting = 1
  fan_in_steps finished = 0

  abbrev closer_steps : Closer K W → ℕ
  closer_steps guarding = 2 + length opened.remotes
  closer_steps (stopping_remotes left) = 1 + length left
  closer_steps closed = 0

  -- How many own steps are left at most.
  abbrev steps_left : Stream K W → ℕ
  steps_left s = fan_in_steps s.fan_in + total s.forwards opened.remotes + closer_steps s.closer

  IsAlone-steps_left :
      {s t : Stream K W} (st : Step K opened s t) → IsAlone opened st → steps_left t < steps_left s
  IsAlone-steps_left (send_initial e rest p) h = absurd h
  IsAlone-steps_left (leave_initial e rest p b) h = rw p (omega arith)
  IsAlone-steps_left {s} (start_forwards p) h =
      rw p (omega (arith, total-le (λ c. record { place = reading; seen = [] }) opened.remotes))
  IsAlone-steps_left {s} (forward c w {f} m mv) h =
      omega (arith, total-set_forward-lt s.forwards c w f opened.remotes m (Quits-steps_of mv h))
  IsAlone-steps_left {s} (deferred_cancel c w m p) h =
      let after : Forward K = record (s.forwards c) { place = returned } in
      let fewer : steps_of after.place < steps_of (s.forwards c).place = rw p (omega arith) in
      omega (arith, total-set_forward-lt s.forwards c w after opened.remotes m fewer)
  IsAlone-steps_left (all_returned p q) h = rw p (omega arith)
  IsAlone-steps_left client_stop h = absurd h
  IsAlone-steps_left context_done h = absurd h
  IsAlone-steps_left (see_context order o p b) h = rw p (omega (arith, length-perm o))
  IsAlone-steps_left (options_done order o p) h = absurd h
  IsAlone-steps_left (stop_remote c w rest p) h = rw p (omega arith)
  IsAlone-steps_left (close p q) h = rw p (omega arith)

  -- The number of the steps.
  abbrev pub count : {s t : Stream K W} → Alone opened s t → ℕ
  count still = 0
  count (next a st h) = suc (count a)

  count-steps_left :
      {s t : Stream K W} (a : Alone opened s t) → count a + steps_left t ≤ steps_left s
  count-steps_left still = omega arith
  count-steps_left (next a st h) = omega (arith, count-steps_left a, IsAlone-steps_left st h)

  length-le-append : (xs ys : List (String × W)) → length ys ≤ length (xs ++ ys)
  length-le-append [] ys = omega arith
  length-le-append (x ∷ xs) ys = omega (arith, length-le-append xs ys)

  closer_steps-le :
      (closer : Closer K W) (fan_in : FanIn K) (b : Bool) (stopped : List (String × W))
      → Stopped opened closer fan_in b stopped
      → closer_steps closer ≤ 2 + length opened.remotes
  closer_steps-le guarding fan_in b stopped h = omega arith
  closer_steps-le (stopping_remotes left) fan_in b stopped h =
      omega (arith, length-le-append stopped left, length-perm h.1)
  closer_steps-le closed fan_in b stopped h = omega arith

  fan_in_steps-le : (fan_in : FanIn K) → fan_in_steps fan_in ≤ 2 + 2 * length opened.remotes
  fan_in_steps-le (initial events) = omega arith
  fan_in_steps-le waiting = omega arith
  fan_in_steps-le finished = omega arith

  steps_left-le : (s : Stream K W) → Reach K opened s → steps_left s ≤ 4 + 5 * length opened.remotes
  steps_left-le s r = omega (
    arith,
    fan_in_steps-le s.fan_in,
    total-le s.forwards opened.remotes,
    closer_steps-le s.closer s.fan_in s.cancelled s.stopped (Reach-Stopped opened r),
  )

  -- A way is no step long, or it has a first step.
  empty_or_begun :
      {s t : Stream K W}
      → Alone opened s t
      → (s ≡ t) ⊎ ((u : Stream K W) × (st : Step K opened s u) × IsAlone opened st)
  empty_or_begun still = inl refl
  empty_or_begun {s} (next {t} {u} a st h) = elim (empty_or_begun a) [
    | inl p ↦ inr (
        subst (λ x. (v : Stream K W) × (st : Step K opened x v) × IsAlone opened st) (sym p)
          (u, st, h))
    | inr first ↦ inr first
  ]

  -- Once the context is done, the goroutines of a watch of n members make at most 4 + 5 n steps that
  -- need neither the client nor a member, in whatever order they run, and when none is left that
  -- they can make, the channel is closed.
  pub Alone-ends :
      {s t : Stream K W}
      → Reach K opened s
      → s.cancelled ≡ true
      → (a : Alone opened s t)
      → (count a ≤ 4 + 5 * length opened.remotes)
        × (((u : Stream K W) (st : Step K opened t u) → IsAlone opened st → ⊥) → t.closer ≡ closed)
  Alone-ends {s} {t} r b a = (
    omega (arith, count-steps_left a, steps_left-le s r),
    λ stuck.
        let (u, way, done) =
          ends_cancelled opened t (Alone-Reach opened r a) (Alone-cancelled opened b a) in
        elim (empty_or_begun way) [
          | inl p ↦ subst (λ x. x.closer ≡ closed) (sym p) done
          | inr (v, st, h) ↦ absurd (stuck v st h)
        ],
  )
