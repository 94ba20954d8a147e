-- ===== src/Storage/Watch/Stream/Alone.antt =====
-- The steps of the goroutines of a watch that need neither its client nor a member.
use mathlib.Core.List.{append-nil}
use aggregated_apiserver_ope.Prelude.{String, ◌≡◌, refl, ◌∙◌, Bool, true, List, [], string_eq}
use aggregated_apiserver_ope.Kube.{Kube}
use aggregated_apiserver_ope.Storage.Watch.{Event, Opened}
use aggregated_apiserver_ope.Storage.Watch.Stream.{
  Forward, Move, done_while_reading, remote_closed, skip, take, deliver, done_while_sending, Stream,
  Step, send_initial, leave_initial, start_forwards, forward, deferred_cancel, all_returned,
  client_stop, context_done, see_context, options_done, stop_remote, close, Reach, later,
}
use aggregated_apiserver_ope.Storage.Watch.Stream.Closing.{Step-cancelled}

module _ {K : Kube} where
  -- The moves of a `forward` for which neither the client nor the member does anything.
  abbrev pub Quits :
      {c : String} {b : Bool} {f g : Forward K} {sent : List (Event K)}
      → Move K c b f g sent
      → Type 0
  Quits (done_while_reading p b) = Unit
  Quits (done_while_sending out p b) = Unit
  Quits _ = ⊥

  Quits-sends :
      {c : String} {b : Bool} {f g : Forward K} {sent : List (Event K)} (mv : Move K c b f g sent)
      → Quits mv
      → sent ≡ []
  Quits-sends (done_while_reading p b) h = refl
  Quits-sends (remote_closed p) h = refl
  Quits-sends (skip e p q) h = refl
  Quits-sends (take e out p q) h = refl
  Quits-sends (deliver out p) h = absurd h
  Quits-sends (done_while_sending out p b) h = refl

module _ {K : Kube} {W : Type 0} (opened : Opened K W) where
  -- The steps that need nothing of the client, of a member or of a context.
  abbrev pub IsAlone : {s t : Stream K W} → Step K opened s t → Type 0
  IsAlone (leave_initial e rest p b) = Unit
  IsAlone (start_forwards p) = Unit
  IsAlone (forward c w m mv) = Quits mv
  IsAlone (deferred_cancel c w m p) = Unit
  IsAlone (all_returned p q) = Unit
  IsAlone (see_context order o p b) = Unit
  IsAlone (stop_remote c w rest p) = Unit
  IsAlone (close p q) = Unit
  IsAlone _ = ⊥

  pub data Alone (s : Stream K W) : Stream K W → Type 0 where
    still : Alone s s
    next : {t u : Stream K W} → Alone s t → (st : Step K opened t u) → IsAlone st → Alone s u

  pub Alone-trans : {s t u : Stream K W} → Alone s t → Alone t u → Alone s u
  Alone-trans a still = a
  Alone-trans a (next b st h) = next (Alone-trans a b) st h

  pub Alone-Reach : {s t : Stream K W} → Reach K opened s → Alone s t → Reach K opened t
  Alone-Reach r still = r
  Alone-Reach r (next a st h) = later (Alone-Reach r a) st

  pub Alone-cancelled : {s t : Stream K W} → s.cancelled ≡ true → Alone s t → t.cancelled ≡ true
  Alone-cancelled c still = c
  Alone-cancelled c (next a st h) = Step-cancelled opened st (Alone-cancelled c a)

  IsAlone-received :
      {s t : Stream K W} (st : Step K opened s t) → IsAlone st → t.received ≡ s.received
  IsAlone-received (send_initial e rest p) h = absurd h
  IsAlone-received (leave_initial e rest p b) h = refl
  IsAlone-received (start_forwards p) h = refl
  IsAlone-received (forward c w m mv) h = rw (Quits-sends mv h) (append-nil _)
  IsAlone-received (deferred_cancel c w m p) h = refl
  IsAlone-received (all_returned p q) h = refl
  IsAlone-received client_stop h = refl
  IsAlone-received context_done h = refl
  IsAlone-received (see_context order o p b) h = refl
  IsAlone-received (options_done order o p) h = refl
  IsAlone-received (stop_remote c w rest p) h = refl
  IsAlone-received (close p q) h = refl

  pub Alone-received : {s t : Stream K W} → Alone s t → t.received ≡ s.received
  Alone-received still = refl
  Alone-received (next a st h) = IsAlone-received st h ∙ Alone-received a

  -- `s` comes alone to a state of which `P` holds.
  abbrev pub Comes : Stream K W → (Stream K W → Type 0) → Type 0
  Comes s P = (t : Stream K W) × Alone s t × P t
