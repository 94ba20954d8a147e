-- ===== src/Tests/Watch.antt =====
-- A watch of two clusters: opened, run, and ended.
use mathlib.Core.List.Permᴰ
use mathlib.Core.List.{Permᴰ, Memᴰ}
use mathlib.Core.List.Memᴰ
use aggregated_apiserver_ope.Prelude.{
  ◌≤◌, String, ◌≡◌, ◌⊎◌, inl, inr, refl, sym, ap, subst, true, none, some, List, [], ◌∷◌, ◌++◌, All,
  ok, err, ◌==◌, string_eq, if◌then◌else◌,
}
use aggregated_apiserver_ope.Storage.{unstructured}
use aggregated_apiserver_ope.Storage.Watch.{
  Event, Opened, Watchable, WatchRequest, added, bookmark, watch,
}
use aggregated_apiserver_ope.Storage.Watch.Open.{Watched, watch_lem}
use aggregated_apiserver_ope.Storage.Watch.Stream.{
  relayed, Forward, Stream, unstarted, returned, Step, closed, finished, done_while_reading, Reach,
  begin, later, remote_closed, skip, take, deliver, send_initial, start_forwards, forward,
  deferred_cancel, all_returned, see_context, stop_remote, close, Received,
}
use aggregated_apiserver_ope.Storage.Watch.Stream.Flow.{Flow, received_from}
use aggregated_apiserver_ope.Storage.Watch.Stream.Order.{from_initial, IsRelayed, stream_lem}
use aggregated_apiserver_ope.Storage.Watch.Stream.Closing.{closed_lem}
use aggregated_apiserver_ope.Storage.Watch.Stream.Alone.{Alone, IsAlone, still, next}
use aggregated_apiserver_ope.Storage.Watch.Stream.Bounded.{count, Alone-ends}
use aggregated_apiserver_ope.Storage.Watch.Stream.Ending.{ending_lem}
use aggregated_apiserver_ope.Tests.Sample.{plain, sample}
use aggregated_apiserver_ope.Tests.Storage.{two_clusters, web}

-- Both clusters hold one object; the second one refuses to be watched.
abbrev half_watchable : Watchable sample String
half_watchable = record {
  list = λ t target options. ok (web ∷ [], "7");
  watch = λ t target options.
      if target.client == "client a" then ok "watch a" else err (plain "refused" []);
  stop_order = λ remotes. (remotes, Permᴰ.refl remotes);
}

abbrev all_events : WatchRequest sample
all_events = record {
  label_selector = none;
  field_selector = none;
  send_initial_events = some true;
  allow_watch_bookmarks = true;
}

watch_lem_example :
    let (result, u) = watch sample half_watchable two_clusters "default" (some all_events) [] in
    Watched sample half_watchable two_clusters "default" (some all_events) [] result u
watch_lem_example = watch_lem sample half_watchable two_clusters "default" (some all_events) []

abbrev web_added : Event sample
web_added = record { type_name = added; object = unstructured web }

abbrev bookmarked : Event sample
bookmarked = record { type_name = bookmark; object = unstructured web }

abbrev both : Opened sample String
both = record {
  remotes = ("a", "watch a") ∷ ("b", "watch b") ∷ [];
  initial_events = bookmarked ∷ [];
}

-- The initial event is sent, then an object of the first cluster; a bookmark of the second is read.
abbrev under_way : (s : Stream sample String) × Reach sample both s
unfolding relayed
under_way = (
  _,
  later
      (later
        (later (later (later begin (send_initial bookmarked [] refl)) (start_forwards refl))
          (forward "a" "watch a" (Memᴰ.head refl) (take web_added _ refl refl)))
        (forward "b" "watch b" (Memᴰ.tail (Memᴰ.head refl)) (skip bookmarked refl refl)))
      (forward "a" "watch a" (Memᴰ.head refl) (deliver _ refl)),
)

stream_lem_example :
    let s = under_way.0 in
    (sent rest : List (Event sample)) × (relays : List (Received sample)) × (both.initial_events
      ≡ sent ++ rest)
    × (s.received ≡ from_initial sent ++ relays)
    × All (IsRelayed both) relays
    × ((rest ≡ []) ⊎ (relays ≡ []))
    × ((c : String) → Flow c (s.forwards c) (received_from c s.received))
stream_lem_example = stream_lem both under_way.1

two_returned :
    (f : String → Forward sample)
    → (f "a").place ≡ returned
    → (f "b").place ≡ returned
    → (c : String) (w : String) → Memᴰ (c, w) both.remotes
    → (f c).place ≡ returned
two_returned f a b c w (Memᴰ.head p) = subst (λ d. (f d).place ≡ returned) (sym (ap (λ y. y.0) p)) a
two_returned f a b c w (Memᴰ.tail (Memᴰ.head p)) =
    subst (λ d. (f d).place ≡ returned) (sym (ap (λ y. y.0) p)) b
two_returned f a b c w (Memᴰ.tail (Memᴰ.tail m)) = absurd (Memᴰ.not-nil m)

-- The second remote closes: its `forward` cancels, the others see it, and the channel is closed.
abbrev all_quit : (s : Stream sample String) × Reach sample both s
unfolding under_way
all_quit = (
  _,
  later
      (later
        (later
          (later
            (later under_way.1
              (forward "b" "watch b" (Memᴰ.tail (Memᴰ.head refl)) (remote_closed refl)))
            (deferred_cancel "b" "watch b" (Memᴰ.tail (Memᴰ.head refl)) refl))
          (see_context _ (Permᴰ.refl both.remotes) refl refl))
        (forward "a" "watch a" (Memᴰ.head refl) (done_while_reading refl refl)))
      (deferred_cancel "a" "watch a" (Memᴰ.head refl) refl),
)

abbrev ended : (s : Stream sample String) × Reach sample both s
unfolding all_quit
ended = (
  _,
  later
      (later
        (later (later all_quit.1 (all_returned refl (two_returned all_quit.0.forwards refl refl)))
          (stop_remote "a" "watch a" _ refl))
        (stop_remote "b" "watch b" _ refl))
      (close refl refl),
)

closed_lem_example :
    let s = ended.0 in
    (s.cancelled ≡ true)
    × Permᴰ s.stopped both.remotes
    × (s.fan_in ≡ finished)
    × ((c : String) (w : String)
        → Memᴰ (c, w) both.remotes
        → ((s.forwards c).place ≡ unstarted) ⊎ ((s.forwards c).place ≡ returned))
    × ((t : Stream sample String)
        → Step sample both s t
        → (t.received ≡ s.received) × (t.closer ≡ closed))
unfolding ended
closed_lem_example = closed_lem both ended.1 refl

-- The state in which the `forward` of the second cluster has seen its remote close.
abbrev closing : (s : Stream sample String) × Reach sample both s
unfolding under_way
closing =
    (_, later under_way.1 (forward "b" "watch b" (Memᴰ.tail (Memᴰ.head refl)) (remote_closed refl)))

ending_lem_example :
    (t : Stream sample String) × Alone both closing.0 t
    × (t.closer ≡ closed)
    × (t.received ≡ closing.0.received)
    × Permᴰ t.stopped both.remotes
unfolding closing
ending_lem_example =
    ending_lem both closing.0 closing.1
      (inr (inr ("b", "watch b", Memᴰ.tail (Memᴰ.head refl), inl refl)))

-- The last steps, which the watch makes alone.
abbrev alone_to_end : (t : Stream sample String) × Alone both all_quit.0 t
unfolding all_quit
alone_to_end = (
  _,
  next (next still (all_returned refl (two_returned all_quit.0.forwards refl refl)) tt)
      (stop_remote "a" "watch a" _ refl) tt,
)

Alone-ends_example :
    (count both alone_to_end.1 ≤ 14)
    × (((u : Stream sample String) (st : Step sample both alone_to_end.0 u) → IsAlone both st → ⊥)
        → alone_to_end.0.closer ≡ closed)
unfolding alone_to_end
Alone-ends_example = Alone-ends both all_quit.1 refl alone_to_end.1
