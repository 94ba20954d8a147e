-- ===== src/Storage/Watch/Stream.antt =====
-- pkg/apiserver/storage/watcher.go, the goroutines of `Watch` over their unbuffered channel: the one
-- that sends the initial events and starts a `forward` per cluster, those `forward`s, and the one
-- that stops the remotes, in the order in which Go ranges over their map, and closes the channel. They run interleaved in any order.
pub mod Turns
pub mod Flow
pub mod Order
pub mod Closing
pub mod Cancels
pub mod Alone
pub mod Ending
pub mod Bounded
use mathlib.Core.List.{Memᴰ, Permᴰ}
use aggregated_apiserver_ope.Prelude.{
  String, ◌≡◌, Bool, true, false, Option, none, some, List, [], ◌∷◌, ◌++◌, map, ◌==◌, string_eq,
  if◌then◌else◌,
}
use aggregated_apiserver_ope.Kube.{Kube}
use aggregated_apiserver_ope.Storage.{RuntimeObject, unstructured, other}
use aggregated_apiserver_ope.Storage.Metadata.{stamp}
use aggregated_apiserver_ope.Storage.Watch.{
  EventType, Event, Opened, added, modified, deleted, bookmark, error,
}

module _ (K : Kube) where
  abbrev pub stamp_object : String → RuntimeObject K → RuntimeObject K
  stamp_object cluster (unstructured obj) = unstructured (stamp K obj cluster)
  stamp_object cluster (other obj) = other obj

  -- What `forward` makes of an event that it has read: a bookmark is skipped.
  unfoldable pub relayed : String → Event K → Option (Event K)
  relayed cluster event = elim event.type_name [
    | bookmark ↦ none
    | _ ↦ some (record event { object = stamp_object cluster event.object })
  ]

  -- Where a `forward` stands: not started, at the first select, at the second one with an event
  -- to send, at its deferred cancel, or returned.
  pub data Place : Type 0 where
    unstarted reading leaving returned : Place
    sending : Event K → Place

  -- A `forward`, with the events that it has read.
  pub record Forward : Type 0 where
    pub place : Place
    pub seen : List (Event K)

  -- One step of the `forward` of a cluster. The flag tells whether the context is done; the list is
  -- what the step sends to the client.
  pub data Move (cluster : String) (cancelled : Bool) (f : Forward)
      : Forward → List (Event K) → Type 0 where
    done_while_reading :
        f.place ≡ reading
        → cancelled ≡ true
        → Move cluster cancelled f (record f { place = leaving }) []
    remote_closed : f.place ≡ reading → Move cluster cancelled f (record f { place = leaving }) []
    skip :
        (event : Event K)
        → f.place ≡ reading
        → relayed cluster event ≡ none
        → Move cluster cancelled f (record f { seen = f.seen ++ (event ∷ []) }) []
    take :
        (event out : Event K)
        → f.place ≡ reading
        → relayed cluster event ≡ some out
        → Move cluster cancelled f
            (record { place = sending out; seen = f.seen ++ (event ∷ []) })
            []
    deliver :
        (out : Event K)
        → f.place ≡ sending out
        → Move cluster cancelled f (record f { place = reading }) (out ∷ [])
    done_while_sending :
        (out : Event K)
        → f.place ≡ sending out
        → cancelled ≡ true
        → Move cluster cancelled f (record f { place = leaving }) []

  -- The goroutine `fanIn`: what it has still to send of the initial events, then waiting for the
  -- `forward`s, then done.
  pub data FanIn : Type 0 where
    initial : List (Event K) → FanIn
    waiting : FanIn
    finished : FanIn

  -- The last goroutine: at its select, stopping the remotes that are left, and after the close.
  pub data Closer (W : Type 0) : Type 0 where
    guarding : Closer W
    stopping_remotes : List (String × W) → Closer W
    closed : Closer W

  -- An event that the client received, with the cluster whose `forward` sent it.
  pub record Received : Type 0 where
    pub source : Option String
    pub event : Event K

  pub record Stream (W : Type 0) : Type 0 where
    pub fan_in : FanIn
    pub forwards : String → Forward
    pub closer : Closer W
    pub cancelled : Bool  -- watchCtx is done
    pub stop_called : Bool  -- the sync.Once of Stop
    pub stopped : List (String × W)  -- the remotes whose Stop was called
    pub received : List Received

  abbrev pub from_cluster : String → List (Event K) → List Received
  from_cluster cluster events = map (λ e. record { source = some cluster; event = e }) events

  abbrev pub set_forward : String → Forward → (String → Forward) → String → Forward
  set_forward cluster f forwards d = if d == cluster then f else forwards d

  module _ {W : Type 0} where
    -- `multiWatch.Stop`: the Once calls `cancel` the first time only.
    abbrev pub stop : Stream W → Stream W
    stop s = record s {
      stop_called = true;
      cancelled = if s.stop_called then s.cancelled else true;
    }

    -- What `Watch` returns.
    abbrev pub start : Opened K W → Stream W
    start opened = record {
      fan_in = initial opened.initial_events;
      forwards = λ c. record { place = unstarted; seen = [] };
      closer = guarding;
      cancelled = false;
      stop_called = false;
      stopped = [];
      received = [];
    }

    abbrev pub after_move : Stream W → String → Forward → List (Event K) → Stream W
    after_move s cluster f sent = record s {
      forwards = set_forward cluster f s.forwards;
      received = s.received ++ from_cluster cluster sent;
    }

    -- A step of one of the goroutines, of the client, or of a context around them.
    pub data Step (opened : Opened K W) (s : Stream W) : Stream W → Type 0 where
      send_initial :
          (event : Event K) (rest : List (Event K))
          → s.fan_in ≡ initial (event ∷ rest)
          → Step opened s (record s {
            fan_in = initial rest;
            received = s.received ++ (record { source = none; event = event } ∷ []);
          })
      leave_initial :
          (event : Event K) (rest : List (Event K))
          → s.fan_in ≡ initial (event ∷ rest)
          → s.cancelled ≡ true
          → Step opened s (record s { fan_in = finished })
      start_forwards :
          s.fan_in ≡ initial []
          → Step opened s
              (record s { fan_in = waiting; forwards = λ c. record { place = reading; seen = [] } })
      forward :
          (cluster : String) (w : W) {f : Forward} {sent : List (Event K)}
          → Memᴰ (cluster, w) opened.remotes
          → Move cluster s.cancelled (s.forwards cluster) f sent
          → Step opened s (after_move s cluster f sent)
      deferred_cancel :
          (cluster : String) (w : W)
          → Memᴰ (cluster, w) opened.remotes
          → (s.forwards cluster).place ≡ leaving
          → Step opened s (record s {
            forwards =
                set_forward cluster (record (s.forwards cluster) { place = returned }) s.forwards;
            cancelled = true;
          })
      all_returned :
          s.fan_in ≡ waiting
          → ((cluster : String) (w : W)
              → Memᴰ (cluster, w) opened.remotes
              → (s.forwards cluster).place ≡ returned)
          → Step opened s (record s { fan_in = finished })
      client_stop : Step opened s (stop s)
      context_done : Step opened s (record s { cancelled = true })
      see_context :
          (order : List (String × W))
          → Permᴰ order opened.remotes
          → s.closer ≡ guarding
          → s.cancelled ≡ true
          → Step opened s (record s { closer = stopping_remotes order })
      options_done :
          (order : List (String × W))
          → Permᴰ order opened.remotes
          → s.closer ≡ guarding
          → Step opened s (record s { closer = stopping_remotes order; cancelled = true })
      stop_remote :
          (cluster : String) (w : W) (rest : List (String × W))
          → s.closer ≡ stopping_remotes ((cluster, w) ∷ rest)
          → Step opened s (record s {
            closer = stopping_remotes rest;
            stopped = s.stopped ++ ((cluster, w) ∷ []);
          })
      close :
          s.closer ≡ stopping_remotes []
          → s.fan_in ≡ finished
          → Step opened s (record s { closer = closed })

    pub data Reach (opened : Opened K W) : Stream W → Type 0 where
      begin : Reach opened (start opened)
      later : {s t : Stream W} → Reach opened s → Step opened s t → Reach opened t
