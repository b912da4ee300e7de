-- ===== src/Engine/Subscribers.antt =====
-- src/cacheopt/invalidation.py, `InvalidationSubscriber._run`, as the thread of a node of a cluster.
use cacheopt.Base.{
  ◌≡◌, refl, sym, ◌∙◌, ap, none, some, List, [], ◌∷◌, length, ◌≢◌, dec_str, if_pos, if_neg,
}
use cacheopt.Engine.{Node, handle_event}
use cacheopt.Engine.Draining.{run_thread}
use cacheopt.Memory.{MemoryBuffer}
use cacheopt.Planner.{Setting}
use cacheopt.Versions.{Event}
use cacheopt.Versions.Subscriber.{
  Wire, IsWire, Message, Round, published, news_of, Delivers, at_end, stopped, broken, event,
  timeout, other_kind, unreadable, on_invalidate, run,
}

module _ (W : Wire) where
  -- Events handed over in order.
  abbrev purge_all : {N : Type 0} → List Event → MemoryBuffer N → MemoryBuffer N
  purge_all [] b = b
  purge_all (e ∷ es) b = purge_all es (on_invalidate W e b)

  other_news : (m : Message W) → m.kind ≢ "pmessage" → news_of W (some m) ≡ none
  unfolding news_of
  other_news m other = if_neg (dec_str m.kind "pmessage") other (W.payload m.body) none

  unreadable_news : (m : Message W) → W.payload m.body ≡ none → news_of W (some m) ≡ none
  unfolding news_of
  unreadable_news m h = elim (dec_str m.kind "pmessage") [
    | yes p ↦ if_pos (dec_str m.kind "pmessage") p (W.payload m.body) none ∙ h
    | no other ↦ if_neg (dec_str m.kind "pmessage") other (W.payload m.body) none
  ]

  published_news : IsWire W → (e : Event) → news_of W (some (published W e)) ≡ some e
  unfolding news_of
  published_news ok e =
      if_pos (dec_str "pmessage" "pmessage") refl (W.payload (W.dumps e)) none ∙ ok.payload-dumps e

  run-purge_all :
      {N : Type 0} (ok : IsWire W) {rounds : List (Round W)} {es : List Event} (b : MemoryBuffer N)
      → Delivers W rounds es
      → run W rounds b ≡ purge_all es b
  unfolding run
  run-purge_all ok b at_end = refl
  run-purge_all ok b stopped = refl
  run-purge_all ok b broken = refl
  run-purge_all ok b (event e more) =
      rw (published_news ok e) (run-purge_all ok (on_invalidate W e b) more)
  run-purge_all ok b (timeout more) = run-purge_all ok b more
  run-purge_all ok b (other_kind m other more) = rw (other_news m other) (run-purge_all ok b more)
  run-purge_all ok b (unreadable m h more) = rw (unreadable_news m h) (run-purge_all ok b more)

  module _ (S : Setting) where
    handled :
        (e : Event) (es : List Event) (n : Node S)
        → n.inbox ≡ e ∷ es
        → ((handle_event S n).inbox ≡ es) × ((handle_event S n).memory ≡ on_invalidate W e n.memory)
    unfolding handle_event on_invalidate
    handled e es n waits = rw (waits, handle_event) (refl, refl)

    run_thread-purge_all :
        (es : List Event) (n : Node S)
        → n.inbox ≡ es
        → (run_thread S (length es) n).memory ≡ purge_all es n.memory
    unfolding run_thread
    run_thread-purge_all [] n waits = refl
    run_thread-purge_all (e ∷ es) n waits =
        let (inbox, memory) = handled e es n waits in
        run_thread-purge_all es (handle_event S n) inbox ∙ ap (purge_all es) memory

    -- The thread of `_run`, over messages that are read as they were published: up to the stop it
    -- leaves the buffer that the events published make of it, in their order, one for each round of
    -- the node's thread, whatever timeouts, messages of other kinds and unreadable messages come in
    -- between.
    pub run-run_thread :
        (ok : IsWire W) (rounds : List (Round W)) (n : Node S)
        → Delivers W rounds n.inbox
        → run W rounds n.memory ≡ (run_thread S (length n.inbox) n).memory
    run-run_thread ok rounds n delivered =
        run-purge_all ok n.memory delivered ∙ sym (run_thread-purge_all n.inbox n refl)
