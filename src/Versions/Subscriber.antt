-- ===== src/Versions/Subscriber.antt =====
-- src/cacheopt/invalidation.py: `InvalidationSubscriber`, the thread that purges the buffer of a node.
use cacheopt.Base.{
  ◌≡◌, ◌≢◌, String, Bool, true, false, Option, none, some, List, [], ◌∷◌, ite, dec_str,
}
use cacheopt.Dict.{insert}
use cacheopt.Memory.{MemoryBuffer, invalidate_tables}
use cacheopt.Versions.{Event}

-- The data of a message on a channel. `dumps` is `json.dumps` of an event; `payload` is the table and
-- the version in the object that `json.loads` gives, and `none` where that or taking them raises.
pub record Wire : Type 1 where
  pub Data : Type 0
  pub dumps : Event → Data
  pub payload : Data → Option Event

-- What is published is read back.
pub record IsWire (W : Wire) : Type 0 where
  pub payload-dumps : (e : Event) → W.payload (W.dumps e) ≡ some e

-- What the object holds: the pattern it listens for, whether its thread has been started, the event
-- that ends it, and whether the connection has been closed.
pub record InvalidationSubscriber : Type 0 where
  pub pattern : Option String
  pub has_thread : Bool
  pub is_stopped : Bool
  pub is_closed : Bool

-- `__init__`
unfoldable pub new_subscriber : InvalidationSubscriber
new_subscriber = record {
  pattern = none;
  has_thread = false;
  is_stopped = false;
  is_closed = false;
}

unfoldable pub start : InvalidationSubscriber → InvalidationSubscriber
start s = record s { pattern = some "cacheopt:invalidate:*"; has_thread = true; is_closed = false }

close_pubsub : Option String → InvalidationSubscriber → InvalidationSubscriber
close_pubsub none s = s
close_pubsub (some pattern) s = record s { is_closed = true }

-- What `stop` does to the object: it sets the event that tells the thread to end, and closes the
-- connection. In between, `join` waits for a second at most; that the thread has ended by then is
-- not said here.
unfoldable pub stop : InvalidationSubscriber → InvalidationSubscriber
unfolding close_pubsub
stop s = close_pubsub s.pattern (record s { is_stopped = true })

module _ (W : Wire) where
  pub record Message : Type 0 where
    pub kind : String
    pub body : W.Data

  -- What `bump_and_publish` sends, as the pattern delivers it.
  abbrev pub published : Event → Message
  published e = record { kind = "pmessage"; body = W.dumps e }

  -- The event that a message tells of, if it is read without an exception.
  unfoldable pub news_of : Option Message → Option Event
  news_of none = none
  news_of (some m) = ite (dec_str m.kind "pmessage") (W.payload m.body) none

  -- What `get_message` does: it raises, or it returns `None` or a message.
  pub data Poll : Type 0 where
    raises : Poll
    returns : Option Message → Poll

  -- What one round meets: whether the stop event is set, and what `get_message` does.
  abbrev pub Round : Type 0
  Round = Bool × Poll

  -- What rounds deliver up to the stop, or up to a `get_message` that raises: the events that were published, with waits that time out,
  -- messages of other kinds and messages that cannot be read in between.
  pub data Delivers : List Round → List Event → Type 0 where
    at_end : Delivers [] []
    stopped : {p : Poll} {rounds : List Round} → Delivers ((true, p) ∷ rounds) []
    broken : {rounds : List Round} → Delivers ((false, raises) ∷ rounds) []
    event :
        {rounds : List Round} {es : List Event} (e : Event)
        → Delivers rounds es
        → Delivers ((false, returns (some (published e))) ∷ rounds) (e ∷ es)
    timeout :
        {rounds : List Round} {es : List Event}
        → Delivers rounds es
        → Delivers ((false, returns none) ∷ rounds) es
    other_kind :
        {rounds : List Round} {es : List Event} (m : Message)
        → m.kind ≢ "pmessage"
        → Delivers rounds es
        → Delivers ((false, returns (some m)) ∷ rounds) es
    unreadable :
        {rounds : List Round} {es : List Event} (m : Message)
        → W.payload m.body ≡ none
        → Delivers rounds es
        → Delivers ((false, returns (some m)) ∷ rounds) es

  module _ {N : Type 0} where
    -- `self._on_invalidate({table}, {table: version})`
    unfoldable pub on_invalidate : Event → MemoryBuffer N → MemoryBuffer N
    on_invalidate e b = invalidate_tables (e.table ∷ []) (insert e.table e.version []) b

    purged : Option Event → MemoryBuffer N → MemoryBuffer N
    purged none b = b
    purged (some e) b = on_invalidate e b

    -- `_run`, as long as the rounds that it meets go on. An exception of `get_message`, which stands
    -- outside the `try`, ends the thread.
    unfoldable pub run : List Round → MemoryBuffer N → MemoryBuffer N
    unfolding purged news_of on_invalidate
    run [] b = b
    run ((true, p) ∷ rounds) b = b
    run ((false, raises) ∷ rounds) b = b
    run ((false, returns m) ∷ rounds) b = run rounds (purged (news_of m) b)
