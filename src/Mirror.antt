-- ===== src/Mirror.antt =====
-- harness_run/runtime/sandbox/stream.py: the writer of the event mirror.
pub mod Written
pub mod Acked
use harness_run.Base.{
  ℕ, zero, suc, ◌+◌, String, ◌==◌, Bool, true, false, Option, none, some, List, [], ◌∷◌, ◌++◌,
  if◌then◌else◌, length, leb, ltb, any, append_one, map,
}

-- A queued line: whether it is the terminal result's, and whether its caller waits for the
-- write.
pub record Queued (Line : Type 0) : Type 0 where
  pub line : Line
  pub urgent : Bool
  pub awaited : Bool

-- What the writer's thread gets from its queue: a line, a timeout, or the stop mark.
pub data Got (Line : Type 0) : Type 0 where
  queued : Queued Line → Got Line
  timed_out : Got Line
  stopped : Got Line

-- `buffered` and the lines of `acks`; the batches that `_flush` was given, with what it
-- answered; and the acks that were set, each by its line. `seq` counts the objects.
pub record Mirror (Line : Type 0) : Type 0 where
  pub buffered : List Line
  pub acks : List Line
  pub seq : ℕ
  pub batches : List (List Line × Bool)
  pub acked : List (Line × Bool)

-- `_FLUSH_MAX_EVENTS`
abbrev pub flush_max_events : ℕ
flush_max_events = 50

-- `store` says whether the write of the object with this number succeeds; it is `none` for a bad
-- URI.
module _ {Line : Type 0} (store : Option (ℕ → Bool)) where
  abbrev pub new_mirror : Mirror Line
  new_mirror = record { buffered = []; acks = []; seq = 0; batches = []; acked = [] }

  -- `_flush`: what it answers, and the count of objects.
  abbrev pub put_lines : List Line → ℕ → Bool × ℕ
  put_lines [] seq = (true, seq)
  put_lines (l ∷ ls) seq = elim store [
    | none ↦ (false, seq)
    | some takes ↦ (takes (suc seq), suc seq)
  ]

  -- The `flush` of `_drain`.
  unfoldable pub flush : Mirror Line → Mirror Line
  flush m =
      let (ok, seq) = put_lines m.buffered m.seq in
      record {
        buffered = [];
        acks = [];
        seq = seq;
        batches = append_one m.batches (m.buffered, ok);
        acked = m.acked ++ map (λ l. (l, ok)) m.acks;
      }

  abbrev pub with_ack : Bool → Line → List Line → List Line
  with_ack true l acks = append_one acks l
  with_ack false l acks = acks

  abbrev pub buffer : Queued Line → Mirror Line → Mirror Line
  buffer q m = record m {
    buffered = append_one m.buffered q.line;
    acks = with_ack q.awaited q.line m.acks;
  }

  abbrev pub flushes : Queued Line → Mirror Line → Bool
  flushes q m = if q.urgent then true else leb flush_max_events (length m.buffered)

  unfoldable pub take : Queued Line → Mirror Line → Mirror Line
  unfolding flush
  take q m = let n = buffer q m in if flushes q n then flush n else n

  -- `_drain`: up to the stop mark.
  unfoldable pub drain : List (Got Line) → Mirror Line → Mirror Line
  unfolding flush take
  drain [] m = m
  drain (queued q ∷ gs) m = drain gs (take q m)
  drain (timed_out ∷ gs) m = drain gs (flush m)
  drain (stopped ∷ gs) m = flush m
