-- ===== src/Tests/MirrorRuns.antt =====
-- The mirror's writer and the readers of a turn at concrete events.
use harness_run.Base.{
  ℕ, String, ◌==◌, ◌≡◌, refl, Bool, true, false, Option, none, some, List, [], ◌∷◌, eqb,
  if◌then◌else◌,
}
use harness_run.Mirror.{Got, queued, timed_out, stopped}
use harness_run.Mirror.Written.{joined}
use harness_run.Tail.{Status, going, Tail, Poll, list_failed, listed, tail_stream, new_tail}
use harness_run.Tail.Once.{joined as joined_events}
use harness_run.Tail.Live.{
  Direct, paged, call_failed, vanished, direct, stream_turn, Cause, worker_ended, sandbox_gone,
  stopped_answering, emit_lines,
}
use harness_run.Tail.Live.Fallback.{Continues, stream_turn-mirrored}
use harness_run.Tail.Live.Ends.{IsWhole, stream_turn-IsWhole}
use harness_run.Tail.Live.{new_live}

abbrev plain : String → Got String
plain l = queued (record { line = l; urgent = false; awaited = false })

abbrev terminal : String → Got String
terminal l = queued (record { line = l; urgent = true; awaited = true })

abbrev queue : List (Got String)
queue = plain "one" ∷ plain "two" ∷ timed_out ∷ terminal "result" ∷ stopped ∷ []

-- A store that takes every object but the first.
abbrev store : Option (ℕ → Bool)
store = some (λ n. if eqb n 1 then false else true)

-- Events are texts here, and "result" is the terminal one.
abbrev passes : String → Bool
passes e = if e == "other turn" then false else true

abbrev is_result : String → Bool
is_result e = e == "result"

abbrev names_turn : String → Bool
names_turn k = if k == "0001-t0.jsonl" then false else true

abbrev polls : List (Poll String)
polls =
    listed (
      ("0001-t0.jsonl", some ("x" ∷ []))
      ∷ ("0002-t1.jsonl", some ("a" ∷ "other turn" ∷ []))
      ∷ ("0003-t1.jsonl", none)
      ∷ [])
    ∷ list_failed
    ∷ listed (
        ("0002-t1.jsonl", some ("a" ∷ []))
        ∷ ("0003-t1.jsonl", some ("b" ∷ "result" ∷ "c" ∷ []))
        ∷ [])
    ∷ []

tailed :
    (tail_stream passes is_result names_turn polls (new_tail passes is_result names_turn)).1.yielded
    ≡ "a" ∷ "b" ∷ "result" ∷ []
unfolding tail_stream harness_run.Tail.yields
tailed = refl

abbrev synthetic : Cause → String
synthetic worker_ended = "worker ended"
synthetic sandbox_gone = "sandbox gone"
synthetic stopped_answering = "stopped answering"

abbrev calls : List (Direct String)
calls = call_failed ∷ paged (some "a" ∷ []) false ∷ vanished ∷ []

-- What the tail of the mirror has given, by the end of the time that there is.
abbrev tail_of : List String → Tail String
tail_of es = record { seen_keys = []; contents = []; failures = 0; yielded = es }

stream_turn-mirrored_example :
    (r : List String × Bool) × Continues passes is_result synthetic true false
      ("b" ∷ "result" ∷ [])
      r
    × (stream_turn passes is_result synthetic calls (going, tail_of ("a" ∷ "b" ∷ "result" ∷ []))
        ≡ ("a" ∷ r.0, r.1))
unfolding direct emit_lines
stream_turn-mirrored_example =
    stream_turn-mirrored passes is_result synthetic calls ("b" ∷ "result" ∷ []) true going
      (tail_of ("a" ∷ "b" ∷ "result" ∷ [])) (tt, ((refl, tt), (tt, tt))) refl refl

fallen_back :
    stream_turn passes is_result synthetic calls (going, tail_of ("a" ∷ "b" ∷ []))
    ≡ ("a" ∷ "b" ∷ "sandbox gone" ∷ [], false)
unfolding stream_turn
fallen_back = refl

tail_raised :
    stream_turn passes is_result synthetic calls (Status.raised, tail_of ("a" ∷ "b" ∷ []))
    ≡ ("a" ∷ "b" ∷ [], true)
unfolding stream_turn
tail_raised = refl

abbrev final : Cause → String
final c = "result"

final_is_terminal : (c : Cause) → is_result (final c) ≡ true
final_is_terminal c = refl

stream_turn-IsWhole_example :
    IsWhole passes is_result final
      (direct passes is_result final calls (new_live passes is_result final)).0
      Status.raised
      (stream_turn passes is_result final calls (Status.raised, tail_of ("a" ∷ "b" ∷ [])))
stream_turn-IsWhole_example =
    stream_turn-IsWhole passes is_result final calls Status.raised (tail_of ("a" ∷ "b" ∷ []))
      final_is_terminal
