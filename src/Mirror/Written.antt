-- ===== src/Mirror/Written.antt =====
-- What the mirror's writer hands to the store.
use harness_run.Base.{◌≤◌, Bool, none, List, [], ◌∷◌, ◌++◌, length, All}
use harness_run.Mirror.{Got, queued, timed_out, stopped, Mirror, with_ack}

module _ {Line : Type 0} where
  abbrev pub lines_of : List (Got Line) → List Line
  lines_of [] = []
  lines_of (queued q ∷ gs) = q.line ∷ lines_of gs
  lines_of (timed_out ∷ gs) = lines_of gs
  lines_of (stopped ∷ gs) = []

  -- The lines whose callers wait.
  abbrev pub awaited_of : List (Got Line) → List Line
  awaited_of [] = []
  awaited_of (queued q ∷ gs) = with_ack none q.awaited q.line [] ++ awaited_of gs
  awaited_of (timed_out ∷ gs) = awaited_of gs
  awaited_of (stopped ∷ gs) = []

  abbrev pub Stops : List (Got Line) → Type 0
  Stops [] = ⊥
  Stops (stopped ∷ gs) = Unit
  Stops (g ∷ gs) = Stops gs

  abbrev pub joined : List (List Line × Bool) → List Line
  joined [] = []
  joined (b ∷ bs) = b.0 ++ joined bs

  abbrev pub IsSmall : List Line × Bool → Type 0
  IsSmall b = length b.0 ≤ 50

  -- Everything the writer has taken, in order.
  abbrev taken : Mirror Line → List Line
  taken m = joined m.batches ++ m.buffered

  -- A writer between two steps: a batch that has 50 lines was flushed.
  abbrev pub IsBounded : Mirror Line → Type 0
  IsBounded m = (length m.buffered ≤ 49) × All IsSmall m.batches
