-- ===== src/Mirror/Acked.antt =====
-- What an acknowledged line says of the store.
use harness_run.Base.{◌≡◌, Bool, true, List, [], ◌∷◌, In, ◌⊎◌}
use harness_run.Mirror.{Mirror}

module _ {Line : Type 0} where
  -- The line is in a batch whose write succeeded.
  abbrev pub Stored : Line → List (List Line × Bool) → Type 0
  Stored l [] = ⊥
  Stored l (b ∷ bs) = (In l b.0 × (b.1 ≡ true)) ⊎ Stored l bs

  -- The waiting acks are for buffered lines, and an ack of success is for a stored one.
  abbrev pub IsHonest : Mirror Line → Type 0
  IsHonest m =
      ((l : Line) → In l m.acks → In l m.buffered)
      × ((l : Line) → In {A = Line × Bool} (l, true) m.acked → Stored l m.batches)
