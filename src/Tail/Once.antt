-- ===== src/Tail/Once.antt =====
-- Each object of the mirror is delivered once.
use harness_run.Base.{String, ◌≡◌, Bool, true, false, List, [], ◌∷◌, ◌++◌, Distinct}
use harness_run.Tail.{Status, ended, Tail, yields}

module _ {Event : Type 0} (passes is_result : Event → Bool) (names_turn : String → Bool) where
  -- The events up to the terminal one, of all objects together.
  abbrev pub joined : List (List Event) → List Event
  joined [] = []
  joined (es ∷ rest) = es ++ joined rest

  abbrev pub until_result : List Event → List Event
  until_result es = (yields passes is_result names_turn es).0

  abbrev pub has_result : List Event → Bool
  has_result es = (yields passes is_result names_turn es).1

  abbrev pub is_ended : Status → Bool
  is_ended ended = true
  is_ended _ = false

  -- The keys are different, the events are those of the objects, in order, up to the terminal
  -- one, and the reader has ended if that is among them.
  abbrev pub Agrees : Status → Tail Event → Type 0
  Agrees s t =
      Distinct t.seen_keys
      × (t.yielded ≡ until_result (joined t.contents))
      × (has_result (joined t.contents) ≡ is_ended s)

  -- What is read up to the first terminal event, that one included, and whether there is one.
  pub data UpTo : List Event → List Event → Bool → Type 0 where
    nothing : UpTo [] [] false
    stops : {e : Event} {es : List Event} → is_result e ≡ true → UpTo (e ∷ es) (e ∷ []) true
    goes_on :
        {e : Event} {es fs : List Event} {b : Bool}
        → is_result e ≡ false
        → UpTo es fs b
        → UpTo (e ∷ es) (e ∷ fs) b
