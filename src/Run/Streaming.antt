-- ===== src/Run/Streaming.antt =====
-- What the reader of a run's queue gets.
use mathlib.Core.List.{append_assoc}
use harness_run.Base.{
  any, String, ◌≡◌, refl, ◌∙◌, Bool, true, false, Option, none, some, List, [], ◌∷◌, ◌++◌, map, All,
  Bool-cases, inl, inr,
}
use harness_run.Events.{RunStatus, AgentEvent, is_result}
use harness_run.Structured.{Decoder}
use harness_run.Run.{
  Item, event, sentinel, Ending, exhausted, raised, DrivenRun, finalize, finish, drive_loop, drive,
  first_result, iterate, abnormal_event, put,
}

-- The status event that a source's exception adds to the stream.
abbrev pub epilogue : Bool → Ending → List AgentEvent
epilogue late exhausted = []
epilogue late (raised message) = abnormal_event late message ∷ []
epilogue late Ending.cancelled = []

iterate-map :
    (es : List AgentEvent) (rest : List Item) → iterate (map event es ++ sentinel ∷ rest) ≡ es
unfolding iterate
iterate-map [] rest = refl
iterate-map (e ∷ es) rest = rw (iterate-map es rest)

module _ {Json : Type 0} (d : Decoder Json) where
  queue-finalize :
      (ev : Option AgentEvent) (error : Option String) (run : DrivenRun Json)
      → (finalize d ev error run).queue ≡ run.queue
  unfolding finalize
  queue-finalize none error run = refl
  queue-finalize (some ev) error run = refl

  abbrev has_result : Option AgentEvent → Bool
  has_result none = false
  has_result (some e) = true

  queue-finish :
      (ev : Option AgentEvent) (ending : Ending) (run : DrivenRun Json)
      → (finish d ev ending run).queue
        ≡ run.queue ++ (map event (epilogue (has_result ev) ending) ++ sentinel ∷ [])
  unfolding finish
  queue-finish ev exhausted run = rw (queue-finalize ev none run)
  queue-finish none (raised message) run =
      append_assoc run.queue (event (abnormal_event false message) ∷ []) (sentinel ∷ [])
  queue-finish (some r) (raised message) run =
      append_assoc run.queue (event (abnormal_event true message) ∷ []) (sentinel ∷ [])
  queue-finish ev Ending.cancelled run =
      rw (queue-finalize ev (some "interrupted") (record run { cancelled = true }))

  -- Whether a result has been seen when the loop is through.
  abbrev late : Option AgentEvent → List AgentEvent → Bool
  late ev [] = has_result ev
  late ev (e ∷ es) = late (first_result d ev e) es

  late_of_some : (r : AgentEvent) (es : List AgentEvent) → late (some r) es ≡ true
  late_of_some r [] = refl
  late_of_some r (e ∷ es) = late_of_some r es

  late-eq-any : (es : List AgentEvent) → late none es ≡ any is_result es
  late-eq-any [] = refl
  late-eq-any (e ∷ es) = elim (Bool-cases (is_result e)) [
    | inl r ↦ rw (r, late) (late_of_some e es)
    | inr r ↦ rw (r, late) (late-eq-any es)
  ]

  queue-drive_loop :
      (es : List AgentEvent) (ending : Ending) (ev : Option AgentEvent) (run : DrivenRun Json)
      → All (λ e. run.on_event e ≡ none) es
      → (drive_loop d es ending ev run).queue
        ≡ run.queue ++ (map event (es ++ epilogue (late ev es) ending) ++ sentinel ∷ [])
  unfolding drive_loop
  queue-drive_loop [] ending ev run p = queue-finish ev ending run
  queue-drive_loop (e ∷ es) ending ev run p =
      rw (p.0, drive_loop)
        (queue-drive_loop es ending (first_result d ev e) (put (event e) run) p.1
          ∙ append_assoc run.queue (event e ∷ []) _)

  -- A reader of a new run on whose events the callback does not raise gets exactly the source's
  -- events, in order, and one status event behind them if the source raised; it says whether a
  -- result was kept. Nothing follows the end mark.
  pub drive_streams :
      (es : List AgentEvent) (ending : Ending) (run : DrivenRun Json)
      → run.queue ≡ []
      → All (λ e. run.on_event e ≡ none) es
      → let queue = (drive d es ending run).queue in
        let expected = es ++ epilogue (any is_result es) ending in
        (iterate queue ≡ expected) × (queue ≡ map event expected ++ sentinel ∷ [])
  unfolding drive
  drive_streams es ending run fresh p =
      let q = queue-drive_loop es ending none (record run { status = RunStatus.running }) p in
      let flat : (drive d es ending run).queue
          ≡ map event (es ++ epilogue (any is_result es) ending) ++ sentinel ∷ [] =
        q ∙ rw (fresh, late-eq-any es) refl in
      (rw flat (iterate-map (es ++ epilogue (any is_result es) ending) []), flat)
