-- ===== src/ClaudeCode/Delivery.antt =====
-- When an operator's message counts as taken by the model.
use harness_run.Base.{
  ℕ, ◌+◌, ltb, ◌≡◌, refl, Bool, true, false, not, ◌&&◌, ◌||◌, List, [], ◌∷◌, if◌then◌else◌,
  Bool-cases, inl, inr, arith, ◌∙◌, ap,
}
use harness_run.Events.{AgentEvent}
use harness_run.ClaudeCode.{
  SteerTracker, steer_sent, observe_steers, steers_waiting, is_boundary, is_output,
}

-- What a tracker meets: a message goes to the CLI, or an event comes from it.
pub data Met : Type 0 where
  sent : Met
  seen : AgentEvent → Met

unfoldable pub track : List Met → SteerTracker → SteerTracker
unfolding observe_steers
track [] s = s
track (sent ∷ ms) s = track ms (steer_sent s)
track (seen e ∷ ms) s = track ms (observe_steers e s)

-- The model puts something out.
unfoldable pub answered : List Met → Bool
answered [] = false
answered (sent ∷ ms) = answered ms
answered (seen e ∷ ms) = (not (is_boundary e) && is_output e) || answered ms

-- A model call is assembled, and the model puts something out behind that.
unfoldable pub delivered : List Met → Bool
unfolding answered
delivered [] = false
delivered (sent ∷ ms) = delivered ms
delivered (seen e ∷ ms) = if is_boundary e then answered ms else delivered ms

-- Some message was sent, and behind it no call was assembled and answered.
unfoldable pub owed : List Met → Bool
unfolding delivered
owed [] = false
owed (sent ∷ ms) = not (delivered ms) || owed ms
owed (seen e ∷ ms) = owed ms

abbrev pub due : Bool → Bool → List Met → Bool
due u s ms = (u && not (delivered ms)) || (s && not (answered ms)) || owed ms

at_end : (u s : Bool) → u || s ≡ (u && not false) || (s && not false) || false
at_end u s = ground arith

at_sent :
    (u s d a o : Bool)
    → (true && not d) || (s && not a) || o ≡ (u && not d) || (s && not a) || (not d || o)
at_sent u s d a o = ground arith

at_boundary :
    (u s a o : Bool)
    → (false && not a) || ((s || u) && not a) || o ≡ (u && not a) || (s && not (false || a)) || o
at_boundary u s a o = ground arith

at_output :
    (u s d a o : Bool)
    → (u && not d) || (false && not a) || o ≡ (u && not d) || (s && not (true || a)) || o
at_output u s d a o = ground arith

positive : (n : ℕ) → ltb 0 (n + 1) ≡ true
positive n = ground arith

either : (m n : ℕ) → ltb 0 (m + n) ≡ ltb 0 m || ltb 0 n
either m n = ground arith

observe_boundary :
    (e : AgentEvent) (s : SteerTracker)
    → is_boundary e ≡ true
    → observe_steers e s ≡ record { undelivered = 0; staged = s.staged + s.undelivered }
unfolding observe_steers
observe_boundary e s b = rw b refl

observe_output :
    (e : AgentEvent) (s : SteerTracker)
    → is_boundary e ≡ false
    → is_output e ≡ true
    → observe_steers e s ≡ record s { staged = 0 }
unfolding observe_steers
observe_output e s b o = rw (b, o) refl

observe_other :
    (e : AgentEvent) (s : SteerTracker)
    → is_boundary e ≡ false
    → is_output e ≡ false
    → observe_steers e s ≡ s
unfolding observe_steers
observe_other e s b o = rw (b, o) refl

track-due :
    (ms : List Met) (s : SteerTracker)
    → steers_waiting (track ms s) ≡ due (ltb 0 s.undelivered) (ltb 0 s.staged) ms
unfolding track steers_waiting answered delivered owed observe_steers
track-due [] s = at_end (ltb 0 s.undelivered) (ltb 0 s.staged)
track-due (sent ∷ ms) s =
    track-due ms (steer_sent s)
    ∙ rw (positive s.undelivered)
        (at_sent (ltb 0 s.undelivered) (ltb 0 s.staged) (delivered ms) (answered ms) (owed ms))
track-due (seen e ∷ ms) s = elim (Bool-cases (is_boundary e)) [
  | inl b ↦
      ap (λ t. steers_waiting (track ms t)) (observe_boundary e s b)
      ∙ (track-due ms (record { undelivered = 0; staged = s.staged + s.undelivered })
          ∙ rw (either s.staged s.undelivered) (
              rw (b, due, delivered, answered)
                (at_boundary (ltb 0 s.undelivered) (ltb 0 s.staged) (answered ms) (owed ms))))
  | inr b ↦ elim (Bool-cases (is_output e)) [
    | inl o ↦
        ap (λ t. steers_waiting (track ms t)) (observe_output e s b o)
        ∙ (track-due ms (record s { staged = 0 })
            ∙ rw (b, o, due, delivered, answered)
                (at_output (ltb 0 s.undelivered) (ltb 0 s.staged) (delivered ms) (answered ms)
                  (owed ms)))
    | inr o ↦
        ap (λ t. steers_waiting (track ms t)) (observe_other e s b o)
        ∙ (track-due ms s ∙ rw (b, o, due, delivered, answered) refl)
  ]
]

-- From a new tracker on, whatever messages are sent and whatever events come: the tracker says
-- that it waits exactly where some message was sent behind which no model call was assembled and
-- then answered.
pub steers_waiting-track :
    (ms : List Met) → steers_waiting (track ms (record { undelivered = 0; staged = 0 })) ≡ owed ms
steers_waiting-track ms = track-due ms (record { undelivered = 0; staged = 0 })
