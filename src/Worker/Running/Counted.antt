-- ===== src/Worker/Running/Counted.antt =====
-- How many terminal results each write puts on the record.
use harness_run.Base.{
  ℕ, ◌+◌, String, ◌≡◌, refl, Bool, true, false, ◌||◌, Option, List, [], ◌∷◌, if◌then◌else◌,
  append_one, Bool-cases, inl, inr, ◌∙◌, any, arith,
}
use harness_run.Events.{AgentEvent, is_result, Resources, MirroredBy}
use harness_run.Worker.Running.{
  Sampled, sampled, pressed, pressure_mirrored, line, acts_of, later_acts, acts_live, pause,
  pressure_event, Running, answer_of, flag, identify, surface_result, surface_plain, surface,
}

-- The number of terminal results.
unfoldable pub results : List AgentEvent → ℕ
results [] = 0
results (e ∷ es) = (if is_result e then 1 else 0) + results es

pub results-append_one :
    (es : List AgentEvent) (e : AgentEvent)
    → results (append_one es e) ≡ results es + results (e ∷ [])
unfolding results
results-append_one [] e = omega arith
results-append_one (x ∷ es) e = rw (results-append_one es e) (omega arith)

-- The results on the record and whether one was seen.
pub record Shows (n : ℕ) (saw : Bool) (t : Running) : Type 0 where
  pub shown : results t.live ≡ n
  pub seen : t.saw_result ≡ saw

pub Shows-cast :
    (n m : ℕ) (saw seen : Bool) (t : Running) → n ≡ m → saw ≡ seen → Shows n saw t → Shows m seen t
Shows-cast n m saw seen t e f h = record { shown = h.shown ∙ e; seen = h.seen ∙ f }

pub or_any :
    (saw : Bool) (e : AgentEvent) (es : List AgentEvent)
    → (saw || is_result e) || any is_result es ≡ saw || any is_result (e ∷ es)
or_any true e es = refl
or_any false e es = elim (Bool-cases (is_result e)) [ inl r ↦ rw r refl | inr r ↦ rw r refl ]

pub zero_plus : (n : ℕ) → 0 + n ≡ n
zero_plus n = omega arith

-- Without a result among the events there is none to count.
pub none_seen :
    (es : List AgentEvent)
    → (if any is_result es then results es else results es + 1)
      ≡ (if any is_result es then results es else 1)
unfolding results
none_seen [] = refl
none_seen (e ∷ es) = elim (Bool-cases (is_result e)) [
  | inl r ↦ rw r refl
  | inr r ↦ rw (r, zero_plus (results es)) (none_seen es)
]

pub or_false : (b : Bool) → b || false ≡ b
or_false true = refl
or_false false = refl

pub if-Shows :
    (n : ℕ) (saw b : Bool) (t u : Running)
    → Shows n saw t
    → Shows n saw u
    → Shows n saw (if b then t else u)
if-Shows n saw true t u h k = h
if-Shows n saw false t u h k = k

pub results-if :
    (b : Bool) (n : ℕ) (x y : AgentEvent)
    → results (x ∷ []) ≡ n
    → results (y ∷ []) ≡ n
    → results ((if b then x else y) ∷ []) ≡ n
results-if true n x y h k = h
results-if false n x y h k = k

pub if-Shows_by :
    (n : ℕ) (saw b c : Bool) (t u : Running)
    → b ≡ c
    → Shows n saw (if c then t else u)
    → Shows n saw (if b then t else u)
if-Shows_by n saw b c t u e h = rw e h

-- The record grew by an event.
grown :
    (es : List AgentEvent) (x : AgentEvent) (n m : ℕ)
    → results es ≡ n
    → results (x ∷ []) ≡ m
    → results (append_one es x) ≡ n + m
grown es x n m h k = rw (results-append_one es x, h, k) refl

module _ (turn_id : String) (sandbox : Option String) (streamed : Bool)
    (observed : AgentEvent → Option Resources) where
  pub results-acts :
      (acts : List Sampled) (es : List AgentEvent)
      → results (acts_live turn_id sandbox streamed observed acts es) ≡ results es
  unfolding acts_live results
  results-acts [] es = refl
  results-acts (sampled s ∷ acts) es = results-acts acts es
  results-acts (pressure_mirrored s ∷ acts) es = results-acts acts es
  results-acts (pressed s ∷ acts) es =
      let x = line (pressure_event turn_id sandbox streamed observed s) in
      results-acts acts (append_one es x) ∙ results-append_one es x ∙ plus_zero (results es)
    where
      plus_zero : (n : ℕ) → n + 0 ≡ n
      plus_zero n = omega arith

  pub pause-Shows :
      (t : Running) (n : ℕ) (saw : Bool)
      → Shows n saw t
      → Shows n saw (pause turn_id sandbox streamed observed t)
  pause-Shows t n saw h = record {
    shown = results-acts (acts_of t.sampler) t.live ∙ h.shown;
    seen = h.seen;
  }

  pub surface-Shows :
      (e : AgentEvent) (t : Running) (n : ℕ) (saw : Bool)
      → Shows n saw t
      → Shows (n + results (e ∷ [])) saw (surface turn_id sandbox streamed observed e t)
  unfolding surface results
  surface-Shows e t n saw h =
      if-Shows (n + results (e ∷ [])) saw (is_result e) (if streamed then result else plain) plain
        (if-Shows (n + results (e ∷ [])) saw streamed result plain
          (record {
            shown =
                grown c (line (if answer_of t.answers then w else l)) n (results (e ∷ [])) c-results
                  (results-if (answer_of t.answers) (results (e ∷ [])) w l refl refl);
            seen = h.seen;
          })
          plain-Shows)
        plain-Shows
    where
      i : AgentEvent
      i = identify turn_id sandbox streamed observed e

      w : AgentEvent
      w = flag MirroredBy.worker i

      l : AgentEvent
      l = flag MirroredBy.failed i

      result : Running
      result = surface_result turn_id sandbox streamed observed i t

      plain : Running
      plain = surface_plain turn_id sandbox streamed observed i t

      before : List AgentEvent
      before = acts_live turn_id sandbox streamed observed (acts_of t.sampler) t.live

      before-results : results before ≡ n
      before-results = results-acts (acts_of t.sampler) t.live ∙ h.shown

      next : List Sampled
      next = acts_of (later_acts t.sampler)

      c : List AgentEvent
      c = acts_live turn_id sandbox streamed observed next before

      c-results : results c ≡ n
      c-results = results-acts next before ∙ before-results

      plain-Shows : Shows (n + results (e ∷ [])) saw plain
      plain-Shows = record {
        shown =
            results-acts next (append_one before (line i))
            ∙ grown before (line i) n (results (e ∷ [])) before-results refl;
        seen = h.seen;
      }
