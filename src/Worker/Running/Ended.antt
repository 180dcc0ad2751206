-- ===== src/Worker/Running/Ended.antt =====
-- How many terminal results a turn's thread puts on the record.
use harness_run.Base.{
  ℕ, ◌+◌, String, ◌≡◌, refl, Bool, true, false, ◌||◌, Option, none, some, List, [], ◌∷◌,
  if◌then◌else◌, inl, inr, ap, ◌∙◌, sym, ◌⊎◌, any, arith, ◌<>◌,
}
use harness_run.Base.Texts.{clip}
use harness_run.Events.{AgentEvent, Raw, is_result, Resources, Source}
use harness_run.Worker.Running.{
  Sampled, Setup, refused_config, broken_setup, set_up, acts_of, Running, raw_of, HarnessEnd,
  finished, raised, enrich, enriched, surface, follow, fail, end_with, drive, announce, new_running,
  run_turn, late_error, harness_error, turn_started, effective_spec, control_ready, error_result,
  config_error, prepared,
}
use harness_run.Worker.Running.Counted.{
  results, Shows, Shows-cast, zero_plus, or_any, none_seen, or_false, if-Shows, results-if,
  if-Shows_by, results-acts, surface-Shows,
}

-- Of a harness's stream that ends so.
unfoldable pub results_of : List AgentEvent → HarnessEnd → ℕ
results_of es finished = results es
results_of es (raised exc) = if any is_result es then results es else 1

-- Of a turn.
unfoldable pub results_due : Setup → String ⊎ (String × Raw) → List AgentEvent → HarnessEnd → ℕ
results_due (refused_config error) prep es end = 1
results_due broken_setup prep es end = 0
results_due set_up (inl exc) es end = 1
results_due set_up (inr p) es end = results_of es end

module _ (turn_id : String) (sandbox : Option String) (streamed : Bool)
    (observed : AgentEvent → Option Resources) where
  results-enriched :
      (sources : Option (List Source)) (e : AgentEvent)
      → results (enriched turn_id sandbox streamed observed sources e ∷ []) ≡ results (e ∷ [])
  unfolding enriched results
  results-enriched sources e =
      results-if (is_result e) (results (e ∷ []))
        (record e { raw = some (enrich (observed e) sources (raw_of e)) }) e refl refl

  follow-Shows :
      (sources : Option (List Source)) (es : List AgentEvent) (t : Running) (n : ℕ) (saw : Bool)
      → Shows n saw t
      → Shows
          (n + results es)
          (saw || any is_result es)
          (follow turn_id sandbox streamed observed sources es t)
  unfolding follow results
  follow-Shows sources [] t n saw h =
      Shows-cast n (n + 0) saw (saw || false) t (omega arith) (sym (or_false saw)) h
  follow-Shows sources (e ∷ es) t n saw h =
      Shows-cast (n + results (x ∷ []) + results es) (n + results (e ∷ es))
        ((saw || is_result e) || any is_result es) (saw || any is_result (e ∷ es))
        (follow turn_id sandbox streamed observed sources es
          (surface turn_id sandbox streamed observed x u))
        (rw (results-enriched sources e) (omega arith)) (or_any saw e es)
        (follow-Shows sources es (surface turn_id sandbox streamed observed x u)
          (n + results (x ∷ [])) (saw || is_result e)
          (surface-Shows turn_id sandbox streamed observed x u n (saw || is_result e)
            (record { shown = h.shown; seen = ap (λ b. b || is_result e) h.seen })))
    where
      x : AgentEvent
      x = enriched turn_id sandbox streamed observed sources e

      u : Running
      u = record t { saw_result = t.saw_result || is_result e }

  announce-Shows :
      (by_session by_turn : Bool) (answers : List Bool) (sampler : List (List Sampled))
      → Shows 0 false (
          announce turn_id sandbox streamed observed by_session by_turn
            (new_running turn_id sandbox streamed observed answers sampler))
  unfolding announce results
  announce-Shows by_session by_turn answers sampler =
      surface-Shows turn_id sandbox streamed observed
        (control_ready turn_id sandbox streamed observed)
        (if by_session || by_turn
          then surface turn_id sandbox streamed observed spec started
          else started)
        0 false
        (if-Shows 0 false (by_session || by_turn)
          (surface turn_id sandbox streamed observed spec started) started
          (surface-Shows turn_id sandbox streamed observed spec started 0 false started-Shows)
          started-Shows)
    where
      first : AgentEvent
      first = turn_started turn_id sandbox streamed observed

      spec : AgentEvent
      spec = effective_spec turn_id sandbox streamed observed by_session by_turn

      fresh : Running
      fresh = new_running turn_id sandbox streamed observed answers sampler

      started : Running
      started = surface turn_id sandbox streamed observed first fresh

      started-Shows : Shows 0 false started
      started-Shows =
          surface-Shows turn_id sandbox streamed observed first fresh 0 false
            (record { shown = refl; seen = refl })

  fail-Shows :
      (sources : Option (List Source)) (session_id exc : String) (t : Running) (n : ℕ) (saw : Bool)
      → Shows n saw t
      → Shows
          (if saw then n else n + 1)
          saw
          (fail turn_id sandbox streamed observed sources session_id exc t)
  unfolding fail harness_error results
  fail-Shows sources session_id exc t n true h =
      if-Shows_by n true t.saw_result true (surface turn_id sandbox streamed observed late t)
        (surface turn_id sandbox streamed observed failing t) h.seen
        (Shows-cast (n + results (late ∷ [])) n true true
          (surface turn_id sandbox streamed observed late t) (omega arith) refl
          (surface-Shows turn_id sandbox streamed observed late t n true h))
    where
      late : AgentEvent
      late = late_error turn_id sandbox streamed observed exc

      failing : AgentEvent
      failing = harness_error turn_id sandbox streamed observed sources session_id exc
  fail-Shows sources session_id exc t n false h =
      if-Shows_by (n + 1) false t.saw_result false
        (surface turn_id sandbox streamed observed late t)
        (surface turn_id sandbox streamed observed failing t) h.seen
        (Shows-cast (n + results (failing ∷ [])) (n + 1) false false
          (surface turn_id sandbox streamed observed failing t)
          (rw
            (results-enriched sources (
              error_result turn_id sandbox streamed observed "harness_error" session_id
                ("agent run failed: " <> clip 300 exc)))
            refl)
          refl (surface-Shows turn_id sandbox streamed observed failing t n false h))
    where
      late : AgentEvent
      late = late_error turn_id sandbox streamed observed exc

      failing : AgentEvent
      failing = harness_error turn_id sandbox streamed observed sources session_id exc

  end_with-Shows :
      (sources : Option (List Source)) (session_id : String) (es : List AgentEvent)
      (end : HarnessEnd) (t : Running)
      → Shows (results es) (any is_result es) t
      → results (end_with turn_id sandbox streamed observed sources session_id end t).live
        ≡ results_of es end
  unfolding end_with results_of
  end_with-Shows sources session_id es finished t h = h.shown
  end_with-Shows sources session_id es (raised exc) t h =
      (fail-Shows sources session_id exc t (results es) (any is_result es) h).shown ∙ none_seen es

  -- A turn puts as many terminal results on its record as its setup, its preparation and its
  -- harness are due, whatever its sampler does and whenever: one for a config that is refused or a
  -- preparation that fails, none where the setup raises otherwise, the harness's own ones, and
  -- one more only where the harness fails without having given any.
  pub results-run_turn :
      (session_id : String) (setup : Setup) (by_session by_turn : Bool)
      (prep : String ⊎ (String × Raw)) (es : List AgentEvent) (end : HarnessEnd)
      (answers : List Bool) (sampler : List (List Sampled))
      → results
          (run_turn turn_id sandbox streamed observed session_id setup by_session by_turn prep es
            end answers sampler).live
        ≡ results_due setup prep es end
  unfolding run_turn drive results_due results
  results-run_turn session_id (refused_config error) by_session by_turn prep es end answers
        sampler =
      (surface-Shows turn_id sandbox streamed observed
        (config_error turn_id sandbox streamed observed session_id error)
        (new_running turn_id sandbox streamed observed answers []) 0 false
        (record { shown = refl; seen = refl })).shown
  results-run_turn session_id broken_setup by_session by_turn prep es end answers sampler = refl
  results-run_turn session_id set_up by_session by_turn (inl exc) es end answers sampler =
      let t =
        announce turn_id sandbox streamed observed by_session by_turn
          (new_running turn_id sandbox streamed observed answers sampler) in
      let u = fail turn_id sandbox streamed observed none session_id exc t in
      results-acts turn_id sandbox streamed observed (acts_of u.sampler) u.live
      ∙ (fail-Shows none session_id exc t 0 false
          (announce-Shows by_session by_turn answers sampler)).shown
  results-run_turn session_id set_up by_session by_turn (inr (summary, raw)) es end answers
        sampler =
      results-acts turn_id sandbox streamed observed (acts_of v.sampler) v.live
      ∙ end_with-Shows raw.skill_sources session_id es end
          (follow turn_id sandbox streamed observed raw.skill_sources es u)
          (Shows-cast (0 + results es) (results es) (any is_result es) (any is_result es)
            (follow turn_id sandbox streamed observed raw.skill_sources es u)
            (zero_plus (results es)) refl
            (follow-Shows raw.skill_sources es u 0 false (
              surface-Shows turn_id sandbox streamed observed e t 0 false
                (announce-Shows by_session by_turn answers sampler))))
    where
      e : AgentEvent
      e = prepared turn_id sandbox streamed observed summary raw

      t : Running
      t =
          announce turn_id sandbox streamed observed by_session by_turn
            (new_running turn_id sandbox streamed observed answers sampler)

      u : Running
      u = surface turn_id sandbox streamed observed e t

      v : Running
      v =
          end_with turn_id sandbox streamed observed raw.skill_sources session_id end
            (follow turn_id sandbox streamed observed raw.skill_sources es u)
