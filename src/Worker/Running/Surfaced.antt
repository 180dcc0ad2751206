-- ===== src/Worker/Running/Surfaced.antt =====
-- What a turn keeps true of its record and of its mirror's queue.
use harness_run.Base.{
  String, refl, Bool, true, ◌||◌, Option, none, List, [], ◌∷◌, if◌then◌else◌, inl, inr, ◌⊎◌,
}
use harness_run.Events.{AgentEvent, Raw, is_result, Resources, Source}
use harness_run.Worker.Running.{
  Sampled, Setup, refused_config, broken_setup, set_up, Running, HarnessEnd, finished, raised,
  enriched, surface, follow, fail, end_with, drive, announce, new_running, run_turn, late_error,
  harness_error, turn_started, effective_spec, control_ready, config_error, prepared,
}
use harness_run.Worker.Running.Logged.{
  IsFaithful, pause-IsFaithful, surface-IsFaithful, if-IsFaithful,
}

module _ (turn_id : String) (sandbox : Option String)
    (observed : AgentEvent → Option Resources) where
  new_running-IsFaithful :
      (answers : List Bool) (sampler : List (List Sampled))
      → IsFaithful turn_id (new_running turn_id sandbox true observed answers sampler)
  new_running-IsFaithful answers sampler = record {
    live_of = tt;
    queued_of = tt;
    same = refl;
    durable = tt;
  }

  fail-IsFaithful :
      (sources : Option (List Source)) (session_id exc : String) (t : Running)
      → IsFaithful turn_id t
      → IsFaithful turn_id (fail turn_id sandbox true observed sources session_id exc t)
  unfolding fail
  fail-IsFaithful sources session_id exc t h =
      if-IsFaithful turn_id t.saw_result (surface turn_id sandbox true observed late t)
        (surface turn_id sandbox true observed failing t)
        (surface-IsFaithful turn_id sandbox observed late t h)
        (surface-IsFaithful turn_id sandbox observed failing t h)
    where
      late : AgentEvent
      late = late_error turn_id sandbox true observed exc

      failing : AgentEvent
      failing = harness_error turn_id sandbox true observed sources session_id exc

  follow-IsFaithful :
      (sources : Option (List Source)) (es : List AgentEvent) (t : Running)
      → IsFaithful turn_id t
      → IsFaithful turn_id (follow turn_id sandbox true observed sources es t)
  unfolding follow
  follow-IsFaithful sources [] t h = h
  follow-IsFaithful sources (e ∷ es) t h =
      follow-IsFaithful sources es
        (surface turn_id sandbox true observed (enriched turn_id sandbox true observed sources e)
          (record t { saw_result = t.saw_result || is_result e }))
        (surface-IsFaithful turn_id sandbox observed
          (enriched turn_id sandbox true observed sources e)
          (record t { saw_result = t.saw_result || is_result e })
          (record {
            live_of = h.live_of;
            queued_of = h.queued_of;
            same = h.same;
            durable = h.durable;
          }))

  end_with-IsFaithful :
      (sources : Option (List Source)) (session_id : String) (end : HarnessEnd) (t : Running)
      → IsFaithful turn_id t
      → IsFaithful turn_id (end_with turn_id sandbox true observed sources session_id end t)
  unfolding end_with
  end_with-IsFaithful sources session_id finished t h = h
  end_with-IsFaithful sources session_id (raised exc) t h =
      fail-IsFaithful sources session_id exc t h

  drive-IsFaithful :
      (session_id : String) (prep : String ⊎ (String × Raw)) (es : List AgentEvent)
      (end : HarnessEnd) (t : Running)
      → IsFaithful turn_id t
      → IsFaithful turn_id (drive turn_id sandbox true observed session_id prep es end t)
  unfolding drive
  drive-IsFaithful session_id (inl exc) es end t h = fail-IsFaithful none session_id exc t h
  drive-IsFaithful session_id (inr (summary, raw)) es end t h =
      end_with-IsFaithful raw.skill_sources session_id end
        (follow turn_id sandbox true observed raw.skill_sources es
          (surface turn_id sandbox true observed e t))
        (follow-IsFaithful raw.skill_sources es (surface turn_id sandbox true observed e t)
          (surface-IsFaithful turn_id sandbox observed e t h))
    where
      e : AgentEvent
      e = prepared turn_id sandbox true observed summary raw

  announce-IsFaithful :
      (by_session by_turn : Bool) (t : Running)
      → IsFaithful turn_id t
      → IsFaithful turn_id (announce turn_id sandbox true observed by_session by_turn t)
  unfolding announce
  announce-IsFaithful by_session by_turn t h =
      let first : IsFaithful turn_id (started t) =
        surface-IsFaithful turn_id sandbox observed (turn_started turn_id sandbox true observed) t
          h in
      surface-IsFaithful turn_id sandbox observed (control_ready turn_id sandbox true observed)
        (if by_session || by_turn
          then surface turn_id sandbox true observed spec (started t)
          else started t)
        (if-IsFaithful turn_id (by_session || by_turn)
          (surface turn_id sandbox true observed spec (started t)) (started t)
          (surface-IsFaithful turn_id sandbox observed spec (started t) first) first)
    where
      started : Running → Running
      started u =
          surface turn_id sandbox true observed (turn_started turn_id sandbox true observed) u

      spec : AgentEvent
      spec = effective_spec turn_id sandbox true observed by_session by_turn

  -- A turn that is mirrored, whatever its setup, its preparation, its harness and the writes'
  -- answers are, and whatever its sampler does between any two writes of the turn's thread: every
  -- event on the record and in the mirror's queue has the turn's id; but for the sampler's events,
  -- both hold the same events in the same order, up to the flag that says who mirrored a result and
  -- to the record's cut of a long summary; and a terminal result that the record shows without the
  -- mark `failed` is the line of one whose write was acknowledged.
  pub run_turn-IsFaithful :
      (session_id : String) (setup : Setup) (by_session by_turn : Bool)
      (prep : String ⊎ (String × Raw)) (es : List AgentEvent) (end : HarnessEnd)
      (answers : List Bool) (sampler : List (List Sampled))
      → IsFaithful turn_id (
          run_turn turn_id sandbox true observed session_id setup by_session by_turn prep es end
            answers sampler)
  unfolding run_turn
  run_turn-IsFaithful session_id (refused_config error) by_session by_turn prep es end answers
        sampler =
      surface-IsFaithful turn_id sandbox observed
        (config_error turn_id sandbox true observed session_id error)
        (new_running turn_id sandbox true observed answers []) (new_running-IsFaithful answers [])
  run_turn-IsFaithful session_id broken_setup by_session by_turn prep es end answers sampler =
      new_running-IsFaithful answers []
  run_turn-IsFaithful session_id set_up by_session by_turn prep es end answers sampler =
      let t = new_running turn_id sandbox true observed answers sampler in
      let u = announce turn_id sandbox true observed by_session by_turn t in
      pause-IsFaithful turn_id sandbox observed
        (drive turn_id sandbox true observed session_id prep es end u)
        (drive-IsFaithful session_id prep es end u
          (announce-IsFaithful by_session by_turn t (new_running-IsFaithful answers sampler)))
