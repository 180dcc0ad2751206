-- ===== src/ClaudeCode/Reading/Ending.antt =====
-- How many results a turn of Claude Code yields, and where.
use harness_run.Base.{
  String, ◌≡◌, refl, Bool, true, false, Option, some, List, [], ◌∷◌, if◌then◌else◌, All, IsOpen,
  IsEnded, Option-cases, ◌⊎◌, inl, inr, ◌∙◌, ◌<>◌,
}
use harness_run.Base.Texts.{clip}
use harness_run.Events.{AgentEvent, is_result}
use harness_run.ClaudeCode.{Turn}
use harness_run.ClaudeCode.Results.{StderrTail, say, status}
use harness_run.ClaudeCode.Loop.{
  Item, Flow, going, finished, left, crashed, Ended, unended, returned, failed, resume_unanswered,
  checkpointed,
}
use harness_run.ClaudeCode.Reading.{
  on_item, finish_or, finish_unanswered, after_loop, shown_tail, finish_late, on_crash, run,
  new_turn,
}
use harness_run.ClaudeCode.Loop.Holding.{IsRunning, Keeps, say-IsRunning}
use harness_run.ClaudeCode.Loop.Halting.{
  checkpointed-IsRunning, finish-IsEnded, finish_last-IsEnded,
}
use harness_run.ClaudeCode.Reading.Keeping.{on_item-Keeps}

-- A turn that yields no result has none that it held back.
abbrev pub Settled : Turn → Type 0
Settled t = (t.demoted ≡ []) × IsOpen is_result t.out

abbrev pub IsAnswered : Ended → Type 0
IsAnswered (unended t) = IsOpen is_result t.out
IsAnswered (returned t) = IsEnded is_result t.out ⊎ Settled t
IsAnswered (failed exc t) = Settled t

module _ (session_id : String) (accepts : Option (String → Bool)) (checkpoint : Option AgentEvent)
    (stderr_tail : Option StderrTail)
    (plain : (e : AgentEvent) → checkpoint ≡ some e → is_result e ≡ false) where
  if-IsAnswered :
      (b : Bool) (x y : Ended) → IsAnswered x → IsAnswered y → IsAnswered (if b then x else y)
  if-IsAnswered true x y h k = h
  if-IsAnswered false x y h k = k

  unanswered-IsAnswered :
      (t : Turn)
      → IsRunning t
      → IsAnswered (finish_unanswered session_id accepts checkpoint stderr_tail t)
  unanswered-IsAnswered t h = inl (
      finish-IsEnded session_id accepts checkpoint stderr_tail plain t.demoted
        (resume_unanswered session_id accepts checkpoint stderr_tail) t refl h)

  checkpointed_demoted :
      (t : Turn) → (checkpointed session_id accepts checkpoint stderr_tail t).demoted ≡ t.demoted
  checkpointed_demoted t = elim (Option-cases checkpoint) [
    | inl e ↦ rw e refl
    | inr (e, p) ↦ rw p refl
  ]

  after_loop-IsAnswered :
      (t : Turn) → IsRunning t → IsAnswered (after_loop session_id accepts checkpoint stderr_tail t)
  unfolding after_loop
  after_loop-IsAnswered t h =
      if-IsAnswered t.awaiting_resume_prompt
        (finish_unanswered session_id accepts checkpoint stderr_tail t)
        (finish_or session_id accepts checkpoint stderr_tail (returned saved) t.demoted t)
        (unanswered-IsAnswered t h) (fallback t.demoted h.held refl)
    where
      saved : Turn
      saved = checkpointed session_id accepts checkpoint stderr_tail t

      fallback :
          (es : List AgentEvent)
          → All (λ x. is_result x ≡ true) es
          → t.demoted ≡ es
          → IsAnswered (finish_or session_id accepts checkpoint stderr_tail (returned saved) es t)
      fallback [] a q = inr (
        checkpointed_demoted t ∙ q,
        (checkpointed-IsRunning session_id accepts checkpoint stderr_tail plain t h).unfinished,
      )
      fallback (e ∷ es) a q =
          inl (finish_last-IsEnded session_id accepts checkpoint stderr_tail plain false e es t a h)

  shown_tail-IsRunning :
      (t : Turn) → IsRunning t → IsRunning (shown_tail session_id accepts checkpoint stderr_tail t)
  shown_tail-IsRunning t h = elim (Option-cases stderr_tail) [
    | inl e ↦ rw e h
    | inr (s, p) ↦
        rw p (say-IsRunning (status "claude_stderr" ("claude stderr (tail): " <> s.tail)) t refl h)
  ]

  on_crash-IsAnswered :
      (exc : String) (t : Turn)
      → IsRunning t
      → IsAnswered (on_crash session_id accepts checkpoint stderr_tail exc t)
  unfolding on_crash
  on_crash-IsAnswered exc t h =
      if-IsAnswered u.awaiting_resume_prompt
        (finish_unanswered session_id accepts checkpoint stderr_tail u)
        (finish_late session_id accepts checkpoint stderr_tail exc u.demoted u)
        (unanswered-IsAnswered u k) (late u.demoted k.held refl)
    where
      u : Turn
      u = shown_tail session_id accepts checkpoint stderr_tail t

      k : IsRunning u
      k = shown_tail-IsRunning t h

      notice : AgentEvent
      notice =
          status "late_harness_error"
            ("harness failed while awaiting background tasks: " <> clip 200 exc)

      late :
          (es : List AgentEvent)
          → All (λ x. is_result x ≡ true) es
          → u.demoted ≡ es
          → IsAnswered (finish_late session_id accepts checkpoint stderr_tail exc es u)
      late [] a q = (q, k.unfinished)
      late (e ∷ es) a q = inl (
          finish_last-IsEnded session_id accepts checkpoint stderr_tail plain false e es
            (say notice u) a (say-IsRunning notice u refl k))

  run_from :
      (is : List Item) (t : Turn)
      → IsRunning t
      → IsAnswered (run session_id accepts checkpoint stderr_tail is t)
  unfolding run
  run_from [] t h = h.unfinished
  run_from (i ∷ is) t h =
      by_flow (on_item session_id accepts checkpoint stderr_tail i t)
        (on_item-Keeps session_id accepts checkpoint stderr_tail plain i t h)
        (λ u k. run_from is u k)
    where
      by_flow :
          (f : Flow)
          → Keeps f
          → ((u : Turn)
              → IsRunning u
              → IsAnswered (run session_id accepts checkpoint stderr_tail is u))
          → IsAnswered (elim f [
            | going u ↦ run session_id accepts checkpoint stderr_tail is u
            | finished u ↦ returned u
            | left u ↦ after_loop session_id accepts checkpoint stderr_tail u
            | crashed exc u ↦ on_crash session_id accepts checkpoint stderr_tail exc u
          ])
      by_flow (going u) k more = more u k
      by_flow (finished u) k more = inl k
      by_flow (left u) k more = after_loop-IsAnswered u k
      by_flow (crashed exc u) k more = on_crash-IsAnswered exc u k

  -- A turn of Claude Code, whatever its CLI and its operator send and whichever calls fail, where
  -- the checkpoint's event is no result: as long as it goes on it has yielded no result; where
  -- it returns, it has yielded one, as the last event, or it has none that it held back; and it
  -- raises only where it has none that it held back, and then has yielded none.
  pub run-IsAnswered :
      (is : List Item) (resumed : Bool) (queries : List (Option String))
      → IsAnswered (
          run session_id accepts checkpoint stderr_tail is
            (new_turn session_id accepts checkpoint stderr_tail resumed queries))
  run-IsAnswered is resumed queries =
      run_from is (new_turn session_id accepts checkpoint stderr_tail resumed queries)
        (record { unfinished = tt; held = tt })
