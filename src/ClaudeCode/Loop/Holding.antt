-- ===== src/ClaudeCode/Loop/Holding.antt =====
-- What a turn of Claude Code holds back while its loop goes on.
use harness_run.Base.{
  ◌≡◌, refl, Bool, true, false, not, List, [], ◌∷◌, if◌then◌else◌, All, All-append, IsOpen, IsEnded,
  append_one-IsOpen, ◌&&◌,
}
use harness_run.Control.{ControlOp, steer, interrupt, stop}
use harness_run.Events.{AgentEvent, is_result}
use harness_run.ClaudeCode.{
  has_subtype, is_event, has_id, task_id, is_output, is_message, observe_tasks, observe_steers,
  Turn,
}
use harness_run.ClaudeCode.Results.{say, last_of, demote, note, note_output, note_orphan, note_text}
use harness_run.ClaudeCode.Loop.{Flow, going, finished, left, crashed}

-- No result has been yielded, and only results are held back.
pub record IsRunning (t : Turn) : Type 0 where
  pub unfinished : IsOpen is_result t.out
  pub held : All (λ e. is_result e ≡ true) t.demoted

abbrev pub Keeps : Flow → Type 0
Keeps (going t) = IsRunning t
Keeps (finished t) = IsEnded is_result t.out
Keeps (left t) = IsRunning t
Keeps (crashed exc t) = IsRunning t

pub say-IsRunning :
    (e : AgentEvent) (t : Turn) → is_result e ≡ false → IsRunning t → IsRunning (say e t)
say-IsRunning e t r h = record {
  unfinished = append_one-IsOpen is_result t.out e h.unfinished r;
  held = h.held;
}

pub demote-IsRunning :
    (e : AgentEvent) (t : Turn) → is_result e ≡ true → IsRunning t → IsRunning (demote e t)
demote-IsRunning e t r h = record {
  unfinished = h.unfinished;
  held = All-append (λ x. is_result x ≡ true) t.demoted (e ∷ []) h.held (r, tt);
}

pub last_of-IsResult :
    (e : AgentEvent) (es : List AgentEvent)
    → All (λ x. is_result x ≡ true) (e ∷ es)
    → is_result (last_of e es) ≡ true
last_of-IsResult e [] h = h.0
last_of-IsResult e (f ∷ es) h = last_of-IsResult f es h.1

-- A state with the same events yielded and held back.
pub same-IsRunning :
    (t u : Turn) → u.out ≡ t.out → u.demoted ≡ t.demoted → IsRunning t → IsRunning u
same-IsRunning t u e f h = record { unfinished = rw e h.unfinished; held = rw f h.held }

pub if-IsRunning :
    (b : Bool) (t u : Turn) → IsRunning t → IsRunning u → IsRunning (if b then t else u)
if-IsRunning true t u h k = h
if-IsRunning false t u h k = k

pub if-Keeps : (b : Bool) (f g : Flow) → Keeps f → Keeps g → Keeps (if b then f else g)
if-Keeps true f g h k = h
if-Keeps false f g h k = k

pub stop-Keeps :
    (o : ControlOp) (f g : Flow) → Keeps f → Keeps g → Keeps (elim o [ stop ↦ f | _ ↦ g ])
stop-Keeps stop f g h k = h
stop-Keeps steer f g h k = k
stop-Keeps interrupt f g h k = k

pub steer-Keeps :
    (o : ControlOp) (f g : Flow) → Keeps f → Keeps g → Keeps (elim o [ steer ↦ f | _ ↦ g ])
steer-Keeps steer f g h k = h
steer-Keeps stop f g h k = k
steer-Keeps interrupt f g h k = k

pub note-IsRunning : (e : AgentEvent) (t : Turn) → IsRunning t → IsRunning (note e t)
unfolding note
note-IsRunning e t h =
    if-IsRunning (has_subtype "init" e)
      (record texted {
        active = true;
        wait_deadline = false;
        steer_deadline = false;
        resume_deadline = false;
      })
      texted
      (same-IsRunning texted
        (record texted {
          active = true;
          wait_deadline = false;
          steer_deadline = false;
          resume_deadline = false;
        })
        refl refl texted-IsRunning)
      texted-IsRunning
  where
    orphaned : Turn
    orphaned = note_orphan e t

    orphaned-IsRunning : IsRunning orphaned
    orphaned-IsRunning =
        if-IsRunning
          (t.resume_opening
            && is_event "task_terminal" e
            && not (has_id (task_id e) t.tasks.pending))
          (record t { orphaned_resume_task = true }) t
          (same-IsRunning t (record t { orphaned_resume_task = true }) refl refl h) h

    heard : Turn
    heard = note_output e orphaned

    heard-IsRunning : IsRunning heard
    heard-IsRunning =
        if-IsRunning (is_output e)
          (record orphaned {
            resume_opening = false;
            awaiting_resume_prompt = false;
            resume_deadline = false;
          })
          orphaned
          (same-IsRunning orphaned
            (record orphaned {
              resume_opening = false;
              awaiting_resume_prompt = false;
              resume_deadline = false;
            })
            refl refl orphaned-IsRunning)
          orphaned-IsRunning

    tracked : Turn
    tracked = record heard {
      tasks = observe_tasks e heard.tasks;
      steers = observe_steers e heard.steers;
    }

    texted : Turn
    texted = note_text e tracked

    texted-IsRunning : IsRunning texted
    texted-IsRunning =
        if-IsRunning (is_message e) (record tracked { last_text = e.summary }) tracked
          (same-IsRunning heard (record tracked { last_text = e.summary }) refl refl
            heard-IsRunning)
          (same-IsRunning heard tracked refl refl heard-IsRunning)
