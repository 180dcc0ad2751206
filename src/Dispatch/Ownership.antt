-- ===== src/Dispatch/Ownership.antt =====
-- harness_run/runtime/sandbox/backend.py, `_on_complete` and `_release_after_dispatch`: which of
-- the two threads of a run that is completed while its dispatch lands deletes the sandbox.
use harness_run.Base.{
  String, ◌≡◌, refl, Bool, true, false, Option, none, some, List, [], ◌∷◌, if◌then◌else◌,
  append_one,
}

-- The dispatch thread, from the acceptance on: it publishes the sandbox, then it sets `finished`.
pub data Landing : Type 0 where
  accepting published landed : Landing

-- `_on_complete`: the decision under the lock, then either the sandbox is forgotten and a job
-- waits for the dispatch, or it is taken.
pub data Completion : Type 0 where
  deciding clearing waiting_job taking completed : Completion

pub record Ownership : Type 0 where
  pub landing : Landing
  pub completion : Completion
  pub abandoned : Bool
  pub finished : Bool
  pub sandbox : String
  pub session_sandbox : Option String
  pub released : List String

abbrev pub accepted_on : String → Ownership
accepted_on s = record {
  landing = accepting;
  completion = deciding;
  abandoned = false;
  finished = false;
  sandbox = s;
  session_sandbox = none;
  released = [];
}

-- The next step of the dispatch thread.
unfoldable pub land : Ownership → Ownership
land o = elim o.landing [
  | accepting ↦ record o {
    landing = published;
    session_sandbox = if o.abandoned then o.session_sandbox else some o.sandbox;
  }
  | published ↦ record o { landing = landed; finished = true }
  | landed ↦ o
]

abbrev pub release : Option String → List String → List String
release none rs = rs
release (some s) rs = append_one rs s

-- The next step of `_on_complete` or of its job, for a run that did not walk away.
unfoldable pub complete : Ownership → Ownership
complete o = elim o.completion [
  | deciding ↦
      if o.finished
      then record o { completion = taking }
      else record o { abandoned = true; completion = clearing }
  | clearing ↦ record o { session_sandbox = none; completion = waiting_job }
  | waiting_job ↦
      if o.finished
      then record o { released = append_one o.released o.sandbox; completion = completed }
      else o
  | taking ↦ record o {
    session_sandbox = none;
    released = release o.session_sandbox o.released;
    completion = completed;
  }
  | completed ↦ o
]

-- The steps in the order in which they happen: `true` is one of the dispatch thread.
unfoldable pub interleave : List Bool → Ownership → Ownership
unfolding land complete
interleave [] o = o
interleave (true ∷ bs) o = interleave bs (land o)
interleave (false ∷ bs) o = interleave bs (complete o)

-- Both threads run to their ends.
unfoldable pub run_out : Ownership → Ownership
unfolding land complete
run_out o = complete (complete (complete (land (land o))))

abbrev state : Landing → Completion → Bool → Bool → String → Option String → List String → Ownership
state l c a f s x r = record {
  landing = l;
  completion = c;
  abandoned = a;
  finished = f;
  sandbox = s;
  session_sandbox = x;
  released = r;
}

data Reached (s : String) : Ownership → Type 0 where
  undecided : Reached s (state accepting deciding false false s none [])
  undecided_published : Reached s (state published deciding false false s (some s) [])
  undecided_landed : Reached s (state landed deciding false true s (some s) [])
  cleared : Reached s (state accepting clearing true false s none [])
  cleared_published : (x : Option String) → Reached s (state published clearing true false s x [])
  cleared_landed : (x : Option String) → Reached s (state landed clearing true true s x [])
  job : Reached s (state accepting waiting_job true false s none [])
  job_published : Reached s (state published waiting_job true false s none [])
  job_landed : Reached s (state landed waiting_job true true s none [])
  taken : Reached s (state landed taking false true s (some s) [])
  over : (a : Bool) → Reached s (state landed completed a true s none (s ∷ []))

land-Reached : (s : String) (o : Ownership) → Reached s o → Reached s (land o)
unfolding land
land-Reached s o undecided = undecided_published
land-Reached s o undecided_published = undecided_landed
land-Reached s o undecided_landed = undecided_landed
land-Reached s o cleared = cleared_published none
land-Reached s o (cleared_published x) = cleared_landed x
land-Reached s o (cleared_landed x) = cleared_landed x
land-Reached s o job = job_published
land-Reached s o job_published = job_landed
land-Reached s o job_landed = job_landed
land-Reached s o taken = taken
land-Reached s o (over a) = over a

complete-Reached : (s : String) (o : Ownership) → Reached s o → Reached s (complete o)
unfolding complete
complete-Reached s o undecided = cleared
complete-Reached s o undecided_published = cleared_published (some s)
complete-Reached s o undecided_landed = taken
complete-Reached s o cleared = job
complete-Reached s o (cleared_published x) = job_published
complete-Reached s o (cleared_landed x) = job_landed
complete-Reached s o job = job
complete-Reached s o job_published = job_published
complete-Reached s o job_landed = over true
complete-Reached s o taken = over false
complete-Reached s o (over a) = over a

interleave-Reached :
    (bs : List Bool) (s : String) (o : Ownership) → Reached s o → Reached s (interleave bs o)
unfolding interleave
interleave-Reached [] s o r = r
interleave-Reached (true ∷ bs) s o r = interleave-Reached bs s (land o) (land-Reached s o r)
interleave-Reached (false ∷ bs) s o r =
    interleave-Reached bs s (complete o) (complete-Reached s o r)

run_out-released : (s : String) (o : Ownership) → Reached s o → (run_out o).released ≡ s ∷ []
unfolding run_out
run_out-released s o undecided = refl
run_out-released s o undecided_published = refl
run_out-released s o undecided_landed = refl
run_out-released s o cleared = refl
run_out-released s o (cleared_published x) = refl
run_out-released s o (cleared_landed x) = refl
run_out-released s o job = refl
run_out-released s o job_published = refl
run_out-released s o job_landed = refl
run_out-released s o taken = refl
run_out-released s o (over a) = refl

-- A run that is completed while its sandbox accepts the turn: in whatever order the two threads
-- take their steps, once both have ended, that sandbox was deleted exactly once.
pub interleave-released :
    (bs : List Bool) (s : String) → (run_out (interleave bs (accepted_on s))).released ≡ s ∷ []
interleave-released bs s =
    run_out-released s (interleave bs (accepted_on s))
      (interleave-Reached bs s (accepted_on s) undecided)
