-- ===== src/Worker/Running/Logged.antt =====
-- What each write keeps true of a turn's record and of its mirror's queue.
use harness_run.Base.{
  String, ◌≡◌, refl, Bool, true, false, Option, none, some, List, [], ◌∷◌, map, if◌then◌else◌,
  append_one, All, All-append, All-mono, In, In-append_left, In-append_right, Bool-cases, inl, inr,
  map-append_one, keep, keep-append, append-nil, ◌==◌, not, ◌∙◌, sym, ◌⊎◌,
}
use harness_run.Events.{AgentEvent, is_result, MirroredBy, Resources}
use harness_run.Worker.Running.{
  Sampled, sampled, pressed, pressure_mirrored, line, acts_of, later_acts, acts_live, acts_queued,
  pause, pressure_event, sample_event, later, Running, raw_of, answer_of, flag, identify,
  surface_result, surface_plain, surface,
}

-- The event as it is but for who mirrored it.
abbrev pub unflagged : AgentEvent → AgentEvent
unflagged e = record e { raw = some (record (raw_of e) { mirror = none }) }

abbrev pub IsOf : String → AgentEvent → Type 0
IsOf turn_id e = (raw_of e).turn_id ≡ some turn_id

-- A terminal result that does not say that its write failed was acknowledged.
abbrev pub IsDurable : List AgentEvent → AgentEvent → Type 0
IsDurable acked e =
    (is_result e ≡ false)
    ⊎ (((raw_of e).mirror ≡ some MirroredBy.failed)
        ⊎ ((w : AgentEvent) × In w acked × (e ≡ line w)))

-- Neither a sample nor a warning of the sampler, by the name that the event has.
abbrev pub is_own : AgentEvent → Bool
is_own e = elim (raw_of e).event [
  | none ↦ true
  | some n ↦ if n == "resource_sample" then false else not (n == "memory_pressure")
]

abbrev as_line : AgentEvent → AgentEvent
as_line e = unflagged (line e)

-- The record and the mirror's queue, without the sampler's events.
abbrev pub Same : List AgentEvent → List AgentEvent → Type 0
Same live queued = map unflagged (keep is_own live) ≡ map as_line (keep is_own queued)

-- The invariant of a turn that is mirrored.
pub record IsFaithful (turn_id : String) (t : Running) : Type 0 where
  pub live_of : All (IsOf turn_id) t.live
  pub queued_of : All (IsOf turn_id) t.queued
  pub same : Same t.live t.queued
  pub durable : All (IsDurable t.acked) t.live

pub IsDurable-append :
    (acked : List AgentEvent) (e a : AgentEvent)
    → IsDurable acked a
    → IsDurable (append_one acked e) a
IsDurable-append acked e a (inl h) = inl h
IsDurable-append acked e a (inr (inl h)) = inr (inl h)
IsDurable-append acked e a (inr (inr (w, m, q))) =
    inr (inr (w, In-append_left w acked (e ∷ []) m, q))

kept_other :
    (x : AgentEvent) (xs : List AgentEvent)
    → is_own x ≡ false
    → keep is_own (append_one xs x) ≡ keep is_own xs
kept_other x xs h = keep-append is_own xs (x ∷ []) ∙ rw h (append-nil (keep is_own xs))

kept_own :
    (x : AgentEvent) (xs : List AgentEvent)
    → is_own x ≡ true
    → keep is_own (append_one xs x) ≡ append_one (keep is_own xs) x
kept_own x xs h = keep-append is_own xs (x ∷ []) ∙ rw h refl

-- Both logs grow by one event, which is the same up to the flag and the cut.
Same-grow :
    (x y : AgentEvent) (xs ys : List AgentEvent)
    → is_own x ≡ is_own y
    → unflagged x ≡ as_line y
    → Same xs ys
    → Same (append_one xs x) (append_one ys y)
Same-grow x y xs ys o e h = elim (Bool-cases (is_own y)) [
  | inl q ↦
      rw (kept_own x xs (o ∙ q), kept_own y ys q)
        (map-append_one unflagged (keep is_own xs) x
          ∙ rw (e, h) (sym (map-append_one as_line (keep is_own ys) y)))
  | inr q ↦ rw (kept_other x xs (o ∙ q), kept_other y ys q) h
]

pub if-IsFaithful :
    (turn_id : String) (b : Bool) (t u : Running)
    → IsFaithful turn_id t
    → IsFaithful turn_id u
    → IsFaithful turn_id (if b then t else u)
if-IsFaithful turn_id true t u h k = h
if-IsFaithful turn_id false t u h k = k

module _ (turn_id : String) (sandbox : Option String)
    (observed : AgentEvent → Option Resources) where
  All-acts_live :
      (P : AgentEvent → Type 0) (acts : List Sampled) (es : List AgentEvent)
      → ((s : String) → P (line (pressure_event turn_id sandbox true observed s)))
      → All P es
      → All P (acts_live turn_id sandbox true observed acts es)
  unfolding acts_live
  All-acts_live P [] es p h = h
  All-acts_live P (sampled s ∷ acts) es p h = All-acts_live P acts es p h
  All-acts_live P (pressure_mirrored s ∷ acts) es p h = All-acts_live P acts es p h
  All-acts_live P (pressed s ∷ acts) es p h =
      All-acts_live P acts (append_one es (line (pressure_event turn_id sandbox true observed s))) p
        (All-append P es (line (pressure_event turn_id sandbox true observed s) ∷ []) h (p s, tt))

  queued-IsOf :
      (acts : List Sampled) (es : List AgentEvent)
      → All (IsOf turn_id) es
      → All (IsOf turn_id) (acts_queued turn_id sandbox true observed acts es)
  unfolding acts_queued
  queued-IsOf [] es h = h
  queued-IsOf (pressed s ∷ acts) es h = queued-IsOf acts es h
  queued-IsOf (sampled s ∷ acts) es h =
      let x = sample_event turn_id sandbox true observed s in
      queued-IsOf acts (append_one es x) (All-append (IsOf turn_id) es (x ∷ []) h (refl, tt))
  queued-IsOf (pressure_mirrored s ∷ acts) es h =
      let x = pressure_event turn_id sandbox true observed s in
      queued-IsOf acts (append_one es x) (All-append (IsOf turn_id) es (x ∷ []) h (refl, tt))

  kept-acts_live :
      (acts : List Sampled) (es : List AgentEvent)
      → keep is_own (acts_live turn_id sandbox true observed acts es) ≡ keep is_own es
  unfolding acts_live
  kept-acts_live [] es = refl
  kept-acts_live (sampled s ∷ acts) es = kept-acts_live acts es
  kept-acts_live (pressure_mirrored s ∷ acts) es = kept-acts_live acts es
  kept-acts_live (pressed s ∷ acts) es =
      let x = line (pressure_event turn_id sandbox true observed s) in
      kept-acts_live acts (append_one es x) ∙ kept_other x es refl

  kept-acts_queued :
      (acts : List Sampled) (es : List AgentEvent)
      → keep is_own (acts_queued turn_id sandbox true observed acts es) ≡ keep is_own es
  unfolding acts_queued
  kept-acts_queued [] es = refl
  kept-acts_queued (pressed s ∷ acts) es = kept-acts_queued acts es
  kept-acts_queued (sampled s ∷ acts) es =
      let x = sample_event turn_id sandbox true observed s in
      kept-acts_queued acts (append_one es x) ∙ kept_other x es refl
  kept-acts_queued (pressure_mirrored s ∷ acts) es =
      let x = pressure_event turn_id sandbox true observed s in
      kept-acts_queued acts (append_one es x) ∙ kept_other x es refl

  -- The sampler's events count on neither side.
  Same-acts :
      (a b : List Sampled) (xs ys : List AgentEvent)
      → Same xs ys
      → Same
          (acts_live turn_id sandbox true observed a xs)
          (acts_queued turn_id sandbox true observed b ys)
  Same-acts a b xs ys h = rw (kept-acts_live a xs, kept-acts_queued b ys) h

  acts-IsDurable :
      (acked : List AgentEvent) (acts : List Sampled) (es : List AgentEvent)
      → All (IsDurable acked) es
      → All (IsDurable acked) (acts_live turn_id sandbox true observed acts es)
  acts-IsDurable acked acts es h = All-acts_live (IsDurable acked) acts es (λ s. inl refl) h

  acts-IsOf :
      (acts : List Sampled) (es : List AgentEvent)
      → All (IsOf turn_id) es
      → All (IsOf turn_id) (acts_live turn_id sandbox true observed acts es)
  acts-IsOf acts es h = All-acts_live (IsOf turn_id) acts es (λ s. refl) h

  pub pause-IsFaithful :
      (t : Running)
      → IsFaithful turn_id t
      → IsFaithful turn_id (pause turn_id sandbox true observed t)
  pause-IsFaithful t h = record {
    live_of = acts-IsOf (acts_of t.sampler) t.live h.live_of;
    queued_of = queued-IsOf (acts_of t.sampler) t.queued h.queued_of;
    same = Same-acts (acts_of t.sampler) (acts_of t.sampler) t.live t.queued h.same;
    durable = acts-IsDurable t.acked (acts_of t.sampler) t.live h.durable;
  }

  -- The record first, then what the sampler does, then the queue.
  plain_written :
      (e : AgentEvent) (t : Running) (acts : List Sampled) (rest : List (List Sampled))
      → is_result e ≡ false
      → IsOf turn_id e
      → IsFaithful turn_id t
      → IsFaithful turn_id (record t {
        live = acts_live turn_id sandbox true observed acts (append_one t.live (line e));
        queued = append_one (acts_queued turn_id sandbox true observed acts t.queued) e;
        sampler = rest;
      })
  unfolding acts_live acts_queued
  plain_written e t acts rest r o h = record {
    live_of =
        acts-IsOf acts (append_one t.live (line e))
          (All-append (IsOf turn_id) t.live (line e ∷ []) h.live_of (o, tt));
    queued_of =
        All-append (IsOf turn_id) (acts_queued turn_id sandbox true observed acts t.queued) (e ∷ [])
          (queued-IsOf acts t.queued h.queued_of) (o, tt);
    same =
        Same-acts acts [] (append_one t.live (line e))
          (append_one (acts_queued turn_id sandbox true observed acts t.queued) e)
          (Same-grow (line e) e t.live (acts_queued turn_id sandbox true observed acts t.queued)
            refl refl (Same-acts [] acts t.live t.queued h.same));
    durable =
        acts-IsDurable t.acked acts (append_one t.live (line e))
          (All-append (IsDurable t.acked) t.live (line e ∷ []) h.durable (inl r, tt));
  }

  -- The queue first, then what the sampler does, then the record.
  result_written :
      (w l : AgentEvent) (t : Running) (acked : List AgentEvent) (answers : List Bool)
      (acts : List Sampled) (rest : List (List Sampled))
      → IsOf turn_id w
      → IsOf turn_id l
      → is_own l ≡ is_own w
      → unflagged l ≡ as_line w
      → All (IsDurable acked) t.live
      → IsDurable acked l
      → IsFaithful turn_id t
      → IsFaithful turn_id (record t {
        live = append_one (acts_live turn_id sandbox true observed acts t.live) l;
        queued = acts_queued turn_id sandbox true observed acts (append_one t.queued w);
        acked = acked;
        answers = answers;
        sampler = rest;
      })
  unfolding acts_live acts_queued
  result_written w l t acked answers acts rest ow ol io eq d dl h = record {
    live_of =
        All-append (IsOf turn_id) (acts_live turn_id sandbox true observed acts t.live) (l ∷ [])
          (acts-IsOf acts t.live h.live_of) (ol, tt);
    queued_of =
        queued-IsOf acts (append_one t.queued w)
          (All-append (IsOf turn_id) t.queued (w ∷ []) h.queued_of (ow, tt));
    same =
        Same-acts [] acts (append_one (acts_live turn_id sandbox true observed acts t.live) l)
          (append_one t.queued w)
          (Same-grow l w (acts_live turn_id sandbox true observed acts t.live) t.queued io eq
            (Same-acts acts [] t.live t.queued h.same));
    durable =
        All-append (IsDurable acked) (acts_live turn_id sandbox true observed acts t.live) (l ∷ [])
          (acts-IsDurable acked acts t.live d) (dl, tt);
  }

  surface_plain-IsFaithful :
      (e : AgentEvent) (t : Running)
      → is_result e ≡ false
      → IsOf turn_id e
      → IsFaithful turn_id t
      → IsFaithful turn_id (surface_plain turn_id sandbox true observed e t)
  surface_plain-IsFaithful e t r o h =
      plain_written e (pause turn_id sandbox true observed t) (acts_of (later_acts t.sampler))
        (later_acts (later_acts t.sampler)) r o (pause-IsFaithful t h)

  surface_result-IsFaithful :
      (e : AgentEvent) (t : Running)
      → IsOf turn_id e
      → IsFaithful turn_id t
      → IsFaithful turn_id (surface_result turn_id sandbox true observed e t)
  surface_result-IsFaithful e t o h = elim (Bool-cases (answer_of t.answers)) [
    | inl a ↦ rw a (
        result_written w (line w) p (append_one t.acked w) (later t.answers) next rest o o refl refl
          (All-mono (IsDurable t.acked) (IsDurable (append_one t.acked w)) p.live
            (IsDurable-append t.acked w) k.durable)
          (inr (inr (w, In-append_right w t.acked (w ∷ []) (inl refl), refl))) k)
    | inr a ↦ rw a (
        result_written w (line l) p t.acked (later t.answers) next rest o o refl refl k.durable
          (inr (inl refl)) k)
  ]
    where
      w : AgentEvent
      w = flag MirroredBy.worker e

      l : AgentEvent
      l = flag MirroredBy.failed e

      p : Running
      p = pause turn_id sandbox true observed t

      k : IsFaithful turn_id p
      k = pause-IsFaithful t h

      next : List Sampled
      next = acts_of (later_acts t.sampler)

      rest : List (List Sampled)
      rest = later_acts (later_acts t.sampler)

  pub surface-IsFaithful :
      (e : AgentEvent) (t : Running)
      → IsFaithful turn_id t
      → IsFaithful turn_id (surface turn_id sandbox true observed e t)
  unfolding surface
  surface-IsFaithful e t h = elim (Bool-cases (is_result e)) [
    | inl r ↦ rw r (surface_result-IsFaithful (identify turn_id sandbox true observed e) t refl h)
    | inr r ↦ rw r (surface_plain-IsFaithful (identify turn_id sandbox true observed e) t r refl h)
  ]
