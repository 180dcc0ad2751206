-- ===== src/Tail/Live/Fallback.antt =====
-- The fallback to the mirror goes on where the worker's events end.
use harness_run.Base.{
  suc, ◌≡◌, refl, Bool, true, false, Option, none, some, List, [], ◌∷◌, ◌++◌, leb, append_one,
  length, length-append, arith, Bool-cases, inl, inr, All, ap,
}
use harness_run.Tail.Live.{
  Direct, vanished, call_failed, refused, paged, Cause, sandbox_gone, stopped_answering, is_raised,
  after, over, fall_back, Live, new_live, emit_lines, direct, mirrored, cause_of, stream_turn, emit,
  fail, start_page, direct_max_failures,
}
use harness_run.Tail.{Status, Tail}

module _ {Event : Type 0} (ours is_result : Event → Bool) (synthetic : Cause → Event) where
  -- A line of this turn that parses.
  abbrev pub IsReadable : Option Event → Type 0
  IsReadable none = ⊥
  IsReadable (some e) = ours e ≡ true

  abbrev pub PageReadable : Direct Event → Type 0
  PageReadable (paged lines done) = All IsReadable lines
  PageReadable _ = Unit

  abbrev Counts : Live Event → Type 0
  Counts l = l.yielded ≡ length l.out

  lines-Counts :
      (lines : List (Option Event)) (l : Live Event)
      → All IsReadable lines
      → Counts l
      → Counts (emit_lines ours is_result synthetic lines l).1
  unfolding emit_lines
  lines-Counts [] l r c = c
  lines-Counts (none ∷ es) l r c = absurd r.0
  lines-Counts (some e ∷ es) l r c = elim (Bool-cases (is_result e)) [
    | inl f ↦ rw (r.0, f, emit_lines) n
    | inr f ↦ rw (r.0, f, emit_lines) (lines-Counts es (emit ours is_result synthetic e l) r.1 n)
  ]
    where
      n : suc l.yielded ≡ length (append_one l.out e)
      n = omega (arith, c, length-append l.out (e ∷ []))

  mirrored-append :
      (c : Cause) (raises : Bool) (xs ys : List Event)
      → mirrored ours is_result synthetic c raises (length xs) (xs ++ ys)
        ≡ mirrored ours is_result synthetic c raises 0 ys
  unfolding mirrored
  mirrored-append c raises [] ys = refl
  mirrored-append c raises (x ∷ xs) ys = mirrored-append c raises xs ys

  -- What follows of the mirror's other events: they are given up to the terminal result; where
  -- they have none, the tail's exception follows if it raised, and otherwise a result that says
  -- why there is none: the sandbox is gone, or it has stopped answering.
  pub data Continues (gone : Bool) : Bool → List Event → List Event × Bool → Type 0 where
    stops :
        {raises : Bool} {e : Event} {es : List Event}
        → is_result e ≡ true
        → Continues gone raises (e ∷ es) (e ∷ [], false)
    goes_on :
        {raises : Bool} {e : Event} {es : List Event} {r : List Event × Bool}
        → is_result e ≡ false
        → Continues gone raises es r
        → Continues gone raises (e ∷ es) (e ∷ r.0, r.1)
    fails : Continues gone true [] ([], true)
    gives_up_gone : gone ≡ true → Continues gone false [] (synthetic sandbox_gone ∷ [], false)
    gives_up_silent :
        gone ≡ false → Continues gone false [] (synthetic stopped_answering ∷ [], false)

  mirrored-Continues :
      (gone raises : Bool) (es : List Event)
      → Continues gone raises es
          (mirrored ours is_result synthetic (cause_of ours is_result synthetic gone) raises 0 es)
  unfolding mirrored
  mirrored-Continues gone true [] = fails
  mirrored-Continues true false [] = gives_up_gone refl
  mirrored-Continues false false [] = gives_up_silent refl
  mirrored-Continues gone raises (e ∷ es) = elim (Bool-cases (is_result e)) [
    | inl r ↦ rw r (stops r)
    | inr r ↦ rw r (goes_on r (mirrored-Continues gone raises es))
  ]

  direct-Counts :
      (ds : List (Direct Event)) (l : Live Event) (gone : Bool)
      → All PageReadable ds
      → Counts l
      → (direct ours is_result synthetic ds l).0 ≡ fall_back gone
      → Counts (direct ours is_result synthetic ds l).1
  unfolding direct
  direct-Counts [] l gone r c h = c
  direct-Counts (vanished ∷ ds) l gone r c h = c
  direct-Counts (refused ∷ ds) l gone r c h = c
  direct-Counts (call_failed ∷ ds) l gone r c h =
      elim (Bool-cases (leb direct_max_failures (suc l.failures))) [
        | inl e ↦ rw (e, direct) c
        | inr e ↦
            rw (e, direct)
              (direct-Counts ds (fail ours is_result synthetic l) gone r.1 c (rw (e, direct) at h))
      ]
  direct-Counts (paged lines done ∷ ds) l gone r c h =
      let (stop, l') =
        emit_lines ours is_result synthetic lines (start_page ours is_result synthetic l) in
      elim (Bool-cases stop) [
        | inl e ↦ absurd (over-fall_back (rw (e, direct) at h))
        | inr e ↦ elim (Bool-cases done) [
          | inl f ↦ absurd (over-fall_back (rw (e, f, direct) at h))
          | inr f ↦
              rw (e, f, direct)
                (direct-Counts ds l' gone r.1
                  (lines-Counts lines (start_page ours is_result synthetic l) r.0 c)
                  (rw (e, f, direct) at h))
        ]
      ]
    where
      over-fall_back : over ≡ fall_back gone → ⊥
      over-fall_back q = cc

  -- Where every line of the worker's pages is an event of the turn and the mirror goes on behind
  -- the events that they had, a stream that falls back yields those events and then the
  -- mirror's others, up to the terminal result: no event is lost and none is repeated. Where
  -- the mirror shows no terminal result, the stream raises if its tail raised, and ends with a
  -- result that says whether the sandbox is gone otherwise.
  pub stream_turn-mirrored :
      (ds : List (Direct Event)) (rest : List Event) (gone : Bool) (s : Status) (t : Tail Event)
      → All PageReadable ds
      → (direct ours is_result synthetic ds (new_live ours is_result synthetic)).0 ≡ fall_back gone
      → t.yielded
        ≡ (direct ours is_result synthetic ds (new_live ours is_result synthetic)).1.out ++ rest
      → (r : List Event × Bool) × Continues gone (is_raised ours is_result synthetic s) rest r
        × (stream_turn ours is_result synthetic ds (s, t) ≡ (
          (direct ours is_result synthetic ds (new_live ours is_result synthetic)).1.out ++ r.0,
          r.1,
        ))
  unfolding stream_turn
  stream_turn-mirrored ds rest gone s t r h y =
      let l = (direct ours is_result synthetic ds (new_live ours is_result synthetic)).1 in
      let c = direct-Counts ds (new_live ours is_result synthetic) gone r refl h in
      let b = is_raised ours is_result synthetic s in
      (
        mirrored ours is_result synthetic (cause_of ours is_result synthetic gone) b 0 rest,
        mirrored-Continues gone b rest,
        rw (h, stream_turn)
            (rw (c, y)
              (ap (λ x. after ours is_result synthetic l.out x)
                (mirrored-append (cause_of ours is_result synthetic gone) b l.out rest))),
      )
