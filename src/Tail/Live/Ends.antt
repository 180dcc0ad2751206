-- ===== src/Tail/Live/Ends.antt =====
-- How the events of a turn end for its reader.
use harness_run.Base.{
  IsOpen, IsEnded, last, before, append-IsEnded, ℕ, zero, suc, Bool, true, false, ◌≡◌, refl, Option,
  none, some, List, [], ◌∷◌, if◌then◌else◌, leb, All-append, Bool-cases, arith, inl, inr, ◌⊎◌,
}
use harness_run.Tail.Live.{
  Direct, vanished, call_failed, refused, paged, Cause, worker_ended, Phase, over, fall_back,
  polling, Live, new_live, count, emit, emit_lines, end_with, fail, start_page, direct_max_failures,
  direct, mirrored, cause_of, stream_turn, after, is_raised,
}
use harness_run.Tail.{Status, going, ended, raised, Tail}

module _ {Event : Type 0} (ours is_result : Event → Bool) (synthetic : Cause → Event) where
  -- What has been yielded, by where the worker's part of the stream stands.
  abbrev pub IsWhole : Phase → Status → List Event × Bool → Type 0
  IsWhole polling s (es, failed) = IsOpen is_result es × (failed ≡ false)
  IsWhole over s (es, failed) = IsEnded is_result es × (failed ≡ false)
  IsWhole (fall_back gone) s (es, failed) =
      (IsEnded is_result es × (failed ≡ false))
      ⊎ (IsOpen is_result es × ((failed ≡ true) × (s ≡ Status.raised)))

  abbrev pub Stands : Phase → List Event → Type 0
  Stands over es = IsEnded is_result es
  Stands p es = IsOpen is_result es

  abbrev pub Emitted : Bool × Live Event → Type 0
  Emitted (stop, l) =
      ((stop ≡ true) × IsEnded is_result l.out) ⊎ ((stop ≡ false) × IsOpen is_result l.out)

  emit_lines-Emitted :
      (es : List (Option Event)) (l : Live Event)
      → IsOpen is_result l.out
      → Emitted (emit_lines ours is_result synthetic es l)
  unfolding emit_lines
  emit_lines-Emitted [] l h = inr (refl, h)
  emit_lines-Emitted (none ∷ es) l h = emit_lines-Emitted es (count ours is_result synthetic l) h
  emit_lines-Emitted (some e ∷ es) l h = elim (Bool-cases (ours e)) [
    | inl o ↦ elim (Bool-cases (is_result e)) [
      | inl r ↦ rw (o, r) (inl (refl, append-IsEnded is_result l.out (e ∷ []) h (last r)))
      | inr r ↦
          rw (o, r)
            (emit_lines-Emitted es (emit ours is_result synthetic e l)
              (All-append (λ x. is_result x ≡ false) l.out (e ∷ []) h (r, tt)))
    ]
    | inr o ↦ rw o (emit_lines-Emitted es (count ours is_result synthetic l) h)
  ]

  abbrev EndsBy : Bool → List Event × Bool → Type 0
  EndsBy raises (es, failed) =
      (IsEnded is_result es × (failed ≡ false))
      ⊎ (IsOpen is_result es × ((failed ≡ true) × (raises ≡ true)))

  none-EndsBy :
      (c : Cause) (raises : Bool)
      → is_result (synthetic c) ≡ true
      → EndsBy raises (if raises then ([], true) else (synthetic c ∷ [], false))
  none-EndsBy c true s = inr (tt, (refl, refl))
  none-EndsBy c false s = inl (last s, refl)

  cons-EndsBy :
      (e : Event) (raises : Bool) (r : List Event × Bool)
      → is_result e ≡ false
      → EndsBy raises r
      → EndsBy raises (e ∷ r.0, r.1)
  cons-EndsBy e raises (es, failed) h (inl k) = inl (before h k.0, k.1)
  cons-EndsBy e raises (es, failed) h (inr k) = inr ((h, k.0), k.1)

  mirrored-EndsBy :
      (c : Cause) (raises : Bool) (skip : ℕ) (es : List Event)
      → is_result (synthetic c) ≡ true
      → EndsBy raises (mirrored ours is_result synthetic c raises skip es)
  unfolding mirrored
  mirrored-EndsBy c raises zero [] s = none-EndsBy c raises s
  mirrored-EndsBy c raises (suc skip) [] s = none-EndsBy c raises s
  mirrored-EndsBy c raises (suc skip) (e ∷ es) s = mirrored-EndsBy c raises skip es s
  mirrored-EndsBy c raises zero (e ∷ es) s = elim (Bool-cases (is_result e)) [
    | inl r ↦ rw r (inl (last r, refl))
    | inr r ↦ rw r (cons-EndsBy e raises _ r (mirrored-EndsBy c raises zero es s))
  ]

  after-EndsBy :
      (out : List Event) (raises : Bool) (r : List Event × Bool)
      → IsOpen is_result out
      → EndsBy raises r
      → EndsBy raises (after ours is_result synthetic out r)
  after-EndsBy out raises (es, failed) h (inl k) = inl (append-IsEnded is_result out es h k.0, k.1)
  after-EndsBy out raises (es, failed) h (inr k) =
      inr (All-append (λ x. is_result x ≡ false) out es h k.0, k.1)

  raised_by : (s : Status) → is_raised ours is_result synthetic s ≡ true → s ≡ Status.raised
  raised_by raised h = refl
  raised_by going h = ground arith
  raised_by ended h = ground arith

  EndsBy-IsWhole :
      (gone : Bool) (s : Status) (r : List Event × Bool)
      → EndsBy (is_raised ours is_result synthetic s) r
      → IsWhole (fall_back gone) s r
  EndsBy-IsWhole gone s (es, failed) (inl k) = inl k
  EndsBy-IsWhole gone s (es, failed) (inr k) = inr (k.0, (k.1.0, raised_by s k.1.1))

  if-Stands :
      (b : Bool) (r q : Phase × Live Event)
      → Stands r.0 r.1.out
      → Stands q.0 q.1.out
      → Stands (if b then r else q).0 (if b then r else q).1.out
  if-Stands true r q h k = h
  if-Stands false r q h k = k

  direct-Stands :
      (ds : List (Direct Event)) (l : Live Event)
      → is_result (synthetic worker_ended) ≡ true
      → IsOpen is_result l.out
      → Stands (direct ours is_result synthetic ds l).0 (direct ours is_result synthetic ds l).1.out
  unfolding direct
  direct-Stands [] l s h = h
  direct-Stands (vanished ∷ ds) l s h = h
  direct-Stands (refused ∷ ds) l s h = h
  direct-Stands (call_failed ∷ ds) l s h =
      if-Stands (leb direct_max_failures (suc l.failures))
        (fall_back false, fail ours is_result synthetic l)
        (direct ours is_result synthetic ds (fail ours is_result synthetic l)) h
        (direct-Stands ds (fail ours is_result synthetic l) s h)
  direct-Stands (paged lines done ∷ ds) l s h =
      let t = start_page ours is_result synthetic l in
      let (stop, u) = emit_lines ours is_result synthetic lines t in
      elim (emit_lines-Emitted lines t h) [
        | inl k ↦ rw (k.0, direct) k.1
        | inr k ↦
            rw (k.0, direct)
              (if-Stands done (over, end_with ours is_result synthetic worker_ended u)
                (direct ours is_result synthetic ds u)
                (append-IsEnded is_result u.out (synthetic worker_ended ∷ []) k.1 (last s))
                (direct-Stands ds u s k.1))
      ]

  -- Whatever the worker's calls give and however the mirror's tail ends, where the results that
  -- the client makes itself are terminal ones: a reader of a turn gets one terminal result, as the
  -- last event, or none as long as the worker is being asked; only where the stream fell back and
  -- the tail raised, it may get that exception and no terminal result.
  pub stream_turn-IsWhole :
      (ds : List (Direct Event)) (s : Status) (t : Tail Event)
      → ((c : Cause) → is_result (synthetic c) ≡ true)
      → IsWhole
          (direct ours is_result synthetic ds (new_live ours is_result synthetic)).0
          s
          (stream_turn ours is_result synthetic ds (s, t))
  unfolding stream_turn
  stream_turn-IsWhole ds s t k =
      whole (direct ours is_result synthetic ds (new_live ours is_result synthetic))
        (direct-Stands ds (new_live ours is_result synthetic) (k worker_ended) tt)
    where
      whole :
          (r : Phase × Live Event)
          → Stands r.0 r.1.out
          → IsWhole r.0 s (elim r.0 as (λ _. List Event × Bool) [
            | over ↦ (r.1.out, false)
            | polling ↦ (r.1.out, false)
            | fall_back gone ↦ after ours is_result synthetic r.1.out (
                mirrored ours is_result synthetic
                  (cause_of ours is_result synthetic gone)
                  (is_raised ours is_result synthetic s)
                  r.1.yielded
                  t.yielded)
          ])
      whole (over, l) h = (h, refl)
      whole (polling, l) h = (h, refl)
      whole (fall_back gone, l) h =
          let c = cause_of ours is_result synthetic gone in
          let b = is_raised ours is_result synthetic s in
          EndsBy-IsWhole gone s _ (
            after-EndsBy l.out b (mirrored ours is_result synthetic c b l.yielded t.yielded) h
              (mirrored-EndsBy c b l.yielded t.yielded (k c)))
