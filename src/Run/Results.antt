-- ===== src/Run/Results.antt =====
-- What a result says of its terminal event.
use harness_run.Base.{
  String, ◌≡◌, refl, Bool, true, false, none, some, List, [], ◌∷◌, arith, Option-cases, inl, inr,
  ◌==◌, sym, ap, ◌∙◌, ◌++◌, ◌↔◌,
}
use mathlib.Core.Bool.{false≢true}
use mathlib.Core.Option.{none-ne-some}
use harness_run.Base.Texts.{has_text}
use harness_run.Events.{AgentEvent, StopReason, Raw}
use harness_run.Structured.{Decoder, Schema, parse_structured_output}
use harness_run.Run.{
  RunSpec, build_result, stop_reason_for, structured_of, recover, raw_of, or_empty,
}

-- No error, and no subtype that names an interrupt, a turn limit or a budget.
pub record IsClean (raw : Raw) : Type 0 where
  pub not_interrupted : (or_empty raw.subtype == "interrupted") ≡ false
  pub turns_left : has_text "max_turn" (or_empty raw.subtype) ≡ false
  pub budget_left : has_text "budget" (or_empty raw.subtype) ≡ false
  pub no_error : raw.is_error ≡ false

-- A turn ends for the operator's next message exactly if it is clean and checkpointed, and ends
-- for good exactly if it is clean and not checkpointed; an error flag shows as the stop reason
-- exactly if the subtype names no interrupt, no turn limit and no budget.
stop_reason_for_iff :
    (raw : Raw) (checkpoint : Bool)
    → let subtype = or_empty raw.subtype in
      (stop_reason_for raw checkpoint ≡ StopReason.needs_input
        ↔ (IsClean raw × (checkpoint ≡ true)))
      × (stop_reason_for raw checkpoint ≡ StopReason.end_turn
          ↔ (IsClean raw × (checkpoint ≡ false)))
      × (stop_reason_for raw checkpoint ≡ StopReason.interrupted
          ↔ ((subtype == "interrupted") ≡ true))
      × (stop_reason_for raw checkpoint ≡ StopReason.error ↔ (
          ((subtype == "interrupted") ≡ false)
          × (has_text "max_turn" subtype ≡ false)
          × (has_text "budget" subtype ≡ false)
          × (raw.is_error ≡ true)))
unfolding stop_reason_for
stop_reason_for_iff raw checkpoint = (
  (λ h. ground arith, λ h. ground arith),
  (λ h. ground arith, λ h. ground arith),
  (λ h. ground arith, λ h. ground arith),
  (λ h. ground arith, λ h. ground arith),
)

module _ {Json : Type 0} (d : Decoder Json) where
  recover_from :
      (schema : Schema Json) (texts : List String) (v : Json)
      → recover d schema texts ≡ some v
      → (before : List String) × (text : String) × (after : List String) × (texts
          ≡ before ++ text ∷ after)
        × (recover d schema before ≡ none)
        × (parse_structured_output d (some text) schema ≡ some v)
  unfolding recover
  recover_from schema [] v h = absurd (none-ne-some v h)
  recover_from schema (text ∷ texts) v h =
      elim (Option-cases (parse_structured_output d (some text) schema)) [
        | inr (w, e) ↦ ([], text, texts, refl, refl, e ∙ (rw (e, recover) at h))
        | inl e ↦
            let (before, found, after, split, missed, parsed) =
              recover_from schema texts v (rw (e, recover) at h) in
            (text ∷ before, found, after, ap (λ l. text ∷ l) split, rw (e, recover) missed, parsed)
      ]

  -- Where a run asks for structured output: if the result is marked as recovered, its final text
  -- has none that parses, and the output is that of the first of the earlier segments' texts that
  -- has one; if it is not marked, the output is what the final text parses to, or nothing.
  recovered_from :
      (ev : AgentEvent) (session_id : String) (spec : RunSpec Json) (schema : Schema Json)
      → spec.output_schema ≡ some schema
      → let result = (build_result d ev session_id spec).0 in
        (result.structured_output_recovered ≡ true
          → (parse_structured_output d (some ev.summary) schema ≡ none)
            × ((v : Json) × (before : List String) × (text : String) × (after : List String)
                × ((raw_of ev).segment_summaries ≡ before ++ text ∷ after)
                × (recover d schema before ≡ none)
                × (parse_structured_output d (some text) schema ≡ some v)
                × (result.structured_output ≡ some v)))
        × (result.structured_output_recovered ≡ false
            → result.structured_output ≡ parse_structured_output d (some ev.summary) schema)
  unfolding build_result
  recovered_from ev session_id spec schema asked =
      elim (Option-cases (parse_structured_output d (some ev.summary) schema)) [
        | inr (v, e) ↦ rw (asked, e, structured_of) (λ h. absurd (false≢true h), λ h. refl)
        | inl e ↦ elim (Option-cases (recover d schema (raw_of ev).segment_summaries)) [
          | inl r ↦ rw (asked, e, r, structured_of) (λ h. absurd (false≢true h), λ h. refl)
          | inr (v, r) ↦
              let (before, text, after, split, missed, parsed) =
                recover_from schema (raw_of ev).segment_summaries v r in
              rw (asked, e, r, structured_of)
                (
                  λ h. (refl, (v, before, text, after, split, missed, parsed, refl)),
                  λ h. absurd (false≢true (sym h)),
                )
        ]
      ]
