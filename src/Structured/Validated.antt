-- ===== src/Structured/Validated.antt =====
-- A structured output is a decoded value that its schema accepts.
use harness_run.Base.{String, ◌≡◌, ◌≢◌, some, arith, Option-cases, inl, inr}
use mathlib.Core.Option.{none-ne-some}
use harness_run.Structured.{
  Schema, model, dict, unrecognized, fails, Decoder, extract_json, parse_structured_output,
  validated,
}

abbrev pub Accepts : {Json : Type 0} → Schema Json → Json → Json → Type 0
Accepts (model validate) parsed v = validate parsed ≡ some v
Accepts (dict check) parsed v = (v ≡ parsed) × (check parsed ≢ fails)
Accepts unrecognized parsed v = v ≡ parsed

module _ {Json : Type 0} (d : Decoder Json) (text : String) (v : Json) where
  -- A structured output comes from a value that `extract_json` found in the text and that the
  -- schema accepts: a model gave it, or it is that value and no validator refused it.
  parse_structured_output-Accepts :
      (schema : Schema Json)
      → parse_structured_output d (some text) schema ≡ some v
      → (parsed : Json) × (extract_json d text ≡ some parsed) × Accepts schema parsed v
  unfolding parse_structured_output
  parse_structured_output-Accepts schema h = elim (Option-cases (extract_json d text)) [
    | inl e ↦ absurd (none-ne-some v (rw (e, parse_structured_output) at h))
    | inr (parsed, e) ↦ (parsed, e, accepted schema parsed (rw (e, parse_structured_output) at h))
  ]
    where
      accepted :
          (schema : Schema Json) (parsed : Json)
          → validated d schema parsed ≡ some v
          → Accepts schema parsed v
      accepted (model validate) parsed q = q
      accepted (dict check) parsed q = ground arith
      accepted unrecognized parsed q = ground arith
