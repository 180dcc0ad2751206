-- ===== src/Structured.antt =====
-- harness_run/structured.py: the JSON value in a final message, and its check against a schema.
-- The JSON decoder, the search for a fenced block and the validators are parameters.
pub mod Validated
use harness_run.Base.{
  ℕ, String, Bool, true, false, Option, none, some, List, [], ◌∷◌, ◌==◌, if◌then◌else◌,
}
use harness_run.Base.Texts.{from_first, up_to_last, strip}

-- What `jsonschema.validate` does: it passes, raises, or is not installed.
pub data Check : Type 0 where
  passes fails not_installed : Check

-- A pydantic model (a value or an exception), a JSON-schema dict, or anything else.
pub data Schema (Json : Type 0) : Type 0 where
  model : (Json → Option Json) → Schema Json
  dict : (Json → Check) → Schema Json
  unrecognized : Schema Json

-- What the module takes from Python's `json` and `re`.
pub record Decoder (Json : Type 0) : Type 0 where
  -- `json.loads`: none for `JSONDecodeError`, and for the text `null`, whose value is `None`
  pub loads : String → Option Json
  -- the group of the first match of `_FENCE`
  pub fence : String → Option String

abbrev pub or_try {ℓ} : {A : Type ℓ} → Option A → Option A → Option A
or_try (some a) b = some a
or_try none b = b

module _ {Json : Type 0} (d : Decoder Json) where
  -- `json.loads(text[start : end + 1])` for one pair of brackets, if `0 <= start < end`
  abbrev pub span : ℕ → ℕ → String → Option Json
  span opener closer text = elim (from_first opener text) [
    | none ↦ none
    | some tail ↦ elim (up_to_last closer tail) [ none ↦ none | some inner ↦ d.loads inner ]
  ]

  abbrev pub fenced : String → Option Json
  fenced text = elim (d.fence text) [ none ↦ none | some group ↦ d.loads group ]

  unfoldable pub extract_json : String → Option Json
  unfolding from_first up_to_last strip
  extract_json text =
      if text == ""
      then none
      else or_try (fenced text)
          (or_try (span b'{' b'}' text) (or_try (span b'[' b']' text) (d.loads (strip text))))

  -- The validation of a parsed value against the schema.
  abbrev pub validated : Schema Json → Json → Option Json
  validated (model validate) parsed = validate parsed
  validated (dict check) parsed = elim (check parsed) [
    | passes ↦ some parsed
    | fails ↦ none
    | not_installed ↦ some parsed
  ]
  validated unrecognized parsed = some parsed

  unfoldable pub parse_structured_output : Option String → Schema Json → Option Json
  unfolding extract_json
  parse_structured_output none schema = none
  parse_structured_output (some text) schema = elim (extract_json text) [
    | none ↦ none
    | some parsed ↦ validated schema parsed
  ]
