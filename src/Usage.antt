-- ===== src/Usage.antt =====
-- harness_run/harness/_usage.py: the normalized token record.
pub mod Merging
use harness_run.Base.{ℕ, ◌+◌, ◌-◌, Option, none, some, List, [], ◌∷◌, map}

-- One field for each of `USAGE_KEYS`; `none` is "not reported".
pub record Usage : Type 0 where
  pub input_tokens : Option ℕ
  pub cache_read_input_tokens : Option ℕ
  pub cache_creation_input_tokens : Option ℕ
  pub output_tokens : Option ℕ
  pub reasoning_output_tokens : Option ℕ

-- `dict.fromkeys(USAGE_KEYS)`
abbrev pub unreported : Usage
unreported = record {
  input_tokens = none;
  cache_read_input_tokens = none;
  cache_creation_input_tokens = none;
  output_tokens = none;
  reasoning_output_tokens = none;
}

-- `[p[key] for p in parts if p is not None and p.get(key) is not None]`
unfoldable pub values {ℓ} : {P : Type ℓ} → (P → Option ℕ) → List (Option P) → List ℕ
values key [] = []
values key (none ∷ parts) = values key parts
values key (some p ∷ parts) =
    let rest = values key parts in elim (key p) [ none ↦ rest | some n ↦ n ∷ rest ]

-- `sum(values)`
unfoldable pub sum : List ℕ → ℕ
sum [] = 0
sum (n ∷ ns) = n + sum ns

-- `sum(values) if values else None`
abbrev pub total : List ℕ → Option ℕ
total [] = none
total (n ∷ ns) = some (sum (n ∷ ns))

unfoldable pub merge_usage : List (Option Usage) → Usage
unfolding values sum
merge_usage parts = record {
  input_tokens = total (values (λ p. p.input_tokens) parts);
  cache_read_input_tokens = total (values (λ p. p.cache_read_input_tokens) parts);
  cache_creation_input_tokens = total (values (λ p. p.cache_creation_input_tokens) parts);
  output_tokens = total (values (λ p. p.output_tokens) parts);
  reasoning_output_tokens = total (values (λ p. p.reasoning_output_tokens) parts);
}

-- One model's entry of the CLI's `model_usage`, by its four keys.
pub record ModelUsage : Type 0 where
  pub input_tokens : Option ℕ
  pub cache_read_input_tokens : Option ℕ
  pub cache_creation_input_tokens : Option ℕ
  pub output_tokens : Option ℕ

-- `none` in the list is an entry that is no dict.
unfoldable pub from_claude_model_usage : Option (List (Option ModelUsage)) → Option Usage
unfolding values sum
from_claude_model_usage none = none
from_claude_model_usage (some []) = none
from_claude_model_usage (some (e ∷ entries)) = some (record unreported {
  input_tokens = total (values (λ p. p.input_tokens) (e ∷ entries));
  cache_read_input_tokens = total (values (λ p. p.cache_read_input_tokens) (e ∷ entries));
  cache_creation_input_tokens = total (values (λ p. p.cache_creation_input_tokens) (e ∷ entries));
  output_tokens = total (values (λ p. p.output_tokens) (e ∷ entries));
})

-- The CLI's flat dict has the same keys; the reasoning split is left out.
unfoldable pub from_claude_cli_usage : Option Usage → Usage
from_claude_cli_usage none = unreported
from_claude_cli_usage (some cli_usage) = record cli_usage { reasoning_output_tokens = none }

-- `n or 0`
abbrev pub or_zero : Option ℕ → ℕ
or_zero none = 0
or_zero (some n) = n

-- `max(a - b - c, 0)` on integers is the truncated subtraction of ℕ.
unfoldable pub from_codex_counts : ℕ → ℕ → Option ℕ → ℕ → ℕ → Usage
from_codex_counts input cached written output reasoning = record {
  input_tokens = some (input - cached - or_zero written);
  cache_read_input_tokens = some cached;
  cache_creation_input_tokens = written;
  output_tokens = some output;
  reasoning_output_tokens = some reasoning;
}
