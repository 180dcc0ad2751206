-- ===== src/Tests/UsageRuns.antt =====
-- The token records at concrete counts.
use harness_run.Base.{◌≡◌, refl, none, some, [], ◌∷◌, ◌++◌}
use harness_run.Usage.{Usage, unreported, merge_usage}
use harness_run.Usage.Merging.{plus_usage, merge_usage-append}

abbrev main_agent : Usage
main_agent = record unreported { input_tokens = some 6; output_tokens = some 40 }

abbrev subagent : Usage
subagent = record unreported { input_tokens = some 3; cache_read_input_tokens = some 9 }

merged : merge_usage (some main_agent ∷ none ∷ some subagent ∷ []) ≡ record unreported {
  input_tokens = some 9;
  cache_read_input_tokens = some 9;
  output_tokens = some 40;
}
unfolding merge_usage
merged = refl

merge_usage-append_example :
    (merge_usage (some main_agent ∷ []) ≡ main_agent)
    × (merge_usage [] ≡ unreported)
    × (merge_usage (none ∷ some main_agent ∷ []) ≡ merge_usage (some main_agent ∷ []))
    × (merge_usage ((some main_agent ∷ []) ++ (none ∷ some subagent ∷ []))
        ≡ plus_usage (merge_usage (some main_agent ∷ [])) (merge_usage (none ∷ some subagent ∷ [])))
merge_usage-append_example =
    merge_usage-append main_agent (some main_agent ∷ []) (none ∷ some subagent ∷ [])

-- The counts that the module's comment quotes: 20068 = 6 fresh + 9905 cached + 10157 written.
