-- ===== src/Usage/Merging.antt =====
-- What the sums of `merge_usage` and the buckets of `from_codex_counts` add up to.
use harness_run.Base.{
  ℕ, ◌+◌, ◌≤◌, ◌≡◌, refl, ap, Option, none, some, List, [], ◌∷◌, ◌++◌, arith, All, ◌↔◌,
  Option-cases, inl, inr,
}
use mathlib.Core.List.{append-nil}
use mathlib.Core.Option.{some-ne-none}
use harness_run.Usage.{
  Usage, unreported, values, sum, total, merge_usage, or_zero, from_codex_counts,
}

-- A sum of what is reported: unreported on both sides stays unreported.
abbrev pub plus : Option ℕ → Option ℕ → Option ℕ
plus none b = b
plus (some a) none = some a
plus (some a) (some b) = some (a + b)

sum-append : (xs ys : List ℕ) → sum (xs ++ ys) ≡ sum xs + sum ys
unfolding sum
sum-append [] ys = omega arith
sum-append (x ∷ xs) ys = omega (arith, sum-append xs ys)

total-append : (xs ys : List ℕ) → total (xs ++ ys) ≡ plus (total xs) (total ys)
unfolding sum
total-append [] ys = refl
total-append (x ∷ xs) [] = ap total (append-nil (x ∷ xs))
total-append (x ∷ xs) (y ∷ ys) = ap some (sum-append (x ∷ xs) (y ∷ ys))

values-append {ℓ} :
    {P : Type ℓ} (key : P → Option ℕ) (xs ys : List (Option P))
    → values key (xs ++ ys) ≡ values key xs ++ values key ys
unfolding values
values-append key [] ys = refl
values-append key (none ∷ xs) ys = values-append key xs ys
values-append key (some p ∷ xs) ys = ground (arith, values-append key xs ys)

abbrev pub plus_usage : Usage → Usage → Usage
plus_usage a b = record {
  input_tokens = plus a.input_tokens b.input_tokens;
  cache_read_input_tokens = plus a.cache_read_input_tokens b.cache_read_input_tokens;
  cache_creation_input_tokens = plus a.cache_creation_input_tokens b.cache_creation_input_tokens;
  output_tokens = plus a.output_tokens b.output_tokens;
  reasoning_output_tokens = plus a.reasoning_output_tokens b.reasoning_output_tokens;
}

total-values-append {ℓ} :
    {P : Type ℓ} (key : P → Option ℕ) (xs ys : List (Option P))
    → total (values key (xs ++ ys)) ≡ plus (total (values key xs)) (total (values key ys))
total-values-append key xs ys = rw values-append (total-append (values key xs) (values key ys))

merge-append :
    (xs ys : List (Option Usage))
    → merge_usage (xs ++ ys) ≡ plus_usage (merge_usage xs) (merge_usage ys)
unfolding merge_usage
merge-append xs ys = λ i. record {
  input_tokens = total-values-append (λ p. p.input_tokens) xs ys i;
  cache_read_input_tokens = total-values-append (λ p. p.cache_read_input_tokens) xs ys i;
  cache_creation_input_tokens = total-values-append (λ p. p.cache_creation_input_tokens) xs ys i;
  output_tokens = total-values-append (λ p. p.output_tokens) xs ys i;
  reasoning_output_tokens = total-values-append (λ p. p.reasoning_output_tokens) xs ys i;
}

total-values-one {ℓ} :
    {P : Type ℓ} (key : P → Option ℕ) (p : P) → total (values key (some p ∷ [])) ≡ key p
unfolding values sum
total-values-one key p = one (key p)
  where
    plus_zero : (n : ℕ) → n + 0 ≡ n
    plus_zero n = omega arith

    one : (o : Option ℕ) → total (elim o [ none ↦ [] | some n ↦ n ∷ [] ]) ≡ o
    one none = refl
    one (some n) = ap some (plus_zero n)

merge-one : (u : Usage) → merge_usage (some u ∷ []) ≡ u
unfolding merge_usage
merge-one u = λ i. record {
  input_tokens = total-values-one (λ p. p.input_tokens) u i;
  cache_read_input_tokens = total-values-one (λ p. p.cache_read_input_tokens) u i;
  cache_creation_input_tokens = total-values-one (λ p. p.cache_creation_input_tokens) u i;
  output_tokens = total-values-one (λ p. p.output_tokens) u i;
  reasoning_output_tokens = total-values-one (λ p. p.reasoning_output_tokens) u i;
}

merge-none : (xs : List (Option Usage)) → merge_usage (none ∷ xs) ≡ merge_usage xs
unfolding merge_usage values
merge-none xs = refl

-- Merging is a sum field by field: a part that is merged alone keeps each of its five numbers, a
-- part that is missing adds nothing, and the merge of two lists of parts is the sum of their
-- merges, where a number that one side did not report counts as nothing and a number that no
-- side reported stays unreported.
pub merge_usage-append :
    (u : Usage) (xs ys : List (Option Usage))
    → (merge_usage (some u ∷ []) ≡ u)
      × (merge_usage [] ≡ unreported)
      × (merge_usage (none ∷ xs) ≡ merge_usage xs)
      × (merge_usage (xs ++ ys) ≡ plus_usage (merge_usage xs) (merge_usage ys))
unfolding merge_usage values
merge_usage-append u xs ys = (merge-one u, refl, merge-none xs, merge-append xs ys)

plus_comm : (a b : Option ℕ) → plus a b ≡ plus b a
plus_comm a b = ground arith

-- The order in which the parts of a turn are merged does not matter.
pub merge_usage_comm :
    (xs ys : List (Option Usage)) → merge_usage (xs ++ ys) ≡ merge_usage (ys ++ xs)
merge_usage_comm xs ys =
    let a = merge_usage xs in
    let b = merge_usage ys in
    rw (merge-append xs ys, merge-append ys xs)
      (λ i. record {
        input_tokens = plus_comm a.input_tokens b.input_tokens i;
        cache_read_input_tokens = plus_comm a.cache_read_input_tokens b.cache_read_input_tokens i;
        cache_creation_input_tokens =
            plus_comm a.cache_creation_input_tokens b.cache_creation_input_tokens i;
        output_tokens = plus_comm a.output_tokens b.output_tokens i;
        reasoning_output_tokens = plus_comm a.reasoning_output_tokens b.reasoning_output_tokens i;
      })

-- The tokens of a turn: the three input buckets and the output.
abbrev pub total_tokens : Usage → ℕ
total_tokens u =
    or_zero u.input_tokens
    + or_zero u.cache_read_input_tokens
    + or_zero u.cache_creation_input_tokens
    + or_zero u.output_tokens

-- Where Codex's inclusive input counter covers its cached and its written part, the three
-- buckets add up to it, so the total is its input and its output.
from_codex_counts_total :
    (input cached output reasoning : ℕ) (written : Option ℕ)
    → cached + or_zero written ≤ input
    → total_tokens (from_codex_counts input cached written output reasoning) ≡ input + output
unfolding from_codex_counts
from_codex_counts_total input cached output reasoning written h = ground arith

-- The conversion never reports more fresh input than the counter, and never invents a cache
-- write that Codex did not report.
pub from_codex_counts_bounds :
    (input cached output reasoning : ℕ) (written : Option ℕ)
    → let u = from_codex_counts input cached written output reasoning in
      (or_zero u.input_tokens ≤ input) × ((u.cache_creation_input_tokens ≡ none) ↔ (written ≡ none))
unfolding from_codex_counts
from_codex_counts_bounds input cached output reasoning written = ground arith

abbrev pub Silent {ℓ} : {P : Type ℓ} → (P → Option ℕ) → Option P → Type 0
Silent key none = Unit
Silent key (some p) = key p ≡ none

total-Silent {ℓ} :
    {P : Type ℓ} (key : P → Option ℕ) (parts : List (Option P))
    → All (Silent key) parts
    → total (values key parts) ≡ none
unfolding values
total-Silent key [] h = refl
total-Silent key (none ∷ parts) h = total-Silent key parts h.1
total-Silent key (some p ∷ parts) h = rw (h.0, total) (total-Silent key parts h.1)

Silent-total {ℓ} :
    {P : Type ℓ} (key : P → Option ℕ) (parts : List (Option P))
    → total (values key parts) ≡ none
    → All (Silent key) parts
unfolding values
Silent-total key [] h = tt
Silent-total key (none ∷ parts) h = (tt, Silent-total key parts h)
Silent-total key (some p ∷ parts) h = elim (Option-cases (key p)) [
  | inl e ↦ (e, Silent-total key parts (rw (e, total) at h))
  | inr (n, e) ↦ absurd (some-ne-none _ (rw (e, total) at h))
]

abbrev pub Reports : (Usage → Option ℕ) → List (Option Usage) → Type 0
Reports key parts = (key (merge_usage parts) ≡ none) ↔ All (Silent key) parts

-- A merged number is unreported exactly when no part reported it, for each of the five keys: it
-- is never made a zero, and one part's report is enough.
merge_usage-unreported :
    (parts : List (Option Usage))
    → Reports (λ u. u.input_tokens) parts
      × Reports (λ u. u.cache_read_input_tokens) parts
      × Reports (λ u. u.cache_creation_input_tokens) parts
      × Reports (λ u. u.output_tokens) parts
      × Reports (λ u. u.reasoning_output_tokens) parts
unfolding merge_usage
merge_usage-unreported parts = (
  both (λ u. u.input_tokens),
  both (λ u. u.cache_read_input_tokens),
  both (λ u. u.cache_creation_input_tokens),
  both (λ u. u.output_tokens),
  both (λ u. u.reasoning_output_tokens),
)
  where
    both : (key : Usage → Option ℕ) → (total (values key parts) ≡ none) ↔ All (Silent key) parts
    both key = (Silent-total key parts, total-Silent key parts)
