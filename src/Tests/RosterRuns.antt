-- ===== src/Tests/RosterRuns.antt =====
-- The roster's theorems on a bucket with three sandboxes, one of which has expired.
use harness_run.Base.{ℕ, ◌+◌, ◌≢◌, String, ◌≡◌, refl, none, some, List, [], ◌∷◌, arith, keep, head?}
use harness_run.Roster.{Row, read, claim, claim_row, add, remove, entries, expired_at}
use harness_run.Roster.Store.{InMemoryRosterStore, SandboxEntry, lookup, without}
use harness_run.Roster.Reading.{IsValid}
use harness_run.Roster.Generations.{IsSound}
use harness_run.Roster.Claiming.{claim_takes, live_at}
use harness_run.Roster.Race.{
  World, Reach, here, next, start, round, idle, claims_exclusive, update, after_round, loop_state,
}

abbrev sandbox_at : String → ℕ → ℕ → SandboxEntry
sandbox_at name created expires = record {
  sandbox = name;
  template = "t";
  created_at = created;
  expires_at = expires;
}

abbrev empty : InMemoryRosterStore
empty = record { objects = []; next_generation = 1 }

abbrev prefix : String
prefix = "pool/t/idle/"

-- "b" is the oldest and has expired at 50; "a" is older than "c".
bucket : InMemoryRosterStore
unfolding add without
bucket =
    add (add (add empty prefix (sandbox_at "x/c" 9 100)) prefix (sandbox_at "x/b" 3 40)) prefix
      (sandbox_at "x/a" 5 90)

bucket-IsValid : IsValid bucket
unfolding bucket
bucket-IsValid = record {
  names = ((refl, (refl, tt)), ((refl, tt), (tt, tt)));
  fresh = (omega arith, (omega arith, (omega arith, tt)));
}

bucket-IsSound : IsSound bucket
unfolding bucket
bucket-IsSound = record {
  apart = (((λ e. omega arith), ((λ e. omega arith), tt)), (((λ e. omega arith), tt), (tt, tt)));
  fresh = (omega arith, (omega arith, (omega arith, tt)));
}

abbrev row_a : Row
row_a = record { name = "pool/t/idle/a.json"; generation = 3; entry = sandbox_at "x/a" 5 90 }

abbrev row_b : Row
row_b = record { name = "pool/t/idle/b.json"; generation = 2; entry = sandbox_at "x/b" 3 40 }

claimed_a :
    ((claim bucket prefix 50 0).claimed ≡ some row_a)
    × ((claim bucket prefix 50 0).pruned ≡ row_b ∷ [])
unfolding claim bucket lookup
claimed_a = (refl, refl)

removed_b :
    entries (remove bucket prefix "b") prefix ≡ sandbox_at "x/a" 5 90 ∷ sandbox_at "x/c" 9 100 ∷ []
unfolding remove entries bucket lookup
removed_b = refl

claim_takes_example :
    ((claim bucket prefix 50 0).claimed ≡ head? (keep (live_at (50 + 0)) (read bucket prefix)))
    × ((claim bucket prefix 50 0).pruned ≡ keep (expired_at (50 + 0)) (read bucket prefix))
claim_takes_example = claim_takes bucket prefix 50 0 bucket-IsValid

-- Two calls list the same bucket; the first takes "a" and the second must go on to "c".
abbrev w0 : World
w0 = record { store = bucket; calls = λ _. idle }

abbrev row_c : Row
row_c = record { name = "pool/t/idle/c.json"; generation = 1; entry = sandbox_at "x/c" 9 100 }

abbrev listing : List Row
listing = row_b ∷ row_a ∷ row_c ∷ []

listing_lem : read bucket prefix ≡ listing
unfolding read bucket lookup
listing_lem = refl

abbrev started : ℕ → World → World
started i w = record w {
  calls = update i (record { todo = read w.store prefix; claimed = none; pruned = [] }) w.calls;
}

abbrev after : ℕ → Row → List Row → World → World
after i row rest w = after_round w i rest (claim_row 50 0 row (loop_state w i))

-- Both list; call 1 prunes "b" and claims "a", call 0 finds both gone and claims "c".
abbrev w1 : World
w1 = after 1 row_a (row_c ∷ []) (after 1 row_b (row_a ∷ row_c ∷ []) (started 1 (started 0 w0)))

abbrev w2 : World
w2 = after 0 row_c [] (after 0 row_a (row_c ∷ []) (after 0 row_b (row_a ∷ row_c ∷ []) w1))

reached : Reach w0 w2
unfolding read bucket lookup claim_row without
reached =
    next
      (next
        (next
          (next
            (next (next (next here (start 0 prefix refl)) (start 1 prefix refl))
              (round 1 50 0 row_b (row_a ∷ row_c ∷ []) refl))
            (round 1 50 0 row_a (row_c ∷ []) refl))
          (round 0 50 0 row_b (row_a ∷ row_c ∷ []) refl))
        (round 0 50 0 row_a (row_c ∷ []) refl))
      (round 0 50 0 row_c [] refl)

holds_c : (w2.calls 0).claimed ≡ some row_c
unfolding read bucket lookup claim_row without
holds_c = refl

holds_a : (w2.calls 1).claimed ≡ some row_a
unfolding read bucket lookup claim_row without
holds_a = refl

claims_exclusive_example : ◌≢◌ {A = ℕ} 1 3
claims_exclusive_example =
    claims_exclusive bucket w2 bucket-IsSound reached 0 1 row_c row_a (omega arith) holds_c holds_a
