-- ===== src/Handoff/Coverage.antt =====
-- The lifecycle rules are there after they were ensured, and nothing else has changed.
use harness_run.Base.{
  any-append_left, any-In, all-In, all-elim, keep-none, ℕ, String, ◌==◌, ◌≡◌, refl, Bool, true,
  false, not, some, List, [], ◌∷◌, ◌++◌, leb, keep, In, In-keep_intro, In-append_right, append-nil,
  ◌⊎◌, Bool-cases, inl, inr, arith, eq_refl, sym, ap, any, subst, eq_iff, ◌<>◌, ◌≤◌, In-keep,
  leb→le, if◌then◌else◌, Option-cases,
}
use harness_run.Handoff.{
  Rule, base_of, handoff_lifecycle_rules, covers_by, covered, is_met, missing,
  ensure_handoff_lifecycle,
}

-- A rule that deletes by age alone.
abbrev pub IsWanted : Rule → Type 0
IsWanted r = (r.deletes ≡ true) × (r.plain ≡ true) × ((a : ℕ) × (r.age ≡ some a))

is_met-append :
    (rules more : List Rule) (r : Rule)
    → IsWanted r
    → is_met rules r ≡ true
    → is_met (rules ++ more) r ≡ true
is_met-append rules more r (d, p, (a, e)) h =
    rw (e, is_met)
      (all-In (λ q. covered (rules ++ more) q a) r.prefixes
        (λ q m.
          any-append_left (λ s. covers_by q a s) rules more
            (all-elim (λ q. covered rules q a) q r.prefixes (rw (e, is_met) at h) m)))

covers_by_self :
    (r : Rule) (q : String) (a : ℕ)
    → IsWanted r
    → r.age ≡ some a
    → In q r.prefixes
    → covers_by q a r ≡ true
covers_by_self r q a (d, p, (b, f)) e m =
    let i = any-In (λ s. s == q) q r.prefixes m (eq_refl q) in
    let l : leb a a ≡ true = ground arith in rw (e, covers_by, d, p, l, i) refl

is_met-In : (rules : List Rule) (r : Rule) → IsWanted r → In r rules → is_met rules r ≡ true
is_met-In rules r (d, p, (a, e)) m =
    rw (e, is_met)
      (all-In (λ q. covered rules q a) r.prefixes
        (λ q i. any-In (λ s. covers_by q a s) r rules m (covers_by_self r q a (d, p, (a, e)) e i)))

handoff_lifecycle_rules-IsWanted :
    (prefix : String) (r : Rule) → In r (handoff_lifecycle_rules prefix) → IsWanted r
unfolding handoff_lifecycle_rules
handoff_lifecycle_rules-IsWanted prefix r (inl e) = rw e (refl, refl, (1, refl))
handoff_lifecycle_rules-IsWanted prefix r (inr (inl e)) = rw e (refl, refl, (30, refl))
handoff_lifecycle_rules-IsWanted prefix r (inr (inr m)) = absurd m

keep-In :
    {A : Type 0} (f : A → Bool) (a : A) (xs : List A)
    → In a xs
    → f a ≡ false
    → In a (keep (λ b. not (f b)) xs)
keep-In f a xs m h = In-keep_intro (λ b. not (f b)) a xs m (rw h refl)

-- The wanted rules are met by the rules with those that were missing.
met_after :
    (rules wanted : List Rule) (r : Rule)
    → IsWanted r
    → In r wanted
    → is_met (rules ++ missing rules wanted) r ≡ true
unfolding missing
met_after rules wanted r w m = elim (Bool-cases (is_met rules r)) [
  | inl e ↦ is_met-append rules (missing rules wanted) r w e
  | inr e ↦
      is_met-In (rules ++ missing rules wanted) r w
        (In-append_right r rules (missing rules wanted) (keep-In (is_met rules) r wanted m e))
]

missing-after :
    (prefix : String) (rules : List Rule)
    → missing
        (rules ++ missing rules (handoff_lifecycle_rules prefix))
        (handoff_lifecycle_rules prefix)
      ≡ []
unfolding missing
missing-after prefix rules =
    let wanted = handoff_lifecycle_rules prefix in
    keep-none (is_met (rules ++ missing rules wanted)) wanted
      (λ r m. met_after rules wanted r (handoff_lifecycle_rules-IsWanted prefix r m) m)

ensure-rules :
    (prefix : String) (rules : List Rule)
    → ensure_handoff_lifecycle true prefix rules
      ≡ (true, rules ++ missing rules (handoff_lifecycle_rules prefix))
unfolding ensure_handoff_lifecycle
ensure-rules prefix rules = elim (List-cases (missing rules (handoff_lifecycle_rules prefix))) [
  | inl e ↦ rw (e, ensure_handoff_lifecycle) (ap (λ t. (true, t)) (sym (append-nil rules)))
  | inr (r, rs, e) ↦ rw (e, ensure_handoff_lifecycle) refl
]
  where
    List-cases : (xs : List Rule) → (xs ≡ []) ⊎ ((r : Rule) × (rs : List Rule) × (xs ≡ r ∷ rs))
    List-cases [] = inl refl
    List-cases (r ∷ rs) = inr (r, rs, refl)

-- Some rule deletes what has this prefix, by its age alone, at this age in days or sooner.
abbrev pub IsDeletedWithin : ℕ → String → List Rule → Type 0
IsDeletedWithin days prefix rules =
    (r : Rule) × In r rules
    × (r.deletes ≡ true)
    × (r.plain ≡ true)
    × In prefix r.prefixes
    × ((a : ℕ) × (r.age ≡ some a) × (a ≤ days))

any-elim :
    {A : Type 0} (f : A → Bool) (xs : List A) → any f xs ≡ true → (a : A) × In a xs × (f a ≡ true)
any-elim f [] h = ground arith
any-elim f (x ∷ xs) h = elim (Bool-cases (f x)) [
  | inl e ↦ (x, inl refl, e)
  | inr e ↦ let r = any-elim f xs (rw (e, any) at h) in (r.0, inr r.1, r.2)
]

covers_by-elim :
    (p : String) (days : ℕ) (r : Rule)
    → covers_by p days r ≡ true
    → (r.deletes ≡ true)
      × (r.plain ≡ true)
      × (any (λ q. q == p) r.prefixes ≡ true)
      × ((a : ℕ) × (r.age ≡ some a) × (a ≤ days))
covers_by-elim p days r h = elim (Option-cases r.age) [
  | inl e ↦ absurd (false-true (rw (e, covers_by) at h))
  | inr (a, e) ↦
      let g = rw (e, covers_by) at h in
      let t = ifs r.deletes r.plain (leb a days) (any (λ q. q == p) r.prefixes) g in
      (t.0, t.1, t.2, (a, e, leb→le a days t.3))
]
  where
    false-true : false ≡ true → ⊥
    false-true q = cc

    ifs :
        (b c d f : Bool)
        → (if b then if c then if d then f else false else false else false) ≡ true
        → (b ≡ true) × (c ≡ true) × (f ≡ true) × (d ≡ true)
    ifs b c d f h = ground arith

covered-IsDeletedWithin :
    (rules : List Rule) (p : String) (days : ℕ)
    → covered rules p days ≡ true
    → IsDeletedWithin days p rules
covered-IsDeletedWithin rules p days h =
    let (r, m, c) = any-elim (λ r. covers_by p days r) rules h in
    let (d, q, i, a) = covers_by-elim p days r c in
    let (t, n, e) = any-elim (λ t. t == p) r.prefixes i in
    (r, m, d, q, (subst (λ x. In x r.prefixes) ((eq_iff t p).0 e) n), a)

-- What is met of a wanted rule deletes each of its prefixes in time.
met-IsDeletedWithin :
    (rules : List Rule) (r : Rule) (p : String) (days : ℕ)
    → r.age ≡ some days
    → In p r.prefixes
    → is_met rules r ≡ true
    → IsDeletedWithin days p rules
met-IsDeletedWithin rules r p days e m h =
    covered-IsDeletedWithin rules p days
      (all-elim (λ q. covered rules q days) p r.prefixes (rw (e, is_met) at h) m)

-- Where the bucket takes the change, ensuring the lifecycle rules keeps every rule that was there
-- and adds only rules of the run records; after it some rule deletes the invocation secrets within
-- a day and some rule the configs of sessions and of turns within thirty days, by their age alone;
-- and it changes nothing when it is done again.
pub ensure_handoff_lifecycle-again :
    (patches : Bool) (prefix : String) (rules : List Rule)
    → let (ok, after) = ensure_handoff_lifecycle true prefix rules in
      (ok ≡ true)
      × ((more : List Rule) × (after ≡ rules ++ more)
          × ((r : Rule) → In r more → In r (handoff_lifecycle_rules prefix)))
      × IsDeletedWithin 1 (base_of prefix <> "invocation-secrets/") after
      × IsDeletedWithin 30 (base_of prefix <> "session-config/") after
      × IsDeletedWithin 30 (base_of prefix <> "turn-config/") after
      × (ensure_handoff_lifecycle patches prefix after ≡ (true, after))
unfolding ensure_handoff_lifecycle missing handoff_lifecycle_rules
ensure_handoff_lifecycle-again patches prefix rules =
    let wanted = handoff_lifecycle_rules prefix in
    let after = rules ++ missing rules wanted in
    let met : (r : Rule) → In r wanted → is_met after r ≡ true =
      λ r m. met_after rules wanted r (handoff_lifecycle_rules-IsWanted prefix r m) m in
    rw (ensure-rules prefix rules) (
      refl,
      (missing rules wanted, refl, λ r m. (In-keep (λ r. not (is_met rules r)) r wanted m).0),
      met-IsDeletedWithin after secrets secret_prefix 1 refl (inl refl) (met secrets (inl refl)),
      met-IsDeletedWithin after configs session_prefix 30 refl (inl refl)
          (met configs (inr (inl refl))),
      met-IsDeletedWithin after configs turn_prefix 30 refl (inr (inl refl))
          (met configs (inr (inl refl))),
      rw (missing-after prefix rules, ensure_handoff_lifecycle) refl,
    )
  where
    secret_prefix : String
    secret_prefix = base_of prefix <> "invocation-secrets/"

    session_prefix : String
    session_prefix = base_of prefix <> "session-config/"

    turn_prefix : String
    turn_prefix = base_of prefix <> "turn-config/"

    secrets : Rule
    secrets = record { deletes = true; plain = true; age = some 1; prefixes = secret_prefix ∷ [] }

    configs : Rule
    configs = record {
      deletes = true;
      plain = true;
      age = some 30;
      prefixes = session_prefix ∷ turn_prefix ∷ [];
    }
