-- ===== src/Checkpoint/Transcripts.antt =====
-- A transcript that is loaded has each entry once.
use harness_run.Base.{
  String, ◌==◌, ◌≡◌, refl, Option, none, some, List, [], ◌∷◌, any, append_one, In, Bool-cases,
  Option-cases, inl, inr, ◌⊎◌, any-true-In, any-false-In, Distinct, In-append-cases, In-append_left,
  In-append_right,
}
use harness_run.Checkpoint.{Batches, unseen, joined, or_none, load}

module _ {Entry : Type 0} (uuid : Entry → Option String) where
  abbrev pub uuids : List Entry → List String
  uuids [] = []
  uuids (e ∷ es) = elim (uuid e) [ none ↦ uuids es | some u ↦ u ∷ uuids es ]

  unseen-In :
      (es : List Entry) (seen : List String) (u : String)
      → In u (uuids (unseen uuid es seen))
      → In u seen
      → ⊥
  unseen-In [] seen u i s = i
  unseen-In (e ∷ es) seen u i s = elim (Option-cases (uuid e)) [
    | inl p ↦ unseen-In es seen u (rw (p, unseen, uuids, p) at i) s
    | inr (v, p) ↦ elim (Bool-cases (any (λ t. t == v) seen)) [
      | inl q ↦ unseen-In es seen u (rw (p, unseen, q) at i) s
      | inr q ↦ elim (rw (p, unseen, q, uuids, p) at i) [
        | inl r ↦ any-false-In v seen q (rw r at s)
        | inr j ↦ unseen-In es (append_one seen v) u j (In-append_left u seen (v ∷ []) s)
      ]
    ]
  ]

  unseen-Distinct : (es : List Entry) (seen : List String) → Distinct (uuids (unseen uuid es seen))
  unseen-Distinct [] seen = tt
  unseen-Distinct (e ∷ es) seen = elim (Option-cases (uuid e)) [
    | inl p ↦ rw (p, unseen, uuids, p) (unseen-Distinct es seen)
    | inr (v, p) ↦ elim (Bool-cases (any (λ t. t == v) seen)) [
      | inl q ↦ rw (p, unseen, q) (unseen-Distinct es seen)
      | inr q ↦
          rw (p, unseen, q, uuids, p)
            (
              λ i.
                  unseen-In es (append_one seen v) v i (In-append_right v seen (v ∷ []) (inl refl)),
              unseen-Distinct es (append_one seen v),
            )
    ]
  ]

  unseen-all :
      (es : List Entry) (seen : List String) (u : String)
      → In u (uuids es)
      → In u seen ⊎ In u (uuids (unseen uuid es seen))
  unseen-all [] seen u i = absurd i
  unseen-all (e ∷ es) seen u i = elim (Option-cases (uuid e)) [
    | inl p ↦ rw (p, unseen, uuids, p) (unseen-all es seen u (rw (p, uuids) at i))
    | inr (v, p) ↦ elim (Bool-cases (any (λ t. t == v) seen)) [
      | inl q ↦
          rw (p, unseen, q)
            (elim (rw (p, uuids) at i) [
              | inl r ↦ inl (rw r (any-true-In v seen q))
              | inr j ↦ unseen-all es seen u j
            ])
      | inr q ↦
          rw (p, unseen, q, uuids, p)
            (elim (rw (p, uuids) at i) [
              | inl r ↦ inr (inl r)
              | inr j ↦ shift seen v u _ (unseen-all es (append_one seen v) u j)
            ])
    ]
  ]
    where
      shift :
          (seen : List String) (v u : String) (us : List String)
          → In u (append_one seen v) ⊎ In u us
          → In u seen ⊎ In u (v ∷ us)
      shift seen v u us (inr j) = inr (inr j)
      shift seen v u us (inl j) = elim (In-append-cases u seen (v ∷ []) j) [
        | inl k ↦ inl k
        | inr k ↦ elim k [ inl r ↦ inr (inl r) | inr f ↦ absurd f ]
      ]

  or_none-some : (es fs : List Entry) → or_none uuid es ≡ some fs → fs ≡ es
  or_none-some [] fs h = absurd (none-some h)
    where
      none-some : ◌≡◌ {A = Option (List Entry)} none (some fs) → ⊥
      none-some q = cc
  or_none-some (e ∷ es) fs h = cc

  -- A transcript that is loaded has each uuid once, however often its entry was appended, and it
  -- has every uuid that any of its objects has.
  pub load-Distinct :
      (b : List Entry) (bs : Batches Entry) (es : List Entry)
      → load uuid (b ∷ bs) ≡ some es
      → Distinct (uuids es) × ((u : String) → In u (uuids (joined uuid (b ∷ bs))) → In u (uuids es))
  unfolding load
  load-Distinct b bs es h =
      let e = or_none-some (unseen uuid (joined uuid (b ∷ bs)) []) es h in
      rw e (
        unseen-Distinct (joined uuid (b ∷ bs)) [],
        λ u i. elim (unseen-all (joined uuid (b ∷ bs)) [] u i) [ inl f ↦ absurd f | inr j ↦ j ],
      )
