-- ===== src/ScopedGcs/Refreshing.antt =====
-- What a credential shows and logs, over all its refreshes.
use harness_run.Base.{
  ℕ, ◌+◌, ◌≤◌, zero, suc, String, ◌≡◌, refl, true, false, Option, none, some, List, [], ◌∷◌, ◌++◌,
  if◌then◌else◌, leb, eqb, arith, ◌⊎◌, append_assoc, append-nil, ◌∙◌, sym, ap,
}
use harness_run.ScopedGcs.{
  refresh_horizon, dead_token_after, Notice, Fetched, read, raised, Refresher, Shown,
  refresh_handler, refreshes, worker_credentials, within_horizon, note_failure,
}

-- The last token that was read, or the first one.
unfoldable pub last_token : String → List (ℕ × Fetched) → String
last_token t [] = t
last_token t ((now, read (some fresh) expiry) ∷ fs) = last_token fresh fs
last_token t ((now, read none expiry) ∷ fs) = last_token t fs
last_token t ((now, raised) ∷ fs) = last_token t fs

-- What the `n`th failure since a token was read is worth saying.
unfoldable pub notice_of : ℕ → List Notice
notice_of n =
    if eqb n 1
    then Notice.warned ∷ []
    else if eqb n dead_token_after
    then Notice.escalated ∷ []
    else []

-- What is said, where `n` reads have failed since a token was read.
unfoldable pub notices : ℕ → List (ℕ × Fetched) → List Notice
unfolding notice_of
notices n [] = []
notices n ((now, read (some fresh) expiry) ∷ fs) = notices 0 fs
notices n ((now, read none expiry) ∷ fs) = notices n fs
notices n ((now, raised) ∷ fs) = notice_of (suc n) ++ notices (suc n) fs

-- Of each refresh that reads a token with an expiry, the expiry shown is that one or the horizon,
-- whichever is earlier; of every other one, it is five minutes ahead.
abbrev pub IsSoon : ℕ × Fetched → Shown → Type 0
IsSoon (now, read (some fresh) (some when)) s =
    (s.expiry ≤ now + refresh_horizon)
    × (s.expiry ≤ when)
    × ((s.expiry ≡ now + refresh_horizon) ⊎ (s.expiry ≡ when))
IsSoon (now, f) s = s.expiry ≡ now + 300

pub data AreSoon : List (ℕ × Fetched) → List Shown → Type 0 where
  none_left : AreSoon [] []
  each :
      {f : ℕ × Fetched} {s : Shown} {fs : List (ℕ × Fetched)} {ss : List Shown}
      → IsSoon f s
      → AreSoon fs ss
      → AreSoon (f ∷ fs) (s ∷ ss)

within_horizon-le : (now when : ℕ) → within_horizon now (some when) ≤ now + refresh_horizon
unfolding within_horizon
within_horizon-le now when = ground arith

within_horizon-le_when : (now when : ℕ) → within_horizon now (some when) ≤ when
unfolding within_horizon
within_horizon-le_when now when = ground arith

within_horizon-cases :
    (now when : ℕ)
    → (within_horizon now (some when) ≡ now + refresh_horizon)
      ⊎ (within_horizon now (some when) ≡ when)
unfolding within_horizon
within_horizon-cases now when = ground arith

within_horizon-soon : (now : ℕ) → within_horizon now (some (now + 300)) ≡ now + 300
unfolding within_horizon
within_horizon-soon now = ground arith

refresh_handler-IsSoon :
    (now : ℕ) (f : Fetched) (s : Refresher) → IsSoon (now, f) (refresh_handler true now f s).0
unfolding refresh_handler
refresh_handler-IsSoon now (read (some fresh) (some when)) s =
    (within_horizon-le now when, within_horizon-le_when now when, within_horizon-cases now when)
refresh_handler-IsSoon now (read (some fresh) none) s = within_horizon-soon now
refresh_handler-IsSoon now (read none expiry) s = refl
refresh_handler-IsSoon now raised s = refl

pub refreshes-AreSoon : (fs : List (ℕ × Fetched)) (s : Refresher) → AreSoon fs (refreshes fs s).0
unfolding refreshes
refreshes-AreSoon [] s = none_left
refreshes-AreSoon ((now, f) ∷ fs) s =
    each (refresh_handler-IsSoon now f s) (refreshes-AreSoon fs (refresh_handler true now f s).1)

-- The state where `n` reads have failed since a token was read.
pub record Follows (n : ℕ) (s : Refresher) : Type 0 where
  pub failed : s.failures ≡ n
  pub told : s.escalated ≡ leb dead_token_after n

note_failure-Follows : (n : ℕ) (s : Refresher) → Follows n s → Follows (suc n) (note_failure s)
unfolding note_failure
note_failure-Follows n s h = record {
  failed = rw (h.failed, h.told) (ground arith);
  told = rw (h.failed, h.told) (ground arith);
}

-- From the fourth failure on nothing is said.
said : (m : ℕ) → eqb (suc (suc (suc (suc m)))) 1 ≡ false
said m = ground arith

dead : (m : ℕ) → leb dead_token_after (suc (suc (suc m))) ≡ true
dead m = ground arith

past : (m : ℕ) → eqb (suc (suc (suc (suc m)))) dead_token_after ≡ false
past m = ground arith

note_failure_log :
    (n : ℕ) (s : Refresher) → Follows n s → (note_failure s).log ≡ s.log ++ notice_of (suc n)
unfolding note_failure notice_of
note_failure_log zero s h = rw h.failed refl
note_failure_log (suc zero) s h = rw h.failed (sym (append-nil s.log))
note_failure_log (suc (suc zero)) s h = rw (h.failed, h.told) refl
note_failure_log (suc (suc (suc m))) s h =
    rw (h.failed, h.told, said m, past m, dead m, dead (suc m)) (sym (append-nil s.log))

note_failure_token : (s : Refresher) → (note_failure s).token ≡ s.token
unfolding note_failure
note_failure_token s = ground arith

-- What a credential says and which token it holds.
pub record Tells (log : List Notice) (token : String) (s : Refresher) : Type 0 where
  pub log_is : s.log ≡ log
  pub token_is : s.token ≡ token

pub refreshes-Tells :
    (fs : List (ℕ × Fetched)) (n : ℕ) (s : Refresher)
    → Follows n s
    → Tells (s.log ++ notices n fs) (last_token s.token fs) (refreshes fs s).1
unfolding refreshes refresh_handler notices last_token
refreshes-Tells [] n s h = record { log_is = sym (append-nil s.log); token_is = refl }
refreshes-Tells ((now, read (some fresh) expiry) ∷ fs) n s h =
    refreshes-Tells fs 0 (record s { token = fresh; failures = 0; escalated = false })
      (record { failed = refl; told = refl })
refreshes-Tells ((now, read none expiry) ∷ fs) n s h = refreshes-Tells fs n s h
refreshes-Tells ((now, raised) ∷ fs) n s h =
    let t = refreshes-Tells fs (suc n) (note_failure s) (note_failure-Follows n s h) in
    record {
      log_is =
          t.log_is
          ∙ rw (note_failure_log n s h)
              (append_assoc s.log (notice_of (suc n)) (notices (suc n) fs));
      token_is = t.token_is ∙ ap (λ x. last_token x fs) (note_failure_token s);
    }

-- A credential of `worker_credentials` with a bucket, after any refreshes: its token is the last
-- one that was read, or its first one, and its log has a warning for the first failure and an
-- escalation for the third since a token was read, and nothing else.
pub worker_credentials-Tells :
    (now : ℕ) (token : String) (expiry : Option ℕ) (fs : List (ℕ × Fetched))
    → Tells
        (notices 0 fs)
        (last_token token fs)
        (refreshes fs (worker_credentials now token expiry).1).1
unfolding worker_credentials
worker_credentials-Tells now token expiry fs =
    refreshes-Tells fs 0 (record { token = token; failures = 0; escalated = false; log = [] })
      (record { failed = refl; told = refl })

-- Whatever the token's object says and whenever the refreshes run: where a token with an expiry is
-- read (or given at the start), the expiry that a credential with a bucket shows is the earlier of
-- that one and the refresh horizon; where the token has no expiry, the read fails or it gives no
-- token, the expiry shown is five minutes ahead of the refresh, whether or not the token that is
-- kept lasts so long.
pub credentials-AreSoon :
    (now : ℕ) (token : String) (expiry : Option ℕ) (fs : List (ℕ × Fetched))
    → AreSoon ((now, read (some token) expiry) ∷ fs) (
        (worker_credentials now token expiry).0
        ∷ (refreshes fs (worker_credentials now token expiry).1).0)
unfolding worker_credentials refresh_handler
credentials-AreSoon now token expiry fs =
    each
      (refresh_handler-IsSoon now (read (some token) expiry)
        (record { token = token; failures = 0; escalated = false; log = [] }))
      (refreshes-AreSoon fs (record { token = token; failures = 0; escalated = false; log = [] }))
