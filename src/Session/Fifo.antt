-- ===== src/Session/Fifo.antt =====
-- The messages of one turn reach the worker in the order in which they were sent.
use harness_run.Base.{
  ◌≡◌, refl, ℕ, zero, suc, Bool, true, false, Option, none, some, List, [], ◌∷◌, ◌++◌, append_one,
  arith, append_assoc, append-nil, append_one-append, ap, ◌∙◌, sym,
}
use harness_run.Control.{ControlMessage}
use harness_run.Session.{
  Inbox, Flusher, no_thread, looking, popping, posting, new_turn, post_control, post_now,
  publish_sandbox, observe_ready, flush_control,
}

-- The states of a turn's inbox under one caller, `publish_sandbox` coming before the worker's
-- `control_ready`, and nothing dropped. The list is what was sent.
pub data Turn : List ControlMessage → Inbox → Type 0 where
  begun : Turn [] new_turn
  sent :
      {ms : List ControlMessage} {b : Inbox} (m : ControlMessage)
      → Turn ms b
      → b.caller ≡ none
      → Turn (append_one ms m) (post_control m b)
  caller_posted : {ms : List ControlMessage} {b : Inbox} → Turn ms b → Turn ms (post_now b)
  published : {ms : List ControlMessage} {b : Inbox} → Turn ms b → Turn ms (publish_sandbox b)
  readied :
      {ms : List ControlMessage} {b : Inbox}
      → Turn ms b
      → b.has_sandbox ≡ true
      → Turn ms (observe_ready b)
  flushed : {ms : List ControlMessage} {b : Inbox} → Turn ms b → Turn ms (flush_control b)

abbrev state :
    Bool
    → Bool
    → Bool
    → List ControlMessage
    → Option ControlMessage
    → Flusher
    → List ControlMessage
    → Inbox
state r s f q c t p = record {
  control_ready = r;
  has_sandbox = s;
  flushing = f;
  pending_control = q;
  caller = c;
  flusher = t;
  posted = p;
}

-- The shapes of such a state: before the worker is ready, open, with the caller posting, and with
-- the flusher at each of its places.
data Shape (ms : List ControlMessage) : Inbox → Type 0 where
  early : (s : Bool) → Shape ms (state false s false ms none no_thread [])
  quiet : (p : List ControlMessage) → p ≡ ms → Shape ms (state true true false [] none no_thread p)
  direct :
      (p : List ControlMessage) (m : ControlMessage)
      → append_one p m ≡ ms
      → Shape ms (state true true false [] (some m) no_thread p)
  at_top :
      (p q : List ControlMessage) → p ++ q ≡ ms → Shape ms (state true true true q none looking p)
  in_post :
      (p q : List ControlMessage) (m : ControlMessage)
      → p ++ (m ∷ q) ≡ ms
      → Shape ms (state true true true (m ∷ q) none (posting m) p)
  at_pop :
      (p q : List ControlMessage) (m : ControlMessage)
      → p ++ q ≡ ms
      → Shape ms (state true true true (m ∷ q) none popping p)

some-none : (m : ControlMessage) → ◌≡◌ {A = Option ControlMessage} (some m) none → ⊥
some-none m h = cc

sent-Shape :
    (ms : List ControlMessage) (b : Inbox) (m : ControlMessage)
    → Shape ms b
    → b.caller ≡ none
    → Shape (append_one ms m) (post_control m b)
unfolding post_control
sent-Shape ms b m (early s) c = early s
sent-Shape ms b m (quiet p e) c = direct p m (ap (λ l. append_one l m) e)
sent-Shape ms b m (direct p n e) c = absurd (some-none n c)
sent-Shape ms b m (at_top p q e) c =
    at_top p (append_one q m) (sym (append_assoc p q (m ∷ [])) ∙ ap (λ l. append_one l m) e)
sent-Shape ms b m (in_post p q n e) c =
    in_post p (append_one q m) n
      (sym (append_assoc p (n ∷ q) (m ∷ [])) ∙ ap (λ l. append_one l m) e)
sent-Shape ms b m (at_pop p q n e) c =
    at_pop p (append_one q m) n (sym (append_assoc p q (m ∷ [])) ∙ ap (λ l. append_one l m) e)

post_now-Shape : (ms : List ControlMessage) (b : Inbox) → Shape ms b → Shape ms (post_now b)
unfolding post_now
post_now-Shape ms b (early s) = early s
post_now-Shape ms b (quiet p e) = quiet p e
post_now-Shape ms b (direct p m e) = quiet (append_one p m) e
post_now-Shape ms b (at_top p q e) = at_top p q e
post_now-Shape ms b (in_post p q m e) = in_post p q m e
post_now-Shape ms b (at_pop p q m e) = at_pop p q m e

publish-Shape : (ms : List ControlMessage) (b : Inbox) → Shape ms b → Shape ms (publish_sandbox b)
unfolding publish_sandbox
publish-Shape ms b (early s) = early true
publish-Shape ms b (quiet p e) = quiet p e
publish-Shape ms b (direct p m e) = direct p m e
publish-Shape ms b (at_top p q e) = at_top p q e
publish-Shape ms b (in_post p q m e) = in_post p q m e
publish-Shape ms b (at_pop p q m e) = at_pop p q m e

early-ready :
    (ms : List ControlMessage) (s : Bool)
    → s ≡ true
    → Shape ms (observe_ready (state false s false ms none no_thread []))
unfolding observe_ready
early-ready ms false h = absurd (false-true h)
  where
    false-true : false ≡ true → ⊥
    false-true q = cc
early-ready [] true h = quiet [] refl
early-ready (m ∷ ms) true h = at_top [] (m ∷ ms) refl

readied-Shape :
    (ms : List ControlMessage) (b : Inbox)
    → Shape ms b
    → b.has_sandbox ≡ true
    → Shape ms (observe_ready b)
unfolding observe_ready
readied-Shape ms b (early s) h = early-ready ms s h
readied-Shape ms b (quiet p e) h = quiet p e
readied-Shape ms b (direct p m e) h = direct p m e
readied-Shape ms b (at_top p [] e) h = at_top p [] e
readied-Shape ms b (at_top p (n ∷ q) e) h = at_top p (n ∷ q) e
readied-Shape ms b (in_post p q m e) h = in_post p q m e
readied-Shape ms b (at_pop p q m e) h = at_pop p q m e

flush-Shape : (ms : List ControlMessage) (b : Inbox) → Shape ms b → Shape ms (flush_control b)
unfolding flush_control
flush-Shape ms b (early s) = early s
flush-Shape ms b (quiet p e) = quiet p e
flush-Shape ms b (direct p m e) = direct p m e
flush-Shape ms b (at_top p [] e) = quiet p (sym (append-nil p) ∙ e)
flush-Shape ms b (at_top p (m ∷ q) e) = in_post p q m e
flush-Shape ms b (in_post p q m e) = at_pop (append_one p m) q m (append_one-append p m q ∙ e)
flush-Shape ms b (at_pop p q m e) = at_top p q e

Turn-Shape : {ms : List ControlMessage} {b : Inbox} → Turn ms b → Shape ms b
Turn-Shape begun = early false
Turn-Shape (sent {ms = ms} {b = b} m t c) = sent-Shape ms b m (Turn-Shape t) c
Turn-Shape (caller_posted {ms = ms} {b = b} t) = post_now-Shape ms b (Turn-Shape t)
Turn-Shape (published {ms = ms} {b = b} t) = publish-Shape ms b (Turn-Shape t)
Turn-Shape (readied {ms = ms} {b = b} t h) = readied-Shape ms b (Turn-Shape t) h
Turn-Shape (flushed {ms = ms} {b = b} t) = flush-Shape ms b (Turn-Shape t)

-- What is still to be posted: the queue, without the message that the flusher has posted and not
-- removed yet, and the caller's message.
abbrev pub queued_of : Flusher → List ControlMessage → List ControlMessage
queued_of popping (m ∷ q) = q
queued_of popping [] = []
queued_of t q = q

abbrev pub outstanding : Inbox → List ControlMessage
outstanding b = queued_of b.flusher b.pending_control ++ of_caller b.caller
  where
    of_caller : Option ControlMessage → List ControlMessage
    of_caller none = []
    of_caller (some m) = m ∷ []

-- The flusher's next steps.
unfoldable pub flush_steps : ℕ → Inbox → Inbox
flush_steps zero b = b
flush_steps (suc n) b = flush_steps n (flush_control b)

outstanding-Shape :
    (ms : List ControlMessage) (b : Inbox) → Shape ms b → b.posted ++ outstanding b ≡ ms
outstanding-Shape ms b (early s) = append-nil ms
outstanding-Shape ms b (quiet p e) = append-nil p ∙ e
outstanding-Shape ms b (direct p m e) = e
outstanding-Shape ms b (at_top p q e) = ap (λ l. p ++ l) (append-nil q) ∙ e
outstanding-Shape ms b (in_post p q m e) = ap (λ l. p ++ l) (append-nil (m ∷ q)) ∙ e
outstanding-Shape ms b (at_pop p q m e) = ap (λ l. p ++ l) (append-nil q) ∙ e

steps_quiet :
    (n : ℕ) (p : List ControlMessage)
    → (flush_steps n (state true true false [] none no_thread p)).posted ≡ p
unfolding flush_steps flush_control
steps_quiet zero p = refl
steps_quiet (suc n) p = steps_quiet n p

-- Three steps for each queued message, one for the end, and `k` more.
abbrev pub rounds : ℕ → List ControlMessage → ℕ
rounds k [] = suc k
rounds k (m ∷ q) = suc (suc (suc (rounds k q)))

rounds-suc : (k : ℕ) (q : List ControlMessage) → suc (rounds k q) ≡ rounds (suc k) q
rounds-suc k [] = refl
rounds-suc k (m ∷ q) = omega (arith, rounds-suc k q)

steps_top :
    (k : ℕ) (p q : List ControlMessage)
    → (flush_steps (rounds k q) (state true true true q none looking p)).posted ≡ p ++ q
unfolding flush_steps flush_control
steps_top k p [] = steps_quiet k p ∙ sym (append-nil p)
steps_top k p (m ∷ q) = steps_top k (append_one p m) q ∙ append_one-append p m q

steps_after :
    (n k : ℕ) (p q : List ControlMessage)
    → n ≡ rounds k q
    → (flush_steps n (state true true true q none looking p)).posted ≡ p ++ q
steps_after n k p q e =
    ap (λ n. (flush_steps n (state true true true q none looking p)).posted) e ∙ steps_top k p q

steps-Shape :
    (ms : List ControlMessage) (b : Inbox)
    → Shape ms b
    → b.control_ready ≡ true
    → b.caller ≡ none
    → (flush_steps (rounds 0 b.pending_control) b).posted ≡ ms
unfolding flush_steps flush_control
steps-Shape ms b (early s) r c = absurd (false-true r)
  where
    false-true : false ≡ true → ⊥
    false-true q = cc
steps-Shape ms b (quiet p e) r c = e
steps-Shape ms b (direct p m e) r c = absurd (some-none m c)
steps-Shape ms b (at_top p q e) r c = steps_top 0 p q ∙ e
steps-Shape ms b (in_post p q m e) r c =
    steps_after (suc (rounds 0 q)) 1 (append_one p m) q (rounds-suc 0 q)
    ∙ append_one-append p m q
    ∙ e
steps-Shape ms b (at_pop p q m e) r c =
    steps_after (suc (suc (rounds 0 q))) 2 p q (ap suc (rounds-suc 0 q) ∙ rounds-suc 1 q) ∙ e

observe_ready-ready : (b : Inbox) → (observe_ready b).control_ready ≡ true
unfolding observe_ready
observe_ready-ready b = on b.pending_control b.flushing
  where
    on :
        (q : List ControlMessage) (f : Bool)
        → (observe_ready (record b { pending_control = q; flushing = f })).control_ready ≡ true
    on [] f = refl
    on (m ∷ q) true = refl
    on (m ∷ q) false = refl

post_now-ready :
    (b : Inbox) → ((post_now b).control_ready ≡ b.control_ready) × ((post_now b).caller ≡ none)
unfolding post_now
post_now-ready b = on b.caller
  where
    on :
        (c : Option ControlMessage)
        → let b' = record b { caller = c } in
          ((post_now b').control_ready ≡ b.control_ready) × ((post_now b').caller ≡ none)
    on none = (refl, refl)
    on (some m) = (refl, refl)

-- The turn goes on until the caller is through and the worker is ready.
abbrev pub settled : Inbox → Inbox
settled b = post_now (observe_ready (publish_sandbox b))

settled-Turn : (ms : List ControlMessage) (b : Inbox) → Turn ms b → Turn ms (settled b)
unfolding publish_sandbox
settled-Turn ms b t = caller_posted (readied (published t) refl)

-- The inbox of a turn refines a queue: whatever the caller, the dispatch, the worker's events and
-- the flusher's thread do in between, the messages that were posted and those that are
-- outstanding are the ones that were sent, in order and each once; and once the worker is ready
-- and the caller is through, the flusher's next steps post all of them.
pub Turn-fifo :
    (ms : List ControlMessage) (b : Inbox)
    → Turn ms b
    → let b' = settled b in
      (b.posted ++ outstanding b ≡ ms)
      × ((flush_steps (rounds 0 b'.pending_control) b').posted ≡ ms)
Turn-fifo ms b t =
    let r = post_now-ready (observe_ready (publish_sandbox b)) in
    (
      outstanding-Shape ms b (Turn-Shape t),
      steps-Shape ms (settled b) (Turn-Shape (settled-Turn ms b t))
          (r.0 ∙ observe_ready-ready (publish_sandbox b)) r.1,
    )
