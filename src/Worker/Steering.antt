-- ===== src/Worker/Steering.antt =====
-- A turn's control channel queues each message once.
use harness_run.Base.{
  String, ◌==◌, ◌≡◌, refl, List, [], ◌∷◌, map, any, In, Bool-cases, inl, inr, Distinct,
  append_one-Distinct, map-append_one, any-false-In, any-true-In, In-append_left, In-append_right,
  In-append-cases, ◌⊎◌,
}
use harness_run.Control.{ControlMessage}
use harness_run.Worker.{TurnControl, send}

abbrev pub ids : List ControlMessage → List String
ids ms = map (λ m. m.message_id) ms

-- The channel after each of the messages was sent, in order.
abbrev pub send_all : List ControlMessage → TurnControl → TurnControl
send_all [] c = c
send_all (m ∷ ms) c = send_all ms (send m c).1

-- What was seen is what was queued, each id once.
abbrev pub IsConsistent : TurnControl → Type 0
IsConsistent c = (c.seen ≡ ids c.queue) × Distinct (ids c.queue)

pub send-IsConsistent :
    (m : ControlMessage) (c : TurnControl) → IsConsistent c → IsConsistent (send m c).1
unfolding send
send-IsConsistent m c h = elim (Bool-cases (any (λ s. s == m.message_id) c.seen)) [
  | inl e ↦ rw (e, send) h
  | inr e ↦
      rw (e, send, map-append_one (λ m. m.message_id) c.queue m)
        (
          rw h.0 refl,
          append_one-Distinct (ids c.queue) m.message_id
              (any-false-In m.message_id (ids c.queue) (rw h.0 at e)) h.1,
        )
]

-- What a send leaves in the queue: what was there, the message's id, and nothing else.
send-In :
    (m : ControlMessage) (c : TurnControl) (s : String)
    → IsConsistent c
    → (s ≡ m.message_id) ⊎ In s (ids c.queue)
    → In s (ids (send m c).1.queue)
unfolding send
send-In m c s h i = elim (Bool-cases (any (λ s. s == m.message_id) c.seen)) [
  | inl e ↦
      rw (e, send)
        (elim i [ inl p ↦ rw (p, ← h.0) (any-true-In m.message_id c.seen e) | inr j ↦ j ])
  | inr e ↦
      rw (e, send, map-append_one (λ m. m.message_id) c.queue m)
        (elim i [
          | inl p ↦ In-append_right s (ids c.queue) (m.message_id ∷ []) (inl p)
          | inr j ↦ In-append_left s (ids c.queue) (m.message_id ∷ []) j
        ])
]

send-In_only :
    (m : ControlMessage) (c : TurnControl) (s : String)
    → In s (ids (send m c).1.queue)
    → (s ≡ m.message_id) ⊎ In s (ids c.queue)
unfolding send
send-In_only m c s i = elim (Bool-cases (any (λ s. s == m.message_id) c.seen)) [
  | inl e ↦ inr (rw (e, send) at i)
  | inr e ↦
      elim (In-append-cases s (ids c.queue) (m.message_id ∷ [])
        (rw (e, send, map-append_one (λ m. m.message_id) c.queue m) at i)) [
          | inl j ↦ inr j
          | inr j ↦ elim j [ inl p ↦ inl p | inr f ↦ absurd f ]
        ]
]

-- Whatever is sent to a consistent channel, and however often, its queue has each id once, and
-- it has exactly the ids that were there or were sent.
pub send_all_once :
    (ms : List ControlMessage) (c : TurnControl)
    → IsConsistent c
    → Distinct (ids (send_all ms c).queue)
      × ((s : String) → In s (ids (send_all ms c).queue) → In s (ids ms) ⊎ In s (ids c.queue))
      × ((s : String) → In s (ids ms) ⊎ In s (ids c.queue) → In s (ids (send_all ms c).queue))
send_all_once [] c h = (h.1, λ s i. inr i, λ s i. elim i [ inl f ↦ absurd f | inr j ↦ j ])
send_all_once (m ∷ ms) c h =
    let r = send_all_once ms (send m c).1 (send-IsConsistent m c h) in
    (
      r.0,
      λ s i. elim (r.1 s i) [
        | inl j ↦ inl (inr j)
        | inr j ↦ elim (send-In_only m c s j) [ inl e ↦ inl (inl e) | inr k ↦ inr k ]
      ],
      λ s i. elim i [
        | inl j ↦ elim j [ inl e ↦ r.2 s (inr (send-In m c s h (inl e))) | inr k ↦ r.2 s (inl k) ]
        | inr j ↦ r.2 s (inr (send-In m c s h (inr j)))
      ],
    )
