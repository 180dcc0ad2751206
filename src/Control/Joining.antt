-- ===== src/Control/Joining.antt =====
-- No item is lost or repeated between the harness stream, the control channel and their reader.
use harness_run.Base.{◌≡◌, Bool, true, List, [], ◌∷◌}
use harness_run.Control.{
  ControlMessage, ControlledStream, Pending, ready, Read, item, Arrival, message, control_message,
  ended, timeout,
}

abbrev pub messages_of : Pending ControlMessage → List ControlMessage → List ControlMessage
messages_of (ready m) q = m ∷ q
messages_of _ q = q

abbrev SettledControl : Bool → List ControlMessage → Pending ControlMessage → Type 0
SettledControl has q (ready m) = Unit
SettledControl has q _ = has ≡ true → q ≡ []

module _ {A : Type 0} where
  abbrev pub items_of : Pending (Read A) → List A → List A
  items_of (ready (item a)) s = a ∷ s
  items_of _ s = s

  -- What the reader has still to get of the stream and of the channel.
  abbrev pub due_items : ControlledStream A → List A
  due_items c = items_of c.stream_task c.stream

  abbrev pub due_messages : ControlledStream A → List ControlMessage
  due_messages c = messages_of c.control_task c.control

  -- What an arrival says of the items and the messages that were due, and the state after it.
  -- `has` says that the stream has a channel.
  abbrev pub Explains :
      List A → List ControlMessage → Bool → Arrival A → ControlledStream A → Type 0
  Explains items messages has (message a) c' =
      (items ≡ a ∷ due_items c') × (messages ≡ due_messages c') × (has ≡ true → messages ≡ [])
  Explains items messages has (control_message m) c' =
      (messages ≡ m ∷ due_messages c') × (items ≡ due_items c')
  Explains items messages has ended c' =
      (items ≡ due_items c') × (messages ≡ due_messages c') × (has ≡ true → messages ≡ [])
  Explains items messages has timeout c' =
      (items ≡ [])
      × (items ≡ due_items c')
      × (messages ≡ due_messages c')
      × (has ≡ true → messages ≡ [])

  -- A read that is still pending after a poll found nothing.
  abbrev Settled : List A → Pending (Read A) → Type 0
  Settled s (ready r) = Unit
  Settled s _ = s ≡ []
