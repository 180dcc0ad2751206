-- ===== src/Control/Messages.antt =====
-- A control message survives the wire.
use harness_run.Base.{
  String, ◌≡◌, ◌≢◌, refl, none, some, arith, ◌==◌, inl, inr, false, Option-cases,
}
use harness_run.Control.{
  ControlOp, steer, interrupt, stop, ControlMessage, to_dict, from_dict, parsed, unknown_op,
  needs_message, Value, text, null, other, Dict, op_of, built, id_of,
}

-- A stop has no text, and the other operations have one; the id is not empty.
pub data IsSendable : ControlMessage → Type 0 where
  stops :
      (id : String)
      → (id == "") ≡ false
      → IsSendable (record { op = stop; message = none; message_id = id })
  says :
      (op : ControlOp) (s id : String)
      → op ≢ stop
      → (id == "") ≡ false
      → IsSendable (record { op = op; message = some s; message_id = id })

-- Decoding what `to_dict` wrote gives the message back, whatever id would have been drawn.
pub from_dict-to_dict :
    (fresh : String) (m : ControlMessage) → IsSendable m → from_dict fresh (to_dict m) ≡ parsed m
unfolding from_dict to_dict
from_dict-to_dict fresh m (stops id e) = rw e
from_dict-to_dict fresh m (says steer s id h e) = rw e
from_dict-to_dict fresh m (says interrupt s id h e) = rw e
from_dict-to_dict fresh m (says stop s id h e) = absurd (h refl)

-- Whatever is decoded is an operation that can be acted on: a steer or an interrupt carries a
-- text, and a stop carries none.
from_dict_complete :
    (fresh : String) (d : Dict) (m : ControlMessage)
    → from_dict fresh d ≡ parsed m
    → (m.op ≡ stop → m.message ≡ none) × (m.op ≢ stop → (s : String) × (m.message ≡ some s))
unfolding from_dict
from_dict_complete fresh d m h = elim (Option-cases (op_of d.op)) [
  | inl e ↦ absurd (unknown-parsed (rw (e, from_dict) at h))
  | inr (op, e) ↦ complete op d.message (rw (e, from_dict) at h)
]
  where
    unknown-parsed : unknown_op ≡ parsed m → ⊥
    unknown-parsed q = cc

    needs-parsed : needs_message ≡ parsed m → ⊥
    needs-parsed q = cc

    complete :
        (op : ControlOp) (v : Value)
        → built op v (id_of fresh d.message_id) ≡ parsed m
        → (m.op ≡ stop → m.message ≡ none) × (m.op ≢ stop → (s : String) × (m.message ≡ some s))
    complete steer (text s) q = (λ e. cc, λ _. (s, ground arith))
    complete steer null q = absurd (needs-parsed q)
    complete steer other q = absurd (needs-parsed q)
    complete interrupt (text s) q = (λ e. cc, λ _. (s, ground arith))
    complete interrupt null q = absurd (needs-parsed q)
    complete interrupt other q = absurd (needs-parsed q)
    complete stop v q = (λ _. ground arith, λ h. absurd (h (ground arith)))
