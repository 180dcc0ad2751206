-- ===== src/Config/Layers.antt =====
-- Each field of a turn's spec comes from the topmost layer that sets it.
use harness_run.Base.{
  String, ◌==◌, ◌≡◌, refl, false, Option, none, some, List, [], ◌∷◌, if◌then◌else◌, Bool-cases, inl,
  inr, eq_iff, eq_refl, ◌∙◌, ap,
}
use harness_run.Config.{
  Setting, inherit, set, Knob, World, Env, AgentSpec, SessionConfig, TurnConfig, over, put, merge,
  apply_session_config, apply_turn_config,
}

-- The value that a process finds: a dict's only entry with this key.
abbrev pub lookup : String → Env → Option String
lookup k [] = none
lookup k ((l, w) ∷ env) = let rest = lookup k env in if l == k then some w else rest

-- The last entry of a list of assignments for this key.
abbrev pub last_set : String → Env → Option String → Option String
last_set k [] o = o
last_set k ((l, w) ∷ extra) o =
    let kept = last_set k extra o in
    let new = last_set k extra (some w) in if l == k then new else kept

lookup-put_same : (k v : String) (env : Env) → lookup k (put k v env) ≡ some v
lookup-put_same k v [] = rw (eq_refl k, lookup) refl
lookup-put_same k v ((l, w) ∷ env) = elim (Bool-cases (l == k)) [
  | inl e ↦ rw (e, put, lookup, e) refl
  | inr e ↦ rw (e, put, lookup, e) (lookup-put_same k v env)
]

lookup-put_other :
    (k l v : String) (env : Env) → (l == k) ≡ false → lookup k (put l v env) ≡ lookup k env
lookup-put_other k l v [] h = rw (h, lookup) refl
lookup-put_other k l v ((m, w) ∷ env) h = elim (Bool-cases (m == l)) [
  | inl e ↦ let q : (m == k) ≡ false = rw ((eq_iff m l).0 e) h in rw (e, put, lookup, q) refl
  | inr e ↦ elim (Bool-cases (m == k)) [
    | inl f ↦ rw (e, put, lookup, f) refl
    | inr f ↦ rw (e, put, lookup, f) (lookup-put_other k l v env h)
  ]
]

lookup-merge :
    (k : String) (env extra : Env) → lookup k (merge env extra) ≡ last_set k extra (lookup k env)
lookup-merge k env [] = refl
lookup-merge k env ((l, w) ∷ extra) = elim (Bool-cases (l == k)) [
  | inl e ↦
      rw (e, last_set)
        (lookup-merge k (put l w env) extra
          ∙ ap (last_set k extra)
              (ap (λ m. lookup k (put m w env)) ((eq_iff l k).0 e) ∙ lookup-put_same k w env))
  | inr e ↦
      rw (e, last_set)
        (lookup-merge k (put l w env) extra ∙ ap (last_set k extra) (lookup-put_other k l w env e))
]

-- The value that the first layer that sets one gives, or the base where none does.
pub data FromTopmost {V : Type 0} : List (Setting V) → V → V → Type 0 where
  unset : {base : V} → FromTopmost [] base base
  here : {v base : V} {layers : List (Setting V)} → FromTopmost (set v ∷ layers) base v
  below :
      {v base : V} {layers : List (Setting V)}
      → FromTopmost layers base v
      → FromTopmost (inherit ∷ layers) base v

one_layer : {V : Type 0} (s : Setting V) (base : V) → FromTopmost (s ∷ []) base (over s base)
one_layer inherit base = below unset
one_layer (set v) base = here

two_layers :
    {V : Type 0} (s t : Setting V) (base : V) → FromTopmost (s ∷ t ∷ []) base (over s (over t base))
two_layers inherit t base = below (one_layer t base)
two_layers (set v) t base = here

-- The spec of a turn with a config for its session and one for itself has each knob from the
-- topmost layer that sets it, and each world field from the session or the deployed spec; a
-- variable of the session's extra environment wins over the deployed one, the others stay; the
-- deploy-only fields are those that were deployed.
pub turn_layers :
    {V D : Type 0} (spec : AgentSpec V D) (session : SessionConfig V) (turn : TurnConfig V)
    (extra : Env)
    → session.extra_env ≡ set (some extra)
    → let effective = apply_turn_config (apply_session_config spec (some session)) (some turn) in
      ((k : Knob)
        → FromTopmost (turn.knobs k ∷ session.knobs k ∷ []) (spec.knobs k) (effective.knobs k))
      × ((f : World) → FromTopmost (session.world f ∷ []) (spec.world f) (effective.world f))
      × ((v : String) → lookup v effective.env ≡ last_set v extra (lookup v spec.env))
      × (effective.deployed ≡ spec.deployed)
unfolding apply_turn_config apply_session_config
turn_layers spec session turn extra h = (
  λ k. two_layers (turn.knobs k) (session.knobs k) (spec.knobs k),
  λ f. one_layer (session.world f) (spec.world f),
  λ v. rw h (lookup-merge v spec.env extra),
  refl,
)
