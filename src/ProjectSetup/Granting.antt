-- ===== src/ProjectSetup/Granting.antt =====
-- What a policy gives after a change.
use harness_run.Base.{
  String, ◌==◌, ◌≡◌, refl, Bool, true, false, not, ◌&&◌, ◌||◌, List, [], ◌∷◌, if◌then◌else◌,
  append_one, any, Bool-cases, inl, inr, sym, ◌∙◌, ap, any-append, arith, any-In, keep-none, eq_iff,
  eq_refl, In,
}
use harness_run.ProjectSetup.{
  Binding, Grant, is_standing, has_member, gives, has, missing_bindings, add_binding, add_bindings,
  Write, written, conflict, too_early, too_late, refused, Granted, found, set, raised, unended,
  grant,
}

abbrev pub same : Grant → Grant → Bool
same (role, m) (r, k) = role == r && m == k

appended :
    (p q s t : Bool)
    → (if p && (q || s) then true else t) ≡ (if p && q then true else t) || (p && s)
appended p q s t = ground arith

known :
    (p q s t : Bool)
    → (p && s ≡ true → p && q ≡ true)
    → (if p && q then true else t) ≡ (if p && q then true else t) || (p && s)
known p q s t h = ground arith

further : (a t u : Bool) → (if a then true else t || u) ≡ (if a then true else t) || u
further a t u = ground arith

alone : (p s : Bool) → (if (p && true) && (if s then true else false) then true else false) ≡ p && s
alone p s = ground arith

and_intro : (p q : Bool) → p ≡ true → q ≡ true → p && q ≡ true
and_intro p q h k = ground arith

and_left : (p q : Bool) → p && q ≡ true → p ≡ true
and_left p q h = ground arith

and_right : (p q : Bool) → p && q ≡ true → q ≡ true
and_right p q h = ground arith

and_true : (p q : Bool) → q ≡ true → p && q ≡ p
and_true p q h = ground arith

-- A standing binding of a role stands for the roles that are equal to it.
is_standing_as :
    (role r : String) (b : Binding) → is_standing role b ≡ true → is_standing r b ≡ (role == r)
is_standing_as role r b e =
    let q : b.role ≡ role =
      (eq_iff b.role role).0 (and_left (b.role == role) (not b.conditional) e) in
    rw q
      (and_true (role == r) (not b.conditional) (and_right (b.role == role) (not b.conditional) e))

has_member-append_one :
    (k m : String) (ms : List String) → has_member k (append_one ms m) ≡ has_member k ms || m == k
has_member-append_one k m ms =
    any-append (λ j. j == k) ms (m ∷ []) ∙ ap (λ x. has_member k ms || x) (last (m == k))
  where
    last : (x : Bool) → (if x then true else false) ≡ x
    last x = ground arith

-- One addition grants that and nothing else.
has-add_binding :
    (g h : Grant) (bs : List Binding) → has (add_binding g bs).1 h ≡ has bs h || same g h
unfolding add_binding
has-add_binding (role, m) (r, k) [] = alone (role == r) (m == k)
has-add_binding (role, m) (r, k) (b ∷ bs) = elim (Bool-cases (is_standing role b)) [
  | inl e ↦ elim (Bool-cases (has_member m b.members)) [
    | inl i ↦
        rw (e, i, is_standing_as role r b e)
          (known (role == r) (has_member k b.members) (m == k) (has bs (r, k)) (λ q.
            and_intro (role == r) (has_member k b.members) (and_left (role == r) (m == k) q)
              (rw (sym ((eq_iff m k).0 (and_right (role == r) (m == k) q))) i)))
    | inr i ↦
        rw (e, i, is_standing_as role r b e, has_member-append_one k m b.members)
          (appended (role == r) (has_member k b.members) (m == k) (has bs (r, k)))
  ]
  | inr e ↦
      rw (e, has-add_binding (role, m) (r, k) bs)
        (further (gives (r, k) b) (has bs (r, k)) (role == r && m == k))
]

true-false : {A : Type 0} → true ≡ false → A
true-false h = absurd (no h)
  where
    no : true ≡ false → ⊥
    no q = cc

cons-nil : {A B : Type 0} (x : A) (xs : List A) → x ∷ xs ≡ [] → B
cons-nil x xs h = absurd (no h)
  where
    no : x ∷ xs ≡ [] → ⊥
    no q = cc

-- Where an addition adds nothing, the policy stays.
add_binding_kept :
    (g : Grant) (bs : List Binding) → (add_binding g bs).0 ≡ false → (add_binding g bs).1 ≡ bs
unfolding add_binding
add_binding_kept (role, m) [] h = true-false h
add_binding_kept (role, m) (b ∷ bs) h = elim (Bool-cases (is_standing role b)) [
  | inl e ↦ elim (Bool-cases (has_member m b.members)) [
    | inl i ↦ rw (e, i) refl
    | inr i ↦ true-false (rw (e, i) at h)
  ]
  | inr e ↦ rw e (ap (λ r. b ∷ r) (add_binding_kept (role, m) bs (rw e at h)))
]

add_bindings_kept :
    (gs : List Grant) (bs : List Binding)
    → (add_bindings gs bs).0 ≡ []
    → (add_bindings gs bs).1 ≡ bs
unfolding add_bindings
add_bindings_kept [] bs h = refl
add_bindings_kept (g ∷ gs) bs h = elim (Bool-cases (add_binding g bs).0) [
  | inl e ↦ cons-nil g (add_bindings gs (add_binding g bs).1).0 (rw e at h)
  | inr e ↦ add_bindings_kept gs (add_binding g bs).1 (rw e at h) ∙ add_binding_kept g bs e
]

or_false : (p : Bool) → p ≡ p || false
or_false p = ground arith

or_assoc : (p q r : Bool) → (p || q) || r ≡ p || (if q then true else r)
or_assoc p q r = ground arith

-- Several additions grant those and nothing else.
has-add_bindings :
    (gs : List Grant) (h : Grant) (bs : List Binding)
    → has (add_bindings gs bs).1 h ≡ has bs h || any (λ g. same g h) gs
unfolding add_bindings
has-add_bindings [] h bs = or_false (has bs h)
has-add_bindings (g ∷ gs) h bs =
    has-add_bindings gs h (add_binding g bs).1
    ∙ rw (has-add_binding g h bs) (or_assoc (has bs h) (same g h) (any (λ g. same g h) gs))

same_self : (g : Grant) → same g g ≡ true
same_self (role, m) = and_intro (role == role) (m == m) (eq_refl role) (eq_refl m)

-- `p` gives what `q` gave and the additions, and nothing else.
pub record IsGrantOf (additions : List Grant) (q p : List Binding) : Type 0 where
  pub exact : (h : Grant) → has p h ≡ has q h || any (λ g. same g h) additions
  pub complete : missing_bindings p additions ≡ []

or_true : (p q : Bool) → q ≡ true → p || q ≡ true
or_true p q h = ground arith

add_bindings-IsGrantOf :
    (gs : List Grant) (bs : List Binding) → IsGrantOf gs bs (add_bindings gs bs).1
unfolding missing_bindings
add_bindings-IsGrantOf gs bs = record {
  exact = λ h. has-add_bindings gs h bs;
  complete =
      keep-none (λ g. has (add_bindings gs bs).1 g) gs
        (λ g m.
          has-add_bindings gs g bs
          ∙ or_true (has bs g) (any (λ j. same j g) gs)
              (any-In {A = Grant} (λ j. same j g) g gs m (same_self g)));
}

-- Whether the policy is read again after the write.
abbrev pub is_retried : Write → Bool
is_retried conflict = true
is_retried too_early = true
is_retried w = false

-- The first standing binding of the role has no such member, or there is none of the role.
pub data IsLacking (role m : String) : List Binding → Type 0 where
  no_binding : IsLacking role m []
  no_member :
      {b : Binding} {bs : List Binding}
      → is_standing role b ≡ true
      → has_member m b.members ≡ false
      → IsLacking role m (b ∷ bs)
  later :
      {b : Binding} {bs : List Binding}
      → is_standing role b ≡ false
      → IsLacking role m bs
      → IsLacking role m (b ∷ bs)

-- One of the additions is to be made.
abbrev pub Lacks : List Grant → List Binding → Type 0
Lacks additions q = (g : Grant) × In g additions × IsLacking g.0 g.1 q

add_binding-IsLacking :
    (role m : String) (bs : List Binding)
    → (add_binding (role, m) bs).0 ≡ true
    → IsLacking role m bs
unfolding add_binding
add_binding-IsLacking role m [] h = no_binding
add_binding-IsLacking role m (b ∷ bs) h = elim (Bool-cases (is_standing role b)) [
  | inr e ↦ later e (add_binding-IsLacking role m bs (rw (e, add_binding) at h))
  | inl e ↦ elim (Bool-cases (has_member m b.members)) [
    | inl i ↦ absurd (false-true (rw (e, i, add_binding) at h))
    | inr i ↦ no_member e i
  ]
]
  where
    false-true : false ≡ true → ⊥
    false-true q = cc

add_bindings-Lacks :
    (gs : List Grant) (q : List Binding) (g : Grant) (l : List Grant)
    → (add_bindings gs q).0 ≡ g ∷ l
    → Lacks gs q
unfolding add_bindings
add_bindings-Lacks [] q g l h = absurd (nil-cons g l h)
  where
    nil-cons : (g : Grant) (l : List Grant) → ◌≡◌ {A = List Grant} [] (g ∷ l) → ⊥
    nil-cons g l p = cc
add_bindings-Lacks ((role, m) ∷ gs) q g l h = elim (Bool-cases (add_binding (role, m) q).0) [
  | inl e ↦ ((role, m), inl refl, add_binding-IsLacking role m q e)
  | inr e ↦
      let k = add_binding_kept (role, m) q e in
      let r = add_bindings-Lacks gs q g l (rw (e, add_bindings, k) at h) in (r.0, inr r.1, r.2)
]

-- How a grant ends, by its rounds. A policy is written only where an addition is to be made.
pub data Ends (additions : List Grant) : List (List Binding × Write) → Granted → Type 0 where
  out_of_rounds : Ends additions [] unended
  ends_found :
      {q : List Binding} {w : Write} {rs : List (List Binding × Write)}
      → IsGrantOf additions q q
      → Ends additions ((q, w) ∷ rs) (found q)
  ends_set :
      {q p : List Binding} {rs : List (List Binding × Write)}
      → Lacks additions q
      → IsGrantOf additions q p
      → Ends additions ((q, written) ∷ rs) (set p)
  ends_late :
      {q : List Binding} {rs : List (List Binding × Write)}
      → Lacks additions q
      → Ends additions ((q, too_late) ∷ rs) raised
  ends_refused :
      {q : List Binding} {rs : List (List Binding × Write)}
      → Lacks additions q
      → Ends additions ((q, refused) ∷ rs) raised
  again :
      {q : List Binding} {w : Write} {rs : List (List Binding × Write)} {r : Granted}
      → Lacks additions q
      → is_retried w ≡ true
      → Ends additions rs r
      → Ends additions ((q, w) ∷ rs) r

-- One round, by what there is to add.
round-Ends :
    (additions : List Grant) (q : List Binding) (v : Write) (rs : List (List Binding × Write))
    (l : List Grant)
    → (add_bindings additions q).0 ≡ l
    → Ends additions rs (grant additions rs)
    → Ends additions ((q, v) ∷ rs) (grant additions ((q, v) ∷ rs))
unfolding grant
round-Ends additions q v rs [] e i =
    let k : (add_bindings additions q).1 ≡ q = add_bindings_kept additions q e in
    rw (e, k, grant) (ends_found (rw k at (add_bindings-IsGrantOf additions q)))
round-Ends additions q written rs (g ∷ gs) e i =
    rw (e, grant)
      (ends_set (add_bindings-Lacks additions q g gs e) (add_bindings-IsGrantOf additions q))
round-Ends additions q conflict rs (g ∷ gs) e i =
    rw (e, grant) (again (add_bindings-Lacks additions q g gs e) refl i)
round-Ends additions q too_early rs (g ∷ gs) e i =
    rw (e, grant) (again (add_bindings-Lacks additions q g gs e) refl i)
round-Ends additions q too_late rs (g ∷ gs) e i =
    rw (e, grant) (ends_late (add_bindings-Lacks additions q g gs e))
round-Ends additions q refused rs (g ∷ gs) e i =
    rw (e, grant) (ends_refused (add_bindings-Lacks additions q g gs e))

-- Whatever policies are read and whatever their writes give: granting writes only where the first
-- standing binding of an addition's role lacks its member, or none is of that role, and ends in the
-- first round whose write is not to be repeated, or that has nothing to add; the policy that it
-- leaves lacks none of the additions, and gives what the one that was read gave and the additions,
-- nothing else.
pub grant-Ends :
    (additions : List Grant) (rounds : List (List Binding × Write))
    → Ends additions rounds (grant additions rounds)
unfolding grant
grant-Ends additions [] = out_of_rounds
grant-Ends additions ((q, w) ∷ rs) =
    round-Ends additions q w rs (add_bindings additions q).0 refl (grant-Ends additions rs)
