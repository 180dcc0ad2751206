-- ===== src/Worker/Paging.antt =====
-- A client that asks for pages until the end gets every event once, in order.
use harness_run.Base.{
  ℕ, zero, suc, ◌+◌, ◌≤◌, ◌<◌, ◌≡◌, refl, Bool, true, false, Option, none, some, List, [], ◌∷◌,
  ◌++◌, if◌then◌else◌, length, leb, ltb, arith, length-append, append-nil, append_assoc, leb→le,
  Bool-cases, inl, inr, append_one, sym, ◌∙◌, ap,
}
use harness_run.Base.Texts.{size}
use mathlib.Core.Option.{map}
use harness_run.Worker.{
  TurnRecord, Line, page, page_of, fitting, drop, append, finish, events_page_bytes,
}
use harness_run.Worker.Turns.{Change, appended, finished, attached, with_token, in_workspace, apply}

-- A client of one turn: it starts at 0 and asks from where the page before ended, while the
-- turn's thread and the endpoints change the record. `got` is what it received.
pub data Reads : TurnRecord → ℕ → List Line → Type 0 where
  begun : (r : TurnRecord) → Reads r 0 []
  changed :
      {r : TurnRecord} {n : ℕ} {got : List Line} (c : Change)
      → Reads r n got
      → Reads (apply c r) n got
  read :
      {r : TurnRecord} {n : ℕ} {got : List Line}
      → Reads r n got
      → Reads r (page n r).next (got ++ (page n r).events)

drop-append : (xs ys : List Line) → drop (length xs) (xs ++ ys) ≡ ys
drop-append [] ys = refl
drop-append (x ∷ xs) ys = drop-append xs ys

fitting-prefix : (used : ℕ) (ls : List Line) → (rest : List Line) × (ls ≡ fitting used ls ++ rest)
fitting-prefix used [] = ([], refl)
fitting-prefix used (l ∷ ls) = elim (Bool-cases (ltb events_page_bytes (used + size l))) [
  | inl e ↦ rw (e, fitting) (l ∷ ls, refl)
  | inr e ↦
      let (rest, p) = fitting-prefix (used + size l) ls in rw (e, fitting) (rest, ap (λ t. l ∷ t) p)
]

page_of-prefix : (ls : List Line) → (rest : List Line) × (ls ≡ page_of ls ++ rest)
page_of-prefix [] = ([], refl)
page_of-prefix (l ∷ ls) = let (rest, p) = fitting-prefix (size l) ls in (rest, ap (λ t. l ∷ t) p)

-- What the client has is the head of the turn's events, and it asks for the rest.
abbrev pub IsHead : ℕ → List Line → TurnRecord → Type 0
IsHead n got r = (rest : List Line) × (r.events ≡ got ++ rest) × (n ≡ length got)

apply-IsHead :
    (r : TurnRecord) (n : ℕ) (got : List Line) (c : Change)
    → IsHead n got r
    → IsHead n got (apply c r)
unfolding apply append finish
apply-IsHead r n got (appended l) (rest, p, q) =
    (append_one rest l, ap (λ t. append_one t l) p ∙ append_assoc got rest (l ∷ []), q)
apply-IsHead r n got (finished e now) h = h
apply-IsHead r n got (attached c) h = h
apply-IsHead r n got (with_token t) h = h
apply-IsHead r n got (in_workspace p) h = h

page-events :
    (n : ℕ) (got : List Line) (r : TurnRecord) (rest : List Line)
    → r.events ≡ got ++ rest
    → n ≡ length got
    → drop n r.events ≡ rest
page-events n got r rest p q = rw (p, q) (drop-append got rest)

page_left :
    (n : ℕ) (got : List Line) (r : TurnRecord) (rest : List Line)
    → r.events ≡ got ++ rest
    → n ≡ length got
    → let lines = (page n r).events in
      (left : List Line) × (rest ≡ lines ++ left)
      × (r.events ≡ (got ++ lines) ++ left)
      × ((page n r).next ≡ length (got ++ lines))
      × ((page n r).next ≡ n + length lines)
unfolding page
page_left n got r rest p q =
    let (left, t) = page_of-prefix rest in
    rw (page-events n got r rest p q) (
      left,
      t,
      p ∙ ap (λ u. got ++ u) t ∙ sym (append_assoc got (page_of rest) left),
      omega (arith, q, length-append got (page_of rest)),
      refl,
    )

page-IsHead :
    (n : ℕ) (got : List Line) (r : TurnRecord)
    → IsHead n got r
    → IsHead (page n r).next (got ++ (page n r).events) r
page-IsHead n got r (rest, p, q) =
    let (left, t, u, v, w) = page_left n got r rest p q in (left, u, v)

pub Reads-IsHead : {r : TurnRecord} {n : ℕ} {got : List Line} → Reads r n got → IsHead n got r
unfolding page
Reads-IsHead (begun r) = (r.events, refl, refl)
Reads-IsHead (changed {r = r} {n = n} {got = got} c s) = apply-IsHead r n got c (Reads-IsHead s)
Reads-IsHead (read {r = r} {n = n} {got = got} s) = page-IsHead n got r (Reads-IsHead s)

length_zero : (ls : List Line) → length ls ≡ 0 → ls ≡ []
length_zero [] h = refl
length_zero (l ∷ ls) h = absurd (omega (arith, h))

and_true : (b c : Bool) → (if b then c else false) ≡ true → (b ≡ true) × (c ≡ true)
and_true true c h = (refl, h)
and_true false c h = absurd (false-true h)
  where
    false-true : false ≡ true → ⊥
    false-true q = cc

append-cancel : (xs ys zs : List Line) → xs ++ ys ≡ xs ++ zs → ys ≡ zs
append-cancel [] ys zs h = h
append-cancel (x ∷ xs) ys zs h = append-cancel xs ys zs cc

page_done :
    (n : ℕ) (got : List Line) (r : TurnRecord)
    → IsHead n got r
    → (page n r).done ≡ true
    → got ++ (page n r).events ≡ r.events
unfolding page
page_done n got r (rest, p, q) d =
    let (left, t) = page_of-prefix rest in
    let e = page-events n got r rest p q in
    let le : length r.events ≤ n + length (page_of rest) = rw e at (
      leb→le (length r.events) (n + length (page_of (drop n r.events)))
        (and_true r.done (leb (length r.events) (n + length (page_of (drop n r.events)))) d).1) in
    let z : left ≡ [] = length_zero left (
      omega (
        arith,
        le,
        ap length p,
        ap length t,
        length-append got rest,
        length-append (page_of rest) left,
      )) in
    rw e
      (sym (p ∙ ap (λ u. got ++ u) (t ∙ ap (λ u. page_of rest ++ u) z ∙ append-nil (page_of rest))))

page_progress :
    (n : ℕ) (got : List Line) (r : TurnRecord)
    → IsHead n got r
    → n < length r.events
    → n < (page n r).next
unfolding page
page_progress n got r ([], p, q) h = omega (arith, q, ap length p, length-append got [])
page_progress n got r (l ∷ rest, p, q) h = rw (page-events n got r (l ∷ rest) p q) (omega arith)

-- At any time, what a client received is exactly the first events of the turn, each once and in
-- order, and its next request asks for the one after them; a page that says it is the last one
-- leaves nothing out, and any other page of a request that is behind has an event.
pub Reads-head :
    (r : TurnRecord) (n : ℕ) (got : List Line)
    → Reads r n got
    → ((rest : List Line) × (r.events ≡ got ++ rest) × (n ≡ length got))
      × ((page n r).done ≡ true → got ++ (page n r).events ≡ r.events)
      × (n < length r.events → n < (page n r).next)
unfolding page
Reads-head r n got s = let h = Reads-IsHead s in (h, page_done n got r h, page_progress n got r h)

-- The client alone with a record, for `fuel` requests.
unfoldable pub drain : ℕ → ℕ → TurnRecord → Option (List Line)
unfolding page
drain zero n r = none
drain (suc fuel) n r =
    let p = page n r in
    let rest = drain fuel p.next r in
    if p.done then some p.events else map (λ ls. p.events ++ ls) rest

not_done :
    (n : ℕ) (r : TurnRecord)
    → r.done ≡ true
    → (page n r).done ≡ false
    → (page n r).next < length r.events
unfolding page
not_done n r d e = ground (arith, d)

drain_rest :
    (fuel n : ℕ) (got : List Line) (r : TurnRecord) (rest : List Line)
    → r.done ≡ true
    → r.events ≡ got ++ rest
    → n ≡ length got
    → length rest < fuel
    → drain fuel n r ≡ some rest
unfolding drain
drain_rest zero n got r rest d p q f = absurd (omega (arith, f))
drain_rest (suc fuel) n got r rest d p q f = elim (Bool-cases (page n r).done) [
  | inl e ↦
      rw (e, drain) (ap some (append-cancel got _ rest (page_done n got r (rest, p, q) e ∙ p)))
  | inr e ↦
      let (left, t, u, v, w) = page_left n got r rest p q in
      let le = not_done n r d e in
      let ih = drain_rest fuel (page n r).next (got ++ (page n r).events) r left d u v (
        omega (
          arith,
          f,
          le,
          w,
          q,
          page_progress n got r (rest, p, q),
          ap length t,
          length-append (page n r).events left,
        )) in
      rw (e, drain) (ap (map (λ ls. (page n r).events ++ ls)) ih ∙ ap some (sym t))
]

-- Of a finished turn, a client gets all events in at most one request for each event and one.
pub drain_complete :
    (r : TurnRecord) → r.done ≡ true → drain (suc (length r.events)) 0 r ≡ some r.events
unfolding page
drain_complete r d = drain_rest (suc (length r.events)) 0 [] r r.events d refl refl (omega arith)
