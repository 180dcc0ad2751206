-- ===== src/ProjectSetup.antt =====
-- harness_run/runtime/sandbox/project_setup.py: what a project's access policies and its bucket's
-- lifecycle rules lack, and the changes that add it.
pub mod Granting
pub mod Lifecycle
use harness_run.Base.{
  String, ◌==◌, Bool, true, false, not, ◌&&◌, Option, none, some, List, [], ◌∷◌, ◌++◌,
  if◌then◌else◌, append_one, any, all, keep,
}
use harness_run.Handoff.{Rule}

-- A binding of an access policy; whether it has a condition.
pub record Binding : Type 0 where
  pub role : String
  pub conditional : Bool
  pub members : List String

-- A role and a member.
abbrev pub Grant : Type 0
Grant = String × String

abbrev pub is_standing : String → Binding → Bool
is_standing role b = b.role == role && not b.conditional

abbrev pub has_member : String → List String → Bool
has_member m ms = any (λ k. k == m) ms

abbrev pub gives : Grant → Binding → Bool
gives (role, m) b = is_standing role b && has_member m b.members

-- `(r, m) in have`
abbrev pub has : List Binding → Grant → Bool
has policy g = any (λ b. gives g b) policy

unfoldable pub missing_bindings : List Binding → List Grant → List Grant
missing_bindings policy additions = keep (λ g. not (has policy g)) additions

-- One addition: whether it was added, and the bindings after it.
unfoldable pub add_binding : Grant → List Binding → Bool × List Binding
add_binding (role, m) [] =
    (true, record { role = role; conditional = false; members = m ∷ [] } ∷ [])
add_binding (role, m) (b ∷ bs) =
    let (added, rest) = add_binding (role, m) bs in
    if is_standing role b
    then if has_member m b.members
      then (false, b ∷ bs)
      else (true, record b { members = append_one b.members m } ∷ bs)
    else (added, b ∷ rest)

unfoldable pub add_bindings : List Grant → List Binding → List Grant × List Binding
unfolding add_binding
add_bindings [] policy = ([], policy)
add_bindings (g ∷ gs) policy =
    let (added, p1) = add_binding g policy in
    let (rest, p2) = add_bindings gs p1 in (if added then g ∷ rest else rest, p2)

-- What writing a policy gives: an etag conflict, a member that does not exist yet, before the
-- deadline or behind it, or another failure.
pub data Write : Type 0 where
  written conflict too_early too_late refused : Write

-- How granting ends: the policy is as it was read, or as it was written, or the failure is raised.
pub data Granted : Type 0 where
  found : List Binding → Granted
  set : List Binding → Granted
  raised : Granted
  unended : Granted

-- `_grant`, against the policies that it reads and what the writes give.
unfoldable pub grant : List Grant → List (List Binding × Write) → Granted
unfolding add_bindings
grant additions [] = unended
grant additions ((policy, w) ∷ rounds) =
    let rest = grant additions rounds in
    let (added, p) = add_bindings additions policy in
    elim added [
      | [] ↦ found p
      | g ∷ gs ↦ elim w [
        | written ↦ set p
        | conflict ↦ rest
        | too_early ↦ rest
        | too_late ↦ raised
        | refused ↦ raised
      ]
    ]

-- `lifecycle_missing`: a prefix is covered by any rule that deletes it.
abbrev pub deletes_prefix : String → Rule → Bool
deletes_prefix p r = r.deletes && any (λ q. q == p) r.prefixes

unfoldable pub lifecycle_missing : List Rule → List Rule → List Rule
lifecycle_missing rules wanted =
    keep (λ r. not (all (λ p. any (λ e. deletes_prefix p e) rules) r.prefixes)) wanted
