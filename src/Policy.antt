-- ===== src/Policy.antt =====
-- policy.go, policyrules.go: a declarative policy for tool calls. The approver and the audit hook
-- are the caller's; why a call was decided so is kept by its rule, not by its text.
pub mod Decisions
use golm.Common.{
  ℕ, Bool, true, false, ◌&&◌, ◌||◌, Option, none, some, List, [], ◌∷◌, Bytes, codes, bytes_eq,
  contains, is_empty, if◌then◌else◌, ltb, leb, ◌+◌, ◌==◌, map,
}

pub record ToolTraits : Type 0 where
  pub read_only : Bool
  pub filesystem : Bool
  pub network : Bool
  pub process : Bool

-- Any string may stand in a `Decision`; three are named, and the empty one is unset.
pub data Decision : Type 0 where
  allow deny ask unset : Decision
  other : Bytes → Decision

pub record PolicyRules : Type 0 where
  pub default : Decision
  pub unreviewed : Decision
  pub deny_names : List Bytes
  pub ask_names : List Bytes
  pub allow_names : List Bytes
  pub deny_traits : List Bytes
  pub ask_traits : List Bytes

-- `strings.ToLower` and `strings.TrimSpace` on ASCII.
to_lower : ℕ → ℕ
to_lower c = if leb 65 c && leb c 90 then c + 32 else c

is_space : ℕ → Bool
is_space c = c == 32 || (leb 9 c && leb c 13)

trim_left : Bytes → Bytes
unfolding is_space
trim_left [] = []
trim_left (c ∷ s) = if is_space c then trim_left s else c ∷ s

trim_right : Bytes → Bytes
unfolding is_space
trim_right [] = []
trim_right (c ∷ s) = let r = trim_right s in if is_space c && is_empty r then [] else c ∷ r

unfoldable pub folded : Bytes → Bytes
unfolding to_lower trim_left trim_right
folded s = map to_lower (trim_right (trim_left s))

unfoldable pub valid_trait : Bytes → Bool
unfolding folded
valid_trait s =
    contains (codes "read_only" ∷ codes "filesystem" ∷ codes "network" ∷ codes "process" ∷ [])
      (folded s)

unfoldable pub valid_decision : Bytes → Bool
unfolding folded
valid_decision s = contains ([] ∷ codes "allow" ∷ codes "deny" ∷ codes "ask" ∷ []) (folded s)

unfoldable pub has_trait : ToolTraits → Bytes → Bool
unfolding folded
has_trait tr name =
    let n = folded name in
    if bytes_eq n (codes "read_only")
    then tr.read_only
    else if bytes_eq n (codes "filesystem")
    then tr.filesystem
    else if bytes_eq n (codes "network")
    then tr.network
    else if bytes_eq n (codes "process")
    then tr.process
    else false

unfoldable pub any_trait : ToolTraits → List Bytes → Bool
any_trait tr [] = false
any_trait tr (n ∷ ns) = has_trait tr n || any_trait tr ns

-- Which rule decided.
pub data Why : Type 0 where
  denied_by_name asked_by_name allowed_by_name denied_trait asked_trait undeclared no_default
        no_rule :
      Why

is_unset : Decision → Bool
is_unset unset = true
is_unset _ = false

by_default : PolicyRules → Decision × Why
unfolding is_unset
by_default p = if is_unset p.default then (allow, no_default) else (p.default, no_rule)

-- `none` is a tool that declares no traits.
by_traits : PolicyRules → Option ToolTraits → Decision × Why
unfolding by_default
by_traits p (some tr) =
    if any_trait tr p.deny_traits
    then (deny, denied_trait)
    else if any_trait tr p.ask_traits
    then (ask, asked_trait)
    else by_default p
by_traits p none = if is_unset p.unreviewed then by_default p else (p.unreviewed, undeclared)

unfoldable pub decide : PolicyRules → Bytes → Option ToolTraits → Decision × Why
unfolding by_traits
decide p name traits =
    if contains p.deny_names name
    then (deny, denied_by_name)
    else if contains p.ask_names name
    then (ask, asked_by_name)
    else if contains p.allow_names name
    then (allow, allowed_by_name)
    else by_traits p traits

-- What the approver does with a question.
pub data Approval : Type 0 where
  approves refuses : Approval
  fails : Bytes → Approval
  panics : Bytes → Approval

-- The context when a question is due: alive, over at once, or over while others are asked.
pub data Waiting : Type 0 where
  served : Waiting
  over_before over_waiting : Bytes → Waiting

pub data Refusal : Type 0 where
  denied : Why → Refusal
  no_approver : Why → Refusal
  context_over : Bytes → Refusal
  approval_failed : Bytes → Refusal
  approver_panicked : Bytes → Refusal
  refused_by_operator : Refusal
  unknown_decision : Bytes → Refusal

answered : Approval → Option Refusal
answered approves = none
answered refuses = some refused_by_operator
answered (fails e) = some (approval_failed e)
answered (panics e) = some (approver_panicked e)

asked : Waiting → Approval → Option Refusal
unfolding answered
asked served a = answered a
asked (over_before e) a = some (context_over e)
asked (over_waiting e) a = some (context_over e)

put_to : Option Approval → Waiting → Why → Option Refusal
unfolding asked
put_to none w why = some (no_approver why)
put_to (some a) w why = asked w a

-- `resolve`: the approver's answer, where there is an approver, and the state of the context.
unfoldable pub resolve : Option Approval → Waiting → Decision × Why → Option Refusal
unfolding put_to
resolve approver w (allow, why) = none
resolve approver w (deny, why) = some (denied why)
resolve approver w (ask, why) = put_to approver w why
resolve approver w (unset, why) = some (unknown_decision [])
resolve approver w (other d, why) = some (unknown_decision d)

-- `Policy`: `none` lets the call run. The audit hook sees the outcome and cannot change it.
unfoldable pub policy :
    Option PolicyRules → Option Approval → Waiting → Bytes → Option ToolTraits → Option Refusal
policy none approver w name traits = none
policy (some p) approver w name traits = resolve approver w (decide p name traits)
