-- ===== src/Budget.antt =====
-- budget.go: a token ceiling that several agents hold. The pointer may be nil: `none`.
pub mod Laws
use golm.Common.{
  ℕ, Bool, true, false, Option, none, some, List, [], ◌∷◌, Int64, add_int, sub_int, lt_int, le_int,
  if◌then◌else◌,
}
use golm.Usage.{Usage, total}

pub record Budget : Type 0 where
  pub limit : Int64
  pub spent : Int64
  pub calls : Int64
  pub lost : Int64

unfoldable pub new_budget : Int64 → Budget
new_budget n = record { limit = n; spent = 0; calls = 0; lost = 0 }

unfoldable pub limit_of : Option Budget → Int64
limit_of none = 0
limit_of (some b) = b.limit

unfoldable pub spend : Option Budget → Usage → Option Budget
spend none u = none
spend (some b) u = some (record b {
  spent = add_int b.spent (total u);
  calls = add_int b.calls 1;
  lost = if lt_int 0 u.lost_completions then add_int b.lost u.lost_completions else b.lost;
})

unfoldable pub spent_of : Option Budget → Int64
spent_of none = 0
spent_of (some b) = b.spent

-- `-1`, as a bit pattern.
abbrev pub minus_one : Int64
minus_one = 18446744073709551615

unfoldable pub remaining : Option Budget → Int64
remaining none = minus_one
remaining (some b) =
    if le_int b.limit 0
    then minus_one
    else let left = sub_int b.limit b.spent in if lt_int 0 left then left else 0

unfoldable pub exhausted : Option Budget → Bool
exhausted none = false
exhausted (some b) = if le_int b.limit 0 then false else le_int b.limit b.spent

-- The provider calls of one agent, in order.
unfoldable pub spend_all : Option Budget → List Usage → Option Budget
spend_all b [] = b
spend_all b (u ∷ us) = spend_all (spend b u) us
