-- ===== src/Budget/Laws.antt =====
-- budget.go: what the readings of a budget say of the calls that were booked.
use golm.Common.{
  ℕ, ◌≡◌, refl, ◌<◌, ◌≤◌, ◌+◌, ◌-◌, ◌↔◌, true, false, Option, none, some, List, [], ◌∷◌, arith,
  Int64, int_mod, int_half, add_int, lt_int, le_int, if◌then◌else◌,
}
use golm.Usage.{Usage, add, total}
use golm.Budget.{
  Budget, new_budget, spend, spent_of, remaining, exhausted, spend_all, minus_one, limit_of,
}

-- What one agent's calls add up to.
abbrev pub sum_usage : Usage → List Usage → Usage
sum_usage acc [] = acc
sum_usage acc (u ∷ us) = sum_usage (add acc u) us

-- The tokens of a list of calls, as an integer without a bound.
abbrev pub tokens : List Usage → ℕ
tokens [] = 0
tokens (u ∷ us) = total u + tokens us

spend_all-some :
    (b : Budget) (us : List Usage)
    → b.spent + tokens us < int_mod
    → spent_of (spend_all (some b) us) ≡ b.spent + tokens us
unfolding spend_all spend spent_of
spend_all-some b [] h = omega arith
spend_all-some b (u ∷ us) h = ground (
  arith,
  spend_all-some
      (record b {
        spent = add_int b.spent (total u);
        calls = add_int b.calls 1;
        lost = if lt_int 0 u.lost_completions then add_int b.lost u.lost_completions else b.lost;
      })
      us,
)

limit-spend_all : (b : Option Budget) (us : List Usage) → limit_of (spend_all b us) ≡ limit_of b
unfolding spend_all spend limit_of
limit-spend_all none [] = refl
limit-spend_all (some b) [] = refl
limit-spend_all none (u ∷ us) = limit-spend_all none us
limit-spend_all (some b) (u ∷ us) = limit-spend_all (spend (some b) u) us

-- The readings of a budget with a positive limit and a spent count that is no negative pattern.
readings :
    (b : Option Budget)
    → 0 < limit_of b
    → limit_of b < int_half
    → spent_of b < int_half
    → ((exhausted b ≡ true) ↔ (limit_of b ≤ spent_of b)) × (remaining b ≡ limit_of b - spent_of b)
unfolding exhausted remaining limit_of spent_of
readings none p q r = absurd (omega arith)
readings (some b) p q r = (ground arith, ground arith)

-- A fresh budget with a positive limit n, after the calls us whose totals add up without reaching
-- the sign bit: the booked tokens are the sum of the calls' totals, the budget is exhausted exactly
-- when that sum has reached n, and what remains is the rest of n, which is 0 from there on.
pub spend_all-readings :
    (n : Int64) (us : List Usage)
    → 0 < n
    → n < int_half
    → tokens us < int_half
    → let b = spend_all (some (new_budget n)) us in
      (spent_of b ≡ tokens us)
      × ((exhausted b ≡ true) ↔ (n ≤ tokens us))
      × (remaining b ≡ n - tokens us)
unfolding new_budget limit_of
spend_all-readings n us p q r =
    let b = spend_all (some (new_budget n)) us in
    let e : spent_of b ≡ tokens us =
      omega (arith, spend_all-some (new_budget n) us (omega arith)) in
    let l : limit_of b ≡ n = limit-spend_all (some (new_budget n)) us in
    let (x, y) = readings b (omega arith) (omega arith) (omega arith) in
    (e, (λ h. omega (arith, x.0 h), λ h. x.1 (omega arith)), omega (arith, y))

no_limit :
    (b : Option Budget)
    → le_int (limit_of b) 0 ≡ true
    → (exhausted b ≡ false) × (remaining b ≡ minus_one)
unfolding exhausted remaining limit_of
no_limit none h = (refl, refl)
no_limit (some b) h = (ground arith, ground arith)

-- A budget without a positive limit, and a missing budget, refuse nothing whatever is booked.
pub unbounded :
    (b : Option Budget) (us : List Usage)
    → le_int (limit_of b) 0 ≡ true
    → (exhausted (spend_all b us) ≡ false) × (remaining (spend_all b us) ≡ minus_one)
unbounded b us h = no_limit (spend_all b us) (rw (limit-spend_all b us) h)
