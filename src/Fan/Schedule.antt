-- ===== src/Fan/Schedule.antt =====
-- fan.go: every schedule of a fan-out.
use golm.Common.{
  ℕ, ◌+◌, ◌-◌, ◌*◌, ◌≤◌, ◌<◌, ◌≡◌, refl, ap, ◌⊎◌, inl, inr, true, Bool-cases, Option-cases, some,
  List, [], ◌∷◌, Bytes, ltb, length, length-append, get_elem?, get_elem?-lt, arith,
}
use golm.Usage.{Usage}
use golm.Fan.{
  Ran, State, started, skipped, finished, Step, starts, gives_up, finishes, cancels, Reach, begun,
}
use golm.Fan.Invariant.{runs, Ended, Inv, begun-Inv, in_range, Reach-Inv}

module _ (tasks : List Bytes) (par : ℕ) (run : ℕ → Ran) where
  -- The results when the loop is over and no goroutine runs.
  pub record Fanned (s : State) : Type 0 where
    pub bounded : length s.running ≤ par
    pub results :
        (i : ℕ) (task : Bytes)
        → get_elem? tasks i ≡ some task
        → s.next ≡ length tasks
        → s.running ≡ []
        → Ended tasks par run s i task

  -- In every schedule no more tasks run at once than the limit allows. When the loop is over and no
  -- goroutine runs, in whatever order they ended, the result at each index is that of the task at
  -- that index: its own text, usage and error, its own panic, or, only when the context is done,
  -- that it was given up.
  pub Reach-Fanned : (total : Usage) (s : State) → Reach tasks par run (begun total) s → Fanned s
  Reach-Fanned total s r =
      let v = Reach-Inv tasks par run r (begun-Inv tasks par run total) in
      record {
        bounded = v.bound;
        results = λ i task e n q.
            v.ended i task e (omega (arith, n, in_range tasks par run i task e)) (ap (runs i) q);
      }

  -- What is left to do.
  abbrev pub left : State → ℕ
  left s = 2 * (length tasks - s.next) + length s.running

  abbrev pub Done : State → Type 0
  Done s = (s.next ≡ length tasks) × (s.running ≡ [])

  -- A schedule goes on until `Fan` returns, and it does return.
  pub record Going (s : State) : Type 0 where
    pub goes_on : Done s ⊎ ((u : State) × Step tasks par run s u × (left u < left s))
    pub ends :
        (u : State)
        → Step tasks par run s u
        → (left u < left s) ⊎ (u ≡ record s { canceled = true })

  Step-left :
      {s u : State}
      → Step tasks par run s u
      → (left u < left s) ⊎ (u ≡ record s { canceled = true })
  unfolding started skipped finished
  Step-left (starts s task e l) = inl (omega (arith, in_range tasks par run s.next task e))
  Step-left (gives_up s task e c) = inl (omega (arith, in_range tasks par run s.next task e))
  Step-left (finishes s before i after e) =
      inl (omega (arith, ap length e, length-append before (i ∷ after), length-append before after))
  Step-left (cancels s) = inr refl

  goes_further :
      (s : State)
      → 0 < par
      → Inv tasks par run s
      → (l : List ℕ) → s.running ≡ l
      → Done s ⊎ ((u : State) × Step tasks par run s u × (left u < left s))
  unfolding started finished
  goes_further s p v [] e = elim (Option-cases (get_elem? tasks s.next)) [
    | inr (task, f) ↦ inr (
      started task s,
      starts s task f (omega (arith, ap length e)),
      omega (arith, in_range tasks par run s.next task f),
    )
    | inl n ↦ elim (Bool-cases (ltb s.next (length tasks))) [
      | inl l ↦ let (x, w) = get_elem?-lt tasks s.next (ground arith) in cc
      | inr l ↦ let le = v.limit in inl (ground arith, e)
    ]
  ]
  goes_further s p v (i ∷ l) e =
      inr (finished i (run i) l s, finishes s [] i l e, omega (arith, ap length e))

  -- Every schedule of a fan-out is finite and gets through: in each state that one can reach, either
  -- `Fan` returns or some goroutine can go on, and every step but the context's end leaves less to
  -- do, where two units stand for a task that waits and one for a task that runs.
  pub Reach-Going :
      (total : Usage) (s : State) → 0 < par → Reach tasks par run (begun total) s → Going s
  Reach-Going total s p r =
      let v = Reach-Inv tasks par run r (begun-Inv tasks par run total) in
      record { goes_on = goes_further s p v s.running refl; ends = λ u st. Step-left st }
