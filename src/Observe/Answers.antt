-- ===== src/Observe/Answers.antt =====
-- agent.go: every call of a turn is answered once, in order, however the tools end.
use golm.Common.{
  ℕ, zero, suc, ◌≡◌, refl, subst, inl, inr, Bool-cases, Option, none, some, Option-cases, List, [],
  ◌∷◌, Bytes, length, ◌&&◌, ltb,
}
use golm.Content.{ToolUse, ToolResult}
use golm.Tools.{Printer}
use golm.Tools.Registering.{exec_tool-id}
use golm.Agent.{Agent, Env}
use golm.Observe.{
  Progress, pending, started, done, Slot, decided, decide_all, undecided, call_tool, run_alone,
  step_alone, run_in_turn, launch_one, step_launch, launch, arrived, receive, collect, run_parallel,
  run_slots, decide_slots, not_run, failed_result, find_tool,
}

-- A result that answers a call: its id and its name.
abbrev pub Answers : ToolUse → ToolResult → Type 0
Answers u r = (r.tool_use_id ≡ u.id) × (r.name ≡ u.name)

abbrev pub AnswersAll : List ToolUse → List ToolResult → Type 0
AnswersAll [] [] = Unit {0}
AnswersAll (u ∷ us) (r ∷ rs) = Answers u r × AnswersAll us rs
AnswersAll _ _ = ⊥

-- A slot is for its call, and what it holds answers that call.
abbrev pub Holds : ToolUse → Progress → Type 0
Holds u pending = Unit {0}
Holds u (started r) = Answers u r
Holds u (done r) = Answers u r

abbrev pub SlotFor : ToolUse → Slot → Type 0
SlotFor u s = (s.use_of ≡ u) × Holds u s.progress

abbrev pub SlotsFor : List ToolUse → List Slot → Type 0
SlotsFor [] [] = Unit {0}
SlotsFor (u ∷ us) (s ∷ ss) = SlotFor u s × SlotsFor us ss
SlotsFor _ _ = ⊥

module _ {W : Type 0} (p : Printer) (env : Env W) (a : Agent) where
  decided-SlotFor : (u : ToolUse) (o : Option Bytes) → SlotFor u (decided p env a u o)
  unfolding decided not_run failed_result
  decided-SlotFor u none = (refl, tt)
  decided-SlotFor u (some why) = (refl, (refl, refl))

  decide_all-SlotsFor :
      (step : ℕ) (us : List ToolUse) (w : W) → SlotsFor us (decide_all p env a step us w).0
  unfolding decide_all
  decide_all-SlotsFor step [] w = tt
  decide_all-SlotsFor step (u ∷ us) w = (decided-SlotFor u _, decide_all-SlotsFor step us _)

  undecided-SlotsFor : (us : List ToolUse) → SlotsFor us (undecided us)
  unfolding undecided
  undecided-SlotsFor [] = tt
  undecided-SlotsFor (u ∷ us) = ((refl, tt), undecided-SlotsFor us)

  call_tool-Answers : (u : ToolUse) (w : W) → Answers u (call_tool p env a u w).0
  unfolding call_tool
  call_tool-Answers u w = elim (Option-cases (find_tool a.tools u.name)) [
    | inl e ↦ rw (e, call_tool) (exec_tool-id p a.tools a.max_tool_result_bytes _ u)
    | inr (t, e) ↦ rw (e, call_tool) (exec_tool-id p a.tools a.max_tool_result_bytes _ u)
  ]

  called :
      (u : ToolUse) (s : Slot) (w : W) → s.use_of ≡ u → Answers u (call_tool p env a s.use_of w).0
  called u s w e =
      subst (λ v. Answers v (call_tool p env a s.use_of w).0) e (call_tool-Answers s.use_of w)

  -- What a loop over the rest of the slots has to keep.
  abbrev Keeps : List ToolUse → (W → List Slot × W) → Type 0
  Keeps us next = (w : W) → SlotsFor us (next w).0

  run_alone-SlotsFor :
      (u : ToolUse) (us : List ToolUse) (s : Slot) (ss : List Slot) (next : W → List Slot × W)
      (w : W)
      → SlotFor u s
      → SlotsFor us ss
      → Keeps us next
      → SlotsFor (u ∷ us) (run_alone p env a s ss next w).0
  unfolding run_alone
  run_alone-SlotsFor u us s ss next w h hs k = elim (Option-cases (env.ctx_err w).0) [
    | inr (x, e) ↦ rw (e, run_alone) (h, hs)
    | inl e ↦ elim (Bool-cases (env.in_time (call_tool p env a s.use_of (env.ctx_err w).1).1).0) [
      | inl b ↦ rw (e, run_alone) (rw (b, run_alone) ((h.0, called u s _ h.0), k _))
      | inr b ↦ rw (e, run_alone) (rw (b, run_alone) ((h.0, called u s _ h.0), hs))
    ]
  ]

  step_alone-SlotsFor :
      (q : Progress) (u : ToolUse) (us : List ToolUse) (s : Slot) (ss : List Slot)
      (next : W → List Slot × W) (w : W)
      → SlotFor u s
      → SlotsFor us ss
      → Keeps us next
      → SlotsFor (u ∷ us) (step_alone p env a q s ss next w).0
  unfolding step_alone
  step_alone-SlotsFor (done r) u us s ss next w h hs k = (h, k w)
  step_alone-SlotsFor pending u us s ss next w h hs k = run_alone-SlotsFor u us s ss next w h hs k
  step_alone-SlotsFor (started r) u us s ss next w h hs k =
      run_alone-SlotsFor u us s ss next w h hs k

  run_in_turn-SlotsFor :
      (us : List ToolUse) (ss : List Slot) (w : W)
      → SlotsFor us ss
      → SlotsFor us (run_in_turn p env a ss w).0
  unfolding run_in_turn
  run_in_turn-SlotsFor [] [] w h = tt
  run_in_turn-SlotsFor [] (s ∷ ss) w h = absurd h
  run_in_turn-SlotsFor (u ∷ us) [] w h = absurd h
  run_in_turn-SlotsFor (u ∷ us) (s ∷ ss) w h =
      step_alone-SlotsFor s.progress u us s ss (run_in_turn p env a ss) w h.0 h.1
        (λ v. run_in_turn-SlotsFor us ss v h.1)

  launch_one-SlotsFor :
      (u : ToolUse) (us : List ToolUse) (s : Slot) (ss : List Slot) (next : W → List Slot × W)
      (w : W)
      → SlotFor u s
      → SlotsFor us ss
      → Keeps us next
      → SlotsFor (u ∷ us) (launch_one p env a s ss next w).0
  unfolding launch_one
  launch_one-SlotsFor u us s ss next w h hs k = elim (Bool-cases (env.launches w).0) [
    | inl b ↦ rw (b, launch_one) ((h.0, called u s _ h.0), k _)
    | inr b ↦ rw (b, launch_one) (h, hs)
  ]

  step_launch-SlotsFor :
      (q : Progress) (u : ToolUse) (us : List ToolUse) (s : Slot) (ss : List Slot)
      (next : W → List Slot × W) (w : W)
      → SlotFor u s
      → SlotsFor us ss
      → Keeps us next
      → SlotsFor (u ∷ us) (step_launch p env a q s ss next w).0
  unfolding step_launch
  step_launch-SlotsFor (done r) u us s ss next w h hs k = (h, k w)
  step_launch-SlotsFor pending u us s ss next w h hs k = launch_one-SlotsFor u us s ss next w h hs k
  step_launch-SlotsFor (started r) u us s ss next w h hs k =
      launch_one-SlotsFor u us s ss next w h hs k

  launch-SlotsFor :
      (us : List ToolUse) (ss : List Slot) (w : W)
      → SlotsFor us ss
      → SlotsFor us (launch p env a ss w).0
  unfolding launch
  launch-SlotsFor [] [] w h = tt
  launch-SlotsFor [] (s ∷ ss) w h = absurd h
  launch-SlotsFor (u ∷ us) [] w h = absurd h
  launch-SlotsFor (u ∷ us) (s ∷ ss) w h =
      step_launch-SlotsFor s.progress u us s ss (launch p env a ss) w h.0 h.1
        (λ v. launch-SlotsFor us ss v h.1)

  arrived-Holds : (u : ToolUse) (q : Progress) → Holds u q → Holds u (arrived q)
  unfolding arrived
  arrived-Holds u pending h = tt
  arrived-Holds u (started r) h = h
  arrived-Holds u (done r) h = h

  receive-SlotsFor :
      (i : ℕ) (us : List ToolUse) (ss : List Slot) → SlotsFor us ss → SlotsFor us (receive i ss)
  unfolding receive
  receive-SlotsFor i [] [] h = tt
  receive-SlotsFor i [] (s ∷ ss) h = absurd h
  receive-SlotsFor i (u ∷ us) [] h = absurd h
  receive-SlotsFor zero (u ∷ us) (s ∷ ss) h = ((h.0.0, arrived-Holds u s.progress h.0.1), h.1)
  receive-SlotsFor (suc i) (u ∷ us) (s ∷ ss) h = (h.0, receive-SlotsFor i us ss h.1)

  collect-SlotsFor :
      (n : ℕ) (is : List ℕ) (us : List ToolUse) (ss : List Slot)
      → SlotsFor us ss
      → SlotsFor us (collect n is ss)
  unfolding collect
  collect-SlotsFor zero is us ss h = h
  collect-SlotsFor (suc n) [] us ss h = h
  collect-SlotsFor (suc n) (i ∷ is) us ss h =
      collect-SlotsFor n is us (receive i ss) (receive-SlotsFor i us ss h)

  pub run_slots-SlotsFor :
      (us : List ToolUse) (ss : List Slot) (w : W)
      → SlotsFor us ss
      → SlotsFor us (run_slots p env a ss w).0
  unfolding run_slots run_parallel
  run_slots-SlotsFor us ss w h = elim (Bool-cases (a.parallel_tools && ltb 1 (length ss))) [
    | inl b ↦ rw b (collect-SlotsFor _ _ us _ (launch-SlotsFor us ss w h))
    | inr b ↦ rw b (run_in_turn-SlotsFor us ss w h)
  ]

  pub decide_slots-SlotsFor :
      (step : ℕ) (us : List ToolUse) (w : W) → SlotsFor us (decide_slots p env a step us w).0
  unfolding decide_slots
  decide_slots-SlotsFor step us w = elim (Bool-cases a.has_policy) [
    | inl b ↦ simp b (decide_all-SlotsFor step us w)
    | inr b ↦ simp b (undecided-SlotsFor us)
  ]
