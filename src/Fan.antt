-- ===== src/Fan.antt =====
-- fan.go: one sub-agent over several tasks at once. `Fan` and its goroutines are a step relation:
-- the loop starts a task when the semaphore has room, or gives it up when the context is done, and
-- the goroutine of a task ends whenever its run does. What the run of a task returns is an argument.
pub mod Invariant
pub mod Schedule
use golm.Common.{
  ℕ, zero, suc, ◌+◌, ◌<◌, ◌≡◌, Bool, true, false, Option, none, some, List, [], ◌∷◌, ◌++◌, Bytes,
  codes, ℤ, pos, negsuc, ltb, if◌then◌else◌, ◌==◌, length, get_elem?, is_empty,
}
use golm.Usage.{Usage, no_usage, add}

unfoldable pub max_fan : ℤ → ℕ
max_fan (pos (suc n)) = suc n
max_fan _ = 16

unfoldable pub fan_parallel : ℤ → ℕ
fan_parallel (pos (suc n)) = suc n
fan_parallel _ = 4

unfoldable pub max_depth : ℤ → ℕ
max_depth (pos (suc n)) = suc n
max_depth _ = 3

pub data FanRefusal : Type 0 where
  unknown_agent : FanRefusal
  no_tasks : FanRefusal
  too_many_tasks : ℕ → ℕ → FanRefusal
  too_deep : ℕ → ℕ → FanRefusal

-- The guards of `Fan`: whether the agent is registered, and the depth of the caller.
unfoldable pub fan_refusal : ℤ → ℤ → Bool → ℕ → List Bytes → Option FanRefusal
unfolding max_fan max_depth
fan_refusal max limit known depth tasks =
    if known
    then (if is_empty tasks
        then some no_tasks
        else (if ltb (max_fan max) (length tasks)
            then some (too_many_tasks (length tasks) (max_fan max))
            else (if ltb (max_depth limit) (suc depth)
                then some (too_deep (suc depth) (max_depth limit))
                else none)))
    else some unknown_agent

pub data FanError : Type 0 where
  run_error : Bytes → FanError
  context_done : FanError
  task_panicked : ℕ → Bytes → FanError

pub record FanResult : Type 0 where
  pub index : ℕ
  pub task : Bytes
  pub text : Bytes
  pub usage : Usage
  pub err : Option FanError

-- What `runSub` does: it returns a result's text and usage and an error, or panics.
pub data Ran : Type 0 where
  returned : Bytes → Usage → Option Bytes → Ran
  panicked : Bytes → Ran

unfoldable pub new_result : ℕ → Bytes → FanResult
new_result i task = record { index = i; task = task; text = []; usage = no_usage; err = none }

error_of : Option Bytes → Option FanError
error_of none = none
error_of (some e) = some (run_error e)

-- What the goroutine of a task writes.
unfoldable pub settled : ℕ → Ran → FanResult → FanResult
unfolding error_of
settled i (returned text usage e) r = record r { text = text; usage = usage; err = error_of e }
settled i (panicked p) r = record r { err = some (task_panicked i p) }

unfoldable pub given_up : FanResult → FanResult
given_up r = record r { err = some context_done }

-- The usage that is added to the orchestrator's.
unfoldable pub spent : Ran → Usage → Usage
spent (returned text usage e) total = add total usage
spent (panicked p) total = total

pub record State : Type 0 where
  -- The loop's index, the tasks whose goroutines run, whether the context is done.
  pub next : ℕ
  pub running : List ℕ
  pub canceled : Bool
  pub out : ℕ → FanResult
  pub total : Usage

unfoldable pub write_result : (ℕ → FanResult) → ℕ → FanResult → ℕ → FanResult
write_result h i r j = if i == j then r else h j

-- A round of the loop up to its `select`, and both ways on.
unfoldable pub started : Bytes → State → State
unfolding write_result new_result
started task s = record s {
  next = suc s.next;
  running = s.next ∷ s.running;
  out = write_result s.out s.next (new_result s.next task);
}

unfoldable pub skipped : Bytes → State → State
unfolding write_result new_result given_up
skipped task s = record s {
  next = suc s.next;
  out = write_result s.out s.next (given_up (new_result s.next task));
}

-- The end of a goroutine.
unfoldable pub finished : ℕ → Ran → List ℕ → State → State
unfolding write_result settled spent
finished i ran rest s = record s {
  running = rest;
  out = write_result s.out i (settled i ran (s.out i));
  total = spent ran s.total;
}

pub data Step (tasks : List Bytes) (par : ℕ) (run : ℕ → Ran) : State → State → Type 0 where
  starts :
      (s : State) (task : Bytes)
      → get_elem? tasks s.next ≡ some task
      → length s.running < par
      → Step tasks par run s (started task s)
  gives_up :
      (s : State) (task : Bytes)
      → get_elem? tasks s.next ≡ some task
      → s.canceled ≡ true
      → Step tasks par run s (skipped task s)
  finishes :
      (s : State) (before : List ℕ) (i : ℕ) (after : List ℕ)
      → s.running ≡ before ++ i ∷ after
      → Step tasks par run s (finished i (run i) (before ++ after) s)
  cancels : (s : State) → Step tasks par run s (record s { canceled = true })

pub data Reach (tasks : List Bytes) (par : ℕ) (run : ℕ → Ran) (s : State) : State → Type 0 where
  here : Reach tasks par run s s
  then_step :
      {t u : State} → Reach tasks par run s t → Step tasks par run t u → Reach tasks par run s u

-- `Fan` as it enters its loop.
unfoldable pub begun : Usage → State
unfolding new_result
begun total = record {
  next = 0;
  running = [];
  canceled = false;
  out = λ i. new_result 0 [];
  total = total;
}
