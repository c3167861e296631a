-- ===== src/Samples/Runs.antt =====
-- Runs of an agent.
use golm.Common.{
  ℕ, ◌≤◌, ◌≡◌, refl, inl, Bool-cases, inr, ltb, true, false, Option, none, some, bytes_eq, is_empty,
  ◌⊎◌, codes, arith,
}
use golm.Usage.{no_usage}
use golm.Message.{tool_uses}
use golm.History.{returns}
use golm.Session.{Session}
use golm.Agent.{Error, provider_failed}
use golm.Observe.{observe, Observed, count_errors}
use golm.Observe.Turn.{ToolMessage, observe-ToolMessage}
use golm.Loop.{Run, rounds, run_with, drive, begin, finish, book, answer_truncated_tools}
use golm.Loop.Rounds.{steps_seen}
use golm.Usage.{add, total}
use golm.Budget.{spend, exhausted}
use golm.Message.{message_text}
use golm.Session.{append, acquire, release, add_usage, rollback}
use golm.Observe.{decide_all, launch, collect, settled, count_refused}
use golm.Agent.{max_steps_of, executable_stop}
use golm.Content.{tool_text}
use golm.Tools.{exec_tool, get}
use golm.Loop.Paired.{Paired, IsPlain, is_tool}
use golm.Loop.Accounts.{books}
use golm.Loop.Bounded.{Balanced, rounds-Balanced}
use golm.Loop.Called.{answers}
use golm.Loop.Entry.{run_with_exclusive}
use golm.Loop.Whole.{run_with-Paired, run_with_restores}
use golm.Samples.Fixtures.{
  printer, hello, talk, session, script, dead, env, agent, start, run_of, calling,
}

talk-Paired : Paired talk
unfolding tool_uses
talk-Paired = inl ((refl, refl), inl ((refl, refl), inl ((refl, refl), (refl, refl))))

hello-IsPlain : IsPlain hello
unfolding tool_uses
hello-IsPlain = (refl, refl)

script_answers : (t : Session) (w : ℕ) → is_tool (script t w).0.0.message ≡ false
script_answers t w = elim (Bool-cases (ltb w 1)) [ inl e ↦ rw e refl | inr e ↦ rw e refl ]

run_with-Paired_example :
    (r : Run ℕ) × (e : Option Error) × (run_with printer env agent script session none hello 0
      ≡ returns (r, e))
    × Paired r.session.history
run_with-Paired_example =
    run_with-Paired printer env agent session hello talk-Paired hello-IsPlain (omega arith) script
      script_answers (λ w. refl) tt none 0

abbrev failed_run : Run ℕ
failed_run = run_of (run_with printer env agent dead session none hello 0)

abbrev answered_run : Run ℕ
answered_run = run_of (run_with printer env agent script session none hello 0)

answered_run_lem :
    run_with printer env agent script session none hello 0 ≡ returns (answered_run, none)
unfolding run_with drive rounds begin finish book append acquire spend exhausted tool_uses
    message_text release answer_truncated_tools executable_stop add_usage observe decide_all launch
    collect settled count_refused count_errors exec_tool tool_text rollback max_steps_of add total
    get bytes_eq
answered_run_lem = refl

failed_run_lem :
    run_with printer env agent dead session none hello 0
    ≡ returns (failed_run, some (provider_failed (codes "unreachable")))
unfolding run_with drive rounds begin finish book append acquire spend exhausted tool_uses
    message_text release add_usage rollback max_steps_of add total
failed_run_lem = refl

failed_run_quiet : steps_seen failed_run.events ≡ 0
unfolding run_with drive rounds begin finish book append acquire spend exhausted tool_uses
    message_text release add_usage rollback max_steps_of add total
failed_run_quiet = refl

run_with_restores_example : failed_run.session.history ≡ talk
run_with_restores_example =
    run_with_restores printer env agent session hello talk-Paired hello-IsPlain (omega arith) dead
      (λ t w. refl) refl refl none 0 failed_run (provider_failed (codes "unreachable"))
      failed_run_lem failed_run_quiet

run_with_exclusive_example :
    (session.running ≡ true → ((x : Error) × (none ≡ some x)) × (answered_run.session ≡ session))
    × (session.running ≡ false → answered_run.session.running ≡ false)
run_with_exclusive_example =
    run_with_exclusive printer env agent session script none hello 0 answered_run none
      answered_run_lem

abbrev looped_run : Run ℕ
looped_run = (rounds printer env agent script 3 0 start).0

rounds-Balanced_example :
    Balanced 1000 no_usage none (books looped_run)
    × (looped_run.result.steps ≤ 3)
    × (looped_run.result.step_usage ≡ answers printer env agent script 3 0 start)
rounds-Balanced_example = rounds-Balanced printer env agent script no_usage none 3 start refl

observe-ToolMessage_example :
    ((observe printer env agent calling 1 0 ≡ none)
      × ((is_empty (tool_uses calling.message) ≡ true)
          ⊎ (executable_stop calling.stop_reason ≡ false)))
    ⊎ ((o : Observed ℕ) × (observe printer env agent calling 1 0 ≡ some o)
        × (executable_stop calling.stop_reason ≡ true)
        × (t : ToolMessage (tool_uses calling.message) o.message) × (o.tool_errors
            ≡ count_errors t.results))
observe-ToolMessage_example = observe-ToolMessage printer env agent calling 1 0
