-- ===== src/Samples/Orchestrations.antt =====
-- The conversations of an orchestrator, and a fan-out.
use golm.Common.{
  Option, some, ℕ, ◌≡◌, refl, subst, true, none, List, [], ◌∷◌, Bytes, bytes_eq, bytes_eq_iff,
  contains, codes, ◌==◌, if◌then◌else◌, pos, arith,
}
use golm.Message.{Message, user_text, message_text}
use golm.Session.{Session, new_session, get_state, set_state, lookup}
use golm.Router.{
  Texts, RouteRule, RouteInput, Route, routes, compile_rules, has_condition, rules_router, Team,
  route_to_last, route, target, by_route, last_agent, or_refuse, main_agent, run_message,
  record_last,
}
use golm.Router.Rules.{AllKept, Chosen, compile_rules-Chosen}
use golm.Router.Sticking.{run_message-sticks}
use golm.Usage.{no_usage}
use golm.Delegation
use golm.Delegation.{
  Table, find, busy, any_held, max_conversations, evict, conversation_for, claim, acquire, Op,
  claims, acquires, apply_all,
}
use golm.Delegation.Eviction.{Trimmed, evict-Trimmed}
use golm.Delegation.Ledger.{Ledger}
use golm.Delegation.Bounds.{conversation_for-forgets}
use golm.Delegation.Exclusion.{claim-waits}
use golm.Fan.{
  Ran, returned, State, started, finished, starts, finishes, Reach, here, then_step, begun,
}
use golm.Fan.Schedule.{Fanned, Reach-Fanned, Going, Reach-Going}

abbrev talk : Bytes
talk = codes "a"

abbrev coder : Bytes
coder = codes "coder"

-- One conversation, whose only slot is held.
abbrev one_busy : Table
one_busy = record {
  max = pos 1;
  convs = (talk, 0) ∷ [];
  order = talk ∷ [];
  slots = λ c. (coder, 1) ∷ [];
  gates = λ i. record { sess = 1; held = true };
  fresh = 2;
}

one_busy-Ledger : Ledger one_busy
unfolding contains find
one_busy-Ledger = record { distinct = (refl, tt); same = λ k. ground arith }

evict-Trimmed_example :
    Trimmed
      (busy one_busy)
      (max_conversations one_busy.max)
      one_busy.order
      []
      one_busy
      (evict one_busy)
evict-Trimmed_example = evict-Trimmed one_busy one_busy-Ledger.distinct

abbrev others : List Delegation.Op
others = claims (codes "b") coder ∷ acquires 1 ∷ claims (codes "c") coder ∷ []

claim-waits_example :
    ((claim talk coder (apply_all others one_busy)).0 ≡ 1)
    × (acquire 1 (apply_all others one_busy) ≡ none)
unfolding find bytes_eq
claim-waits_example = claim-waits talk 0 coder 1 others one_busy one_busy-Ledger refl (record {
  conv = refl;
  place = refl;
  held = refl;
  conv_given = omega arith;
  slot_given = omega arith;
})

one_busy-AllBusy : (k : Bytes) → contains one_busy.order k ≡ true → busy one_busy k ≡ true
unfolding contains busy find any_held bytes_eq
one_busy-AllBusy k m =
    let e : talk ≡ k = (bytes_eq_iff talk k).0 (ground arith) in
    subst (λ x. busy one_busy x ≡ true) e refl

conversation_for-forgets_example :
    find (codes "b") (conversation_for (codes "b") one_busy).1.convs ≡ none
unfolding find bytes_eq max_conversations
conversation_for-forgets_example =
    conversation_for-forgets (codes "b") one_busy one_busy-Ledger (λ k c e. ground arith) refl
      one_busy-AllBusy (omega arith)

abbrev tasks : List Bytes
tasks = codes "one" ∷ codes "two" ∷ []

abbrev run : ℕ → Ran
run i = returned (i ∷ []) no_usage none

-- Both tasks run, and the second ends first.
abbrev both : State
both = started (codes "two") (started (codes "one") (begun no_usage))

abbrev second_done : State
second_done = finished 1 (run 1) (0 ∷ []) both

abbrev all_done : State
all_done = finished 0 (run 0) [] second_done

schedule : Reach tasks 2 run (begun no_usage) all_done
unfolding begun started finished
schedule =
    then_step
      (then_step
        (then_step (then_step here (starts (begun no_usage) (codes "one") refl (omega arith)))
          (starts (started (codes "one") (begun no_usage)) (codes "two") refl (omega arith)))
        (finishes both [] 1 (0 ∷ []) refl))
      (finishes second_done [] 0 [] refl)

Reach-Fanned_example : Fanned tasks 2 run all_done
Reach-Fanned_example = Reach-Fanned tasks 2 run no_usage all_done schedule

Reach-Going_example : Going tasks 2 run all_done
Reach-Going_example = Reach-Going tasks 2 run no_usage all_done (omega arith) schedule

-- Texts in lower case, without patterns.
abbrev plain : Texts
plain = record { lower = λ s. s; trim = λ s. s; compile = λ p. none }

abbrev code_rule : RouteRule
code_rule = record {
  agent = coder;
  any = codes "code" ∷ [];
  all = [];
  prefix = [];
  pattern = [];
  re = none;
}

abbrev asked : Message
asked = user_text (codes "a")

abbrev asking : RouteInput
asking = record { session = none; message = asked; agents = [] }

compile_rules-Chosen_example :
    AllKept plain (code_rule ∷ []) (code_rule ∷ [])
    × (route : Route) × (rules_router plain (code_rule ∷ []) asking ≡ routes route)
    × Chosen plain (message_text asked) (code_rule ∷ []) route
unfolding compile_rules has_condition
compile_rules-Chosen_example =
    compile_rules-Chosen plain (code_rule ∷ []) (code_rule ∷ []) asking refl

abbrev json : Bytes → Option Bytes
json s = some s

abbrev name_of : ℕ → Bytes
name_of a = if a == 0 then codes "main" else coder

abbrev team : Team
team = record {
  agents = (codes "main", 0) ∷ (coder, 1) ∷ [];
  roles = [];
  names = name_of;
  main = codes "main";
  router = some (route_to_last json none);
}

abbrev answers : ℕ → Message → Session → ℕ × Session
answers a msg s = (a, s)

abbrev first_talk : Session
first_talk = new_session talk 0

abbrev answered_talk : Session
answered_talk = record_last json 5 (codes "main") first_talk

run_message-sticks_example : route team answered_talk asked ≡ target 0
unfolding route route_to_last by_route find bytes_eq last_agent get_state lookup or_refuse
    main_agent run_message record_last set_state new_session
run_message-sticks_example =
    run_message-sticks json json answers none team 5 first_talk answered_talk answered_talk asked
      asked 0 0 (codes "main") refl refl refl refl refl refl refl
