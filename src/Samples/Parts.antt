-- ===== src/Samples/Parts.antt =====
-- The parts of a run on their own.
use mathlib.Core.Option
use golm.Common.{
  ℕ, ◌-◌, ◌≤◌, ◌≡◌, ◌≢◌, ◌↔◌, refl, ap, ◌⊎◌, true, false, Option, none, some, List, [], ◌∷◌, map,
  codes, bytes_eq, is_empty, contains, pos, negsuc, arith, if◌then◌else◌, length, ◌==◌, Bytes,
}
use golm.Usage.{total, Usage, no_usage, merge}
use golm.Usage.Merging.{IsCounted, Merged, merge-Merged}
use golm.Budget.{new_budget, spend_all, spent_of, exhausted, remaining}
use golm.Budget.Laws.{tokens, spend_all-readings}
use golm.Content.{ToolContent}
use golm.Message.Json.{Json, envelopes, marshal, unmarshal}
use golm.Message.Json.Tidy.{Tidy, tidy_outer, tidy}
use golm.Message.Json.RoundTrip.{Reads, normal, unmarshal-marshal}
use golm.History.{panic, returns, user_boundary}
use golm.History.Laws.{Boundary, user_boundary-Boundary, user_boundary_panics}
use golm.Session.{
  Session, set_title, next_rev, trim, append, rollback, lookup, get_state, snapshot, session_of,
}
use golm.Session.Steps.{Extends}
use golm.Session.Trimming.{cut_at, trim-Boundary, rollback-append}
use golm.Session.Saved.{session_of-snapshot}
use golm.Session.Keys.{StateOp, sets, deletes, apply_ops, Latest, get_state-Latest}
use golm.Compaction.{
  Op, appends, titles, apply, apply_all, compact, compact_split, CompactResult, Result,
}
use golm.Compaction.Meanwhile.{apply_all-Extends}
use golm.Compaction.Split.{Splits, compact_split-Splits}
use golm.Compaction.Outcome.{Outcome, compact-Outcome}
use golm.Tools.{get, register_all, bound_tool_result}
use golm.Tools.Registering.{last_named, get-register_all}
use golm.Tools.Bounds.{KeepsAll, bound_tool_result-KeepsAll}
use golm.Prompt.{SystemPrompt, sections, prompt_text}
use golm.Prompt.Sections.{AllFull, wire, sections_lem}
use golm.Policy.{
  PolicyRules, deny, unset, approves, served, policy, ToolTraits, any_trait, has_trait,
}
use golm.Policy.Decisions.{Allowed, Asks, policy_runs, denied_trait_refuses}
use golm.Samples.Fixtures.{printer, hello, talk, session, clock_tool, calling, ten, compacting}

trim-Boundary_example :
    (r : Option ℕ) × (trim (pos 2) session ≡ returns (cut_at session r)) × Boundary talk 2 r
trim-Boundary_example = trim-Boundary session 1

user_boundary-Boundary_example :
    (r : Option ℕ) × (user_boundary talk (pos 2) ≡ returns r) × Boundary talk 2 r
user_boundary-Boundary_example = user_boundary-Boundary talk 1

user_boundary_panics_example : user_boundary talk (negsuc 0) ≡ panic
user_boundary_panics_example = user_boundary_panics talk (negsuc 0) (omega arith) refl

compact_split-Splits_example :
    (n : ℕ) × (compact_split talk (pos 1) true ≡ returns n) × Splits talk true n
compact_split-Splits_example = compact_split-Splits talk 0 true

-- What another goroutine does while the summariser runs.
abbrev others : List Op
others = appends (hello ∷ []) 5 ∷ titles (codes "t") 6 ∷ []

apply_all-Extends_example : Extends session (apply_all others session)
unfolding apply_all append apply set_title
apply_all-Extends_example = apply_all-Extends others session (omega arith) (omega arith) refl

compact-Outcome_example :
    (r : Result CompactResult) × (t : Session) × (compact compacting (codes "r") 5 others 9 session
      ≡ returns (r, t))
    × Outcome compacting (codes "r") 5 others 9 session r t
compact-Outcome_example =
    compact-Outcome compacting (codes "r") 5 others 9 session 0 refl (omega arith) (omega arith)

rollback-append_example : rollback (pos 4) 9 (append (hello ∷ []) 8 session) ≡ (
    if length (hello ∷ []) == 1
    then record session { updated = 9; rev = next_rev 7 }
    else append (hello ∷ []) 8 session)
rollback-append_example = rollback-append session (hello ∷ []) 8 9

-- One key is set, set again without effect, and another deleted.
abbrev state_ops : List StateOp
state_ops =
    sets (codes "k") (some (codes "2")) 4 ∷ sets (codes "k") none 5 ∷ deletes (codes "j") 6 ∷ []

abbrev decoded : Bytes → Option Bytes
decoded b = some b

get_state-Latest_example :
    (r : Option Bytes) × (get_state decoded (codes "k") (apply_ops state_ops session)
      ≡ Option.map decoded r)
    × Latest (codes "k") (lookup (codes "k") session.state) state_ops r
    × ((apply_ops state_ops session).history ≡ session.history)
get_state-Latest_example = get_state-Latest decoded (codes "k") state_ops session

-- A session with an id and no creation time, as in a value that no constructor made.
abbrev unsaved : Session
unsaved = record session { created = 0 }

session_of-snapshot_example :
    (session_of (codes "q") 9 (snapshot (codes "r") 8 unsaved).0
      ≡ record ((snapshot (codes "r") 8 unsaved).1) {
        created =
            if (snapshot (codes "r") 8 unsaved).1.created == 0
            then 9
            else (snapshot (codes "r") 8 unsaved).1.created;
        rev = 0;
        running = false;
      })
    × ((snapshot (codes "r") 8 unsaved).1 ≡ (
        if is_empty unsaved.id
        then record unsaved {
          id = codes "r";
          created = if unsaved.created == 0 then 8 else unsaved.created;
        }
        else unsaved))
session_of-snapshot_example = session_of-snapshot unsaved (codes "r") (codes "q") 8 9 refl

get-register_all_example :
    get (register_all (clock_tool ∷ []) []) (codes "clock")
    ≡ last_named (clock_tool ∷ []) (codes "clock") (get [] (codes "clock"))
get-register_all_example = get-register_all (clock_tool ∷ []) [] (codes "clock")

-- Two bytes and four.
abbrev blocks : List ToolContent
blocks = ToolContent.text (codes "ab") ∷ ToolContent.text (codes "cdef") ∷ []

bound_tool_result-KeepsAll_example :
    (kept : ℕ) × KeepsAll printer blocks (bound_tool_result printer (pos 4) blocks) kept
    × (kept ≤ 4)
bound_tool_result-KeepsAll_example = bound_tool_result-KeepsAll printer 3 blocks

-- An encoding/json that takes all for valid, and knows one message.
abbrev as_is : Tidy
as_is = record {
  text = λ s. s;
  raw = λ s. s;
  role = λ r. r;
  text_empty = refl;
  text_full = λ b s. refl;
}

abbrev one_message : Json
one_message = record {
  valid = λ b. true;
  print = λ m. some (codes "{}");
  parse = λ b.
      Option.map (λ es. (calling.message.role, map (tidy_outer as_is) es))
        (envelopes (λ c. true) calling.message.content);
}

one_message-Reads : Reads one_message as_is calling.message
one_message-Reads = record {
  object_valid = refl;
  reads = λ es e v. (
    codes "{}",
    refl,
    ap (Option.map (λ es'. (calling.message.role, map (tidy_outer as_is) es'))) e,
  );
}

unmarshal-marshal_example :
    (b : Bytes) × (marshal one_message calling.message ≡ some b)
    × (unmarshal one_message b
        ≡ some (record {
          role = calling.message.role;
          content = map (λ c. tidy as_is (normal (λ x. true) c)) calling.message.content;
        }))
unmarshal-marshal_example =
    unmarshal-marshal one_message as_is calling.message one_message-Reads refl

abbrev prompt : SystemPrompt
prompt =
    record { text = codes "a"; cache = false }
    ∷ record { text = []; cache = true }
    ∷ record { text = codes "b"; cache = false }
    ∷ []

sections_lem_example :
    (sections prompt ≡ wire prompt)
    × AllFull (sections prompt)
    × (prompt_text (sections prompt) ≡ prompt_text prompt)
    × (sections (sections prompt) ≡ sections prompt)
sections_lem_example = sections_lem prompt

spend_all-readings_example :
    (spent_of (spend_all (some (new_budget 15)) (ten ∷ ten ∷ [])) ≡ tokens (ten ∷ ten ∷ []))
    × ((exhausted (spend_all (some (new_budget 15)) (ten ∷ ten ∷ [])) ≡ true)
        ↔ (15 ≤ tokens (ten ∷ ten ∷ [])))
    × (remaining (spend_all (some (new_budget 15)) (ten ∷ ten ∷ [])) ≡ 15 - tokens (ten ∷ ten ∷ []))
unfolding total
spend_all-readings_example =
    spend_all-readings 15 (ten ∷ ten ∷ []) (omega arith) (omega arith) (omega arith)

-- What a stream reports at first, and at the end.
abbrev early : Usage
early = record (no_usage) { input_tokens = 7; cache_write5m_tokens = 4 }

ten-IsCounted : IsCounted ten
ten-IsCounted = omega arith

early-IsCounted : IsCounted early
early-IsCounted = omega arith

merge-Merged_example : Merged early ten (merge early ten)
merge-Merged_example = merge-Merged early ten early-IsCounted ten-IsCounted

abbrev rules : PolicyRules
rules = record {
  default = unset;
  unreviewed = deny;
  deny_names = [];
  ask_names = codes "clock" ∷ [];
  allow_names = [];
  deny_traits = codes "network" ∷ [];
  ask_traits = [];
}

abbrev networked : ToolTraits
networked = record { read_only = true; filesystem = false; network = true; process = false }

policy_runs_example : (policy (some rules) (some approves) served (codes "clock") none ≡ none) ↔ (
    Allowed rules (codes "clock") none
    ⊎ (Asks rules (codes "clock") none × (some approves ≡ some approves) × (served ≡ served)))
policy_runs_example = policy_runs rules (some approves) served (codes "clock") none

denied_trait_refuses_example :
    policy (some rules) (some approves) served (codes "fetch") (some networked) ≢ none
unfolding any_trait contains bytes_eq has_trait
denied_trait_refuses_example =
    denied_trait_refuses rules (some approves) served (codes "fetch") networked refl refl refl
