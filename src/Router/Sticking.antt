-- ===== src/Router/Sticking.antt =====
-- router.go and orchestrator.go: a conversation stays with the agent that answered it.
use golm.Common.{
  ℕ, ◌≡◌, refl, sym, ap, ◌∙◌, inl, inr, true, false, Bool-cases, Option, none, some, List, [], ◌∷◌,
  map, Bytes, bytes_eq, bytes_eq_refl, if◌then◌else◌, if_true, if_false, is_empty,
}
use mathlib.Core.Option
use golm.Message.{Message}
use golm.Session.{Session, lookup, set_state, get_state}
use golm.Session.Saved.{lookup-put}
use golm.Delegation.{find}
use golm.Router.{
  RouteInput, Route, Routing, routes, Router, continuing, among, registered, last_agent_key,
  text_or_empty, last_agent, route_to_last, Team, role_of, agents_of, or_next, main_agent,
  no_main_agent, router_chose_unknown, or_refuse, by_route, route, Target, target, refuses, or_same,
  record_last, ran, run_target, run_message,
}

-- What is found stands among the agents.
among-agents_of :
    (name : Bytes) (m : List (Bytes × ℕ)) (roles : List (Bytes × Bytes)) (a : ℕ)
    → find name m ≡ some a
    → among name (map (λ e. record { name = e.0; role = role_of e.0 roles; description = [] }) m)
      ≡ true
unfolding among find
among-agents_of name [] roles a e = cc
among-agents_of name ((k, b) ∷ m) roles a e = elim (Bool-cases (bytes_eq k name)) [
  | inl h ↦ rw h refl
  | inr h ↦ rw h (among-agents_of name m roles a (sym (if_false h _ _) ∙ e))
]

registered-agents_of :
    (t : Team) (name : Bytes) (a : ℕ)
    → is_empty name ≡ false
    → find name t.agents ≡ some a
    → registered name (agents_of t) ≡ true
unfolding registered agents_of
registered-agents_of t name a n e = if_false n _ _ ∙ elim (Bool-cases (is_empty (agents_of t))) [
  | inl h ↦ rw h refl
  | inr h ↦ if_false h _ _ ∙ among-agents_of name t.agents t.roles a e
]

-- The state that `recordLast` leaves.
record_last-lookup :
    (marshal : Bytes → Option Bytes) (now : ℕ) (name b : Bytes) (s : Session)
    → is_empty name ≡ false
    → marshal name ≡ some b
    → lookup last_agent_key (record_last marshal now name s).state ≡ some b
unfolding record_last set_state
record_last-lookup marshal now name b s n e =
    ap (λ (q : Session). lookup last_agent_key q.state) (if_false n _ _)
    ∙ (ap (λ o. lookup last_agent_key (or_same s (set_state last_agent_key o now s)).state) e
        ∙ (lookup-put last_agent_key last_agent_key b s.state
            ∙ if_true (bytes_eq_refl last_agent_key) _ _))

-- A router that continues names the agent of the session's state.
route_to_last-sticks :
    (unmarshal : Bytes → Option Bytes) (next : Option Router) (t : Team) (s : Session)
    (msg : Message) (name b : Bytes) (a : ℕ)
    → t.router ≡ some (route_to_last unmarshal next)
    → lookup last_agent_key s.state ≡ some b
    → unmarshal b ≡ some name
    → is_empty name ≡ false
    → find name t.agents ≡ some a
    → route t s msg ≡ target a
unfolding route route_to_last by_route or_refuse
route_to_last-sticks unmarshal next t s msg name b a r l u n f =
    let i : RouteInput = record { session = some s; message = msg; agents = agents_of t } in
    let chosen : Route = record { agent = name; reason = continuing } in
    let g : get_state unmarshal last_agent_key s ≡ some (some name) =
      unfold get_state in (ap (Option.map unmarshal) l ∙ ap some u) in
    let last : last_agent unmarshal (some s) ≡ some name =
      unfold last_agent text_or_empty in
      ap
        (λ (o : Option (Option Bytes)). elim o as (λ x. Option Bytes) [
          | none ↦ none
          | some v ↦ some (text_or_empty v)
        ])
        g in
    let rt : route_to_last unmarshal next i ≡ routes chosen =
      ap
        (λ (o : Option Bytes). elim o as (λ x. Routing) [
          | none ↦ or_next next i
          | some w ↦
              if registered w i.agents
              then routes (record { agent = w; reason = continuing })
              else or_next next i
        ])
        last
      ∙ if_true (registered-agents_of t name a n f) _ _ in
    let by : by_route t (routes chosen) ≡ target a =
      if_false n _ _ ∙ ap (λ (o : Option ℕ). or_refuse o (router_chose_unknown name)) f in
    ap
      (λ (o : Option Router). elim o as (λ x. Target) [
        | none ↦ or_refuse (main_agent t) no_main_agent
        | some q ↦ by_route t (q i)
      ])
      r
    ∙ (ap (by_route t) rt ∙ by)

-- What `recordLast` does stands in the session that a run leaves.
ran-record_last :
    {R : Type 0} (marshal : Bytes → Option Bytes) (run : ℕ → Message → Session → R × Session)
    (t : Team) (now : ℕ) (s : Session) (msg : Message) (o : Target) (a : ℕ) (r : R) (s' : Session)
    → run_target marshal run t now s msg o ≡ ran a r s'
    → s' ≡ record_last marshal now (t.names a) (run a msg s).1
unfolding run_target
ran-record_last marshal run t now s msg (refuses e) a r s' h = cc
ran-record_last marshal run t now s msg (target b) a r s' h =
    let q : b ≡ a = cc in
    let w : record_last marshal now (t.names b) (run b msg s).1 ≡ s' = cc in
    sym w ∙ ap (λ k. record_last marshal now (t.names k) (run k msg s).1) q

-- Under a router that continues, an agent that answered a message, and that stands in the team
-- under its own name, takes the next message of the session too, whatever router comes after, as
-- long as nobody changes what the run recorded. Encoding and decoding a name gives the name.
pub run_message-sticks :
    {R : Type 0} (marshal unmarshal : Bytes → Option Bytes)
    (run : ℕ → Message → Session → R × Session) (next : Option Router) (t : Team) (now : ℕ)
    (s s' later : Session) (msg msg' : Message) (a : ℕ) (r : R) (b : Bytes)
    → t.router ≡ some (route_to_last unmarshal next)
    → is_empty (t.names a) ≡ false
    → find (t.names a) t.agents ≡ some a
    → marshal (t.names a) ≡ some b
    → unmarshal b ≡ some (t.names a)
    → run_message marshal run t now (some s) msg ≡ ran a r s'
    → lookup last_agent_key later.state ≡ lookup last_agent_key s'.state
    → route t later msg' ≡ target a
unfolding run_message
run_message-sticks marshal unmarshal run next t now s s' later msg msg' a r b c n f m u h l =
    let e = ran-record_last marshal run t now s msg (route t s msg) a r s' h in
    let k = record_last-lookup marshal now (t.names a) b (run a msg s).1 n m in
    route_to_last-sticks unmarshal next t later msg' (t.names a) b a c
      (l ∙ (ap (λ (q : Session). lookup last_agent_key q.state) e ∙ k)) u n f
