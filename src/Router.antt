-- ===== src/Router.antt =====
-- router.go and orchestrator.go: which agent takes a turn. An agent is a number, and its `Name` a
-- place in a heap, since `Add` writes it. What packages strings and regexp do beyond bytes, how
-- encoding/json prints a text, and the run of an agent are arguments.
pub mod Matching
pub mod Rules
pub mod Sticking
use golm.Common.{
  ℕ, suc, Bool, true, false, not, ◌&&◌, Option, none, some, List, [], ◌∷◌, map, Bytes, bytes_eq,
  codes, if◌then◌else◌, ◌==◌, is_empty,
}
use golm.Message.{Message, message_text}
use golm.Session.{Session, get_state, set_state}
use golm.Delegation.{find}

pub record Texts : Type 0 where
  -- `strings.ToLower`, `strings.TrimSpace`, `regexp.Compile` with `MatchString`.
  pub lower : Bytes → Bytes
  pub trim : Bytes → Bytes
  pub compile : Bytes → Option (Bytes → Bool)

pub record AgentInfo : Type 0 where
  pub name : Bytes
  pub role : Bytes
  pub description : Bytes

pub record RouteInput : Type 0 where
  pub session : Option Session
  pub message : Message
  pub agents : List AgentInfo

pub data Reason : Type 0 where
  by_prefix by_pattern : Bytes → Reason
  by_all by_any : List Bytes → Reason
  rule_matched continuing no_reason : Reason

pub record Route : Type 0 where
  pub agent : Bytes
  pub reason : Reason

-- What a call of a router gives: a route, an error, or a panic.
pub data Routing : Type 0 where
  routes : Route → Routing
  errs panics : Bytes → Routing

abbrev pub Router : Type 0
Router = RouteInput → Routing

abbrev pub no_route : Route
no_route = record { agent = []; reason = no_reason }

pub record RouteRule : Type 0 where
  pub agent : Bytes
  pub any : List Bytes
  pub all : List Bytes
  pub prefix : Bytes
  pub pattern : Bytes
  -- The compiled pattern, once there is one.
  pub re : Option (Bytes → Bool)

unfoldable pub has_prefix : Bytes → Bytes → Bool
has_prefix s [] = true
has_prefix [] (b ∷ p) = false
has_prefix (a ∷ s) (b ∷ p) = a == b && has_prefix s p

unfoldable pub has_text : Bytes → Bytes → Bool
unfolding has_prefix
has_text [] p = has_prefix [] p
has_text (a ∷ s) p = let rest = has_text s p in if has_prefix (a ∷ s) p then true else rest

-- What the rules of a router come to: the rules with their patterns compiled, or the first rule
-- that cannot be used.
pub data Compiled : Type 0 where
  compiles : List RouteRule → Compiled
  names_no_agent bad_pattern no_condition : ℕ → Compiled

unfoldable pub has_condition : RouteRule → Bool
has_condition r = not (is_empty r.any && is_empty r.all && is_empty r.prefix && is_empty r.pattern)

-- A round of the loop of `RouteRules`; `rest` is what the other rules come to.
kept_rule : ℕ → RouteRule → Compiled → Compiled
unfolding has_condition
kept_rule i r rest =
    if has_condition r
    then elim rest [
      | compiles rs ↦ compiles (r ∷ rs)
      | names_no_agent j ↦ names_no_agent j
      | bad_pattern j ↦ bad_pattern j
      | no_condition j ↦ no_condition j
    ]
    else no_condition i

compile_pattern : Texts → ℕ → RouteRule → Compiled → Compiled
unfolding kept_rule
compile_pattern tx i r rest =
    if is_empty r.pattern then kept_rule i r rest else elim (tx.compile r.pattern) [
      | none ↦ bad_pattern i
      | some re ↦ kept_rule i (record r { re = some re }) rest
    ]

unfoldable pub compile_rules : Texts → ℕ → List RouteRule → Compiled
unfolding compile_pattern
compile_rules tx i [] = compiles []
compile_rules tx i (r ∷ rs) =
    let rest = compile_rules tx (suc i) rs in
    if is_empty (tx.trim r.agent) then names_no_agent i else compile_pattern tx i r rest

unfoldable pub all_in : Texts → Bytes → List Bytes → Bool
unfolding has_text
all_in tx text [] = true
all_in tx text (w ∷ ws) =
    let rest = all_in tx text ws in if has_text text (tx.lower w) then rest else false

unfoldable pub any_in : Texts → Bytes → List Bytes → Bool
unfolding has_text
any_in tx text [] = false
any_in tx text (w ∷ ws) =
    let rest = any_in tx text ws in if has_text text (tx.lower w) then true else rest

re_matches : Option (Bytes → Bool) → Bytes → Bool
re_matches none text = true
re_matches (some re) text = re text

prefix_matches : Texts → Bytes → Bytes → Bool
unfolding has_prefix
prefix_matches tx [] lowered = true
prefix_matches tx (b ∷ p) lowered = has_prefix lowered (tx.lower (b ∷ p))

any_matches : Texts → List Bytes → Bytes → Bool
unfolding any_in
any_matches tx [] lowered = true
any_matches tx (w ∷ ws) lowered = any_in tx lowered (w ∷ ws)

-- `matches`.
unfoldable pub matches : Texts → RouteRule → Bytes → Bytes → Bool
unfolding prefix_matches re_matches all_in any_matches
matches tx r text lowered =
    if prefix_matches tx r.prefix lowered
    then (if re_matches r.re text
        then (if all_in tx lowered r.all then any_matches tx r.any lowered else false)
        else false)
    else false

-- `reason`.
unfoldable pub reason_of : RouteRule → Reason
reason_of r =
    if is_empty r.prefix
    then (if is_empty r.pattern
        then (if is_empty r.all
            then (if is_empty r.any then rule_matched else by_any r.any)
            else by_all r.all)
        else by_pattern r.pattern)
    else by_prefix r.prefix

-- The loop of a router of rules: the first that matches.
unfoldable pub first_match : Texts → List RouteRule → Bytes → Bytes → Route
unfolding matches reason_of
first_match tx [] text lowered = no_route
first_match tx (r ∷ rs) text lowered =
    let rest = first_match tx rs text lowered in
    if matches tx r text lowered then record { agent = r.agent; reason = reason_of r } else rest

unfoldable pub rules_router : Texts → List RouteRule → Router
unfolding first_match
rules_router tx rules i =
    let text = message_text i.message in routes (first_match tx rules text (tx.lower text))

unfoldable pub among : Bytes → List AgentInfo → Bool
among name [] = false
among name (a ∷ as') = let rest = among name as' in if bytes_eq a.name name then true else rest

unfoldable pub registered : Bytes → List AgentInfo → Bool
unfolding among
registered name agents =
    if is_empty name then false else (if is_empty agents then true else among name agents)

abbrev pub last_agent_key : Bytes
last_agent_key = codes "golm.last_agent"

-- The text of a state that is present; one that does not decode leaves the empty text.
text_or_empty : Option Bytes → Bytes
text_or_empty none = []
text_or_empty (some t) = t

unfoldable pub last_agent : (Bytes → Option Bytes) → Option Session → Option Bytes
unfolding text_or_empty
last_agent unmarshal none = none
last_agent unmarshal (some s) = elim (get_state unmarshal last_agent_key s) [
  | none ↦ none
  | some v ↦ some (text_or_empty v)
]

or_next : Option Router → RouteInput → Routing
or_next none i = routes no_route
or_next (some next) i = next i

-- `RouteToLast`.
unfoldable pub route_to_last : (Bytes → Option Bytes) → Option Router → Router
unfolding last_agent registered or_next
route_to_last unmarshal next i = elim (last_agent unmarshal i.session) [
  | none ↦ or_next next i
  | some last ↦
      if registered last i.agents
      then routes (record { agent = last; reason = continuing })
      else or_next next i
]

pub record Team : Type 0 where
  pub agents : List (Bytes × ℕ)
  pub roles : List (Bytes × Bytes)
  pub names : ℕ → Bytes
  pub main : Bytes
  pub router : Option Router

put_agent : Bytes → ℕ → List (Bytes × ℕ) → List (Bytes × ℕ)
put_agent name a [] = (name, a) ∷ []
put_agent name a ((k, b) ∷ m) =
    let rest = put_agent name a m in if bytes_eq k name then (name, a) ∷ m else (k, b) ∷ rest

write_name : (ℕ → Bytes) → ℕ → Bytes → ℕ → Bytes
write_name h a n b = if a == b then n else h b

-- `Add`, but for what it hands down to an agent that has no bus, policy or budget of its own.
unfoldable pub add : Bytes → Bytes → ℕ → Team → Team
unfolding put_agent write_name
add name role a t = record t {
  names = write_name t.names a name;
  agents = put_agent name a t.agents;
  roles = (name, role) ∷ t.roles;
  main = if bytes_eq role (codes "main") then name else (if is_empty t.main then name else t.main);
}

unfoldable pub main_agent : Team → Option ℕ
main_agent t = find t.main t.agents

role_of : Bytes → List (Bytes × Bytes) → Bytes
role_of name [] = []
role_of name ((k, r) ∷ m) = let rest = role_of name m in if bytes_eq k name then r else rest

-- `Agents`, in the order of the map; the descriptions are not kept.
unfoldable pub agents_of : Team → List AgentInfo
unfolding role_of
agents_of t =
    map (λ e. record { name = e.0; role = role_of e.0 t.roles; description = [] }) t.agents

pub data RouteError : Type 0 where
  no_main_agent router_named_none : RouteError
  router_failed router_panicked router_chose_unknown : Bytes → RouteError

pub data Target : Type 0 where
  target : ℕ → Target
  refuses : RouteError → Target

unfoldable pub or_refuse : Option ℕ → RouteError → Target
or_refuse none e = refuses e
or_refuse (some a) e = target a

unfoldable pub by_route : Team → Routing → Target
unfolding or_refuse main_agent
by_route t (errs e) = refuses (router_failed e)
by_route t (panics p) = refuses (router_panicked p)
by_route t (routes r) =
    if is_empty r.agent
    then or_refuse (main_agent t) router_named_none
    else or_refuse (find r.agent t.agents) (router_chose_unknown r.agent)

-- `route`.
unfoldable pub route : Team → Session → Message → Target
unfolding by_route agents_of main_agent or_refuse
route t s msg = elim t.router [
  | none ↦ or_refuse (main_agent t) no_main_agent
  | some r ↦ by_route t (r (record { session = some s; message = msg; agents = agents_of t }))
]

or_same : Session → Option Session → Session
or_same s none = s
or_same s (some s') = s'

-- `recordLast`.
unfoldable pub record_last : (Bytes → Option Bytes) → ℕ → Bytes → Session → Session
unfolding or_same set_state
record_last marshal now name s =
    if is_empty name then s else or_same s (set_state last_agent_key (marshal name) now s)

pub data Outcome (R : Type 0) : Type 0 where
  no_session : Outcome R
  not_routed : RouteError → Outcome R
  ran : ℕ → R → Session → Outcome R

module _ {R : Type 0} (marshal : Bytes → Option Bytes)
    (run : ℕ → Message → Session → R × Session) where
  run_target : Team → ℕ → Session → Message → Target → Outcome R
  unfolding record_last
  run_target t now s msg (refuses e) = not_routed e
  run_target t now s msg (target a) =
      let (r, s') = run a msg s in ran a r (record_last marshal now (t.names a) s')

  -- `RunMessage`.
  unfoldable pub run_message : Team → ℕ → Option Session → Message → Outcome R
  unfolding run_target route
  run_message t now none msg = no_session
  run_message t now (some s) msg = run_target t now s msg (route t s msg)
