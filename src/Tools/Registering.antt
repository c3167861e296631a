-- ===== src/Tools/Registering.antt =====
-- tool.go: what the registry holds.
use golm.Common.{
  ◌≡◌, refl, Option, none, some, List, [], ◌∷◌, Bytes, arith, bytes_eq, bytes_eq_iff, bytes_eq_refl,
  if◌then◌else◌, ℤ, Option-cases, inl, inr,
}
use golm.Content.{ToolUse}
use golm.Tools.{
  Printer, Tool, Registry, Execution, gives, fails, panics, register, register_all, get, ended,
  error_result, dispatch, exec_tool,
}

get-register :
    (t : Tool) (r : Registry) (name : Bytes)
    → get (register t r) name ≡ (if bytes_eq t.name name then some t else get r name)
unfolding get register
get-register t [] name = refl
get-register t (x ∷ xs) name = ground (
  arith,
  bytes_eq_iff x.name t.name,
  bytes_eq_iff x.name name,
  bytes_eq_iff t.name name,
  bytes_eq_refl name,
  get-register t xs name,
)

-- The last tool of a list under a name.
abbrev pub last_named : List Tool → Bytes → Option Tool → Option Tool
last_named [] name d = d
last_named (t ∷ ts) name d = last_named ts name (if bytes_eq t.name name then some t else d)

-- After `Register` a name stands for the last registered tool of that name, and where there is
-- none, for what it stood for before.
pub get-register_all :
    (ts : List Tool) (r : Registry) (name : Bytes)
    → get (register_all ts r) name ≡ last_named ts name (get r name)
unfolding register_all
get-register_all [] r name = refl
get-register_all (t ∷ ts) r name =
    rw (get-register_all ts (register t r) name, get-register t r name)

ended-id : (p : Printer) (u : ToolUse) (x : Execution) → (ended p u x).tool_use_id ≡ u.id
unfolding ended error_result
ended-id p u (gives out) = refl
ended-id p u (fails why) = refl
ended-id p u (panics why) = refl

dispatch-id :
    (p : Printer) (tools : Option Registry) (run : Tool → Execution) (u : ToolUse)
    → (dispatch p tools run u).tool_use_id ≡ u.id
unfolding dispatch error_result
dispatch-id p none run u = refl
dispatch-id p (some tools) run u = elim (Option-cases (get tools u.name)) [
  | inl e ↦ rw (e, dispatch) refl
  | inr (t, e) ↦ rw (e, dispatch) (ended-id p u (run t))
]

-- However the call ends, its result carries the id and the name of the call.
pub exec_tool-id :
    (p : Printer) (tools : Option Registry) (n : ℤ) (run : Tool → Execution) (u : ToolUse)
    → ((exec_tool p tools n run u).tool_use_id ≡ u.id) × ((exec_tool p tools n run u).name ≡ u.name)
unfolding exec_tool
exec_tool-id p tools n run u = (dispatch-id p tools run u, refl)
