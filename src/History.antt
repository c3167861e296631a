-- ===== src/History.antt =====
-- session.go: where a transcript may be cut (`userBoundary`).
pub mod Laws
use golm.Common.{
  ℕ, zero, suc, ◌+◌, ◌-◌, Bool, true, false, ◌||◌, Option, none, some, List, [], ◌∷◌, ℤ, pos,
  negsuc, ltb, leb, ◌==◌, if◌then◌else◌, length, get_elem?, drop,
}
use golm.Content.{Role, user}
use golm.Message.{Message}

abbrev pub is_user_role : Role → Bool
is_user_role user = true
is_user_role _ = false

abbrev pub is_user : Message → Bool
is_user m = is_user_role m.role

-- `if len(h) > keepLast { start = len(h) - keepLast }`; a negative bound lands past the end.
unfoldable pub first_start : ℕ → ℤ → ℕ
first_start n (pos k) = if ltb k n then n - k else 0
first_start n (negsuc k) = n + suc k

-- The loop that walks back to a user message. `none` is the panic of an index out of range.
unfoldable pub walk_back : List Message → ℕ → Option ℕ
walk_back h zero = some 0
walk_back h (suc s) = elim (get_elem? h (suc s)) [
  | none ↦ none
  | some m ↦ if is_user m then some (suc s) else walk_back h s
]

-- The loop that walks on to one, over what is left of the transcript.
unfoldable pub walk_on : List Message → ℕ → ℕ
walk_on [] s = s
walk_on (m ∷ h) s = if is_user m then s else walk_on h (suc s)

-- What a call comes to: a panic, or a value.
pub data Call {ℓ} (A : Type ℓ) : Type ℓ where
  panic : Call A
  returns : A → Call A

-- `-1` is `none`.
boundary_at : List Message → ℕ → Option ℕ
boundary_at h start = if start == 0 || leb (length h) start then none else some start

boundary_from : List Message → Option ℕ → Call (Option ℕ)
unfolding boundary_at walk_on
boundary_from h none = panic
boundary_from h (some s) = returns (boundary_at h (walk_on (drop s h) s))

unfoldable pub user_boundary : List Message → ℤ → Call (Option ℕ)
unfolding boundary_from walk_back first_start
user_boundary h keep_last = boundary_from h (walk_back h (first_start (length h) keep_last))
