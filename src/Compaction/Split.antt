-- ===== src/Compaction/Split.antt =====
-- compact.go: where `compactSplit` cuts.
use golm.Common.{
  ℕ, zero, suc, ◌<◌, ◌≡◌, refl, inl, inr, Bool, true, false, Bool-cases, Option, none, some,
  Option-cases, List, pos, arith, length, get_elem?, get_elem?-ge, if◌then◌else◌, leb,
}
use golm.Message.{Message}
use golm.History.{returns}
use golm.History.Laws.{user_at, Boundary, user_boundary-Boundary}
use golm.Compaction.{clashes, after_start, split_from, compact_split}

-- With a summary the head ends in a message of the user, and the tail begins with a message that
-- may follow another one of the user; without one the tail begins with a message of the user.
abbrev pub Splits : List Message → Bool → ℕ → Type 0
Splits h summarising zero = Unit {0}
Splits h false (suc n) = (suc n < length h) × (user_at h (suc n) ≡ true)
Splits h true (suc n) =
    (suc n < length h)
    × (user_at h n ≡ true)
    × ((m : Message) → get_elem? h (suc n) ≡ some m → clashes m.role ≡ false)

Splits-of_start :
    (h : List Message) (n : ℕ) (m : Message)
    → user_at h n ≡ true
    → get_elem? h (suc n) ≡ some m
    → Splits h true (if clashes m.role then 0 else suc n)
Splits-of_start h n m u e = elim (Bool-cases (clashes m.role)) [
  | inl c ↦ rw c tt
  | inr c ↦ rw c (l, u, λ m' e'. let q : m' ≡ m = cc in rw q c)
]
  where
    l : suc n < length h
    l = elim (Bool-cases (leb (length h) (suc n))) [
      | inl p ↦ cc (get_elem?-ge h (suc n) (ground arith))
      | inr p ↦ ground arith
    ]

after_start-Splits :
    (h : List Message) (n : ℕ) → user_at h n ≡ true → Splits h true (after_start h (suc n))
unfolding after_start
after_start-Splits h n u = elim (Option-cases (get_elem? h (suc n))) [
  | inl e ↦ rw (e, after_start) tt
  | inr (m, e) ↦ rw (e, after_start) (Splits-of_start h n m u e)
]

split_from-Splits :
    (h : List Message) (k : ℕ) (summarising : Bool) (r : Option ℕ)
    → Boundary h k r
    → (n : ℕ) × (split_from h summarising (returns r) ≡ returns n) × Splits h summarising n
unfolding split_from
split_from-Splits h k summarising none b = (0, refl, tt)
split_from-Splits h k false (some zero) b = (0, refl, tt)
split_from-Splits h k false (some (suc n)) b = (suc n, refl, (b.inside, b.user_there))
split_from-Splits h k true (some n) b =
    (after_start h (suc n), refl, after_start-Splits h n b.user_there)

-- With a positive bound `compactSplit` returns, and what it returns is 0 or cuts inside the
-- transcript: with a summariser just behind a message of the user and before one that is neither
-- of the user nor of a tool, and without one just before a message of the user.
pub compact_split-Splits :
    (h : List Message) (k : ℕ) (summarising : Bool)
    → (n : ℕ) × (compact_split h (pos (suc k)) summarising ≡ returns n) × Splits h summarising n
unfolding compact_split
compact_split-Splits h k summarising =
    let (r, e, b) = user_boundary-Boundary h k in
    let (n, f, sp) = split_from-Splits h (suc k) summarising r b in (n, rw e f, sp)

pub Splits-lt : (h : List Message) (b : Bool) (n : ℕ) → Splits h b (suc n) → suc n < length h
Splits-lt h false n s = s.0
Splits-lt h true n s = s.0
