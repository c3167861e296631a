-- ===== src/History/Laws.antt =====
-- session.go: what `userBoundary` finds.
use golm.Common.{
  le_zero, ℕ, zero, suc, ◌+◌, ◌-◌, ◌≤◌, ◌<◌, ◌≡◌, refl, ap, ◌∙◌, sym, subst, ◌⊎◌, inl, inr, Bool,
  true, false, Bool-cases, Option, none, some, List, [], ◌∷◌, ℤ, pos, negsuc, arith, ltb, leb,
  length, get_elem?, drop, get_elem?-lt, get_elem?-drop, get_elem?-ge,
}
use mathlib.Core.Bool.{false≢true}
use native.Mathlib.Nat.{add-zero}
use golm.Message.{Message}
use golm.History.{
  is_user, first_start, walk_back, walk_on, panic, returns, boundary_at, user_boundary,
}

-- The role test at an index, false past the end.
abbrev pub user_at : List Message → ℕ → Bool
user_at h i = elim (get_elem? h i) [ none ↦ false | some m ↦ is_user m ]

-- Where the walk back stops: at a user message with none after it up to the start, or at 0.
pub record StopsAt (h : List Message) (s t : ℕ) : Type 0 where
  pub within : t ≤ s
  pub at_user : (t ≡ 0) ⊎ (user_at h t ≡ true)
  pub none_between : (i : ℕ) → t < i → i ≤ s → user_at h i ≡ false

walk_back-StopsAt :
    (h : List Message) (s : ℕ)
    → s ≤ length h - 1
    → (t : ℕ) × (walk_back h s ≡ some t) × StopsAt h s t
unfolding walk_back
walk_back-StopsAt h zero l = (
  0,
  refl,
  record { within = omega arith; at_user = inl refl; none_between = λ i p q. absurd (omega arith) },
)
walk_back-StopsAt h (suc s) l =
    let (m, e) = get_elem?-lt h (suc s) (omega arith) in
    elim (Bool-cases (is_user m)) [
      | inl u ↦ (
        suc s,
        ground arith,
        record {
          within = omega arith;
          at_user = inr (rw (e, user_at) u);
          none_between = λ i p q. absurd (omega arith);
        },
      )
      | inr u ↦
          let (t, w, st) = walk_back-StopsAt h s (omega arith) in
          (
            t,
            ground arith,
            record {
              within = omega (arith, st.within);
              at_user = st.at_user;
              none_between = λ i p q. elim (Bool-cases (leb i s)) [
                | inl le ↦ st.none_between i p (ground arith)
                | inr gt ↦ let e' : i ≡ suc s = ground arith in rw e' (rw (e, user_at) u)
              ];
            },
          )
    ]

-- Where the walk on stops: `k` messages on, at the first user message or past the end.
pub record Skips (h : List Message) (k : ℕ) : Type 0 where
  pub within : k ≤ length h
  pub at_user : (k ≡ length h) ⊎ (user_at h k ≡ true)
  pub none_before : (i : ℕ) → i < k → user_at h i ≡ false

walk_on-Skips : (h : List Message) (s : ℕ) → (k : ℕ) × (walk_on h s ≡ s + k) × Skips h k
unfolding walk_on
walk_on-Skips [] s =
    (0, omega arith, record { within = omega arith; at_user = inl refl; none_before = λ i p. refl })
walk_on-Skips (m ∷ h) s = elim (Bool-cases (is_user m)) [
  | inl u ↦ (
    0,
    ground arith,
    record { within = omega arith; at_user = inr u; none_before = λ i p. absurd (omega arith) },
  )
  | inr n ↦
      let (k, e, sk) = walk_on-Skips h (suc s) in
      (
        suc k,
        ground arith,
        record {
          within = omega (arith, sk.within);
          at_user = elim sk.at_user [ inl p ↦ inl (ap suc p) | inr p ↦ inr p ];
          none_before = elim [ zero ↦ λ p. n | suc i ↦ λ p. sk.none_before i (omega arith) ];
        },
      )
]

user_at-drop : (h : List Message) (s k : ℕ) → user_at (drop s h) k ≡ user_at h (s + k)
user_at-drop h s k = rw (get_elem?-drop s k h, user_at)

user_at-ge : (h : List Message) (i : ℕ) → length h ≤ i → user_at h i ≡ false
user_at-ge h i l = rw (get_elem?-ge h i l, user_at)

-- The last place that keeps `keep_last` messages.
abbrev pub last_start : List Message → ℕ → ℕ
last_start h keep_last = length h - keep_last

-- A cut at a user message inside the transcript: the last one that keeps at least `keep_last`
-- messages if there is one, and otherwise the first one of all.
pub record CutsAt (h : List Message) (keep_last s : ℕ) : Type 0 where
  pub positive : 0 < s
  pub inside : s < length h
  pub user_there : user_at h s ≡ true
  pub choice :
      ((s ≤ last_start h keep_last)
        × ((i : ℕ) → s < i → i ≤ last_start h keep_last → user_at h i ≡ false))
      ⊎ ((i : ℕ) → i < s → user_at h i ≡ false)

-- No cut: the only user message that keeps enough is the first message, or there is none at all.
abbrev pub NoCut : List Message → ℕ → Type 0
NoCut h keep_last =
    ((user_at h 0 ≡ true) × ((i : ℕ) → 0 < i → i ≤ last_start h keep_last → user_at h i ≡ false))
    ⊎ ((i : ℕ) → user_at h i ≡ false)

abbrev pub Boundary : List Message → ℕ → Option ℕ → Type 0
Boundary h keep_last none = NoCut h keep_last
Boundary h keep_last (some s) = CutsAt h keep_last s

first_start-pos : (n k : ℕ) → first_start n (pos (suc k)) ≡ n - suc k
unfolding first_start
first_start-pos n k = ground arith

user_at-lt : (h : List Message) (i : ℕ) → user_at h i ≡ true → i < length h
user_at-lt h i u = elim (Bool-cases (ltb i (length h))) [
  | inl p ↦ ground arith
  | inr p ↦ let e : user_at h i ≡ false = user_at-ge h i (ground arith) in cc
]

inside-boundary_at : (h : List Message) (s : ℕ) → 0 < s → s < length h → boundary_at h s ≡ some s
unfolding boundary_at
inside-boundary_at h s p q = ground arith

outside-boundary_at : (h : List Message) → boundary_at h (length h) ≡ none
unfolding boundary_at
outside-boundary_at h = ground arith

zero-boundary_at : (h : List Message) → boundary_at h 0 ≡ none
unfolding boundary_at
zero-boundary_at h = refl

-- The walk back ended on a message of the user.
at_user-Boundary :
    (h : List Message) (k t : ℕ)
    → StopsAt h (last_start h k) t
    → user_at h t ≡ true
    → (r : Option ℕ) × (boundary_at h t ≡ r) × Boundary h k r
at_user-Boundary h k zero st u = (none, zero-boundary_at h, inl (u, st.none_between))
at_user-Boundary h k (suc t) st u =
    let l = user_at-lt h (suc t) u in
    (
      some (suc t),
      inside-boundary_at h (suc t) (omega arith) l,
      record {
        positive = omega arith;
        inside = l;
        user_there = u;
        choice = inl (st.within, st.none_between);
      },
    )

-- It ended at the front, and the walk on found the first message of the user, or none.
from_front-Boundary :
    (h : List Message) (k j : ℕ)
    → user_at h 0 ≡ false
    → Skips h j
    → (r : Option ℕ) × (boundary_at h j ≡ r) × Boundary h k r
from_front-Boundary h k j n sk = elim sk.at_user [
  | inl e ↦ (
    none,
    rw e (outside-boundary_at h),
    inr (λ i. elim (Bool-cases (ltb i j)) [
      | inl p ↦ sk.none_before i (ground arith)
      | inr p ↦ user_at-ge h i (ground arith)
    ]),
  )
  | inr u ↦
      let l = user_at-lt h j u in
      let p : 0 < j = elim (Bool-cases (ltb 0 j)) [
        | inl q ↦ ground arith
        | inr q ↦ let z : j ≡ 0 = ground arith in absurd (false≢true (sym n ∙ (rw z at u)))
      ] in
      (
        some j,
        inside-boundary_at h j p l,
        record { positive = p; inside = l; user_there = u; choice = inr sk.none_before },
      )
]

walked :
    (h : List Message) (k t j : ℕ)
    → StopsAt h (last_start h k) t
    → Skips (drop t h) j
    → (r : Option ℕ) × (boundary_at h (t + j) ≡ r) × Boundary h k r
walked h k t j st sk = elim (Bool-cases (user_at h t)) [
  | inl u ↦
      let z : j ≡ 0 = elim (Bool-cases (ltb 0 j)) [
        | inl q ↦ absurd (
            false≢true
              (sym (sk.none_before 0 (ground arith)) ∙ (user_at-drop h t 0 ∙ (rw add-zero u))))
        | inr q ↦ ground arith
      ] in
      let s : t + j ≡ t = omega arith in rw s (at_user-Boundary h k t st u)
  | inr n ↦ elim st.at_user [
    | inl z ↦
        let s : t + j ≡ j = omega arith in
        let sk' : Skips h j = subst (λ x. Skips (drop x h) j) z sk in
        rw s (from_front-Boundary h k j (subst (λ x. user_at h x ≡ false) z n) sk')
    | inr u ↦ absurd (false≢true (sym n ∙ u))
  ]
]

-- With a positive bound the search for a cut never leaves the transcript. It returns the last user
-- message that keeps at least `keep_last` messages, or else the first user message of all, and
-- reports no cut exactly where that message is the first one or there is none.
pub user_boundary-Boundary :
    (h : List Message) (k : ℕ)
    → (r : Option ℕ) × (user_boundary h (pos (suc k)) ≡ returns r) × Boundary h (suc k) r
unfolding user_boundary
user_boundary-Boundary h k =
    let (t, e, st) = walk_back-StopsAt h (last_start h (suc k)) (omega arith) in
    let (j, f, sk) = walk_on-Skips (drop t h) t in
    let (r, g, b) = walked h (suc k) t j st sk in (r, rw (first_start-pos (length h) k, e, f, g), b)

walk_back_past : (h : List Message) (s : ℕ) → length h ≤ s → 0 < s → walk_back h s ≡ none
unfolding walk_back
walk_back_past h zero l p = absurd (omega arith)
walk_back_past h (suc s) l p = rw (get_elem?-ge h (suc s) l, walk_back)

first_start_past : (n : ℕ) (k : ℤ) → 0 < n → le_zero k ≡ true → n ≤ first_start n k
unfolding first_start
first_start_past n (pos k) p z = ground arith
first_start_past n (negsuc k) p z = omega arith

-- A bound of zero or less on a transcript that is not empty reads past its end: the call panics.
pub user_boundary_panics :
    (h : List Message) (keep_last : ℤ)
    → 0 < length h
    → le_zero keep_last ≡ true
    → user_boundary h keep_last ≡ panic
unfolding user_boundary
user_boundary_panics h keep_last l z =
    let past = first_start_past (length h) keep_last l z in
    rw (walk_back_past h (first_start (length h) keep_last) past (omega arith))
