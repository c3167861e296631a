-- ===== src/Delegation/Keys.antt =====
-- delegation.go: the keys of a table's maps, and the lists of them.
use golm.Common.{
  ℕ, ◌≡◌, refl, subst, ◌∙◌, inl, inr, Bool, true, false, Bool-cases, Option, none, some, List, [],
  ◌∷◌, ◌++◌, Bytes, bytes_eq, bytes_eq_iff, bytes_eq_refl, contains, arith, if◌then◌else◌,
}
use golm.Delegation.{find, without}

pub eq_of : (s t : Bytes) → bytes_eq s t ≡ true → s ≡ t
eq_of s t = (bytes_eq_iff s t).0

-- No key stands twice.
abbrev pub Distinct : List Bytes → Type 0
Distinct [] = Unit {0}
Distinct (k ∷ l) = (contains l k ≡ false) × Distinct l

pub contains-append :
    (l m : List Bytes) (k : Bytes)
    → contains (l ++ m) k ≡ (if contains l k then true else contains m k)
unfolding contains
contains-append [] m k = refl
contains-append (x ∷ l) m k = ground (arith, contains-append l m k)

-- The keys of which `b` holds.
unfoldable pub those : (Bytes → Bool) → List Bytes → List Bytes
those b [] = []
those b (k ∷ l) = if b k then k ∷ those b l else those b l

pub ne_sym : (s t : Bytes) → bytes_eq s t ≡ false → bytes_eq t s ≡ false
ne_sym s t n = elim (Bool-cases (bytes_eq t s)) [
  | inl e ↦ let q : bytes_eq s t ≡ true = rw (eq_of t s e) (bytes_eq_refl s) in cc
  | inr e ↦ e
]

none_twice :
    (b : Bool) (c : ℕ) (x : Option ℕ)
    → (if b then none else x) ≡ (if b then none else (if b then some c else x))
none_twice true c x = refl
none_twice false c x = refl

pub find-without :
    (o k : Bytes) (m : List (Bytes × ℕ))
    → find k (without o m) ≡ (if bytes_eq o k then none else find k m)
unfolding find without
find-without o k [] = ground arith
find-without o k ((j, c) ∷ m) = elim (Bool-cases (bytes_eq j o)) [
  | inl e ↦ rw (e, eq_of j o e) (find-without o k m ∙ none_twice (bytes_eq o k) c (find k m))
  | inr e ↦ elim (Bool-cases (bytes_eq j k)) [
    | inl d ↦
        let n : bytes_eq o k ≡ false =
          subst (λ x. bytes_eq o x ≡ false) (eq_of j k d) (ne_sym j o e) in
        rw (e, n, d) refl
    | inr d ↦ rw (e, d) (find-without o k m)
  ]
]
