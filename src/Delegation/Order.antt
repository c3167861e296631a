-- ===== src/Delegation/Order.antt =====
-- delegation.go: lists of keys, as a table's operations change them.
use golm.Common.{
  ◌≡◌, refl, ap, subst, ◌∙◌, inl, inr, Bool, true, false, not, ◌||◌, Bool-cases, List, [], ◌∷◌,
  ◌++◌, append-nil, Bytes, bytes_eq, contains, arith, if◌then◌else◌,
}
use golm.Delegation.{touch, drop_first}
use golm.Delegation.Keys.{eq_of, ne_sym, Distinct, contains-append, those}
use golm.Delegation.Eviction.{idle}

-- A key that stands in neither list comes between them.
pub between :
    (o : Bytes) (l m : List Bytes)
    → contains (l ++ m) o ≡ false
    → Distinct (l ++ m)
    → Distinct (l ++ o ∷ m)
unfolding contains
between o [] m n d = (n, d)
between o (x ∷ l) m n d =
    let a : contains (l ++ o ∷ m) x ≡ false =
      let h = ne_sym x o (ground arith) in
      ground (arith, contains-append l (o ∷ m) x, contains-append l m x, d.0) in
    (a, between o l m (ground arith) d.1)

contains-within :
    (f : Bytes → Bool) (p : List Bytes) (k : Bytes)
    → contains (those f p) k ≡ true
    → contains p k ≡ true
unfolding contains those
contains-within f [] k h = h
contains-within f (o ∷ p) k h = ground (arith, contains-within f p k)

pub contains-those :
    (b : Bytes → Bool) (p l : List Bytes) (k : Bytes)
    → Distinct (p ++ l)
    → contains (l ++ those b p) k ≡ (if contains (idle b p) k then false else contains (p ++ l) k)
unfolding contains those
contains-those b [] l k d = ap (λ m. contains m k) (append-nil l)
contains-those b (o ∷ p) l k d =
    let ih = contains-those b p l k d.1 in
    let n : bytes_eq o k ≡ true → contains (p ++ l) k ≡ false =
      λ e. subst (λ x. contains (p ++ l) x ≡ false) (eq_of o k e) d.0 in
    let i = contains-within (λ j. not (b j)) p k in
    let a₁ = contains-append l (o ∷ those b p) k in
    let a₂ = contains-append l (those b p) k in
    let a₃ = contains-append p l k in
    elim (Bool-cases (b o)) [
      | inl h ↦ rw h (ground (arith, ih, n, i, a₁, a₂, a₃))
      | inr h ↦ rw h (ground (arith, ih, n))
    ]

none_left : (b : Bool) {c : Bool} → c ≡ false → (if b then false else c) ≡ false
none_left true e = refl
none_left false e = e

pub Distinct-those :
    (b : Bytes → Bool) (p l : List Bytes) → Distinct (p ++ l) → Distinct (l ++ those b p)
unfolding those
Distinct-those b [] l d = rw (append-nil l) d
Distinct-those b (o ∷ p) l d = elim (Bool-cases (b o)) [
  | inr h ↦ rw h (Distinct-those b p l d.1)
  | inl h ↦ rw h (
      between o l (those b p) (contains-those b p l o d.1 ∙ none_left (contains (idle b p) o) d.0)
        (Distinct-those b p l d.1))
]

pub contains-touch :
    (id : Bytes) (l : List Bytes) (k : Bytes)
    → contains (touch id l) k ≡ (bytes_eq id k || contains l k)
unfolding contains touch
contains-touch id [] k = refl
contains-touch id (v ∷ l) k = elim (Bool-cases (bytes_eq v id)) [
  | inl e ↦
      let q : bytes_eq v k ≡ bytes_eq id k = ap (λ x. bytes_eq x k) (eq_of v id e) in
      rw e (ground (arith, contains-append l (id ∷ []) k, q))
  | inr e ↦ rw e (ground (arith, contains-touch id l k))
]

pub Distinct-touch : (id : Bytes) (l : List Bytes) → Distinct l → Distinct (touch id l)
unfolding contains touch
Distinct-touch id [] d = (refl, tt)
Distinct-touch id (v ∷ l) d = elim (Bool-cases (bytes_eq v id)) [
  | inl e ↦
      let n : contains (l ++ []) id ≡ false =
        rw (append-nil l) (subst (λ x. contains l x ≡ false) (eq_of v id e) d.0) in
      rw e (between id l [] n (rw (append-nil l) d.1))
  | inr e ↦
      let n : contains (touch id l) v ≡ false = contains-touch id l v ∙ rw (ne_sym v id e) d.0 in
      rw e (n, Distinct-touch id l d.1)
]

pub contains-drop_first :
    (id : Bytes) (l : List Bytes) (k : Bytes)
    → Distinct l
    → contains (drop_first id l) k ≡ (if bytes_eq id k then false else contains l k)
unfolding contains drop_first
contains-drop_first id [] k d = ground arith
contains-drop_first id (v ∷ l) k d = elim (Bool-cases (bytes_eq v id)) [
  | inl e ↦
      let q : bytes_eq v k ≡ bytes_eq id k = ap (λ x. bytes_eq x k) (eq_of v id e) in
      let n : bytes_eq v k ≡ true → contains l k ≡ false =
        λ h. subst (λ x. contains l x ≡ false) (eq_of v k h) d.0 in
      rw e (ground (arith, q, n))
  | inr e ↦
      let n : bytes_eq id k ≡ true → bytes_eq v k ≡ false =
        λ h. subst (λ x. bytes_eq v x ≡ false) (eq_of id k h) e in
      rw e (ground (arith, n, contains-drop_first id l k d.1))
]

pub Distinct-drop_first : (id : Bytes) (l : List Bytes) → Distinct l → Distinct (drop_first id l)
unfolding contains drop_first
Distinct-drop_first id [] d = tt
Distinct-drop_first id (v ∷ l) d = elim (Bool-cases (bytes_eq v id)) [
  | inl e ↦ rw e d.1
  | inr e ↦
      let n : contains (drop_first id l) v ≡ false =
        contains-drop_first id l v d.1 ∙ none_left (bytes_eq id v) d.0 in
      rw e (n, Distinct-drop_first id l d.1)
]
