-- ===== src/Delegation/Eviction.antt =====
-- delegation.go: what `evictLocked` drops.
use golm.Common.{
  ℕ, ◌≤◌, ◌<◌, ◌≡◌, refl, sym, ap, subst, ◌∙◌, ◌⊎◌, inl, inr, Bool, true, false, not, ◌||◌,
  Bool-cases, Option, none, some, List, [], ◌∷◌, ◌++◌, append_assoc, append-nil, length,
  length-append, Bytes, bytes_eq, bytes_eq_refl, contains, ltb, arith, if◌then◌else◌, if_true,
  if_false,
}
use golm.Delegation.{
  Table, find, without, busy, any_held, evict_oldest, evict_round, evict_rounds, evict,
  max_conversations,
}
use golm.Delegation.Keys.{eq_of, Distinct, those, find-without}

-- The keys that a round of the loop finds idle.
abbrev pub idle : (Bytes → Bool) → List Bytes → List Bytes
idle b l = those (λ k. not (b k)) l

-- The loop has passed the first keys of `q`, dropped the idle ones of them, and put the others
-- after those it had put there before. It stops when the rest fits, and drops no more than that.
pub record Trimmed (b : Bytes → Bool) (limit : ℕ) (q behind : List Bytes) (t t' : Table)
    : Type 0 where
  pub passed : List Bytes
  pub left : List Bytes
  pub split : q ≡ passed ++ left
  pub order : t'.order ≡ left ++ (behind ++ those b passed)
  pub found :
      (k : Bytes) → find k t'.convs ≡ (if contains (idle b passed) k then none else find k t.convs)
  pub enough : (length t'.order ≤ limit) ⊎ (left ≡ [])
  pub floor : (t'.order ≡ t.order) ⊎ (limit ≤ length t'.order)
  pub slots : t'.slots ≡ t.slots
  pub gates : t'.gates ≡ t.gates
  pub fresh : t'.fresh ≡ t.fresh

stops :
    (b : Bytes → Bool) (limit : ℕ) (q behind : List Bytes) (t : Table)
    → t.order ≡ q ++ behind
    → (length t.order ≤ limit) ⊎ (q ≡ [])
    → Trimmed b limit q behind t t
unfolding those contains
stops b limit q behind t e n = record {
  passed = [];
  left = q;
  split = refl;
  order = e ∙ ap (λ l. q ++ l) (sym (append-nil behind));
  found = λ k. refl;
  enough = n;
  floor = inl refl;
  slots = refl;
  gates = refl;
  fresh = refl;
}

-- The queue of the loop agrees with `b` on which conversations are busy.
abbrev Agree : (Bytes → Bool) → List Bytes → Table → Type 0
Agree b q t = (k : Bytes) → contains q k ≡ true → busy t k ≡ b k

busy-without :
    (t : Table) (o k : Bytes) (l : List Bytes)
    → bytes_eq o k ≡ false
    → busy (record t { order = l; convs = without o t.convs }) k ≡ busy t k
unfolding busy
busy-without t o k l n =
    let e : find k (without o t.convs) ≡ find k t.convs =
      find-without o k t.convs ∙ if_false n none (find k t.convs) in
    ap
      (λ (c : Option ℕ). elim c as (λ x. Bool) [
        | none ↦ false
        | some c ↦ any_held t.gates (t.slots c)
      ])
      e

abbrev Rounds : (Bytes → Bool) → ℕ → List Bytes → Type 0
Rounds b limit q =
    (behind : List Bytes) (t : Table)
    → t.order ≡ q ++ behind
    → Agree b q t
    → Trimmed b limit q behind t (evict_rounds (length q) limit t)

abbrev turned : Bytes → List Bytes → List Bytes → Table → Table
turned o q behind t = record t { order = (q ++ behind) ++ o ∷ [] }

abbrev shed : Bytes → List Bytes → List Bytes → Table → Table
shed o q behind t = record t { order = q ++ behind; convs = without o t.convs }

passes_busy :
    (b : Bytes → Bool) (limit : ℕ) (o : Bytes) (q behind : List Bytes) (t t' : Table)
    → b o ≡ true
    → t.order ≡ o ∷ (q ++ behind)
    → limit < length t.order
    → Trimmed b limit q (behind ++ o ∷ []) (turned o q behind t) t'
    → Trimmed b limit (o ∷ q) behind t t'
unfolding those contains
passes_busy b limit o q behind t t' h e lt r =
    let n : length ((q ++ behind) ++ o ∷ []) ≡ length t.order =
      length-append (q ++ behind) (o ∷ []) ∙ (omega arith ∙ ap length (sym e)) in
    let kept : those b (o ∷ r.passed) ≡ o ∷ those b r.passed = rw h refl in
    let gone : idle b (o ∷ r.passed) ≡ idle b r.passed = rw h refl in
    record {
      passed = o ∷ r.passed;
      left = r.left;
      split = ap (◌∷◌ o) r.split;
      order =
          r.order
          ∙ ap (λ l. r.left ++ l)
              (append_assoc behind (o ∷ []) (those b r.passed) ∙ ap (λ l. behind ++ l) (sym kept));
      found = λ k. r.found k ∙ ap (λ l. if contains l k then none else find k t.convs) (sym gone);
      enough = r.enough;
      floor = elim r.floor [ inl s ↦ inr (omega (arith, n, ap length s, lt)) | inr s ↦ inr s ];
      slots = r.slots;
      gates = r.gates;
      fresh = r.fresh;
    }

none_either :
    (b c : Bool) (x : Option ℕ)
    → (if c then none else (if b then none else x)) ≡ (if b || c then none else x)
none_either true true x = refl
none_either true false x = refl
none_either false true x = refl
none_either false false x = refl

drops_idle :
    (b : Bytes → Bool) (limit : ℕ) (o : Bytes) (q behind : List Bytes) (t t' : Table)
    → b o ≡ false
    → t.order ≡ o ∷ (q ++ behind)
    → limit < length t.order
    → Trimmed b limit q behind (shed o q behind t) t'
    → Trimmed b limit (o ∷ q) behind t t'
unfolding those contains
drops_idle b limit o q behind t t' h e lt r =
    let kept : those b (o ∷ r.passed) ≡ those b r.passed = rw h refl in
    let gone : idle b (o ∷ r.passed) ≡ o ∷ idle b r.passed = rw h refl in
    record {
      passed = o ∷ r.passed;
      left = r.left;
      split = ap (◌∷◌ o) r.split;
      order = r.order ∙ ap (λ l. r.left ++ (behind ++ l)) (sym kept);
      found = λ k.
          r.found k
          ∙ (ap (λ x. if contains (idle b r.passed) k then none else x) (find-without o k t.convs)
              ∙ (none_either (bytes_eq o k) (contains (idle b r.passed) k) (find k t.convs)
                  ∙ ap (λ l. if contains l k then none else find k t.convs) (sym gone)));
      enough = r.enough;
      floor = elim r.floor [
        | inl s ↦ inr (omega (arith, ap length s, ap length e, lt))
        | inr s ↦ inr s
      ];
      slots = r.slots;
      gates = r.gates;
      fresh = r.fresh;
    }

round_at :
    (t : Table) (o : Bytes) (l : List Bytes) → t.order ≡ o ∷ l → evict_round t ≡ evict_oldest o l t
unfolding evict_round
round_at t o l e = ap (λ q. elim q as (λ x. Table) [ [] ↦ t | v ∷ r ↦ evict_oldest v r t ]) e

round_busy :
    (o : Bytes) (l : List Bytes) (t : Table)
    → t.order ≡ o ∷ l
    → busy t o ≡ true
    → evict_round t ≡ record t { order = l ++ o ∷ [] }
unfolding evict_round evict_oldest
round_busy o l t e h = round_at t o l e ∙ if_true h _ _

round_idle :
    (o : Bytes) (l : List Bytes) (t : Table)
    → t.order ≡ o ∷ l
    → busy t o ≡ false
    → evict_round t ≡ record t { order = l; convs = without o t.convs }
unfolding evict_round evict_oldest
round_idle o l t e h = round_at t o l e ∙ if_false h _ _

Agree-shed :
    (b : Bytes → Bool) (o : Bytes) (q : List Bytes) (t : Table) (l : List Bytes)
    → contains q o ≡ false
    → Agree b (o ∷ q) t
    → Agree b q (record t { order = l; convs = without o t.convs })
unfolding contains
Agree-shed b o q t l n a k m = elim (Bool-cases (bytes_eq o k)) [
  | inl e ↦
      let w : contains q o ≡ true = subst (λ x. contains q x ≡ true) (sym (eq_of o k e)) m in cc
  | inr e ↦ busy-without t o k l e ∙ a k (ground arith)
]

Agree-turned :
    (b : Bytes → Bool) (o : Bytes) (q : List Bytes) (t : Table) (l : List Bytes)
    → Agree b (o ∷ q) t
    → Agree b q (record t { order = l })
unfolding contains busy
Agree-turned b o q t l a k m = a k (ground arith)

rounds_over :
    (b : Bytes → Bool) (limit : ℕ) (o : Bytes) (q behind : List Bytes) (t : Table)
    → t.order ≡ o ∷ (q ++ behind)
    → Agree b (o ∷ q) t
    → limit < length t.order
    → contains q o ≡ false
    → Rounds b limit q
    → Trimmed b limit (o ∷ q) behind t (evict_rounds (length q) limit (evict_round t))
unfolding contains
rounds_over b limit o q behind t e a lt n ih =
    let same : busy t o ≡ b o = a o (rw (bytes_eq_refl o) refl) in
    elim (Bool-cases (b o)) [
      | inl h ↦
          let t₁ = turned o q behind t in
          let r =
            ih (behind ++ o ∷ []) t₁ (append_assoc q behind (o ∷ []))
              (Agree-turned b o q t t₁.order a) in
          subst (λ x. Trimmed b limit (o ∷ q) behind t (evict_rounds (length q) limit x))
            (sym (round_busy o (q ++ behind) t e (same ∙ h)))
            (passes_busy b limit o q behind t _ h e lt r)
      | inr h ↦
          let t₁ = shed o q behind t in
          let r = ih behind t₁ refl (Agree-shed b o q t t₁.order n a) in
          subst (λ x. Trimmed b limit (o ∷ q) behind t (evict_rounds (length q) limit x))
            (sym (round_idle o (q ++ behind) t e (same ∙ h)))
            (drops_idle b limit o q behind t _ h e lt r)
    ]

rounds : (b : Bytes → Bool) (limit : ℕ) (q : List Bytes) → Distinct q → Rounds b limit q
unfolding evict_rounds
rounds b limit [] d behind t e a = stops b limit [] behind t e (inr refl)
rounds b limit (o ∷ q) d behind t e a = elim (Bool-cases (ltb limit (length t.order))) [
  | inr n ↦
      subst (Trimmed b limit (o ∷ q) behind t) (sym (if_false n _ t))
        (stops b limit (o ∷ q) behind t e (inl (ground arith)))
  | inl n ↦
      let lt : limit < length t.order = ground arith in
      subst (Trimmed b limit (o ∷ q) behind t) (sym (if_true n _ t))
        (rounds_over b limit o q behind t e a lt d.0 (rounds b limit q d.1))
]

-- Eviction from a table whose keys are in order stops as soon as the table fits or the loop has
-- passed every key once. It drops the idle conversations among the first keys, in the order of
-- their last use, none that is busy and no more than needed, and puts the busy ones that it
-- passed behind the others. No session changes.
pub evict-Trimmed :
    (t : Table)
    → Distinct t.order
    → Trimmed (busy t) (max_conversations t.max) t.order [] t (evict t)
unfolding evict
evict-Trimmed t d =
    rounds (busy t) (max_conversations t.max) t.order d [] t (sym (append-nil t.order))
      (λ k m. refl)
