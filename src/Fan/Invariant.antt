-- ===== src/Fan/Invariant.antt =====
-- fan.go: what holds of each state of a fan-out.
use golm.Common.{
  ℕ, ◌≤◌, ◌<◌, ◌≡◌, refl, sym, ap, subst, ◌∙◌, ◌⊎◌, inl, inr, Bool, true, false, Bool-cases, none,
  some, List, [], ◌∷◌, ◌++◌, Bytes, ltb, if◌then◌else◌, if_true, if_false, ◌==◌, length,
  length-append, get_elem?, get_elem?-ge, arith,
}
use golm.Usage.{Usage}
use golm.Fan.{
  FanResult, Ran, new_result, settled, given_up, State, write_result, started, skipped, finished,
  Step, starts, gives_up, finishes, cancels, Reach, here, then_step, begun,
}

abbrev pub runs : ℕ → List ℕ → Bool
runs i [] = false
runs i (j ∷ l) = if j == i then true else runs i l

abbrev pub Once : List ℕ → Type 0
Once [] = Unit {0}
Once (j ∷ l) = (runs j l ≡ false) × Once l

runs-middle :
    (i j : ℕ) (before after : List ℕ)
    → runs i (before ++ j ∷ after) ≡ (if j == i then true else runs i (before ++ after))
runs-middle i j [] after = refl
runs-middle i j (k ∷ before) after = ground (arith, runs-middle i j before after)

Once-middle :
    (j : ℕ) (before after : List ℕ)
    → Once (before ++ j ∷ after)
    → (runs j (before ++ after) ≡ false) × Once (before ++ after)
Once-middle j [] after o = o
Once-middle j (k ∷ before) after o =
    let ih = Once-middle j before after o.1 in
    let m = runs-middle k j before after in (ground arith, (ground arith, ih.1))

other_index : (i j : ℕ) (l : List ℕ) → runs i l ≡ false → runs j l ≡ true → (i == j) ≡ false
other_index i j l n m = elim (Bool-cases (i == j)) [
  | inl e ↦
      let q : i ≡ j = ground arith in
      let w : runs j l ≡ false = subst (λ k. runs k l ≡ false) q n in cc
  | inr e ↦ e
]

module _ (tasks : List Bytes) (par : ℕ) (run : ℕ → Ran) where
  -- The result of a task that has ended: what its own run returned, or that it was given up.
  abbrev pub Ended : State → ℕ → Bytes → Type 0
  Ended s i task =
      (s.out i ≡ settled i (run i) (new_result i task))
      ⊎ ((s.canceled ≡ true) × (s.out i ≡ given_up (new_result i task)))

  pub record Inv (s : State) : Type 0 where
    pub bound : length s.running ≤ par
    pub below : (j : ℕ) → runs j s.running ≡ true → j < s.next
    pub once : Once s.running
    pub limit : s.next ≤ length tasks
    pub active :
        (i : ℕ) (task : Bytes)
        → get_elem? tasks i ≡ some task
        → runs i s.running ≡ true
        → s.out i ≡ new_result i task
    pub ended :
        (i : ℕ) (task : Bytes)
        → get_elem? tasks i ≡ some task
        → i < s.next
        → runs i s.running ≡ false
        → Ended s i task

  pub begun-Inv : (total : Usage) → Inv (begun total)
  unfolding begun
  begun-Inv total = record {
    bound = omega arith;
    below = λ j m. cc;
    once = tt;
    limit = omega arith;
    active = λ i task e m. cc;
    ended = λ i task e l n. absurd (omega arith);
  }

  written : (h : ℕ → FanResult) (i : ℕ) (r : FanResult) → write_result h i r i ≡ r
  unfolding write_result
  written h i r = ground arith

  unwritten :
      (h : ℕ → FanResult) (i j : ℕ) (r : FanResult) → (i == j) ≡ false → write_result h i r j ≡ h j
  unfolding write_result
  unwritten h i j r n = rw n refl

  -- A task's state after the step that takes index `n`, when it is another task's.
  other_ended :
      (s : State) (r : FanResult) (i n : ℕ) (task : Bytes)
      → (n == i) ≡ false
      → Ended s i task
      → (write_result s.out n r i ≡ settled i (run i) (new_result i task))
        ⊎ ((s.canceled ≡ true) × (write_result s.out n r i ≡ given_up (new_result i task)))
  other_ended s r i n task d (inl e) = inl (unwritten s.out n i r d ∙ e)
  other_ended s r i n task d (inr e) = inr (e.0, unwritten s.out n i r d ∙ e.1)

  same_task :
      (s : State) (a b : Bytes) (i : ℕ)
      → (s.next == i) ≡ true
      → get_elem? tasks s.next ≡ some a
      → get_elem? tasks i ≡ some b
      → new_result s.next a ≡ new_result i b
  same_task s a b i d e f =
      let q : s.next ≡ i = ground arith in
      let w : get_elem? tasks i ≡ some a = subst (λ k. get_elem? tasks k ≡ some a) q e in
      let v : a ≡ b = cc in ap (λ k. new_result k a) q ∙ ap (new_result i) v

  pub in_range : (i : ℕ) (task : Bytes) → get_elem? tasks i ≡ some task → i < length tasks
  in_range i task e = elim (Bool-cases (ltb i (length tasks))) [
    | inl l ↦ ground arith
    | inr n ↦ let w : get_elem? tasks i ≡ none = get_elem?-ge tasks i (ground arith) in cc
  ]

  started-Inv :
      (s : State) (task : Bytes)
      → get_elem? tasks s.next ≡ some task
      → length s.running < par
      → Inv s
      → Inv (started task s)
  unfolding started
  started-Inv s task e l v =
      let r = new_result s.next task in
      record {
        bound = omega (arith, l);
        below = λ j m. ground (arith, v.below j);
        once = (
          elim (Bool-cases (runs s.next s.running)) [
            | inl m ↦ absurd (omega (arith, v.below s.next m))
            | inr m ↦ m
          ],
          v.once,
        );
        limit = omega (arith, in_range s.next task e);
        active = λ i t f m. elim (Bool-cases (s.next == i)) [
          | inl d ↦
              ap (λ k. write_result s.out s.next r k) (sym (ground arith))
              ∙ (written s.out s.next r ∙ same_task s task t i d e f)
          | inr d ↦ unwritten s.out s.next i r d ∙ v.active i t f (rw d at m)
        ];
        ended = λ i t f lt n.
            let d : (s.next == i) ≡ false = ground arith in
            other_ended s r i s.next t d (v.ended i t f (ground arith) (rw d at n));
      }

  skipped-Inv :
      (s : State) (task : Bytes)
      → get_elem? tasks s.next ≡ some task
      → s.canceled ≡ true
      → Inv s
      → Inv (skipped task s)
  unfolding skipped
  skipped-Inv s task e c v =
      let r = given_up (new_result s.next task) in
      record {
        bound = v.bound;
        below = λ j m. omega (arith, v.below j m);
        once = v.once;
        limit = omega (arith, in_range s.next task e);
        active = λ i t f m.
            let l = v.below i m in unwritten s.out s.next i r (ground arith) ∙ v.active i t f m;
        ended = λ i t f lt n. elim (Bool-cases (s.next == i)) [
          | inl d ↦ inr (
            c,
            ap (λ k. write_result s.out s.next r k) (sym (ground arith))
                ∙ (written s.out s.next r ∙ ap given_up (same_task s task t i d e f)),
          )
          | inr d ↦ other_ended s r i s.next t d (v.ended i t f (ground arith) n)
        ];
      }

  finished-Inv :
      (s : State) (before : List ℕ) (i : ℕ) (after : List ℕ)
      → s.running ≡ before ++ i ∷ after
      → Inv s
      → Inv (finished i (run i) (before ++ after) s)
  unfolding finished
  finished-Inv s before i after e v =
      let r = settled i (run i) (s.out i) in
      let o = Once-middle i before after (subst Once e v.once) in
      let m : (j : ℕ) → runs j s.running ≡ (if i == j then true else runs j (before ++ after)) =
        λ j. ap (runs j) e ∙ runs-middle j i before after in
      record {
        bound = omega (
          arith,
          v.bound,
          ap length e,
          length-append before (i ∷ after),
          length-append before after,
        );
        below = λ j k. v.below j (m j ∙ ground arith);
        once = o.1;
        limit = v.limit;
        active = λ j t f k.
            let d : (i == j) ≡ false = other_index i j (before ++ after) o.0 k in
            unwritten s.out i j r d ∙ v.active j t f (m j ∙ (if_false d _ _ ∙ k));
        ended = λ j t f l n. elim (Bool-cases (i == j)) [
          | inr d ↦ other_ended s r j i t d (v.ended j t f l (m j ∙ (if_false d _ _ ∙ n)))
          | inl d ↦
              let q : i ≡ j = ground arith in
              let a : s.out j ≡ new_result j t = v.active j t f (m j ∙ if_true d _ _) in
              inl (
                ap (λ k. write_result s.out i r k) (sym q)
                ∙ (written s.out i r
                    ∙ (ap (λ k. settled k (run k) (s.out k)) q ∙ ap (settled j (run j)) a)))
        ];
      }

  ended_still :
      (s : State) (i : ℕ) (task : Bytes)
      → Ended s i task
      → Ended (record s { canceled = true }) i task
  ended_still s i task (inl e) = inl e
  ended_still s i task (inr e) = inr (refl, e.1)

  Step-Inv : {s s' : State} → Step tasks par run s s' → Inv s → Inv s'
  Step-Inv (starts s task e l) v = started-Inv s task e l v
  Step-Inv (gives_up s task e c) v = skipped-Inv s task e c v
  Step-Inv (finishes s before i after e) v = finished-Inv s before i after e v
  Step-Inv (cancels s) v = record {
    bound = v.bound;
    below = v.below;
    once = v.once;
    limit = v.limit;
    active = v.active;
    ended = λ i t f l n. ended_still s i t (v.ended i t f l n);
  }

  pub Reach-Inv : {s s' : State} → Reach tasks par run s s' → Inv s → Inv s'
  Reach-Inv here v = v
  Reach-Inv (then_step r st) v = Step-Inv st (Reach-Inv r v)
