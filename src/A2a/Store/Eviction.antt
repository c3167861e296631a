-- ===== src/A2a/Store/Eviction.antt =====
-- a2a/taskstore.go: what `evictLocked` takes out of the store, and what it never does.
use golm.Common.{
  ℕ, ◌+◌, ◌≤◌, ◌≡◌, refl, sym, ap, subst, ◌∙◌, inl, inr, ◌⊎◌, Bool, true, false, ◌&&◌, Bool-cases,
  Option, none, some, List, [], ◌∷◌, map, arith, ◌==◌, leb, ltb, length, if◌then◌else◌,
}
use golm.A2a.{Task}
use golm.A2a.Store.{
  Clockwork, Store, Shelf, mem, remove, max_tasks_of, max_age_of, terminal_time, deleted, evictable,
  too_old, expire_one, expire, candidates, drop_oldest, bring_down, evict,
}

mem-remove : (i j : ℕ) (l : List ℕ) → mem i (remove j l) ≡ (if j == i then false else mem i l)
unfolding mem remove
mem-remove i j [] = ground arith
mem-remove i j (k ∷ l) = ground (arith, mem-remove i j l)

with_head :
    (may : ℕ → Bool) (i j : ℕ) (m x : Bool)
    → may i ≡ true
    → x ≡ (m && may j)
    → (if i == j then true else x) ≡ ((if i == j then true else m) && may j)
with_head may i j m x e q = elim (Bool-cases (i == j)) [
  | inl s ↦
      let r : i ≡ j = ground arith in
      let t : may j ≡ true = subst (λ k. may k ≡ true) r e in rw s (sym t)
  | inr s ↦ rw s q
]

without_head :
    (may : ℕ → Bool) (i j : ℕ) (m : Bool)
    → may i ≡ false
    → (m && may j) ≡ ((if i == j then true else m) && may j)
without_head may i j m e = elim (Bool-cases (i == j)) [
  | inl s ↦
      let r : i ≡ j = ground arith in
      let t : may j ≡ false = subst (λ k. may k ≡ false) r e in ground arith
  | inr s ↦ rw s refl
]

abbrev ids : List (ℕ × ℕ) → List ℕ
ids = map (λ (x : ℕ × ℕ). x.0)

module _ (cw : Clockwork) (h : ℕ → Task) (busy : List ℕ) where
  -- Some tasks that may go are gone.
  record Shrinks (sh sh' : Shelf) : Type 0 where
    kept : (j : ℕ) → evictable cw h busy j ≡ false → mem j sh'.tasks ≡ mem j sh.tasks
    old : (j : ℕ) → mem j sh'.tasks ≡ true → mem j sh.tasks ≡ true

  Shrinks-refl : (sh : Shelf) → Shrinks sh sh
  Shrinks-refl sh = record { kept = λ j _. refl; old = λ j m. m }

  Shrinks-trans : (a b c : Shelf) → Shrinks a b → Shrinks b c → Shrinks a c
  Shrinks-trans a b c p q = record {
    kept = λ j e. q.kept j e ∙ p.kept j e;
    old = λ j m. p.old j (q.old j m);
  }

  Shrinks-alike : (a b : Shelf) → b.tasks ≡ a.tasks → Shrinks a b
  Shrinks-alike a b e = record {
    kept = λ j _. ap (mem j) e;
    old = λ j m. subst (λ l. mem j l ≡ true) e m;
  }

  deleted-Shrinks :
      (i : ℕ) (sh : Shelf) → evictable cw h busy i ≡ true → Shrinks sh (deleted cw i sh)
  unfolding deleted
  deleted-Shrinks i sh e = record {
    kept = λ j f. kept j f (Bool-cases (i == j));
    old = λ j m. ground (arith, mem-remove j i sh.tasks);
  }
    where
      kept :
          (j : ℕ)
          → evictable cw h busy j ≡ false
          → (i == j ≡ true) ⊎ (i == j ≡ false)
          → mem j (remove i sh.tasks) ≡ mem j sh.tasks
      kept j f (inl q) = let r : i ≡ j = ground arith in let s = ap (evictable cw h busy) r in cc
      kept j f (inr q) = mem-remove j i sh.tasks ∙ (rw q refl)

  tasks-terminal_time : (i : ℕ) (sh : Shelf) → (terminal_time cw h i sh).1.tasks ≡ sh.tasks
  unfolding terminal_time
  tasks-terminal_time i sh = ground arith

  too_old-Shrinks :
      (now age i : ℕ) (t : Option ℕ) (sh : Shelf)
      → evictable cw h busy i ≡ true
      → Shrinks sh (too_old cw now age i (t, sh))
  unfolding too_old
  too_old-Shrinks now age i none sh e = Shrinks-refl sh
  too_old-Shrinks now age i (some t) sh e = elim (Bool-cases (ltb (t + age) now)) [
    | inl b ↦ rw b (deleted-Shrinks i sh e)
    | inr b ↦ rw b (Shrinks-refl sh)
  ]

  expire_one-Shrinks : (now age i : ℕ) (sh : Shelf) → Shrinks sh (expire_one cw h busy now age i sh)
  unfolding expire_one
  expire_one-Shrinks now age i sh = elim (Bool-cases (evictable cw h busy i)) [
    | inl e ↦
        let sh' = (terminal_time cw h i sh).1 in
        rw e (
          Shrinks-trans sh sh' _ (Shrinks-alike sh sh' (tasks-terminal_time i sh))
            (too_old-Shrinks now age i (terminal_time cw h i sh).0 sh' e))
    | inr e ↦ rw e (Shrinks-refl sh)
  ]

  expire-Shrinks :
      (now age : ℕ) (is : List ℕ) (sh : Shelf) → Shrinks sh (expire cw h busy now age is sh)
  unfolding expire
  expire-Shrinks now age [] sh = Shrinks-refl sh
  expire-Shrinks now age (i ∷ is) sh =
      let sh' = expire_one cw h busy now age i sh in
      Shrinks-trans sh sh' _ (expire_one-Shrinks now age i sh) (expire-Shrinks now age is sh')

  -- The candidates are the tasks of the list that may go.
  record Found (is : List ℕ) (sh : Shelf) (found : List (ℕ × ℕ)) (sh' : Shelf) : Type 0 where
    exact : (j : ℕ) → mem j (ids found) ≡ (mem j is && evictable cw h busy j)
    same : sh'.tasks ≡ sh.tasks

  candidates-Found :
      (is : List ℕ) (sh : Shelf)
      → Found is sh (candidates cw h busy is sh).0 (candidates cw h busy is sh).1
  unfolding candidates mem
  candidates-Found [] sh = record { exact = λ j. refl; same = refl }
  candidates-Found (i ∷ is) sh = elim (Bool-cases (evictable cw h busy i)) [
    | inl e ↦
        let f = candidates-Found is (terminal_time cw h i sh).1 in
        rw e (record {
          exact = λ j. with_head (evictable cw h busy) i j (mem j is) _ e (f.exact j);
          same = f.same ∙ tasks-terminal_time i sh;
        })
    | inr e ↦
        let f = candidates-Found is sh in
        rw e (record {
          exact = λ j. f.exact j ∙ without_head (evictable cw h busy) i j (mem j is) e;
          same = f.same;
        })
  ]

  -- The list holds only tasks that may go.
  abbrev AllMay : List (ℕ × ℕ) → Type 0
  AllMay l = (j : ℕ) → mem j (ids l) ≡ true → evictable cw h busy j ≡ true

  drop_oldest-Shrinks :
      (max : ℕ) (l : List (ℕ × ℕ)) (sh : Shelf) → AllMay l → Shrinks sh (drop_oldest cw max l sh)
  unfolding drop_oldest
  drop_oldest-Shrinks max [] sh a = Shrinks-refl sh
  drop_oldest-Shrinks max ((i, t) ∷ l) sh a = elim (Bool-cases (leb (length sh.tasks) max)) [
    | inl b ↦ rw b (Shrinks-refl sh)
    | inr b ↦ rw b (
        Shrinks-trans sh (deleted cw i sh) _
          (deleted-Shrinks i sh (a i (unfold mem in ground arith)))
          (drop_oldest-Shrinks max l (deleted cw i sh) (λ j m. a j (unfold mem in ground arith))))
  ]

  after_one :
      (max i : ℕ) (l : List (ℕ × ℕ)) (sh : Shelf)
      → Shrinks (deleted cw i sh) (drop_oldest cw max l (deleted cw i sh))
      → (length (drop_oldest cw max l (deleted cw i sh)).tasks ≤ max)
        ⊎ ((j : ℕ)
            → mem j (ids l) ≡ true
            → mem j (drop_oldest cw max l (deleted cw i sh)).tasks ≡ false)
      → (length (drop_oldest cw max l (deleted cw i sh)).tasks ≤ max)
        ⊎ ((j : ℕ)
            → (if i == j then true else mem j (ids l)) ≡ true
            → mem j (drop_oldest cw max l (deleted cw i sh)).tasks ≡ false)
  unfolding deleted
  after_one max i l sh s (inl p) = inl p
  after_one max i l sh s (inr g) = inr (λ j m. elim (Bool-cases (i == j)) [
    | inl q ↦ elim (Bool-cases (mem j (drop_oldest cw max l (deleted cw i sh)).tasks)) [
      | inl y ↦ let z = s.old j y in let r = mem-remove j i sh.tasks in ground arith
      | inr n ↦ n
    ]
    | inr q ↦ g j (rw q at m)
  ])

  -- Either what is left fits, or all of the list is gone.
  drop_oldest_done :
      (max : ℕ) (l : List (ℕ × ℕ)) (sh : Shelf)
      → AllMay l
      → (length (drop_oldest cw max l sh).tasks ≤ max)
        ⊎ ((j : ℕ) → mem j (ids l) ≡ true → mem j (drop_oldest cw max l sh).tasks ≡ false)
  unfolding drop_oldest mem
  drop_oldest_done max [] sh a = inr (λ j m. cc)
  drop_oldest_done max ((i, t) ∷ l) sh a = elim (Bool-cases (leb (length sh.tasks) max)) [
    | inl b ↦ inl (rw b (ground arith))
    | inr b ↦
        let a' : AllMay l = λ j m. a j (ground arith) in
        rw b (
          after_one max i l sh (drop_oldest-Shrinks max l (deleted cw i sh) a')
            (drop_oldest_done max l (deleted cw i sh) a'))
  ]

  -- What is left of the tasks: it fits, or all of it is busy or still under way.
  abbrev Fits : ℕ → Shelf → Type 0
  Fits max sh =
      (length sh.tasks ≤ max) ⊎ ((j : ℕ) → mem j sh.tasks ≡ true → evictable cw h busy j ≡ false)

  module _ (sorted : (l : List (ℕ × ℕ)) (j : ℕ) → mem j (ids (cw.sort l)) ≡ mem j (ids l)) where
    bring_down_done :
        (max : ℕ) (sh : Shelf)
        → Shrinks sh (bring_down cw h busy max sh) × Fits max (bring_down cw h busy max sh)
    unfolding bring_down
    bring_down_done max sh = elim (Bool-cases (leb (length sh.tasks) max)) [
      | inl b ↦ rw b (Shrinks-refl sh, inl (ground arith))
      | inr b ↦
          let f = candidates-Found sh.tasks sh in
          let found = (candidates cw h busy sh.tasks sh).0 in
          let sh' = (candidates cw h busy sh.tasks sh).1 in
          let a : AllMay (cw.sort found) =
            λ j m. let q = sorted found j in let r = f.exact j in ground arith in
          let s = drop_oldest-Shrinks max (cw.sort found) sh' a in
          let first = Shrinks-alike sh sh' f.same in
          rw b (
            Shrinks-trans sh sh' _ first s,
            elim (drop_oldest_done max (cw.sort found) sh' a) [
              | inl p ↦ inl p
              | inr g ↦ inr (λ j m. elim (Bool-cases (evictable cw h busy j)) [
                | inl e ↦
                    let q = sorted found j in
                    let r = f.exact j in
                    let o = first.old j (s.old j m) in let z = g j (ground arith) in cc
                | inr e ↦ e
              ])
            ],
          )
    ]

-- What eviction does to the tasks of a store.
pub record Evicted (cw : Clockwork) (s t : Store) : Type 0 where
  pub kept :
      (j : ℕ)
      → evictable cw s.objects s.in_flight j ≡ false
      → mem j t.shelf.tasks ≡ mem j s.shelf.tasks
  pub old : (j : ℕ) → mem j t.shelf.tasks ≡ true → mem j s.shelf.tasks ≡ true
  pub bounded :
      (length t.shelf.tasks ≤ max_tasks_of s.max_tasks)
      ⊎ ((j : ℕ) → mem j t.shelf.tasks ≡ true → evictable cw s.objects s.in_flight j ≡ false)

-- Eviction never takes out a task that a handler runs or that has not come to its end, adds none,
-- and leaves at most as many tasks as may be kept, or else only such tasks. The sort returns the
-- candidates that it is given.
pub evict-Evicted :
    (cw : Clockwork) (sorted : (l : List (ℕ × ℕ)) (j : ℕ) → mem j (ids (cw.sort l)) ≡ mem j (ids l))
    (now : ℕ) (s : Store)
    → Evicted cw s (evict cw now s)
unfolding evict
evict-Evicted cw sorted now s =
    let sh = expire cw s.objects s.in_flight now (max_age_of s.max_age) s.shelf.tasks s.shelf in
    let a =
      expire-Shrinks cw s.objects s.in_flight now (max_age_of s.max_age) s.shelf.tasks s.shelf in
    let (b, f) = bring_down_done cw s.objects s.in_flight sorted (max_tasks_of s.max_tasks) sh in
    let c = Shrinks-trans cw s.objects s.in_flight s.shelf sh _ a b in
    record { kept = c.kept; old = c.old; bounded = f }
