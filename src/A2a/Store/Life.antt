-- ===== src/A2a/Store/Life.antt =====
-- a2a/taskstore.go: the life of one task among the others.
use golm.Common.{
  ℕ, suc, ◌+◌, ◌≤◌, ◌<◌, ◌≡◌, ◌≢◌, refl, ap, ◌∙◌, inl, inr, true, false, Bool-cases, List, [], ◌∷◌,
  arith, add_int, int_mod, length, Bytes,
}
use golm.A2a.{Task, Message, Part, is_terminal}
use golm.A2a.Store.{
  Clockwork, Store, Op, starts, settles, ends, adds_broker, finishes_async, cancels_task, Outcome,
  gives, errs, mem, write_task, evict, start, complete, fail, end, finish_async, add_broker, cancel,
  finish, apply, apply_all, send,
}

write_task_other : (h : ℕ → Task) (i j : ℕ) (t : Task) → i ≢ j → write_task h i t j ≡ h j
unfolding write_task
write_task_other h i j t n = ground arith

write_task_same : (h : ℕ → Task) (i : ℕ) (t : Task) → write_task h i t i ≡ t
unfolding write_task
write_task_same h i t = ground arith

-- A task that was started and has come to its end.
pub record IsOver (s : Store) (i : ℕ) : Type 0 where
  pub started : i ≤ s.seq
  pub over : is_terminal (s.objects i).status.state ≡ true

-- What a step may do to a task that is over: nothing.
record Leaves (s t : Store) (i : ℕ) : Type 0 where
  same : t.objects i ≡ s.objects i
  later : s.seq ≤ t.seq
  within : t.seq ≤ suc s.seq

module _ (cw : Clockwork) where
  start-Leaves :
      (msg : Message) (now i : ℕ) (s : Store)
      → suc s.seq < int_mod
      → i ≤ s.seq
      → Leaves s (start cw msg now s) i
  unfolding start evict
  start-Leaves msg now i s b l = record {
    same = write_task_other s.objects (add_int s.seq 1) i _ (λ e. omega (arith, e));
    later = omega arith;
    within = omega arith;
  }

  written-Leaves :
      (i j : ℕ) (t : Task) (s : Store)
      → is_terminal (s.objects i).status.state ≡ true
      → is_terminal (s.objects j).status.state ≡ false
      → write_task s.objects j t i ≡ s.objects i
  written-Leaves i j t s o p =
      write_task_other s.objects j i t
        (λ e. let q = ap (λ k. is_terminal (s.objects k).status.state) e in cc)

  stays : (s : Store) (i : ℕ) → Leaves s s i
  stays s i = record { same = refl; later = omega arith; within = omega arith }

  complete-Leaves :
      (parts : List Part) (i j now : ℕ) (s : Store)
      → is_terminal (s.objects i).status.state ≡ true
      → Leaves s (complete cw parts j now s) i
  unfolding complete
  complete-Leaves parts i j now s o = elim (Bool-cases (is_terminal (s.objects j).status.state)) [
    | inl e ↦ rw e (stays s i)
    | inr e ↦
        rw e
          (record { same = written-Leaves i j _ s o e; later = omega arith; within = omega arith })
  ]

  fail-Leaves :
      (why : Bytes) (i j now : ℕ) (s : Store)
      → is_terminal (s.objects i).status.state ≡ true
      → Leaves s (fail cw why j now s) i
  unfolding fail
  fail-Leaves why i j now s o = elim (Bool-cases (is_terminal (s.objects j).status.state)) [
    | inl e ↦ rw e (stays s i)
    | inr e ↦
        rw e
          (record { same = written-Leaves i j _ s o e; later = omega arith; within = omega arith })
  ]

  finish-Leaves :
      (o : Outcome) (i j now : ℕ) (s : Store)
      → is_terminal (s.objects i).status.state ≡ true
      → Leaves s (finish cw j o now s) i
  unfolding finish
  finish-Leaves (gives parts) i j now s h = complete-Leaves parts i j now s h
  finish-Leaves (errs why) i j now s h = fail-Leaves why i j now s h

  cancel-Leaves :
      (i j now : ℕ) (s : Store)
      → is_terminal (s.objects i).status.state ≡ true
      → Leaves s (cancel cw j now s).0 i
  unfolding cancel
  cancel-Leaves i j now s o = elim (Bool-cases (mem j s.shelf.tasks)) [
    | inl m ↦ elim (Bool-cases (is_terminal (s.objects j).status.state)) [
      | inl e ↦ rw m (rw e (stays s i))
      | inr e ↦ rw m (
          rw e (record {
            same = written-Leaves i j _ s o e;
            later = omega arith;
            within = omega arith;
          }))
    ]
    | inr m ↦ rw m (stays s i)
  ]

  apply-Leaves :
      (o : Op) (s : Store) (i : ℕ) → suc s.seq < int_mod → IsOver s i → Leaves s (apply cw o s) i
  unfolding apply end finish_async add_broker
  apply-Leaves (starts msg now) s i b h = start-Leaves msg now i s b h.started
  apply-Leaves (settles j o now) s i b h = finish-Leaves o i j now s h.over
  apply-Leaves (ends j) s i b h = record { same = refl; later = omega arith; within = omega arith }
  apply-Leaves (adds_broker j) s i b h = record {
    same = refl;
    later = omega arith;
    within = omega arith;
  }
  apply-Leaves (finishes_async j) s i b h = record {
    same = refl;
    later = omega arith;
    within = omega arith;
  }
  apply-Leaves (cancels_task j now) s i b h = cancel-Leaves i j now s h.over

  Leaves-IsOver : (s t : Store) (i : ℕ) → IsOver s i → Leaves s t i → IsOver t i
  Leaves-IsOver s t i h l = record {
    started = omega (arith, h.started, l.later);
    over = rw (l.same) (h.over);
  }

  -- A task that is over stays as it is: no completion, failure, cancellation or eviction that comes
  -- later changes it, nor does the start of fewer than 2^64 other tasks.
  pub apply_all-IsOver :
      (os : List Op) (s : Store) (i : ℕ)
      → s.seq + length os < int_mod
      → IsOver s i
      → (apply_all cw os s).objects i ≡ s.objects i
  unfolding apply_all
  apply_all-IsOver [] s i b h = refl
  apply_all-IsOver (o ∷ os) s i b h =
      let l = apply-Leaves o s i (omega arith) h in
      apply_all-IsOver os (apply cw o s) i (omega (arith, l.within))
        (Leaves-IsOver s (apply cw o s) i h l)
      ∙ l.same

  seq-finish : (o : Outcome) (i now : ℕ) (s : Store) → (finish cw i o now s).seq ≡ s.seq
  unfolding finish complete fail
  seq-finish (gives parts) i now s = ground arith
  seq-finish (errs why) i now s = ground arith

  finish_over :
      (o : Outcome) (i now : ℕ) (s : Store)
      → is_terminal ((finish cw i o now s).objects i).status.state ≡ true
  unfolding finish complete fail is_terminal
  finish_over (gives parts) i now s = elim (Bool-cases (is_terminal (s.objects i).status.state)) [
    | inl e ↦ rw e e
    | inr e ↦ rw e (ap (λ (t : Task). is_terminal t.status.state) (write_task_same s.objects i _))
  ]
  finish_over (errs why) i now s = elim (Bool-cases (is_terminal (s.objects i).status.state)) [
    | inl e ↦ rw e e
    | inr e ↦ rw e (ap (λ (t : Task). is_terminal t.status.state) (write_task_same s.objects i _))
  ]

  -- The count of tasks only grows, by one at most.
  record Counts (s t : Store) (n : ℕ) : Type 0 where
    later : s.seq ≤ t.seq
    within : t.seq ≤ s.seq + n

  apply-Counts : (o : Op) (s : Store) → suc s.seq < int_mod → Counts s (apply cw o s) 1
  unfolding apply start evict end finish_async add_broker cancel
  apply-Counts (starts msg now) s b = omega arith
  apply-Counts (settles j o now) s b = omega (arith, seq-finish o j now s)
  apply-Counts (ends j) s b = omega arith
  apply-Counts (adds_broker j) s b = omega arith
  apply-Counts (finishes_async j) s b = omega arith
  apply-Counts (cancels_task j now) s b = ground arith

  apply_all-Counts :
      (os : List Op) (s : Store)
      → s.seq + length os < int_mod
      → Counts s (apply_all cw os s) (length os)
  unfolding apply_all
  apply_all-Counts [] s b = omega arith
  apply_all-Counts (o ∷ os) s b =
      let c = apply-Counts o s (omega arith) in
      let d = apply_all-Counts os (apply cw o s) (omega (arith, c.within)) in
      omega (arith, c.later, c.within, d.later, d.within)

  -- What `Send` returns: `s'` is the store when the handler is done.
  pub record Sent (s' : Store) (i : ℕ) (t : Task) : Type 0 where
    pub over : is_terminal t.status.state ≡ true
    pub first_wins : is_terminal (s'.objects i).status.state ≡ true → t ≡ s'.objects i

  -- `Send` returns a task that has come to its end, whatever others do meanwhile, and if they have
  -- ended it, as they left it. The task stays as it was returned, whatever follows.
  pub send-Sent :
      (msg : Message) (now : ℕ) (others : List Op) (o : Outcome) (later : ℕ) (s : Store)
      (after : List Op)
      → s.seq + 1 + length others + length after < int_mod
      → Sent
          (apply_all cw others (start cw msg now s))
          (s.seq + 1)
          (send cw msg now others o later s).0
        × ((apply_all cw after (send cw msg now others o later s).1).objects (s.seq + 1)
            ≡ (send cw msg now others o later s).0)
  unfolding send end
  send-Sent msg now others o later s after b =
      let s₁ = start cw msg now s in
      let q : s₁.seq ≡ s.seq + 1 = unfold start evict in omega arith in
      let c = apply_all-Counts others s₁ (omega (arith, q)) in
      let s₂ = apply_all cw others s₁ in
      let id : add_int s.seq 1 ≡ s.seq + 1 = omega arith in
      let n = seq-finish o (s.seq + 1) later s₂ in
      let over = finish_over o (s.seq + 1) later s₂ in
      rw id (
        record {
          over = over;
          first_wins = λ h. (finish-Leaves o (s.seq + 1) (s.seq + 1) later s₂ h).same;
        },
        apply_all-IsOver after (end cw (s.seq + 1) (finish cw (s.seq + 1) o later s₂)) (s.seq + 1)
            (omega (arith, n, c.within, q))
            (record { started = omega (arith, n, c.later, q); over = over }),
      )
