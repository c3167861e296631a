-- ===== src/Loop/Whole.antt =====
-- agent.go: a run from its beginning to its end.
use golm.Common.{
  ℕ, zero, suc, ◌+◌, ◌<◌, ◌≡◌, refl, sym, ap, subst, ◌∙◌, inl, inr, true, false, Bool-cases, Option,
  none, some, Option-cases, List, [], ◌∷◌, ◌++◌, append_assoc, append-nil, arith, ℤ, negsuc,
  le_zero, Bytes, length, take, take-append, length-append, pos, int_mod, ◌==◌,
}
use golm.Budget.{Budget}
use golm.Message.{Message}
use golm.History.{Call, panic, returns}
use golm.Session.{Session, append, rollback, acquire, release}
use golm.Tools.{Printer}
use golm.Agent.{Agent, Env, Response, Error, max_steps_of}
use golm.Loop.{
  Run, rounds, rolled_back, with_error, drive, acquired, begin, released, begun, fresh, run_with,
  finish, finish_with, trim_after, emit, appended,
}
use golm.Loop.Paired.{Paired, is_tool, IsPlain, Paired-append}
use golm.Loop.Rounds.{steps_seen, Grown}
use golm.Loop.Transcript.{rounds-Grown}
use golm.Loop.Finishing.{KeepsSome, finish-Ends}

take_all :
    (h : List Message) (m : Message) (k : List Message) → take (length h) ((h ++ m ∷ []) ++ k) ≡ h
take_all h m k = ap (take (length h)) (append_assoc h (m ∷ []) k) ∙ take-append h (m ∷ k)

module _ {W : Type 0} (p : Printer) (env : Env W) (a : Agent) (s : Session) (msg : Message)
    (paired : Paired s.history) (plain : IsPlain msg) (bounded : s.rev < int_mod) where
  -- The run has begun: it holds the session, and the input is the last message.
  record Begun (r : Run W) : Type 0 where
    history_eq : r.session.history ≡ s.history ++ msg ∷ []
    rev_eq : r.session.rev ≡ s.rev
    no_steps : steps_seen r.events ≡ 0

  -- A run that is refused at the start leaves the session alone.
  abbrev Begins : Run W × Option Error → Type 0
  Begins (r, some e) = r.session ≡ s
  Begins (r, none) = Begun r

  acquire_busy : s.running ≡ true → acquire s ≡ (s, false)
  unfolding acquire
  acquire_busy busy = ground arith

  acquire_idle : s.running ≡ false → acquire s ≡ (record s { running = true }, true)
  unfolding acquire
  acquire_idle idle = ground arith

  begin-Begins : (b : Option Budget) (w : W) → Begins (begin p env a msg (fresh p env a s b w))
  unfolding begin fresh acquired emit appended append
  begin-Begins b w = elim (Bool-cases a.has_provider) [
    | inr n ↦ rw (n, begin) refl
    | inl y ↦ elim (Option-cases (env.ctx_err w).0) [
      | inr (e, q) ↦ rw (y, begin) (rw (q, begin) refl)
      | inl q ↦ elim (Bool-cases s.running) [
        | inl busy ↦ rw (y, begin) (rw (q, begin) (rw (acquire_busy busy) refl))
        | inr idle ↦
            rw (y, begin)
              (rw (q, begin)
                (rw (acquire_idle idle)
                  (record { history_eq = refl; rev_eq = refl; no_steps = refl })))
      ]
    ]
  ]

  abbrev base : List Message
  base = s.history ++ msg ∷ []

  Begun-Grown : (r : Run W) → Begun r → Grown base r
  Begun-Grown r g = record {
    added = [];
    history_eq = g.history_eq ∙ sym (append-nil base);
    answered =
        subst Paired (sym (append-nil base)) (Paired-append s.history (msg ∷ []) paired plain);
    quiet = λ z. refl;
    rev_lt = omega (arith, g.rev_eq);
  }

  -- After the rollback: pairs still, and what was there before if no response came in.
  record Settled (e : Option Error) (r : Run W) : Type 0 where
    pairs : Paired r.session.history
    rev_lt : r.session.rev < int_mod
    restored : (x : Error) → e ≡ some x → steps_seen r.events ≡ 0 → r.session.history ≡ s.history

  rollback-Settled :
      (r : Run W) (x : Error) (now : ℕ)
      → Grown base r
      → Settled (some x) (record r { session = rollback (pos (length s.history)) now r.session })
  unfolding rollback
  rollback-Settled r x now g =
      elim (Bool-cases (length r.session.history == length s.history + 1)) [
        | inl same ↦
            let back : take (length s.history) r.session.history ≡ s.history =
              ap (take (length s.history)) g.history_eq ∙ take_all s.history msg g.added in
            rw (same, rollback)
              (record {
                pairs = subst Paired (sym back) paired;
                rev_lt = omega arith;
                restored = λ _ _ _. back;
              })
        | inr more ↦
            rw (more, rollback)
              (record {
                pairs = subst Paired (sym g.history_eq) g.answered;
                rev_lt = g.rev_lt;
                restored = λ _ _ z. absurd (longer (g.quiet z) more);
              })
      ]
    where
      longer : g.added ≡ [] → (length r.session.history == length s.history + 1) ≡ false → ⊥
      longer z more =
          let e : length r.session.history ≡ length s.history + 1 = omega (
            arith,
            ap length g.history_eq,
            length-append base g.added,
            ap length z,
            length-append s.history (msg ∷ []),
          ) in
          ground arith

  rolled_back-Settled :
      (r : Run W) (e : Option Error)
      → Grown base r
      → Settled e (rolled_back p env a (length s.history) (r, e)).0
  unfolding rolled_back
  rolled_back-Settled r none g = record {
    pairs = subst Paired (sym g.history_eq) g.answered;
    rev_lt = g.rev_lt;
    restored = λ x q. cc;
  }
  rolled_back-Settled r (some x) g = rollback-Settled r x (env.clock r.world) g

  module _ (ask : Session → W → (Response × Option Bytes) × W)
      (answers : (t : Session) (w : W) → is_tool (ask t w).0.0.message ≡ false) where
    abbrev looped : Run W → Run W × Option Error
    looped r =
        rolled_back p env a (length s.history) (rounds p env a ask (max_steps_of a.max_steps) 0 r)

    looped-Settled : (r : Run W) → Begun r → Settled (looped r).1 (looped r).0
    unfolding rolled_back
    looped-Settled r g =
        split (rounds p env a ask (max_steps_of a.max_steps) 0 r).0
          (rounds p env a ask (max_steps_of a.max_steps) 0 r).1
          (rounds-Grown p env a base ask answers (max_steps_of a.max_steps) 0 r (Begun-Grown r g))
      where
        split :
            (r' : Run W) (e : Option Error)
            → Grown base r'
            → Settled
                (rolled_back p env a (length s.history) (r', e)).1
                (rolled_back p env a (length s.history) (r', e)).0
        split r' none g' = rolled_back-Settled r' none g'
        split r' (some x) g' = rolled_back-Settled r' (some x) g'

    -- What a whole call comes to, and of which the transcript is made of pairs.
    abbrev Returns : Call (Run W × Option Error) → Type 0
    Returns c = (r : Run W) × (e : Option Error) × (c ≡ returns (r, e)) × Paired r.session.history

    begun-Returns :
        (alone : (w : W) → (env.meanwhile w).0 ≡ [])
        → KeepsSome a.compaction
        → (r : Run W) (e : Option Error) → Begins (r, e)
        → Returns (begun p env a ask (length s.history) (r, e))
    unfolding begun released drive with_error release
    begun-Returns alone ks r (some x) g =
        (r, some x, refl, subst (λ t. Paired t.history) (sym g) paired)
    begun-Returns alone ks r none g =
        let st = looped-Settled r g in
        let (r', q, ps) = finish-Ends p env a alone (looped r).0 ks st.rev_lt st.pairs in
        (record r' { session = release r'.session }, (looped r).1, rw q refl, ps)

    -- A run on a session whose transcript is made of pairs and whose revision count is a `uint64`,
    -- with an input that neither asks for a tool nor is a tool's answer, always returns, with or
    -- without an error, and leaves a transcript that is made of pairs, whatever the policy, the
    -- tools, the scheduler and the context do and however each response stopped, as long as the
    -- provider never answers in the role of a tool, nobody else changes the session during a
    -- compaction, and a configured compaction keeps a positive number of messages.
    pub run_with-Paired :
        (alone : (w : W) → (env.meanwhile w).0 ≡ [])
        → KeepsSome a.compaction
        → (b : Option Budget) (w : W)
        → (r : Run W) × (e : Option Error) × (run_with p env a ask s b msg w ≡ returns (r, e))
          × Paired r.session.history
    unfolding run_with
    run_with-Paired alone ks b w =
        begun-Returns alone ks (begin p env a msg (fresh p env a s b w)).0
          (begin p env a msg (fresh p env a s b w)).1 (begin-Begins b w)

    finish_idle :
        a.compaction ≡ none
        → le_zero a.keep_last ≡ true
        → (r : Run W) → finish p env a r ≡ returns r
    unfolding finish finish_with trim_after
    finish_idle c k r = rw (c, finish_with) (no_trim a.keep_last k)
      where
        no_trim : (n : ℤ) → le_zero n ≡ true → trim_after p env a n r ≡ returns r
        no_trim (pos zero) k' = refl
        no_trim (pos (suc n)) k' = absurd (ground arith)
        no_trim (negsuc n) k' = refl

    abbrev history_of : Call (Run W × Option Error) → List Message
    history_of panic = []
    history_of (returns (r, e)) = r.session.history

    abbrev error_of : Call (Run W × Option Error) → Option Error
    error_of panic = none
    error_of (returns (r, e)) = e

    abbrev seen_of : Call (Run W × Option Error) → ℕ
    seen_of panic = 0
    seen_of (returns (r, e)) = steps_seen r.events

    begun-looped :
        a.compaction ≡ none
        → le_zero a.keep_last ≡ true
        → (r : Run W)
        → begun p env a ask (length s.history) (r, none)
          ≡ returns (record ((looped r).0) { session = release (looped r).0.session }, (looped r).1)
    unfolding begun released drive with_error
    begun-looped c k r = rw (finish_idle c k (looped r).0) refl

    begun_restores :
        a.compaction ≡ none
        → le_zero a.keep_last ≡ true
        → (r : Run W) (e : Option Error) (r' : Run W) (x : Error) → Begins (r, e)
        → begun p env a ask (length s.history) (r, e) ≡ returns (r', some x)
        → steps_seen r'.events ≡ 0
        → r'.session.history ≡ s.history
    unfolding begun release
    begun_restores c k r (some y) r' x g q z =
        sym (ap history_of q) ∙ ap (λ (t : Session). t.history) g
    begun_restores c k r none r' x g q z =
        let q' = sym (begun-looped c k r) ∙ q in
        sym (ap history_of q')
        ∙ (looped-Settled r g).restored x (ap error_of q') (ap seen_of q' ∙ z)

    -- A run that fails before a response came in, on whatever check or provider error, leaves
    -- exactly the transcript that was there: its input is taken back. No compaction is configured,
    -- no positive number of messages is kept, the transcript is made of pairs, the revision count
    -- is a `uint64`, the input neither asks for a tool nor is a tool's answer, and the provider
    -- never answers in the role of a tool.
    pub run_with_restores :
        a.compaction ≡ none
        → le_zero a.keep_last ≡ true
        → (b : Option Budget) (w : W) (r : Run W) (x : Error)
        → run_with p env a ask s b msg w ≡ returns (r, some x)
        → steps_seen r.events ≡ 0
        → r.session.history ≡ s.history
    unfolding run_with
    run_with_restores c k b w r x q z =
        begun_restores c k (begin p env a msg (fresh p env a s b w)).0
          (begin p env a msg (fresh p env a s b w)).1 r x (begin-Begins b w) q z
