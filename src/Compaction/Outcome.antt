-- ===== src/Compaction/Outcome.antt =====
-- compact.go: what `Compact` comes to, whatever its hooks and other goroutines do.
use golm.Common.{
  ℕ, zero, suc, ◌+◌, ◌<◌, ◌≡◌, refl, ap, ◌∙◌, ◌⊎◌, inl, inr, true, false, Bool-cases, some, List,
  ◌++◌, pos, Bytes, arith, int_mod, length, length-append, take, drop, drop-append, leb, ◌==◌,
}
use golm.History.{Call, returns}
use golm.Session.{Session, next_rev}
use golm.Session.Steps.{Extends}
use golm.Compaction.{
  CompactConfig, CompactResult, Summary, session_changed, Result, ok, err, Op, no_result, is_some,
  apply_all, archive_of, kept_for, summarise, archive_with, commit, finish_compact, compact_at,
  compact, compact_split,
}
use golm.Compaction.Meanwhile.{apply_all-Extends}
use golm.Compaction.Split.{Splits, compact_split-Splits, Splits-lt}

module _ (cfg : CompactConfig) (random : Bytes) (now : ℕ) (meanwhile : List Op) (later : ℕ) where
  -- The compaction went through: `d` messages of the transcript of `s` gave way to the summary of
  -- exactly these, all of it is in the archive, and the rest stays verbatim before whatever was
  -- appended meanwhile.
  pub record Replaced (s : Session) (r : CompactResult) (t : Session) : Type 0 where
    pub summary : Summary
    pub split : Splits s.history (is_some cfg.summarise) r.dropped
    pub appended_eq : Extends s (apply_all meanwhile s)
    pub summarised : summarise cfg.summarise (take r.dropped s.history) ≡ ok summary
    pub archived : r.archive ≡ some (archive_of random now s)
    pub billed : r.usage ≡ summary.usage
    pub history_eq :
        t.history
        ≡ kept_for (is_some cfg.summarise) summary
          ++ (drop r.dropped s.history ++ appended_eq.appended)
    pub state_eq : t.state ≡ s.state
    pub parent_eq : t.parent ≡ random

  -- A failure leaves the session as the other goroutines left it, and a changed revision is a failure.
  abbrev pub Outcome : Session → Result CompactResult → Session → Type 0
  Outcome s (err e) t = t ≡ apply_all meanwhile s
  Outcome s (ok r) t = ((r ≡ no_result) × (t ≡ s)) ⊎ ((0 < r.dropped) × Replaced s r t)

  abbrev Comes : Session → Call (Result CompactResult × Session) → Type 0
  Comes s c = (r : Result CompactResult) × (t : Session) × (c ≡ returns (r, t)) × Outcome s r t

  abbrev replacing : Session → Session → ℕ → Summary → Session
  replacing s u k sum = record u {
    history = kept_for (is_some cfg.summarise) sum ++ drop k u.history;
    parent = random;
    updated = later;
    rev = next_rev u.rev;
  }

  abbrev result_of : Session → ℕ → Summary → CompactResult
  result_of s k sum = record {
    archive = some (archive_of random now s);
    usage = sum.usage;
    dropped = k;
  }

  commit_same :
      (s u : Session) (k : ℕ) (sum : Summary)
      → (u.rev == s.rev) ≡ true
      → leb k (length u.history) ≡ true
      → commit cfg k s.rev (archive_of random now s) sum later u
        ≡ returns (ok (result_of s k sum), replacing s u k sum)
  unfolding commit archive_of
  commit_same s u k sum same inside = rw same (rw inside refl)

  commit_changed :
      (s u : Session) (k : ℕ) (sum : Summary)
      → (u.rev == s.rev) ≡ false
      → commit cfg k s.rev (archive_of random now s) sum later u ≡ returns (err session_changed, u)
  unfolding commit
  commit_changed s u k sum changed = rw changed refl

  replacing-Replaced :
      (s : Session) (k : ℕ) (sum : Summary)
      → Splits s.history (is_some cfg.summarise) (suc k)
      → summarise cfg.summarise (take (suc k) s.history) ≡ ok sum
      → Extends s (apply_all meanwhile s)
      → Replaced s (result_of s (suc k) sum) (replacing s (apply_all meanwhile s) (suc k) sum)
  replacing-Replaced s k sum sp e x = record {
    summary = sum;
    split = sp;
    appended_eq = x;
    summarised = e;
    archived = refl;
    billed = refl;
    history_eq =
        ap (λ h. kept_for (is_some cfg.summarise) sum ++ h)
          (ap (drop (suc k)) x.history_eq
            ∙ drop-append (suc k) s.history x.appended
                (omega (arith, Splits-lt s.history (is_some cfg.summarise) k sp)));
    state_eq = x.state_eq;
    parent_eq = refl;
  }

  commit-Comes :
      (s : Session) (k : ℕ) (sum : Summary)
      → s.rev < int_mod
      → length meanwhile < int_mod
      → Splits s.history (is_some cfg.summarise) (suc k)
      → summarise cfg.summarise (take (suc k) s.history) ≡ ok sum
      → Comes s
          (commit cfg (suc k) s.rev (archive_of random now s) sum later (apply_all meanwhile s))
  commit-Comes s k sum r l sp e = elim (Bool-cases ((apply_all meanwhile s).rev == s.rev)) [
    | inl same ↦
        let x : Extends s (apply_all meanwhile s) =
          apply_all-Extends meanwhile s r l (ground arith) in
        let n : length (apply_all meanwhile s).history ≡ length s.history + length x.appended =
          ap length x.history_eq ∙ length-append s.history x.appended in
        let b : suc k < length s.history = Splits-lt s.history (is_some cfg.summarise) k sp in
        let inside : leb (suc k) (length (apply_all meanwhile s).history) ≡ true = ground arith in
        (
          ok (result_of s (suc k) sum),
          replacing s (apply_all meanwhile s) (suc k) sum,
          commit_same s (apply_all meanwhile s) (suc k) sum same inside,
          inr (omega arith, replacing-Replaced s k sum sp e x),
        )
    | inr changed ↦ (
      err session_changed,
      apply_all meanwhile s,
      commit_changed s (apply_all meanwhile s) (suc k) sum changed,
      refl,
    )
  ]

  finish-Comes :
      (s : Session) (k : ℕ)
      → s.rev < int_mod
      → length meanwhile < int_mod
      → Splits s.history (is_some cfg.summarise) (suc k)
      → Comes s (
          finish_compact cfg
            (suc k)
            s.rev
            (archive_of random now s)
            (take (suc k) s.history)
            later
            (apply_all meanwhile s))
  unfolding finish_compact
  finish-Comes s k r l sp =
      go (summarise cfg.summarise (take (suc k) s.history)) refl
        (archive_with cfg.archive (archive_of random now s)) refl
    where
      u : Session
      u = apply_all meanwhile s

      go :
          (m : Result Summary)
          → summarise cfg.summarise (take (suc k) s.history) ≡ m
          → (a : Result (Unit {0})) → archive_with cfg.archive (archive_of random now s) ≡ a
          → Comes s (
              finish_compact cfg
                (suc k)
                s.rev
                (archive_of random now s)
                (take (suc k) s.history)
                later
                (apply_all meanwhile s))
      go (err x) p a q = (err x, u, rw (p, finish_compact) refl, refl)
      go (ok sum) p (err x) q =
          (err x, u, rw (p, finish_compact) (rw (q, finish_compact) refl), refl)
      go (ok sum) p (ok _) q =
          let (res, t, e, o) = commit-Comes s k sum r l sp p in
          (res, t, rw (p, finish_compact) (rw (q, finish_compact) e), o)

  -- `Compact` with a positive bound always returns, whatever its hooks do and whatever fewer than
  -- 2^64 calls other goroutines make between its two critical sections. It has nothing to do and
  -- leaves the session alone; or it fails and leaves the session exactly as those calls left it; or
  -- it replaces a head of the transcript by the summary of exactly that head, archives the whole
  -- transcript, keeps the rest and all that was appended meanwhile verbatim, cuts where `compactSplit` may, and makes the archive
  -- the session's parent.
  pub compact-Outcome :
      (s : Session) (k : ℕ)
      → cfg.keep_last ≡ pos (suc k)
      → s.rev < int_mod
      → length meanwhile < int_mod
      → (r : Result CompactResult) × (t : Session) × (compact cfg random now meanwhile later s
          ≡ returns (r, t))
        × Outcome s r t
  unfolding compact compact_at
  compact-Outcome s k c r l =
      let (n, e, sp) = compact_split-Splits s.history k (is_some cfg.summarise) in
      let e' : compact_split s.history cfg.keep_last (is_some cfg.summarise) ≡ returns n =
        ap (λ z. compact_split s.history z (is_some cfg.summarise)) c ∙ e in
      rw e' (go n sp)
    where
      go :
          (n : ℕ)
          → Splits s.history (is_some cfg.summarise) n
          → Comes s (compact_at cfg random now meanwhile later s (returns n))
      go zero sp = (ok no_result, s, refl, inl (refl, refl))
      go (suc n) sp = finish-Comes s n r l sp
