-- ===== src/Delegation/Bounds.antt =====
-- delegation.go: how many conversations a table keeps, and which ones.
use golm.Common.{
  ℕ, suc, ◌≤◌, ◌<◌, ◌≡◌, refl, sym, ap, subst, ◌∙◌, ◌⊎◌, inl, inr, Bool, true, false, not,
  Bool-cases, Option, Option-cases, none, some, List, [], ◌∷◌, ◌++◌, append-nil, length,
  length-append, Bytes, bytes_eq, bytes_eq_refl, contains, arith, if◌then◌else◌, if_true, if_false,
}
use golm.Delegation.{
  Table, find, any_held, busy, evict, max_conversations, added, write_slots, conversation_for,
}
use golm.Delegation.Keys.{eq_of, Distinct, contains-append, those}
use golm.Delegation.Eviction.{idle, evict-Trimmed}
use golm.Delegation.Ledger.{Ledger, added-Ledger}

pub those-holds :
    (f : Bytes → Bool) (p : List Bytes) (k : Bytes) → contains (those f p) k ≡ true → f k ≡ true
unfolding contains those
those-holds f [] k h = cc
those-holds f (o ∷ p) k h = elim (Bool-cases (f o)) [
  | inr n ↦ those-holds f p k (rw n at h)
  | inl n ↦ elim (Bool-cases (bytes_eq o k)) [
    | inl e ↦ subst (λ x. f x ≡ true) (eq_of o k e) n
    | inr e ↦ those-holds f p k (rw e at (rw n at h))
  ]
]

those-contains :
    (f : Bytes → Bool) (p : List Bytes) (k : Bytes)
    → f k ≡ true
    → contains p k ≡ true
    → contains (those f p) k ≡ true
unfolding contains those
those-contains f [] k b h = h
those-contains f (o ∷ p) k b h =
    let n : bytes_eq o k ≡ true → f o ≡ true = λ e. subst (λ x. f x ≡ true) (sym (eq_of o k e)) b in
    elim (Bool-cases (f o)) [
      | inl e ↦ rw e (ground (arith, those-contains f p k b))
      | inr e ↦ rw e (those-contains f p k b (ground (arith, n)))
    ]

those-all :
    (f : Bytes → Bool) (p : List Bytes)
    → ((k : Bytes) → contains p k ≡ true → f k ≡ true)
    → those f p ≡ p
unfolding contains those
those-all f [] h = refl
those-all f (o ∷ p) h =
    rw (h o (rw (bytes_eq_refl o) refl)) (ap (◌∷◌ o) (those-all f p (λ k m. h k (ground arith))))

busy-same :
    (t t' : Table) (k : Bytes)
    → find k t'.convs ≡ find k t.convs
    → t'.slots ≡ t.slots
    → t'.gates ≡ t.gates
    → busy t' k ≡ busy t k
unfolding busy
busy-same t t' k f s g =
    ap
      (λ (c : Option ℕ). elim c as (λ x. Bool) [
        | none ↦ false
        | some c ↦ any_held t'.gates (t'.slots c)
      ])
      f
    ∙ (ap
          (λ (h : ℕ → List (Bytes × ℕ)). elim (find k t.convs) as (λ x. Bool) [
            | none ↦ false
            | some c ↦ any_held t'.gates (h c)
          ])
          s
        ∙ ap
            (λ h. elim (find k t.convs) as (λ x. Bool) [
              | none ↦ false
              | some c ↦ any_held h (t.slots c)
            ])
            g)

abbrev pub AllBusy : Table → Type 0
AllBusy t = (k : Bytes) → contains t.order k ≡ true → busy t k ≡ true

evict-bounded :
    (t : Table)
    → Distinct t.order
    → (length (evict t).order ≤ max_conversations t.max) ⊎ AllBusy (evict t)
evict-bounded t d =
    let r = evict-Trimmed t d in
    elim r.enough [
      | inl n ↦ inl n
      | inr e ↦ inr (λ k m.
          let o : (evict t).order ≡ those (busy t) r.passed =
            r.order ∙ ap (λ l. l ++ those (busy t) r.passed) e in
          let b : busy t k ≡ true =
            those-holds (busy t) r.passed k (subst (λ l. contains l k ≡ true) o m) in
          let n : contains (idle (busy t) r.passed) k ≡ false =
            elim (Bool-cases (contains (idle (busy t) r.passed) k)) [
              | inl i ↦
                  let w : not (busy t k) ≡ true = those-holds (λ j. not (busy t j)) r.passed k i in
                  ground arith
              | inr i ↦ i
            ] in
          busy-same t (evict t) k (r.found k ∙ if_false n none (find k t.convs)) r.slots r.gates
          ∙ b)
    ]

-- A conversation that is new to a table whose keys are in order leaves no more conversations in it
-- than the limit, or none that is idle.
pub conversation_for-bounded :
    (id : Bytes) (t : Table)
    → Ledger t
    → find id t.convs ≡ none
    → let t' = (conversation_for id t).1 in (length t'.order ≤ max_conversations t.max) ⊎ AllBusy t'
unfolding conversation_for added
conversation_for-bounded id t g n =
    rw (n, conversation_for) (evict-bounded (added id t) (added-Ledger id t n g).distinct)

-- The numbers of the conversations were given out.
abbrev pub Given : Table → Type 0
Given t = (k : Bytes) (c : ℕ) → find k t.convs ≡ some c → c < t.fresh

busy_absent : (t : Table) (k : Bytes) → find k t.convs ≡ none → busy t k ≡ false
unfolding busy
busy_absent t k e =
    ap
      (λ (c : Option ℕ). elim c as (λ x. Bool) [
        | none ↦ false
        | some c ↦ any_held t.gates (t.slots c)
      ])
      e

pub busy_found :
    (t : Table) (k : Bytes) (c : ℕ)
    → find k t.convs ≡ some c
    → busy t k ≡ any_held t.gates (t.slots c)
unfolding busy
busy_found t k c e =
    ap
      (λ (c : Option ℕ). elim c as (λ x. Bool) [
        | none ↦ false
        | some c ↦ any_held t.gates (t.slots c)
      ])
      e

pub find-added :
    (id : Bytes) (t : Table) (k : Bytes)
    → find k (added id t).convs ≡ (if bytes_eq id k then some t.fresh else find k t.convs)
unfolding find added
find-added id t k = refl

busy-added :
    (id : Bytes) (t : Table) (k : Bytes)
    → Given t
    → bytes_eq id k ≡ false
    → busy (added id t) k ≡ busy t k
busy-added id t k v n =
    let f : find k (added id t).convs ≡ find k t.convs = find-added id t k ∙ if_false n _ _ in
    elim (Option-cases (find k t.convs)) [
      | inl e ↦ busy_absent (added id t) k (f ∙ e) ∙ sym (busy_absent t k e)
      | inr (c, e) ↦
          let lt : c < t.fresh = v k c e in
          let w : (added id t).slots c ≡ t.slots c = unfold added write_slots in ground arith in
          let h : (added id t).gates ≡ t.gates = unfold added in refl in
          busy_found (added id t) k c (f ∙ e)
          ∙ (ap (any_held (added id t).gates) w
              ∙ (ap (λ g. any_held g (t.slots c)) h ∙ sym (busy_found t k c e)))
    ]

idle-added : (id : Bytes) (t : Table) → busy (added id t) id ≡ false
idle-added id t =
    let f : find id (added id t).convs ≡ some t.fresh =
      find-added id t id ∙ if_true (bytes_eq_refl id) _ _ in
    let w : (added id t).slots t.fresh ≡ [] = unfold added write_slots in ground arith in
    busy_found (added id t) id t.fresh f
    ∙ (ap (any_held (added id t).gates) w ∙ unfold any_held in refl)

-- A full table whose conversations are all busy does not keep one that is new to it: the
-- conversation that is handed out stands in it no more.
pub conversation_for-forgets :
    (id : Bytes) (t : Table)
    → Ledger t
    → Given t
    → find id t.convs ≡ none
    → AllBusy t
    → max_conversations t.max ≤ length t.order
    → find id (conversation_for id t).1.convs ≡ none
unfolding conversation_for contains
conversation_for-forgets id t g v n a full =
    let t₁ = added id t in
    let r = evict-Trimmed t₁ (added-Ledger id t n g).distinct in
    let q : t₁.order ≡ t.order ++ id ∷ [] = unfold added in refl in
    let s : t.order ++ id ∷ [] ≡ r.passed ++ r.left = sym q ∙ r.split in
    let here : contains r.passed id ≡ true = elim (Bool-cases (contains r.passed id)) [
      | inl i ↦ i
      | inr i ↦
          let others : (k : Bytes) → contains r.passed k ≡ true → busy t₁ k ≡ true = λ k m.
            elim (Bool-cases (bytes_eq id k)) [
              | inl e ↦
                  let w : contains r.passed id ≡ true =
                    subst (λ x. contains r.passed x ≡ true) (sym (eq_of id k e)) m in
                  cc
              | inr e ↦
                  let c₁ : contains (t.order ++ id ∷ []) k ≡ true =
                    ap (λ l. contains l k) s ∙ (contains-append r.passed r.left k ∙ rw m refl) in
                  busy-added id t k v e
                  ∙ a k (ground (arith, contains-append t.order (id ∷ []) k, c₁, e))
            ] in
          let o : (evict t₁).order ≡ r.left ++ r.passed =
            r.order ∙ ap (λ l. r.left ++ l) (those-all (busy t₁) r.passed others) in
          let size : length (evict t₁).order ≡ suc (length t.order) = omega (
            arith,
            ap length o,
            ap length s,
            length-append r.left r.passed,
            length-append r.passed r.left,
            length-append t.order (id ∷ []),
          ) in
          elim r.enough [
            | inl le ↦ absurd (
                let m : t₁.max ≡ t.max = unfold added in refl in
                omega (arith, le, full, size, ap max_conversations m))
            | inr e ↦
                let c₂ : contains (r.passed ++ []) id ≡ true =
                  ap (λ l. contains (r.passed ++ l) id) (sym e)
                  ∙ (ap (λ l. contains l id) (sym s)
                      ∙ (contains-append t.order (id ∷ []) id
                          ∙ ground (arith, bytes_eq_refl id))) in
                sym (ap (λ l. contains l id) (append-nil r.passed)) ∙ c₂
          ]
    ] in
    let gone : contains (idle (busy t₁) r.passed) id ≡ true =
      those-contains (λ k. not (busy t₁ k)) r.passed id (rw (idle-added id t) refl) here in
    rw (n, conversation_for) (r.found id ∙ if_true gone none (find id t₁.convs))
