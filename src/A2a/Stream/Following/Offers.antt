-- ===== src/A2a/Stream/Following/Offers.antt =====
-- a2a/taskstore.go: what one publication does to one subscription of a broker.
use golm.Common.{
  ℕ, ◌≡◌, refl, sym, ap, ◌∙◌, inl, inr, Bool, true, false, Bool-cases, List, [], ◌∷◌, arith, ◌==◌,
  if◌then◌else◌,
}
use golm.A2a.Stream.{TaskEvent, Sub, write_sub, has_room, offer, offer_all, mem}

pub write_same : (h : ℕ → Sub) (i : ℕ) (x : Sub) → write_sub h i x i ≡ x
write_same h i x = ground arith

pub write_other : (h : ℕ → Sub) (i j : ℕ) (x : Sub) → (i == j) ≡ false → write_sub h i x j ≡ h j
write_other h i j x n = rw n refl

-- The id stands in the list once at most.
abbrev pub Once : ℕ → List ℕ → Type 0
Once i [] = Unit {0}
Once i (j ∷ l) = ((j == i) ≡ true → mem i l ≡ false) × Once i l

pub Once-absent : (i : ℕ) (l : List ℕ) → mem i l ≡ false → Once i l
unfolding mem
Once-absent i [] n = tt
Once-absent i (j ∷ l) n = (λ e. ground arith, Once-absent i l (ground arith))

offer_other : (ev : TaskEvent) (j i : ℕ) (h : ℕ → Sub) → (j == i) ≡ false → offer ev j h i ≡ h i
unfolding offer
offer_other ev j i h n = elim (Bool-cases (has_room (h j))) [
  | inl r ↦ rw r (write_other h j i _ n)
  | inr r ↦ rw r (write_other h j i _ n)
]

-- The ids that stay, when `b` says whether `j` does.
abbrev left_with : Bool → ℕ → List ℕ → List ℕ
left_with b j l = if b then j ∷ l else l

mem_other : (b : Bool) (i j : ℕ) (l : List ℕ) → (j == i) ≡ false → mem i (left_with b j l) ≡ mem i l
unfolding mem
mem_other true i j l d = rw d refl
mem_other false i j l d = refl

mem_here :
    (b : Bool) (i j : ℕ) (l : List ℕ)
    → (j == i) ≡ true
    → mem i l ≡ false
    → mem i (left_with b j l) ≡ b
unfolding mem
mem_here true i j l e n = rw e refl
mem_here false i j l e n = n

Once-left :
    (b : Bool) (i j : ℕ) (l : List ℕ)
    → ((j == i) ≡ true → mem i l ≡ false)
    → Once i l
    → Once i (left_with b j l)
Once-left true i j l n o = (n, o)
Once-left false i j l n o = o

-- What one publication does to a subscription that is not in the list, and to one that is.
pub record Skipped (i : ℕ) (h : ℕ → Sub) (r : List ℕ × (ℕ → Sub)) : Type 0 where
  pub same : r.1 i ≡ h i
  pub out : mem i r.0 ≡ false

pub offer_all-Skipped :
    (ev : TaskEvent) (i : ℕ) (is : List ℕ) (h : ℕ → Sub)
    → mem i is ≡ false
    → Skipped i h (offer_all ev is h)
unfolding offer_all mem
offer_all-Skipped ev i [] h n = record { same = refl; out = refl }
offer_all-Skipped ev i (j ∷ is) h n =
    let s = offer_all-Skipped ev i is (offer ev j h) (ground arith) in
    let d : (j == i) ≡ false = ground arith in
    record {
      same = s.same ∙ offer_other ev j i h d;
      out = mem_other (has_room (h j)) i j (offer_all ev is (offer ev j h)).0 d ∙ s.out;
    }

pub record Offered (ev : TaskEvent) (i : ℕ) (h : ℕ → Sub) (r : List ℕ × (ℕ → Sub)) : Type 0 where
  pub got : r.1 i ≡ offer ev i h i
  pub stays : mem i r.0 ≡ has_room (h i)
  pub once : Once i r.0

offer_same : (ev : TaskEvent) (i : ℕ) (h k : ℕ → Sub) → k i ≡ h i → offer ev i k i ≡ offer ev i h i
unfolding offer
offer_same ev i h k e = elim (Bool-cases (has_room (h i))) [
  | inl r ↦ rw e (rw r (write_same k i _ ∙ sym (write_same h i _)))
  | inr r ↦ rw e (rw r (write_same k i _ ∙ sym (write_same h i _)))
]

pub offer_all-Offered :
    (ev : TaskEvent) (i : ℕ) (is : List ℕ) (h : ℕ → Sub)
    → mem i is ≡ true
    → Once i is
    → Offered ev i h (offer_all ev is h)
unfolding offer_all mem
offer_all-Offered ev i [] h m o = cc
offer_all-Offered ev i (j ∷ is) h m o = elim (Bool-cases (j == i)) [
  | inl e ↦
      let q : j ≡ i = ground arith in
      let s = offer_all-Skipped ev i is (offer ev j h) (o.0 e) in
      record {
        got = s.same ∙ ap (λ k. offer ev k h i) q;
        stays =
            mem_here (has_room (h j)) i j (offer_all ev is (offer ev j h)).0 e s.out
            ∙ ap (λ k. has_room (h k)) q;
        once =
            Once-left (has_room (h j)) i j (offer_all ev is (offer ev j h)).0 (λ _. s.out)
              (Once-absent i (offer_all ev is (offer ev j h)).0 s.out);
      }
  | inr e ↦
      let s = offer_all-Offered ev i is (offer ev j h) (rw e at m) o.1 in
      let d = offer_other ev j i h e in
      record {
        got = s.got ∙ offer_same ev i h (offer ev j h) d;
        stays =
            mem_other (has_room (h j)) i j (offer_all ev is (offer ev j h)).0 e
            ∙ (s.stays ∙ ap has_room d);
        once = Once-left (has_room (h j)) i j (offer_all ev is (offer ev j h)).0 (λ t. cc) s.once;
      }
]
