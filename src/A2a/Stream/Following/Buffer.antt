-- ===== src/A2a/Stream/Following/Buffer.antt =====
-- a2a/taskstore.go: the buffer of a broker, and the ids of its subscriptions.
use golm.Common.{
  ℕ, zero, suc, ◌-◌, ◌<◌, ◌≡◌, refl, sym, ap, subst, ◌∙◌, inl, inr, Bool, true, false, not,
  Bool-cases, List, [], ◌∷◌, ◌++◌, arith, ◌==◌, ltb, length, length-append, length-drop, drop,
  drop-append, if◌then◌else◌, if_split, if_true,
}
use golm.A2a.Stream.{
  TaskEvent, Sub, Broker, newest, has_room, offer, offer_all, publish, close, subscribe, mem,
  remove, unsubscribe,
}

drop-drop : (k : ℕ) (l : List TaskEvent) → drop 1 (drop k l) ≡ drop (suc k) l
drop-drop zero l = refl
drop-drop (suc k) [] = refl
drop-drop (suc k) (x ∷ l) = drop-drop k l

newest-newest :
    (max : ℕ) (l : List TaskEvent) (ev : TaskEvent)
    → 0 < max
    → newest max (newest max l ++ ev ∷ []) ≡ newest max (l ++ ev ∷ [])
unfolding newest
newest-newest max l ev pos = elim (Bool-cases (ltb max (length l))) [
  | inr h ↦ rw h refl
  | inl h ↦
      let k = length l - max in
      let lt : max < length l = ground arith in
      let n : length (drop k l) ≡ max = omega (arith, length-drop k l) in
      let n₁ : length (drop k l ++ ev ∷ []) ≡ suc max =
        omega (arith, n, length-append (drop k l) (ev ∷ [])) in
      let n₂ : length (l ++ ev ∷ []) ≡ suc (length l) = omega (arith, length-append l (ev ∷ [])) in
      let e : drop k l ++ ev ∷ [] ≡ drop k (l ++ ev ∷ []) =
        sym (drop-append k l (ev ∷ []) (omega arith)) in
      let d₁ : length (drop k l ++ ev ∷ []) - max ≡ 1 = omega (arith, n₁) in
      let d₂ : suc k ≡ length (l ++ ev ∷ []) - max = omega (arith, n₂) in
      let t₁ : ltb max (length (drop k l ++ ev ∷ [])) ≡ true = ground arith in
      let t₂ : ltb max (length (l ++ ev ∷ [])) ≡ true = ground arith in
      ap (λ q. newest max (q ++ ev ∷ [])) (if_true h (drop k l) l)
      ∙ (if_true t₁ _ _
          ∙ (ap (λ n. drop n (drop k l ++ ev ∷ [])) d₁
              ∙ (ap (drop 1) e
                  ∙ (drop-drop k (l ++ ev ∷ [])
                      ∙ (ap (λ n. drop n (l ++ ev ∷ [])) d₂ ∙ sym (if_true t₂ _ _))))))
]

-- The buffer is the last of what was published, and the ids of the subscriptions were given out.
pub record Buffered (max : ℕ) (log : List TaskEvent) (b : Broker) : Type 0 where
  pub roomy : 0 < b.max
  pub fixed : b.max ≡ max
  pub last : b.buf ≡ newest max log
  pub below : (j : ℕ) → mem j b.subs ≡ true → j < b.next_id

keeps_with :
    (b : Bool) (k j : ℕ) (l l' : List ℕ)
    → (mem j l ≡ true → mem j l' ≡ true)
    → mem j (if b then k ∷ l else l) ≡ true
    → mem j (k ∷ l') ≡ true
unfolding mem
keeps_with true k j l l' h m = ground (arith, h)
keeps_with false k j l l' h m = ground (arith, h m)

if_not : (b : Bool) (x y : List ℕ) → (if b then x else y) ≡ (if not b then y else x)
if_not true x y = refl
if_not false x y = refl

offer_all-keeps :
    (ev : TaskEvent) (j : ℕ) (is : List ℕ) (h : ℕ → Sub)
    → mem j (offer_all ev is h).0 ≡ true
    → mem j is ≡ true
unfolding offer_all mem
offer_all-keeps ev j [] h m = m
offer_all-keeps ev j (i ∷ is) h m =
    keeps_with (has_room (h i)) i j (offer_all ev is (offer ev i h)).0 is
      (offer_all-keeps ev j is (offer ev i h)) m

remove-keeps : (i j : ℕ) (l : List ℕ) → mem j (remove i l) ≡ true → mem j l ≡ true
unfolding mem remove
remove-keeps i j [] m = m
remove-keeps i j (k ∷ l) m =
    keeps_with (not (k == i)) k j (remove i l) l (remove-keeps i j l)
      (subst (λ q. mem j q ≡ true) (if_not (k == i) _ _) m)

pub publish-Buffered :
    (max : ℕ) (log : List TaskEvent) (ev : TaskEvent) (b : Broker)
    → Buffered max log b
    → Buffered max (log ++ ev ∷ []) (publish ev b)
unfolding publish
publish-Buffered max log ev b f = record {
  roomy = f.roomy;
  fixed = f.fixed;
  last =
      ap (λ l. newest b.max (l ++ ev ∷ [])) (f.last ∙ ap (λ n. newest n log) (sym f.fixed))
      ∙ (newest-newest b.max log ev f.roomy ∙ ap (λ n. newest n (log ++ ev ∷ [])) f.fixed);
  below = λ j m. f.below j (offer_all-keeps ev j b.subs b.heap m);
}

pub close-Buffered :
    (max : ℕ) (log : List TaskEvent) (b : Broker) → Buffered max log b → Buffered max log (close b)
unfolding close mem
close-Buffered max log b f =
    if_split (Buffered max log) b.done _ _ f
      (record { roomy = f.roomy; fixed = f.fixed; last = f.last; below = λ j m. cc })

pub subscribe-Buffered :
    (max : ℕ) (log : List TaskEvent) (b : Broker)
    → Buffered max log b
    → Buffered max log (subscribe b).1
unfolding subscribe mem
subscribe-Buffered max log b f =
    if_split (λ (r : (List TaskEvent × ℕ) × Broker). Buffered max log r.1) b.done _ _
      (record {
        roomy = f.roomy;
        fixed = f.fixed;
        last = f.last;
        below = λ j m. omega (arith, f.below j m);
      })
      (record {
        roomy = f.roomy;
        fixed = f.fixed;
        last = f.last;
        below = λ j m. elim (Bool-cases (b.next_id == j)) [
          | inl e ↦ ground arith
          | inr e ↦ omega (arith, f.below j (rw e at m))
        ];
      })

pub unsubscribe-Buffered :
    (max : ℕ) (log : List TaskEvent) (i : ℕ) (b : Broker)
    → Buffered max log b
    → Buffered max log (unsubscribe i b)
unfolding unsubscribe
unsubscribe-Buffered max log i b f =
    if_split (Buffered max log) (mem i b.subs) _ _
      (record {
        roomy = f.roomy;
        fixed = f.fixed;
        last = f.last;
        below = λ j m. f.below j (remove-keeps i j b.subs m);
      })
      f
