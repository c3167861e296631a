-- ===== src/Bus/Delivery.antt =====
-- bus.go: what each subscriber is handed.
use golm.Common.{
  ℕ, ◌+◌, ◌<◌, ◌%◌, ◌≡◌, ◌≢◌, refl, sym, ap, subst, ◌∙◌, inl, inr, Bool, true, false, Bool-cases,
  List, [], ◌∷◌, ◌++◌, arith, int_mod, ◌==◌, ltb, if◌then◌else◌, length, ◌&&◌,
}
use golm.History.{returns}
use golm.Bus.{Event, Channel, Heap, write, Subscription, send, matches, offer, deliver, sent}
use golm.Bus.Live.{write_same, write_other, NotIn, Live, Live-same}

-- A subscriber with room that asked for the topic has the event last; nobody else sees anything.
abbrev pub has_room : Channel → Bool
has_room c = ltb (length c.queue) c.capacity

abbrev pub got : Event → Subscription → Channel → Channel
got ev x c =
    if matches x.topic ev.topic && has_room c then record c { queue = c.queue ++ ev ∷ [] } else c

abbrev pub Gets : Event → Heap → Heap → List Subscription → Type 0
Gets ev h k [] = Unit {0}
Gets ev h k (x ∷ xs) = (k x.ch ≡ got ev x (h x.ch)) × Gets ev h k xs

-- The number of subscribers that asked for the topic and have no room.
abbrev pub missed : Event → Subscription → Channel → ℕ
missed ev x c = if matches x.topic ev.topic then (if has_room c then 0 else 1) else 0

abbrev pub all_missed : Event → Heap → List Subscription → ℕ
all_missed ev h [] = 0
all_missed ev h (x ∷ xs) = missed ev x (h x.ch) + all_missed ev h xs

got_open : (ev : Event) (x : Subscription) (c : Channel) → (got ev x c).is_open ≡ c.is_open
got_open ev x c = elim (Bool-cases (matches x.topic ev.topic && has_room c)) [
  | inl e ↦ rw e refl
  | inr e ↦ rw e refl
]

-- One offer changes nothing but the channel that it is made to.
record Offered (ev : Event) (h : Heap) (x : Subscription) (d : ℕ) (k : Heap) (d' : ℕ) : Type 0 where
  handed : k x.ch ≡ got ev x (h x.ch)
  others : (j : ℕ) → x.ch ≢ j → k j ≡ h j
  counted : d' ≡ (d + missed ev x (h x.ch)) % int_mod

send_room :
    (ev : Event) (c : ℕ) (h : Heap)
    → (h c).is_open ≡ true
    → has_room (h c) ≡ true
    → send ev c h ≡ returns (write h c (record (h c) { queue = (h c).queue ++ ev ∷ [] }), true)
unfolding send
send_room ev c h o f = rw o (rw f refl)

send_full :
    (ev : Event) (c : ℕ) (h : Heap)
    → (h c).is_open ≡ true
    → has_room (h c) ≡ false
    → send ev c h ≡ returns (h, false)
unfolding send
send_full ev c h o f = rw o (rw f refl)

offer-Offered :
    (ev : Event) (h : Heap) (x : Subscription) (d : ℕ)
    → (h x.ch).is_open ≡ true
    → d < int_mod
    → (k : Heap) × (d' : ℕ) × (offer ev x (h, d) ≡ returns (k, d')) × Offered ev h x d k d'
unfolding offer sent
offer-Offered ev h x d o r = elim (Bool-cases (matches x.topic ev.topic)) [
  | inl m ↦ elim (Bool-cases (has_room (h x.ch))) [
    | inl f ↦
        let v : Channel = record (h x.ch) { queue = (h x.ch).queue ++ ev ∷ [] } in
        (
          write h x.ch v,
          d,
          rw m (ap (sent d) (send_room ev x.ch h o f)),
          record {
            handed = rw (m, f) (write_same h x.ch v);
            others = λ j n. write_other h x.ch j v n;
            counted = rw (m, f) (omega arith);
          },
        )
    | inr f ↦ (
      h,
      (d + 1) % int_mod,
      rw m (ap (sent d) (send_full ev x.ch h o f)),
      record { handed = rw (m, f) refl; others = λ j n. refl; counted = rw (m, f) refl },
    )
  ]
  | inr m ↦ (
    h,
    d,
    rw m refl,
    record { handed = rw m refl; others = λ j n. refl; counted = rw m (omega arith) },
  )
]

Gets-same :
    (ev : Event) (h h₁ k : Heap) (c : ℕ) (xs : List Subscription)
    → ((j : ℕ) → c ≢ j → h₁ j ≡ h j)
    → NotIn c xs
    → Gets ev h₁ k xs
    → Gets ev h k xs
Gets-same ev h h₁ k c [] e out g = tt
Gets-same ev h h₁ k c (x ∷ xs) e out g =
    (g.0 ∙ ap (got ev x) (e x.ch (λ q. out.0 (sym q))), Gets-same ev h h₁ k c xs e out.1 g.1)

missed_same :
    (ev : Event) (h h₁ : Heap) (c : ℕ) (xs : List Subscription)
    → ((j : ℕ) → c ≢ j → h₁ j ≡ h j)
    → NotIn c xs
    → all_missed ev h₁ xs ≡ all_missed ev h xs
missed_same ev h h₁ c [] e out = refl
missed_same ev h h₁ c (x ∷ xs) e out =
    rw (e x.ch (λ q. out.0 (sym q)))
      (ap (λ n. missed ev x (h x.ch) + n) (missed_same ev h h₁ c xs e out.1))

-- All subscribers are served, each on its own.
pub record Delivered (ev : Event) (h : Heap) (xs : List Subscription) (d : ℕ) (k : Heap) (d' : ℕ)
    : Type 0 where
  pub served : Gets ev h k xs
  pub others : (j : ℕ) → NotIn j xs → k j ≡ h j
  pub opens : (j : ℕ) → (k j).is_open ≡ (h j).is_open
  pub counted : d' ≡ (d + all_missed ev h xs) % int_mod

Offered-open :
    (ev : Event) (h : Heap) (x : Subscription) (d : ℕ) (k : Heap) (d' : ℕ)
    → Offered ev h x d k d'
    → (j : ℕ) → (k j).is_open ≡ (h j).is_open
Offered-open ev h x d k d' a j = elim (Bool-cases (x.ch == j)) [
  | inl e ↦
      let q : x.ch ≡ j = ground arith in
      subst (λ i. (k i).is_open ≡ (h i).is_open) q
        (ap (λ (z : Channel). z.is_open) a.handed ∙ got_open ev x (h x.ch))
  | inr e ↦ let n : x.ch ≢ j = λ q. ground arith in ap (λ (z : Channel). z.is_open) (a.others j n)
]

pub deliver-Delivered :
    (ev : Event) (n : ℕ) (xs : List Subscription) (h : Heap) (d : ℕ)
    → Live h n xs
    → d < int_mod
    → (k : Heap) × (d' : ℕ) × (deliver ev xs (h, d) ≡ returns (k, d')) × Delivered ev h xs d k d'
unfolding deliver
deliver-Delivered ev n [] h d l r = (
  h,
  d,
  refl,
  record { served = tt; others = λ j _. refl; opens = λ j. refl; counted = omega arith },
)
deliver-Delivered ev n (x ∷ xs) h d l r =
    let (h₁, d₁, e, a) = offer-Offered ev h x d l.0 r in
    let opens = Offered-open ev h x d h₁ d₁ a in
    let (k, d₂, f, b) =
      deliver-Delivered ev n xs h₁ d₁ (Live-same h h₁ n xs opens l.3) (omega (arith, a.counted)) in
    (
      k,
      d₂,
      rw e f,
      record {
        served = (b.others x.ch l.2 ∙ a.handed, Gets-same ev h h₁ k x.ch xs a.others l.2 b.served);
        others = λ j out. b.others j out.1 ∙ a.others j out.0;
        opens = λ j. b.opens j ∙ opens j;
        counted = omega (arith, a.counted, b.counted, missed_same ev h h₁ x.ch xs a.others l.2);
      },
    )
