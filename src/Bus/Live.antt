-- ===== src/Bus/Live.antt =====
-- bus.go: the channels of the subscriptions.
use golm.Common.{ℕ, suc, ◌<◌, ◌≡◌, ◌≢◌, sym, ap, ◌∙◌, true, List, [], ◌∷◌, arith}
use golm.Bus.{Channel, Heap, write, Subscription}

pub write_same : (h : Heap) (c : ℕ) (x : Channel) → write h c x c ≡ x
write_same h c x = ground arith

pub write_other : (h : Heap) (c j : ℕ) (x : Channel) → c ≢ j → write h c x j ≡ h j
write_other h c j x n = ground arith

-- No subscription of the list has the channel.
abbrev pub NotIn : ℕ → List Subscription → Type 0
NotIn c [] = Unit {0}
NotIn c (x ∷ xs) = (x.ch ≢ c) × NotIn c xs

-- The channels are open, each in its own place, and all of them in use.
abbrev pub Live : Heap → ℕ → List Subscription → Type 0
Live h n [] = Unit {0}
Live h n (x ∷ xs) = ((h x.ch).is_open ≡ true) × (x.ch < n) × NotIn x.ch xs × Live h n xs

pub Live-same :
    (h k : Heap) (n : ℕ) (xs : List Subscription)
    → ((j : ℕ) → (k j).is_open ≡ (h j).is_open)
    → Live h n xs
    → Live k n xs
Live-same h k n [] e l = tt
Live-same h k n (x ∷ xs) e l = (e x.ch ∙ l.0, l.1, l.2, Live-same h k n xs e l.3)

pub Live-write :
    (h : Heap) (n c : ℕ) (x : Channel) (xs : List Subscription)
    → NotIn c xs
    → Live h n xs
    → Live (write h c x) n xs
Live-write h n c x [] a l = tt
Live-write h n c x (y ∷ ys) a l = (
  ap (λ (z : Channel). z.is_open) (write_other h c y.ch x (λ e. a.0 (sym e))) ∙ l.0,
  l.1,
  l.2,
  Live-write h n c x ys a.1 l.3,
)

pub Live-fresh :
    (h : Heap) (n : ℕ) (x : Channel) (xs : List Subscription)
    → Live h n xs
    → Live (write h n x) (suc n) xs × NotIn n xs
Live-fresh h n x [] l = (tt, tt)
Live-fresh h n x (y ∷ ys) l =
    let apart : n ≢ y.ch = λ e. omega (arith, l.1) in
    let (rest, out) = Live-fresh h n x ys l.3 in
    (
      (
        ap (λ (z : Channel). z.is_open) (write_other h n y.ch x apart) ∙ l.0,
        omega (arith, l.1),
        l.2,
        rest,
      ),
      (λ e. apart (sym e), out),
    )
