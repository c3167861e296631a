-- ===== src/Bus/Safety.antt =====
-- bus.go: no call sends on a closed channel or closes one twice.
use golm.Common.{
  ℕ, ◌<◌, ◌≡◌, ◌≢◌, refl, sym, ap, ◌∙◌, inl, inr, true, false, Bool-cases, Option, none, some, List,
  [], ◌∷◌, arith, int_mod, ◌==◌, Bytes,
}
use golm.History.{Call, returns}
use golm.Bus.{
  Event, Channel, Heap, write, Subscription, State, bind, close_channel, subscribe, take_out,
  unsubscribe, publish, close_all, close, receive, Op, subscribes, unsubscribes, publishes, closes,
  receives, apply, apply_all,
}
use golm.Bus.Live.{write_same, NotIn, Live, Live-same, Live-write, Live-fresh}
use golm.Bus.Delivery.{Delivered, deliver-Delivered}

pub record IsSafe (s : State) : Type 0 where
  pub live : Live s.heap s.fresh s.bus.subs
  pub counted : s.bus.dropped < int_mod
  pub shut : s.bus.closed ≡ true → s.bus.subs ≡ []

-- What `take_out` takes out.
abbrev Taken : Heap → ℕ → List Subscription → Option (Subscription × List Subscription) → Type 0
Taken h n xs none = Unit {0}
Taken h n xs (some (y, ys)) =
    ((h y.ch).is_open ≡ true)
    × NotIn y.ch ys
    × Live h n ys
    × ((c : ℕ) → NotIn c xs → (y.ch ≢ c) × NotIn c ys)

take_out-Taken :
    (h : Heap) (n id : ℕ) (xs : List Subscription) → Live h n xs → Taken h n xs (take_out id xs)
unfolding take_out
take_out-Taken h n id [] l = tt
take_out-Taken h n id (x ∷ xs) l = elim (Bool-cases (x.id == id)) [
  | inl e ↦ rw e (l.0, l.2, l.3, λ c a. a)
  | inr e ↦ rw e (later (take_out id xs) (take_out-Taken h n id xs l.3))
]
  where
    later :
        (o : Option (Subscription × List Subscription))
        → Taken h n xs o
        → Taken h n (x ∷ xs) (elim o [ none ↦ none | some (y, ys) ↦ some (y, x ∷ ys) ])
    later none t = tt
    later (some (y, ys)) (a, b, c, d) = (
      a,
      (λ e. (d x.ch l.2).0 (sym e), b),
      (l.0, l.1, (d x.ch l.2).1, c),
      λ j out. ((d j out.1).0, (out.0, (d j out.1).1)),
    )

-- The call returns, so nothing in it panicked, and the channels are in order after it.
abbrev pub Safely : Call State → Type 0
Safely c = (t : State) × (c ≡ returns t) × IsSafe t

close_channel_open :
    (c : ℕ) (h : Heap)
    → (h c).is_open ≡ true
    → close_channel c h ≡ returns (write h c (record (h c) { is_open = false }))
unfolding close_channel
close_channel_open c h o = rw o refl

close_all-returns :
    (h : Heap) (n : ℕ) (xs : List Subscription)
    → Live h n xs
    → (k : Heap) × (close_all xs h ≡ returns k)
unfolding close_all
close_all-returns h n [] l = (h, refl)
close_all-returns h n (x ∷ xs) l =
    let (k, e) =
      close_all-returns (write h x.ch (record (h x.ch) { is_open = false })) n xs
        (Live-write h n x.ch (record (h x.ch) { is_open = false }) xs l.2 l.3) in
    (k, rw (close_channel_open x.ch h l.0, bind) e)

unsubscribe-Taken :
    (id : ℕ) (s : State)
    → IsSafe s
    → (o : Option (Subscription × List Subscription)) → take_out id s.bus.subs ≡ o
    → Taken s.heap s.fresh s.bus.subs o
    → Safely (unsubscribe id s)
unfolding unsubscribe take_out
unsubscribe-Taken id s f none q t = (s, rw (q, unsubscribe) refl, f)
unsubscribe-Taken id s f (some (x, xs)) q (o, out, l, _) = (
  record s {
    bus = record (s.bus) { subs = xs };
    heap = write s.heap x.ch (record (s.heap x.ch) { is_open = false });
  },
  rw (q, unsubscribe) (rw (close_channel_open x.ch s.heap o, bind) refl),
  record {
    live = Live-write s.heap s.fresh x.ch (record (s.heap x.ch) { is_open = false }) xs out l;
    counted = f.counted;
    shut = λ c. let z = sym (ap (take_out id) (f.shut c)) ∙ q in cc;
  },
)

subscribe-IsSafe : (t : Bytes) (s : State) → IsSafe s → IsSafe (subscribe t s)
unfolding subscribe
subscribe-IsSafe t s f = elim (Bool-cases s.bus.closed) [
  | inl c ↦ simp c (record {
    live =
        (Live-fresh s.heap s.fresh (record { queue = []; capacity = 0; is_open = false }) s.bus.subs
          f.live).0;
    counted = f.counted;
    shut = f.shut;
  })
  | inr c ↦
      let v : Channel = record { queue = []; capacity = 64; is_open = true } in
      let (rest, out) = Live-fresh s.heap s.fresh v s.bus.subs f.live in
      simp c (record {
        live =
            (ap (λ (z : Channel). z.is_open) (write_same s.heap s.fresh v), omega arith, out, rest);
        counted = f.counted;
        shut = λ q. cc;
      })
]

close-Safely : (s : State) → IsSafe s → Safely (close s)
unfolding close
close-Safely s f = elim (Bool-cases s.bus.closed) [
  | inl c ↦ (s, simp c refl, f)
  | inr c ↦
      let (k, e) = close_all-returns s.heap s.fresh s.bus.subs f.live in
      (
        record s { bus = record (s.bus) { subs = []; closed = true }; heap = k },
        simp c (rw (e, bind) refl),
        record { live = tt; counted = f.counted; shut = λ _. refl },
      )
]

-- `Publish` on an open bus returns. Each subscriber of the topic with room has the event last in
-- its channel, every other channel is as it was, and the subscribers of the topic without room
-- are counted as drops.
pub publish-Delivered :
    (ev : Event) (s : State)
    → IsSafe s
    → s.bus.closed ≡ false
    → (t : State) × (publish ev s ≡ returns t)
      × (t.bus.subs ≡ s.bus.subs)
      × Delivered ev s.heap s.bus.subs s.bus.dropped t.heap t.bus.dropped
unfolding publish
publish-Delivered ev s f c =
    let (h, d, e, b) =
      deliver-Delivered ev s.fresh s.bus.subs s.heap s.bus.dropped f.live f.counted in
    (
      record s { bus = record (s.bus) { dropped = d }; heap = h },
      simp c (rw (e, bind) refl),
      refl,
      b,
    )

publish-Safely : (ev : Event) (s : State) → IsSafe s → Safely (publish ev s)
unfolding publish
publish-Safely ev s f = elim (Bool-cases s.bus.closed) [
  | inl c ↦ (s, simp c refl, f)
  | inr c ↦
      let (h, d, e, b) =
        deliver-Delivered ev s.fresh s.bus.subs s.heap s.bus.dropped f.live f.counted in
      (
        record s { bus = record (s.bus) { dropped = d }; heap = h },
        simp c (rw (e, bind) refl),
        record {
          live = Live-same s.heap h s.fresh s.bus.subs b.opens f.live;
          counted = omega (arith, b.counted);
          shut = f.shut;
        },
      )
]

receive-IsSafe : (c : ℕ) (s : State) → IsSafe s → IsSafe (receive c s)
unfolding receive
receive-IsSafe c s f = go (s.heap c).queue refl
  where
    go : (q : List Event) → (s.heap c).queue ≡ q → IsSafe (receive c s)
    go [] e = rw (e, receive) f
    go (ev ∷ q) e =
        let v : Channel = record (s.heap c) { queue = q } in
        let same : (j : ℕ) → (write s.heap c v j).is_open ≡ (s.heap j).is_open = λ j.
          elim (Bool-cases (c == j)) [
            | inl h ↦ let z : c ≡ j = ground arith in rw h (ap (λ i. (s.heap i).is_open) z)
            | inr h ↦ rw h refl
          ] in
        rw (e, receive)
          (record {
            live = Live-same s.heap (write s.heap c v) s.fresh s.bus.subs same f.live;
            counted = f.counted;
            shut = f.shut;
          })

apply-Safely : (o : Op) (s : State) → IsSafe s → Safely (apply o s)
unfolding apply
apply-Safely (subscribes t) s f = (subscribe t s, refl, subscribe-IsSafe t s f)
apply-Safely (unsubscribes id) s f =
    unsubscribe-Taken id s f (take_out id s.bus.subs) refl
      (take_out-Taken s.heap s.fresh id s.bus.subs f.live)
apply-Safely (publishes ev) s f = publish-Safely ev s f
apply-Safely closes s f = close-Safely s f
apply-Safely (receives c) s f = (receive c s, refl, receive-IsSafe c s f)

-- From a state whose channels are in order, such as that of a new bus, every series of calls
-- returns and leaves them in order: in whatever order goroutines subscribe, unsubscribe (also twice),
-- publish, receive and close, no event is sent on a closed channel and no channel is closed twice.
pub apply_all-Safely : (os : List Op) (s : State) → IsSafe s → Safely (apply_all os s)
unfolding apply_all
apply_all-Safely [] s f = (s, refl, f)
apply_all-Safely (o ∷ os) s f =
    let (t, e, g) = apply-Safely o s f in
    let (u, e', g') = apply_all-Safely os t g in (u, rw (e, bind) e', g')
