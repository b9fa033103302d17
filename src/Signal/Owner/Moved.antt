-- ===== src/Signal/Owner/Moved.antt =====
-- signal_template.hpp: what the move assignment of a signal leaves, and which implementation a slot that
-- wraps a signal calls.
use signals.Base.{
  fun_ext, ℕ, ◌<◌, ◌+◌, ◌-◌, if◌then◌else◌, ◌≡◌, ◌≢◌, refl, sym, ap, ◌∙◌, Bool, true, false, Option,
  none, some, ◌==◌, arith, Bool-cases, inl, inr,
}
use signals.Buffer.{◌>>=◌}
use signals.Signal.{SignalImpl, put}
use signals.Signal.Sharing.{put_same, put_ne}
use signals.Signal.Owner.{
  Signal, Heap, null, make_weak_signal, reset, move_assign, on_impl, unless_null, lock_weak,
  acquire, call_weak_signal, call_owner, signal_num_slots, signal_empty,
}

abbrev pub owns : Option ℕ → ℕ → Bool
owns none b = false
owns (some a) b = a == b

taken : (n : ℕ) → n + 1 - 1 ≡ n
taken n = omega arith

module _ {F Group C : Type 0} where
  abbrev pub last_owner : Option ℕ → Heap F Group C → Bool
  last_owner none h = false
  last_owner (some a) h = h.owners a == 1

  -- The implementation of `rhs` goes to `this`, which has given up its old one: that is gone if no
  -- other shared pointer owns it.
  pub record Moves (alive : ℕ → Bool) {A : Type 0}
      (run : SignalImpl F Group C → Option (SignalImpl F Group C × A)) (this rhs : Signal)
      (h : Heap F Group C) (moved : (Signal × Signal) × Heap F Group C) : Type 0 where
    pub owner : moved.0.0.pimpl ≡ rhs.pimpl
    pub source_null : null moved.0.1 ≡ true
    pub no_slots : signal_num_slots alive moved.0.1 moved.1 ≡ some (moved.1, 0)
    pub no_slot : signal_empty alive moved.0.1 moved.1 ≡ some (moved.1, true)
    pub others_left : (b : ℕ) → this.pimpl ≢ some b → moved.1.impls b ≡ h.impls b
    pub same_result :
        (call_owner run moved.0.0 moved.1 >>= λ c. some c.1)
        ≡ (call_owner run rhs h >>= λ c. some c.1)
    pub wrapped :
        call_weak_signal run (make_weak_signal rhs) moved.1 ≡ call_owner run moved.0.0 moved.1
    pub owners_left :
        (b : ℕ) → moved.1.owners b ≡ (if owns this.pimpl b then h.owners b - 1 else h.owners b)
    pub old_left :
        lock_weak (make_weak_signal this) moved.1
        ≡ (if last_owner this.pimpl h then none else lock_weak (make_weak_signal this) h)

  reset_others :
      (p : Option ℕ) (h : Heap F Group C) (b : ℕ) → p ≢ some b → (reset p h).impls b ≡ h.impls b
  unfolding reset
  reset_others none h b e = refl
  reset_others (some c) h b e = elim (Bool-cases (c == b)) [
    | inl t ↦ absurd (e (ap some (ground arith)))
    | inr t ↦ elim (Bool-cases (h.owners c == 1)) [
      | inl last ↦ rw last (put_ne c b none h.impls t)
      | inr more ↦ rw more refl
    ]
  ]

  reset_owners :
      (p : Option ℕ) (h : Heap F Group C) (b : ℕ)
      → (reset p h).owners b ≡ (if owns p b then h.owners b - 1 else h.owners b)
  unfolding reset
  reset_owners none h b = refl
  reset_owners (some c) h b = elim (Bool-cases (c == b)) [
    | inl t ↦ rw t (ap (λ k. h.owners k - 1) (ground arith))
    | inr t ↦ rw t refl
  ]

  abbrev found : ℕ → Option (SignalImpl F Group C) → Option ℕ
  found a o = elim o [ none ↦ none | some i ↦ some a ]

  reset_old :
      (p : Option ℕ) (h : Heap F Group C)
      → lock_weak (make_weak_signal (record { pimpl = p })) (reset p h)
        ≡ (if last_owner p h then none else lock_weak (make_weak_signal (record { pimpl = p })) h)
  unfolding reset lock_weak make_weak_signal
  reset_old none h = refl
  reset_old (some c) h = elim (Bool-cases (h.owners c == 1)) [
    | inl last ↦ rw last (ap (found c) (put_same c none h.impls))
    | inr more ↦ rw more refl
  ]

  -- A shared pointer that is taken and given back leaves the heap as it is.
  taken_owners :
      (a : ℕ) (h : Heap F Group C) (j : ℕ)
      → put a (put a (h.owners a + 1) h.owners a - 1) (put a (h.owners a + 1) h.owners) j
        ≡ h.owners j
  taken_owners a h j = elim (Bool-cases (a == j)) [
    | inl t ↦ rw t (
        ap (λ n. n - 1) (put_same a (h.owners a + 1) h.owners)
        ∙ taken (h.owners a)
        ∙ ap h.owners (ground arith))
    | inr t ↦ rw t refl
  ]

  given_back :
      (a : ℕ) (h : Heap F Group C) (f : ℕ → Option (SignalImpl F Group C))
      → 0 < h.owners a
      → reset (some a) (record (acquire (some a) h) { impls = f }) ≡ record h { impls = f }
  unfolding reset acquire
  given_back a h f owned =
      let more : (put a (h.owners a + 1) h.owners a == 1) ≡ false =
        ap (λ n. n == 1) (put_same a (h.owners a + 1) h.owners) ∙ ground (arith, owned) in
      rw more (ap (λ (o : ℕ → ℕ). record h { impls = f; owners = o }) (fun_ext (taken_owners a h)))

  more_lem :
      (a : ℕ) (p : Option ℕ) (h : Heap F Group C)
      → 0 < h.owners a
      → p ≢ some a
      → 0 < (reset p h).owners a
  more_lem a none h owned other = ground (arith, reset_owners none h a)
  more_lem a (some c) h owned other = elim (Bool-cases (c == a)) [
    | inl t ↦ absurd (other (ap some (ground arith)))
    | inr t ↦ ground (arith, reset_owners (some c) h a)
  ]

  -- What an operation returns, without the heap.
  abbrev told :
      {A : Type 0} (run : SignalImpl F Group C → Option (SignalImpl F Group C × A))
      → Option (SignalImpl F Group C)
      → Option A
  told run o = o >>= λ i. run i >>= λ c. some c.1

  abbrev put_back :
      {A : Type 0} → ℕ → Heap F Group C → SignalImpl F Group C × A → Heap F Group C × A
  put_back a h r = (record h { impls = put a (some r.0) h.impls }, r.1)

  put_back_lem :
      {A : Type 0} (a : ℕ) (h : Heap F Group C) (o : Option (SignalImpl F Group C × A))
      → ((o >>= λ r. some (put_back a h r)) >>= λ c. some c.1) ≡ (o >>= λ c. some c.1)
  put_back_lem a h none = refl
  put_back_lem a h (some r) = refl

  abbrev give_back : {A : Type 0} → ℕ → Heap F Group C × A → Heap F Group C × A
  give_back a r = (reset (some a) r.0, r.1)

  returned_lem :
      {A : Type 0} (a : ℕ) (h : Heap F Group C) (o : Option (SignalImpl F Group C × A))
      → 0 < h.owners a
      → ((o >>= λ r. some (put_back a (acquire (some a) h) r)) >>= λ r. some (give_back a r))
        ≡ (o >>= λ r. some (put_back a h r))
  unfolding acquire
  returned_lem a h none owned = refl
  returned_lem a h (some r) owned =
      ap (λ g. some (g, r.1)) (given_back a h (put a (some r.0) h.impls) owned)

  borrowed_lem :
      {A : Type 0} (run : SignalImpl F Group C → Option (SignalImpl F Group C × A)) (a : ℕ)
      (h : Heap F Group C) (o : Option (SignalImpl F Group C))
      → 0 < h.owners a
      → ((o >>= λ i. run i >>= λ r. some (put_back a (acquire (some a) h) r)) >>= λ r.
          some (give_back a r))
        ≡ (o >>= λ i. run i >>= λ r. some (put_back a h r))
  borrowed_lem run a h none owned = refl
  borrowed_lem run a h (some i) owned = returned_lem a h (run i) owned

  -- A call through a shared pointer of its own.
  abbrev lent :
      {A : Type 0} (run : SignalImpl F Group C → Option (SignalImpl F Group C × A))
      → Heap F Group C
      → Option ℕ
      → Option (Heap F Group C × A)
  lent run h p = on_impl run p (acquire p h) >>= λ r. some (reset p r.0, r.1)

  -- A slot that wraps a signal whose implementation has owners calls it.
  weak_call :
      {A : Type 0} (run : SignalImpl F Group C → Option (SignalImpl F Group C × A)) (s : Signal)
      (a : ℕ) (i : SignalImpl F Group C) (h : Heap F Group C)
      → s.pimpl ≡ some a
      → h.impls a ≡ some i
      → 0 < h.owners a
      → call_weak_signal run (make_weak_signal s) h ≡ call_owner run s h
  unfolding call_weak_signal call_owner lock_weak make_weak_signal on_impl acquire
  weak_call run s a i h e f owned =
      let there : lock_weak (make_weak_signal s) h ≡ some a = rw e (ap (found a) f) in
      ap (lent run h) there
      ∙ borrowed_lem run a h (h.impls a) owned
      ∙ sym (ap (λ p. on_impl run p h) e)

  told_lem :
      {A : Type 0} (run : SignalImpl F Group C → Option (SignalImpl F Group C × A)) (a : ℕ)
      (h : Heap F Group C) (o : Option (SignalImpl F Group C))
      → ((o >>= λ i. run i >>= λ r. some (put_back a h r)) >>= λ c. some c.1) ≡ told run o
  told_lem run a h none = refl
  told_lem run a h (some i) = put_back_lem a h (run i)

  same_call :
      {A : Type 0} (run : SignalImpl F Group C → Option (SignalImpl F Group C × A)) (s t : Signal)
      (a : ℕ) (g h : Heap F Group C)
      → s.pimpl ≡ some a
      → t.pimpl ≡ some a
      → g.impls a ≡ h.impls a
      → (call_owner run s g >>= λ c. some c.1) ≡ (call_owner run t h >>= λ c. some c.1)
  unfolding call_owner on_impl
  same_call run s t a g h e f k =
      rw e
        (rw f (told_lem run a g (g.impls a) ∙ ap (told run) k ∙ sym (told_lem run a h (h.impls a))))

  -- Where a signal has an implementation that is alive and has an owner, the move assignment of it
  -- to another signal, which does not have the same implementation, makes the target the owner;
  -- the source is null, has 0 slots and is empty; implementations other than the target's old one
  -- are as before, the old one has an owner less and no other count changes, and a slot that wraps
  -- the old one can still lock it exactly if it could before and the target was not its last
  -- owner. An operation on the target returns what it would have returned on the source before,
  -- and a slot that wrapped the source before calls the target's implementation and gives its
  -- share back.
  pub move_assign-Moves :
      (alive : ℕ → Bool) {A : Type 0}
      (run : SignalImpl F Group C → Option (SignalImpl F Group C × A)) (this rhs : Signal) (a : ℕ)
      (i : SignalImpl F Group C) (h : Heap F Group C)
      → rhs.pimpl ≡ some a
      → h.impls a ≡ some i
      → 0 < h.owners a
      → this.pimpl ≢ some a
      → Moves alive run this rhs h (move_assign false this rhs h)
  unfolding move_assign null signal_num_slots signal_empty unless_null
  move_assign-Moves alive run this rhs a i h e f owned other =
      let left : (reset this.pimpl h).impls a ≡ h.impls a = reset_others this.pimpl h a other in
      record {
        owner = refl;
        source_null = refl;
        no_slots = refl;
        no_slot = refl;
        others_left = reset_others this.pimpl h;
        same_result = same_call run (record { pimpl = rhs.pimpl }) rhs a _ h e e left;
        wrapped = weak_call run rhs a i _ e (left ∙ f) (more_lem a this.pimpl h owned other);
        owners_left = reset_owners this.pimpl h;
        old_left = reset_old this.pimpl h;
      }
