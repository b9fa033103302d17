-- ===== src/Signal/Completed.antt =====
-- A whole call of a signal: operator(), with optional_last_value or last_value.
use signals.Base.{
  ℕ, ◌+◌, ◌<◌, ◌≡◌, refl, sym, ap, subst, ◌∙◌, Bool, true, false, Option, some, List, ◌∷◌, ◌==◌,
  ◌||◌, if◌then◌else◌, arith,
}
use signals.Buffer.{◌>>=◌, unsigned_mod}
use signals.Groups.{GroupKey}
use signals.Groups.Segments.{Segment, StrictWeakOrder}
use signals.Invocation.{World, Iter, make_iterator, empty_cache}
use signals.Invocation.Combiner.{Calls, optional_last_value}
use signals.Invocation.Called.{Respects}
use signals.Invocation.Live.{StoredAll}
use signals.Connection.Handle.{AllCounted}
use signals.Invocation.Whole.{Completes, optional_last_value-Completes}
use signals.Signal.{
  SignalImpl, InvocationState, without_reader, unique, current_list, combiner, add_reader,
}
use signals.Signal.Emit.{values_of, begin_call, end_call, call_signal}
use signals.Signal.Consistent.{Consistent}
use signals.Signal.Sharing.{addressed, is_reader_list}
use signals.Signal.Begun.{Keyed-StoredAll, begin_call-Begins}
use signals.Signal.Ended.{end_call-Ended}

module _ {F Group C : Type 0} (cmp : Group → Group → Bool) where
  -- The call has ended: the signal is as consistent as before, no slot is in use that was not
  -- before, and the other running calls hold what they held and read what they read.
  pub record Finishes {Result : Type 0} (users : ℕ → ℕ) (s : SignalImpl F Group C)
      (o : Option (Result × SignalImpl F Group C × (ℕ → Bool))) : Type 0 where
    pub result : Result
    pub after : SignalImpl F Group C
    pub still_alive : ℕ → Bool
    pub returns : o ≡ some (result, after, still_alive)
    pub segs : List (Segment (GroupKey Group) ℕ)
    pub consistent : Consistent cmp users segs after
    pub readers_left : after.readers ≡ s.readers
    pub lists_left : (a : ℕ) → is_reader_list a s.readers ≡ true → after.lists a ≡ s.lists a

first_reader :
    (r : InvocationState) (rs : List InvocationState) → without_reader r.address (r ∷ rs) ≡ rs
first_reader r rs = ap (λ b. if b then rs else r ∷ without_reader r.address rs) (same r.address)
  where
    same : (i : ℕ) → (i == i) ≡ true
    same i = ground arith

is_read :
    (a b : ℕ) (rs : List InvocationState)
    → is_reader_list a rs ≡ true
    → (b == a || is_reader_list a rs) ≡ true
is_read a b rs h = ground arith

module _ {F Group C : Type 0} where
  is_shared : (s : SignalImpl F Group C) → unique (add_reader s) ≡ false
  unfolding unique add_reader
  is_shared s = ground arith

  reading_addressed :
      (s t : SignalImpl F Group C)
      → t.shared_state ≡ s.shared_state
      → t.readers ≡ s.readers
      → t.next_address ≡ s.next_address
      → addressed s.next_address (add_reader s).readers ≡ true
      → addressed (add_reader t).next_address (add_reader t).readers ≡ true
  unfolding add_reader
  reading_addressed s t h k n low =
      subst (λ m. addressed m (t.shared_state ∷ t.readers) ≡ true) (sym n)
        (subst (λ r. addressed s.next_address (r ∷ t.readers) ≡ true) (sym h)
          (subst (λ rs. addressed s.next_address (s.shared_state ∷ rs) ≡ true) (sym k) low))

module _ {F Group C : Type 0} (cmp : Group → Group → Bool) where
  reading_Consistent :
      (users : ℕ → ℕ) (segs : List (Segment (GroupKey Group) ℕ)) (s : SignalImpl F Group C)
      → Consistent cmp users segs s
      → Consistent cmp users segs (add_reader s)
  unfolding add_reader
  reading_Consistent users segs s c = record {
    models = c.models;
    counted = c.counted;
    keyed = c.keyed;
  }

module _ {F Group C R Result : Type 0} (cmp : Group → Group → Bool)
    (run : C → Iter F (GroupKey Group) R → Option (Result × Iter F (GroupKey Group) R)) where
  abbrev answered :
      InvocationState
      → SignalImpl F Group C
      → Result × Iter F (GroupKey Group) R
      → Option (Result × SignalImpl F Group C × (ℕ → Bool))
  answered state s₁ r = do s₂ ← end_call cmp state r.1 s₁; some (r.0, s₂, r.1.world.alive)

  abbrev called :
      (ℕ → Bool) → SignalImpl F Group C → Option (Result × SignalImpl F Group C × (ℕ → Bool))
  called alive s₁ = do
    it ←
        make_iterator (record { bodies = s₁.bodies; alive = alive }) empty_cache
          (values_of (s₁.lists s₁.shared_state.connection_bodies).list)
    r ← run (s₁.combiners s₁.shared_state.combiner) it
    answered s₁.shared_state s₁ r

  call_signal_first :
      (alive : ℕ → Bool) (s : SignalImpl F Group C)
      → call_signal cmp run alive s ≡ (begin_call cmp alive s >>= λ s₁. called alive s₁)
  unfolding call_signal
  call_signal_first alive s = refl

  call_signal_lem :
      (alive : ℕ → Bool) (s s₁ s₂ : SignalImpl F Group C) (it it' : Iter F (GroupKey Group) R)
      (result : Result)
      → begin_call cmp alive s ≡ some s₁
      → make_iterator
          (record { bodies = s₁.bodies; alive = alive })
          empty_cache
          (values_of (current_list s₁).list)
        ≡ some it
      → run (s₁.combiners s₁.shared_state.combiner) it ≡ some (result, it')
      → end_call cmp s₁.shared_state it' s₁ ≡ some s₂
      → call_signal cmp run alive s ≡ some (result, s₂, it'.world.alive)
  call_signal_lem alive s s₁ s₂ it it' result b m r e =
      call_signal_first alive s
      ∙ ap (λ x. x >>= λ y. called alive y) b
      ∙ ap
          (λ x. x >>= λ y.
            run (s₁.combiners s₁.shared_state.combiner) y >>= λ z. answered s₁.shared_state s₁ z)
          m
      ∙ ap (λ x. x >>= λ z. answered s₁.shared_state s₁ z) r
      ∙ ap (λ x. x >>= λ y. some (result, y, it'.world.alive)) e

  -- A call with any combiner that completes.
  pub call_signal-Finishes :
      (o : StrictWeakOrder cmp) (users : ℕ → ℕ) (segs : List (Segment (GroupKey Group) ℕ))
      (alive : ℕ → Bool) (s : SignalImpl F Group C)
      → ((c : C) (w : World F (GroupKey Group)) (is : List ℕ)
          → AllCounted users w.bodies
          → StoredAll is w.bodies
          → Completes users w is (run c))
      → Consistent cmp users segs s
      → addressed s.next_address (add_reader s).readers ≡ true
      → (unique s ≡ true → is_reader_list s.shared_state.connection_bodies s.readers ≡ false)
      → Finishes cmp users s (call_signal cmp run alive s)
  unfolding add_reader combiner
  call_signal-Finishes o users segs alive s completes c low apart =
      let b = begin_call-Begins cmp alive o users segs s c apart in
      let t = b.read in
      let s₁ = add_reader t in
      let w : World F (GroupKey Group) = record { bodies = t.bodies; alive = alive } in
      let is = values_of (current_list t).list in
      let st : StoredAll is t.bodies =
        rw b.consistent.models.list_flat (Keyed-StoredAll cmp b.segs t.bodies b.consistent.keyed) in
      let r = completes (combiner t) w is b.consistent.counted st in
      let e =
        end_call-Ended cmp o users b.segs r.after s₁
          (reading_Consistent cmp users b.segs t b.consistent) (is_shared t)
          (reading_addressed s t b.state_left b.readers_left b.addresses_left low) r.used r.there
          r.kept in
      record {
        result = r.result;
        after = e.after;
        still_alive = r.after.world.alive;
        returns =
            call_signal_lem alive s s₁ e.after r.began r.after r.result b.returns r.made r.returns
              e.returns;
        segs = e.segs;
        consistent = e.consistent;
        readers_left =
            e.readers_left
            ∙ unfold add_reader in (first_reader t.shared_state t.readers ∙ b.readers_left);
        lists_left = λ a h.
            e.lists_left a (
              unfold add_reader in
              is_read a t.shared_state.connection_bodies t.readers
                (subst (λ l. is_reader_list a l ≡ true) (sym b.readers_left) h))
            ∙ b.lists_left a h;
      }

module _ {F Group C R : Type 0} (cmp : Group → Group → Bool) (o : StrictWeakOrder cmp)
    (calls : Calls F (GroupKey Group) R) (users : ℕ → ℕ) (segs : List (Segment (GroupKey Group) ℕ))
    (alive : ℕ → Bool) (s : SignalImpl F Group C) where
  -- A call of a signal with optional_last_value ends, whatever the slots return or throw: no
  -- assertion fails, afterwards the signal is consistent with every body counted as before, and
  -- the other running calls hold the states that they held and read the lists that they read. The
  -- group comparison is a strict weak order, the signal is consistent, every count has room for
  -- two more uses, the readers' addresses have been allocated, a list that a call reads belongs to
  -- a state that a call holds, and the slot functions keep the bodies, their keys and their
  -- counting.
  pub call_signal-optional_last_value-Finishes :
      Respects calls
      → ((j : ℕ) → users j + 2 < unsigned_mod)
      → Consistent cmp users segs s
      → addressed s.next_address (add_reader s).readers ≡ true
      → (unique s ≡ true → is_reader_list s.shared_state.connection_bodies s.readers ≡ false)
      → Finishes cmp users s (call_signal cmp (λ c. optional_last_value calls) alive s)
  call_signal-optional_last_value-Finishes respects room c low apart =
      call_signal-Finishes cmp (λ c. optional_last_value calls) o users segs alive s
        (λ c w is all st. optional_last_value-Completes calls users w is respects room all st) c low
        apart
