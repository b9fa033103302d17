-- ===== src/Signal/Schedule/Ready.antt =====
-- What a signal must be for what may happen to it while a slot of a call runs, and what a disconnection
-- through a handle keeps of it.
use signals.Base.{
  ℕ, ◌≡◌, refl, sym, subst, ◌∙◌, ltb, Bool, true, false, Option, none, some, List, [], ◌∷◌, ◌==◌,
  arith, inl, inr, Bool-cases, Option-cases,
}
use signals.Slot.{Slot}
use signals.Groups.{GroupKey}
use signals.Groups.Segments.{Segment}
use signals.Connection.{ConnectionBody, hold, disconnect_body}
use signals.Connection.Body.{nolock_disconnect-Releases}
use signals.Connection.Handle.{Store, AllCounted, disconnect, disconnect_locked, put_body}
use signals.Invocation.Callee.{Keeps, put-Keeps}
use signals.Signal.{SignalImpl, unique, make_signal}
use signals.Signal.Stored.{put_other, put-AllCounted}
use signals.Signal.Sharing.{addressed, is_reader_list}
use signals.Signal.Consistent.{Consistent}

module _ {F Group : Type 0} where
  -- A body that is there is not one that is not.
  other :
      (i j : ℕ) (b : ConnectionBody F (GroupKey Group)) (store : Store F (GroupKey Group))
      → store i ≡ some b
      → store j ≡ none
      → (i == j) ≡ false
  other i j b store e q = elim (Bool-cases (i == j)) [
    | inr h ↦ h
    | inl h ↦
        let same : i ≡ j = ground arith in
        let gone : store i ≡ none = subst (λ k. store k ≡ none) (sym same) q in
        absurd (ground arith)
  ]

  pub disconnect-Kept :
      (users : ℕ → ℕ) (i : ℕ) (store : Store F (GroupKey Group))
      → AllCounted users store
      → (after : Store F (GroupKey Group)) × (trash : List (Option (Slot F))) × (disconnect
            (record { weak = some i })
            store
          ≡ some (after, trash))
        × AllCounted users after
        × Keeps store after
        × ((j : ℕ) → store j ≡ none → after j ≡ none)
  unfolding disconnect disconnect_locked disconnect_body
  disconnect-Kept users i store all = elim (Option-cases (store i)) [
    | inl e ↦ (store, [], rw e refl, all, (λ j b q. (b, q, refl)), (λ j q. q))
    | inr (b, e) ↦
        let d = nolock_disconnect-Releases (users i) (hold b) (all i b e) in
        (
          put_body i d.0.left.body store,
          d.0.left.garbage,
          rw e (rw d.0.returns refl),
          put-AllCounted users i d.0.left.body store all d.0.keeps,
          (λ j c q. put-Keeps i j b d.0.left.body c store e d.0.key_left q),
          (λ j q. put_other i j d.0.left.body store (other i j b store e q) ∙ q),
        )
  ]

module _ {F Group C : Type 0} (cmp : Group → Group → Bool) where
  -- A consistent signal whose addresses and identities have been allocated in order, and whose list
  -- is read by a call only if its state is.
  pub record Ready (users : ℕ → ℕ) (s : SignalImpl F Group C) : Type 0 where
    pub segs : List (Segment (GroupKey Group) ℕ)
    pub consistent : Consistent cmp users segs s
    pub low : addressed s.next_address (s.shared_state ∷ s.readers) ≡ true
    pub apart : unique s ≡ true → is_reader_list s.shared_state.connection_bodies s.readers ≡ false
    pub fresh : (j : ℕ) → ltb j s.next_body ≡ false → (s.bodies j ≡ none) × (users j ≡ 0)

  -- The signal is ready again, and the calls that run still read what they read.
  pub record Survives (users : ℕ → ℕ) (s : SignalImpl F Group C) (o : Option (SignalImpl F Group C))
      : Type 0 where
    pub after : SignalImpl F Group C
    pub returns : o ≡ some after
    pub ready : Ready users after
    pub read_on :
        (a : ℕ) → is_reader_list a s.readers ≡ true → is_reader_list a after.readers ≡ true
    pub lists_left : (a : ℕ) → is_reader_list a s.readers ≡ true → after.lists a ≡ s.lists a

  pub doubled :
      (s : SignalImpl F Group C)
      → addressed s.next_address (s.shared_state ∷ s.readers) ≡ true
      → addressed s.next_address (s.shared_state ∷ s.shared_state ∷ s.readers) ≡ true
  doubled s h = ground arith

  pub low_tail :
      (s : SignalImpl F Group C)
      → addressed s.next_address (s.shared_state ∷ s.readers) ≡ true
      → addressed s.next_address s.readers ≡ true
  low_tail s h = ground arith

  -- A new signal is ready, while no body is in use.
  pub make_signal-Ready :
      (users : ℕ → ℕ) (c : C) → ((j : ℕ) → users j ≡ 0) → Ready users (make_signal c)
  unfolding make_signal unique
  make_signal-Ready users c idle = record {
    segs = [];
    consistent = record {
      models = record { list_flat = refl; map_index = refl; sorted = tt; unique = tt; fresh = tt };
      counted = λ j b e. absurd (ground arith);
      keyed = tt;
    };
    low = refl;
    apart = λ u. refl;
    fresh = λ j h. (refl, idle j);
  }
