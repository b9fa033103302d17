-- ===== src/Signal/Cleaned.antt =====
-- What the clean-ups of a signal leave: the list without slots that do not stay, in the same order.
use signals.Base.{
  ℕ, suc, ◌≡◌, refl, sym, ap, subst, ◌∙◌, Bool, true, false, Option, none, some, List, [], ◌∷◌,
  ◌++◌, ◌==◌, if◌then◌else◌, arith, inl, inr, Bool-cases,
}
use signals.Groups.{GroupKey}
use signals.Groups.Containers.{Node, same_iterator, nodes_from}
use signals.Groups.Segments.{Segment, StrictWeakOrder}
use signals.Signal.{SignalImpl, unique, current_list}
use signals.Signal.Cleanup.{
  begin_at, cleanup_loop, nolock_cleanup_connections_from, nolock_cleanup_connections,
}
use signals.Signal.Emit.{values_of}
use signals.Signal.Consistent.{Consistent, CursorIn}
use signals.Signal.Unmoved.{stays, Unmoved}
use signals.Signal.Sweep.{sweep}
use signals.Signal.Swept.{cleanup_loop-Sweeps}

-- The nodes from an iterator on are swept.
unfoldable pub sweep_from : (ℕ → Bool) → Option ℕ → ℕ → List (Node ℕ) → List (Node ℕ)
sweep_from stays begin count [] = []
sweep_from stays begin count (x ∷ xs) =
    if same_iterator begin (some x.id)
    then sweep stays count 0 (x ∷ xs)
    else x ∷ sweep_from stays begin count xs

-- Where a sweep begins: at the iterator kept, or at the first node if that was at the end.
abbrev pub kept_start : Option ℕ → List (Node ℕ) → Option ℕ
kept_start (some it) xs = some it
kept_start none [] = none
kept_start none (x ∷ xs) = some x.id

-- The values that stay.
abbrev pub staying : (ℕ → Bool) → List ℕ → List ℕ
staying stays [] = []
staying stays (j ∷ js) = if stays j then j ∷ staying stays js else staying stays js

staying-sweep :
    (stays : ℕ → Bool) (count i : ℕ) (ns : List (Node ℕ))
    → staying stays (values_of (sweep stays count i ns)) ≡ staying stays (values_of ns)
unfolding sweep
staying-sweep stays count i [] = refl
staying-sweep stays count i (n ∷ ns) = ground (arith, staying-sweep stays count (suc i) ns)

pub staying-sweep_from :
    (stays : ℕ → Bool) (begin : Option ℕ) (count : ℕ) (ns : List (Node ℕ))
    → staying stays (values_of (sweep_from stays begin count ns)) ≡ staying stays (values_of ns)
unfolding sweep_from
staying-sweep_from stays begin count [] = refl
staying-sweep_from stays begin count (n ∷ ns) =
    elim (Bool-cases (same_iterator begin (some n.id))) [
      | inl e ↦ rw e (staying-sweep stays count 0 (n ∷ ns))
      | inr e ↦ rw e (
          ap (λ t. if stays n.value then n.value ∷ t else t)
            (staying-sweep_from stays begin count ns))
    ]

-- A sweep of the whole list leaves what stays.
pub sweep-all :
    (stays : ℕ → Bool) (i : ℕ) (ns : List (Node ℕ))
    → values_of (sweep stays 0 i ns) ≡ staying stays (values_of ns)
unfolding sweep
sweep-all stays i [] = refl
sweep-all stays i (n ∷ ns) = ground (arith, sweep-all stays (suc i) ns)

-- The list in front of an iterator, which a sweep leaves as it is.
split_at :
    (stays : ℕ → Bool) (begin : Option ℕ) (count : ℕ) (xs : List (Node ℕ))
    → (pre : List (Node ℕ)) × (xs ≡ pre ++ nodes_from begin xs)
      × (sweep_from stays begin count xs ≡ pre ++ sweep stays count 0 (nodes_from begin xs))
unfolding sweep_from nodes_from
split_at stays begin count [] = ([], refl, unfold sweep in refl)
split_at stays begin count (x ∷ xs) = elim (Bool-cases (same_iterator begin (some x.id))) [
  | inl e ↦ ([], rw e refl, rw e refl)
  | inr e ↦
      let p = split_at stays begin count xs in
      (x ∷ p.0, rw e (ap (◌∷◌ x) p.1), rw e (ap (◌∷◌ x) p.2))
]

same_start : (it : Option ℕ) (xs : List (Node ℕ)) → begin_at it xs ≡ kept_start it xs
same_start (some it) xs = refl
same_start none [] = refl
same_start none (x ∷ xs) = refl

module _ {F Group C : Type 0} (cmp : Group → Group → Bool) (alive : ℕ → Bool) where
  -- What a clean-up leaves.
  pub record Cleans (users : ℕ → ℕ) (grab : Bool) (begin : Option ℕ) (count : ℕ)
      (s : SignalImpl F Group C) (o : Option (SignalImpl F Group C)) : Type 0 where
    pub after : SignalImpl F Group C
    pub returns : o ≡ some after
    pub segs : List (Segment (GroupKey Group) ℕ)
    pub consistent : Consistent cmp users segs after
    pub swept :
        (current_list after).list
        ≡ sweep_from (stays grab alive s.bodies) begin count (current_list s).list
    pub cursor_in : CursorIn after.garbage_collector_it (current_list after).list
    pub unmoved : Unmoved grab alive s after
    pub lists_left :
        (a : ℕ) → (s.shared_state.connection_bodies == a) ≡ false → after.lists a ≡ s.lists a

  moved_cursor :
      (grab : Bool) (s t : SignalImpl F Group C) (it : Option ℕ)
      → Unmoved grab alive s t
      → Unmoved grab alive s (record t { garbage_collector_it = it })
  moved_cursor grab s t it m = record {
    stays_left = m.stays_left;
    state_left = m.state_left;
    readers_left = m.readers_left;
    addresses_left = m.addresses_left;
    next_body_left = m.next_body_left;
    absent_left = m.absent_left;
    kept = m.kept;
  }

  cleanup_from_lem :
      (grab : Bool) (begin : Option ℕ) (count : ℕ) (s s' : SignalImpl F Group C) (it : Option ℕ)
      → unique s ≡ true
      → cleanup_loop cmp alive grab count 0 (nodes_from begin (current_list s).list) s
        ≡ some (s', it)
      → nolock_cleanup_connections_from cmp alive grab begin count s
        ≡ some (record s' { garbage_collector_it = it })
  unfolding nolock_cleanup_connections_from
  cleanup_from_lem grab begin count s s' it u e = rw u (rw e refl)

  -- From any iterator on.
  pub cleanup_from-Cleans :
      (o : StrictWeakOrder cmp) (users : ℕ → ℕ) (grab : Bool) (begin : Option ℕ) (count : ℕ)
      (segs : List (Segment (GroupKey Group) ℕ)) (s : SignalImpl F Group C)
      → Consistent cmp users segs s
      → unique s ≡ true
      → Cleans users grab begin count s
          (nolock_cleanup_connections_from cmp alive grab begin count s)
  cleanup_from-Cleans o users grab begin count segs s c u =
      let xs = (current_list s).list in
      let p = split_at (stays grab alive s.bodies) begin count xs in
      let r =
        cleanup_loop-Sweeps cmp alive o users grab count 0 p.0 (nodes_from begin xs) segs s c p.1 in
      record {
        after = record r.after { garbage_collector_it = r.cursor };
        returns = cleanup_from_lem grab begin count s r.after r.cursor u r.returns;
        segs = r.segs;
        consistent = record {
          models = r.consistent.models;
          counted = r.consistent.counted;
          keyed = r.consistent.keyed;
        };
        swept = r.swept ∙ sym p.2;
        cursor_in = r.cursor_in;
        unmoved = moved_cursor grab s r.after r.cursor r.unmoved;
        lists_left = r.lists_left;
      }

  asserted :
      (grab : Bool) (count : ℕ) (s : SignalImpl F Group C)
      → unique s ≡ true
      → nolock_cleanup_connections_from cmp alive grab
          (kept_start s.garbage_collector_it (current_list s).list)
          count
          s
        ≡ nolock_cleanup_connections cmp alive grab count s
  unfolding nolock_cleanup_connections
  asserted grab count s u =
      ap (λ b. nolock_cleanup_connections_from cmp alive grab b count s)
        (sym (same_start s.garbage_collector_it (current_list s).list))
      ∙ rw u refl

  -- Where a consistent signal's state is held by no call and the group comparison is a strict weak
  -- order, nolock_cleanup_connections passes every assertion and leaves a consistent signal whose
  -- list is that of before, swept from the kept iterator on, or from the beginning if that was at
  -- the end: of the first `count` slots, or of all if it is 0, those that are not connected, or
  -- have expired where that is looked at, are gone, and nothing else is. The iterator kept for the
  -- next time is in the new list or at its end, and the state and the other lists are as before.
  pub cleanup_connections-Cleans :
      (o : StrictWeakOrder cmp) (users : ℕ → ℕ) (grab : Bool) (count : ℕ)
      (segs : List (Segment (GroupKey Group) ℕ)) (s : SignalImpl F Group C)
      → Consistent cmp users segs s
      → unique s ≡ true
      → Cleans users grab
          (kept_start s.garbage_collector_it (current_list s).list)
          count
          s
          (nolock_cleanup_connections cmp alive grab count s)
  cleanup_connections-Cleans o users grab count segs s c u =
      subst (Cleans users grab (kept_start s.garbage_collector_it (current_list s).list) count s)
        (asserted grab count s u)
        (cleanup_from-Cleans o users grab (kept_start s.garbage_collector_it (current_list s).list)
          count segs s c u)
