-- ===== src/Signal/Begun.antt =====
-- The beginning of a call of a signal: the clean-up of one slot, and the list that the call reads.
use signals.Base.{
  ℕ, ◌≡◌, refl, sym, ap, subst, ◌∙◌, Bool, true, false, Option, none, some, List, [], ◌∷◌, ◌++◌,
  if◌then◌else◌, inl, inr, Bool-cases,
}
use signals.Buffer.{◌>>=◌}
use signals.Groups.{GroupKey}
use signals.Groups.Containers.{Node}
use signals.Groups.Segments.{Segment, flat, nodes_of, StrictWeakOrder}
use signals.Connection.Handle.{Store}
use signals.Invocation.Live.{StoredAll}
use signals.Signal.{SignalImpl, unique, current_list, add_reader}
use signals.Signal.Cleanup.{nolock_cleanup_connections}
use signals.Signal.Emit.{values_of, begin_call}
use signals.Signal.Keyed.{Keyed, AllBelong}
use signals.Signal.Consistent.{Consistent}
use signals.Signal.Sharing.{is_reader_list}
use signals.Signal.Unmoved.{stays}
use signals.Signal.Cleaned.{staying, kept_start, staying-sweep_from, cleanup_connections-Cleans}
use signals.Signal.Owned.{reader_apart}

module _ {F K : Type 0} where
  StoredAll-append :
      (xs ys : List ℕ) (store : Store F K)
      → StoredAll xs store
      → StoredAll ys store
      → StoredAll (xs ++ ys) store
  StoredAll-append [] ys store p q = q
  StoredAll-append (x ∷ xs) ys store (p, ps) q = (p, StoredAll-append xs ys store ps q)

pub values_of-append : (xs ys : List (Node ℕ)) → values_of (xs ++ ys) ≡ values_of xs ++ values_of ys
values_of-append [] ys = refl
values_of-append (x ∷ xs) ys = ap (◌∷◌ x.value) (values_of-append xs ys)

module _ {F Group : Type 0} (cmp : Group → Group → Bool) where
  AllBelong-StoredAll :
      (key : GroupKey Group) (store : Store F (GroupKey Group)) (xs : List (Node ℕ))
      → AllBelong cmp key store xs
      → StoredAll (values_of xs) store
  AllBelong-StoredAll key store [] a = tt
  AllBelong-StoredAll key store (x ∷ xs) ((b, e, above, below), a) =
      ((b, e), AllBelong-StoredAll key store xs a)

  -- The bodies of the list are in the store.
  pub Keyed-StoredAll :
      (segs : List (Segment (GroupKey Group) ℕ)) (store : Store F (GroupKey Group))
      → Keyed cmp segs store
      → StoredAll (values_of (flat segs)) store
  Keyed-StoredAll [] store k = tt
  Keyed-StoredAll (t ∷ segs) store k =
      subst (λ l. StoredAll l store) (sym (values_of-append (nodes_of t) (flat segs)))
        (StoredAll-append (values_of (nodes_of t)) (values_of (flat segs)) store
          (AllBelong-StoredAll t.key store (nodes_of t) k.0) (Keyed-StoredAll segs store k.1))

module _ {F Group C : Type 0} (cmp : Group → Group → Bool) (alive : ℕ → Bool) where
  -- The signal that a call reads, and what it still has of the one that was called.
  pub record Begins (users : ℕ → ℕ) (s : SignalImpl F Group C) (o : Option (SignalImpl F Group C))
      : Type 0 where
    pub read : SignalImpl F Group C
    pub returns : o ≡ some (add_reader read)
    pub segs : List (Segment (GroupKey Group) ℕ)
    pub consistent : Consistent cmp users segs read
    pub connected_left :
        staying (stays false alive s.bodies) (values_of (current_list read).list)
        ≡ staying (stays false alive s.bodies) (values_of (current_list s).list)
    pub state_left : read.shared_state ≡ s.shared_state
    pub readers_left : read.readers ≡ s.readers
    pub addresses_left : read.next_address ≡ s.next_address
    pub next_body_left : read.next_body ≡ s.next_body
    pub absent_left : (j : ℕ) → s.bodies j ≡ none → read.bodies j ≡ none
    pub lists_left : (a : ℕ) → is_reader_list a s.readers ≡ true → read.lists a ≡ s.lists a

  begun_unique :
      (s t : SignalImpl F Group C)
      → unique s ≡ true
      → nolock_cleanup_connections cmp alive false 1 s ≡ some t
      → begin_call cmp alive s ≡ some (add_reader t)
  unfolding begin_call
  begun_unique s t u e =
      ap
        (λ b. (if b then nolock_cleanup_connections cmp alive false 1 s else some s) >>= λ x.
          some (add_reader x))
        u
      ∙ ap (λ y. y >>= λ x. some (add_reader x)) e

  begun_shared :
      (s : SignalImpl F Group C) → unique s ≡ false → begin_call cmp alive s ≡ some (add_reader s)
  unfolding begin_call
  begun_shared s u = rw u refl

  pub begin_call-Begins :
      (o : StrictWeakOrder cmp) (users : ℕ → ℕ) (segs : List (Segment (GroupKey Group) ℕ))
      (s : SignalImpl F Group C)
      → Consistent cmp users segs s
      → (unique s ≡ true → is_reader_list s.shared_state.connection_bodies s.readers ≡ false)
      → Begins users s (begin_call cmp alive s)
  begin_call-Begins o users segs s c apart = elim (Bool-cases (unique s)) [
    | inr u ↦ record {
      read = s;
      returns = begun_shared s u;
      segs = segs;
      consistent = c;
      connected_left = refl;
      state_left = refl;
      readers_left = refl;
      addresses_left = refl;
      next_body_left = refl;
      absent_left = λ j h. h;
      lists_left = λ a h. refl;
    }
    | inl u ↦
        let r = cleanup_connections-Cleans cmp alive o users false 1 segs s c u in
        record {
          read = r.after;
          returns = begun_unique s r.after u r.returns;
          segs = r.segs;
          consistent = r.consistent;
          connected_left =
              ap (λ l. staying (stays false alive s.bodies) (values_of l)) r.swept
              ∙ staying-sweep_from (stays false alive s.bodies)
                  (kept_start s.garbage_collector_it (current_list s).list) 1 (current_list s).list;
          state_left = r.unmoved.state_left;
          readers_left = r.unmoved.readers_left;
          addresses_left = r.unmoved.addresses_left;
          next_body_left = r.unmoved.next_body_left;
          absent_left = r.unmoved.absent_left;
          lists_left = λ a h.
              r.lists_left a
                (reader_apart s.shared_state.connection_bodies a s.readers (apart u) h);
        }
  ]
