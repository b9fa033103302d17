-- ===== src/Signal/Owned.antt =====
-- nolock_force_unique_connection_list: a signal that a running call reads gets a list of its own.
use signals.Base.{
  ℕ, ◌+◌, ◌≡◌, refl, ap, subst, ◌∙◌, Bool, true, false, not, Option, none, some, List, [], ◌∷◌,
  ◌==◌, arith, inl, inr, Bool-cases,
}
use signals.Groups.{GroupKey, group_key_less}
use signals.Groups.Containers.{head_id}
use signals.Groups.Segments.{Segment, StrictWeakOrder}
use signals.Groups.Duplicate.{copy_list}
use signals.Groups.Copied.{copy_list-Models, renumber}
use signals.Signal.{SignalImpl, InvocationState, unique, held, current_list}
use signals.Signal.Cleanup.{
  copy_state, nolock_cleanup_connections_from, nolock_cleanup_connections,
  nolock_force_unique_connection_list,
}
use signals.Signal.Emit.{values_of}
use signals.Signal.Sharing.{addressed, is_reader_list, put_same, copy_state-isolates, new_apart}
use signals.Signal.Keyed.{Keyed-renumber}
use signals.Signal.Consistent.{Consistent}
use signals.Signal.Unmoved.{stays}
use signals.Signal.Cleaned.{
  staying, kept_start, staying-sweep_from, cleanup_from-Cleans, cleanup_connections-Cleans,
}

pub reader_apart :
    (a b : ℕ) (rs : List InvocationState)
    → is_reader_list a rs ≡ false
    → is_reader_list b rs ≡ true
    → (a == b) ≡ false
reader_apart a b rs h k = elim (Bool-cases (a == b)) [
  | inr e ↦ e
  | inl e ↦
      let same : a ≡ b = ground arith in
      let h' : is_reader_list b rs ≡ false = subst (λ t. is_reader_list t rs ≡ false) same h in
      absurd (ground arith)
]

addressed-later :
    (n : ℕ) (rs : List InvocationState) → addressed n rs ≡ true → addressed (n + 2) rs ≡ true
addressed-later n [] h = refl
addressed-later n (r ∷ rs) h = let p = addressed-later n rs in ground arith

module _ {F Group C : Type 0} (cmp : Group → Group → Bool) (alive : ℕ → Bool) where
  -- The state is held by no call, and no list that a call reads has changed.
  pub record Owned (users : ℕ → ℕ) (s : SignalImpl F Group C) (o : Option (SignalImpl F Group C))
      : Type 0 where
    pub after : SignalImpl F Group C
    pub returns : o ≡ some after
    pub segs : List (Segment (GroupKey Group) ℕ)
    pub consistent : Consistent cmp users segs after
    pub alone : unique after ≡ true
    pub living :
        staying (stays true alive s.bodies) (values_of (current_list after).list)
        ≡ staying (stays true alive s.bodies) (values_of (current_list s).list)
    pub stays_left : stays true alive after.bodies ≡ stays true alive s.bodies
    pub readers_left : after.readers ≡ s.readers
    pub next_body_left : after.next_body ≡ s.next_body
    pub absent_left : (j : ℕ) → s.bodies j ≡ none → after.bodies j ≡ none
    pub low_left :
        addressed s.next_address (s.shared_state ∷ s.readers) ≡ true
        → addressed after.next_address (after.shared_state ∷ s.readers) ≡ true
    pub list_apart : is_reader_list after.shared_state.connection_bodies s.readers ≡ false
    pub lists_left : (a : ℕ) → is_reader_list a s.readers ≡ true → after.lists a ≡ s.lists a

  pub copy_state-Consistent :
      (users : ℕ → ℕ) (segs : List (Segment (GroupKey Group) ℕ)) (s : SignalImpl F Group C)
      → Consistent cmp users segs s
      → Consistent cmp users (renumber (current_list s).next_id segs) (copy_state s)
  unfolding copy_state
  copy_state-Consistent users segs s c = record {
    models =
        rw (put_same (s.next_address + 1) (copy_list (current_list s)) s.lists)
          (copy_list-Models (group_key_less cmp) (current_list s) segs c.models);
    counted = c.counted;
    keyed = Keyed-renumber cmp (current_list s).next_id segs s.bodies c.keyed;
  }

  forced_unique :
      (s : SignalImpl F Group C)
      → unique s ≡ true
      → nolock_force_unique_connection_list cmp alive s
        ≡ nolock_cleanup_connections cmp alive true 2 s
  unfolding nolock_force_unique_connection_list
  forced_unique s u = rw u refl

  forced_copy :
      (s : SignalImpl F Group C)
      → unique s ≡ false
      → nolock_force_unique_connection_list cmp alive s
        ≡ nolock_cleanup_connections_from cmp alive true
            (head_id (current_list (copy_state s)).list)
            0
            (copy_state s)
  unfolding nolock_force_unique_connection_list
  forced_copy s u = rw u refl

  copied_low :
      (s : SignalImpl F Group C)
      → addressed s.next_address s.readers ≡ true
      → addressed (copy_state s).next_address ((copy_state s).shared_state ∷ s.readers) ≡ true
  unfolding copy_state
  copied_low s low = let p = addressed-later s.next_address s.readers low in ground arith

  still_unique :
      (s s' : SignalImpl F Group C)
      → s'.shared_state ≡ s.shared_state
      → s'.readers ≡ s.readers
      → unique s' ≡ unique s
  unfolding unique
  still_unique s s' h k =
      ap (λ t. not (held t.address s'.readers)) h ∙ ap (λ t. not (held s.shared_state.address t)) k

  pub force_unique-Owned :
      (o : StrictWeakOrder cmp) (users : ℕ → ℕ) (segs : List (Segment (GroupKey Group) ℕ))
      (s : SignalImpl F Group C)
      → Consistent cmp users segs s
      → addressed s.next_address s.readers ≡ true
      → (unique s ≡ true → is_reader_list s.shared_state.connection_bodies s.readers ≡ false)
      → Owned users s (nolock_force_unique_connection_list cmp alive s)
  force_unique-Owned o users segs s c low apart = elim (Bool-cases (unique s)) [
    | inl u ↦
        let r = cleanup_connections-Cleans cmp alive o users true 2 segs s c u in
        record {
          after = r.after;
          returns = forced_unique s u ∙ r.returns;
          segs = r.segs;
          consistent = r.consistent;
          alone = still_unique s r.after r.unmoved.state_left r.unmoved.readers_left ∙ u;
          living =
              ap (λ l. staying (stays true alive s.bodies) (values_of l)) r.swept
              ∙ staying-sweep_from (stays true alive s.bodies)
                  (kept_start s.garbage_collector_it (current_list s).list) 2 (current_list s).list;
          stays_left = r.unmoved.stays_left;
          readers_left = r.unmoved.readers_left;
          next_body_left = r.unmoved.next_body_left;
          absent_left = r.unmoved.absent_left;
          low_left = λ h.
              ap (λ n. addressed n (r.after.shared_state ∷ s.readers)) r.unmoved.addresses_left
              ∙ ap (λ t. addressed s.next_address (t ∷ s.readers)) r.unmoved.state_left
              ∙ h;
          list_apart =
              ap (λ t. is_reader_list t.connection_bodies s.readers) r.unmoved.state_left ∙ apart u;
          lists_left = λ a h.
              r.lists_left a
                (reader_apart s.shared_state.connection_bodies a s.readers (apart u) h);
        }
    | inr u ↦
        let i = copy_state-isolates s low in
        let s' = copy_state s in
        let r =
          cleanup_from-Cleans cmp alive o users true (head_id (current_list s').list) 0
            (renumber (current_list s).next_id segs) s' (copy_state-Consistent users segs s c)
            i.0 in
        record {
          after = r.after;
          returns = forced_copy s u ∙ r.returns;
          segs = r.segs;
          consistent = r.consistent;
          alone = still_unique s' r.after r.unmoved.state_left r.unmoved.readers_left ∙ i.0;
          living =
              unfold copy_state in
              (ap (λ l. staying (stays true alive s.bodies) (values_of l)) r.swept
                ∙ staying-sweep_from (stays true alive s.bodies) (head_id (current_list s').list) 0
                    (current_list s').list
                ∙ ap (staying (stays true alive s.bodies)) i.2);
          stays_left = unfold copy_state in r.unmoved.stays_left;
          readers_left = unfold copy_state in r.unmoved.readers_left;
          next_body_left = unfold copy_state in r.unmoved.next_body_left;
          absent_left = unfold copy_state in r.unmoved.absent_left;
          low_left = λ h.
              ap (λ n. addressed n (r.after.shared_state ∷ s.readers)) r.unmoved.addresses_left
              ∙ ap (λ t. addressed s'.next_address (t ∷ s.readers)) r.unmoved.state_left
              ∙ copied_low s low;
          list_apart =
              unfold copy_state in
              (ap (λ t. is_reader_list t.connection_bodies s.readers) r.unmoved.state_left
                ∙ new_apart s.next_address s.readers low);
          lists_left = λ a h.
              r.lists_left a (
                unfold copy_state in
                reader_apart (s.next_address + 1) a s.readers
                  (new_apart s.next_address s.readers low) h)
              ∙ i.1 a h;
        }
  ]
