-- ===== src/Signal/Connected.antt =====
-- connect: the new slot is at its place in its group, and what could be called before still can.
use signals.Base.{
  fun_ext, ℕ, suc, ◌≡◌, refl, sym, ap, subst, ◌∙◌, Bool, true, false, Option, none, some, List,
  ◌==◌, arith, inl, inr, Bool-cases,
}
use signals.Slot.{Slot}
use signals.Groups.{GroupKey, group_key_less, front_ungrouped_slots, grouped_slots}
use signals.Groups.Segments.{Segment, flat, Sorted, StrictWeakOrder}
use signals.Groups.Order.{group_key_less-StrictWeakOrder}
use signals.Connection.{ConnectionBody, make_body}
use signals.Connection.Body.{IsCounted, make_body-IsCounted}
use signals.Connection.Handle.{Store, put_body, AllCounted}
use signals.Signal.{SignalImpl, unique, current_list}
use signals.Signal.Cleanup.{nolock_force_unique_connection_list}
use signals.Signal.Connect.{
  ConnectPosition, push_at, set_group_key, set_key_of, ungrouped_key, create_new_connection,
  add_connection, nolock_connect, nolock_connect_group,
}
use signals.Signal.Emit.{values_of}
use signals.Signal.Stored.{is_live, put_same, put_other, put-AllCounted}
use signals.Signal.Sharing.{addressed, is_reader_list}
use signals.Signal.Keyed.{Keyed, Keyed-kept}
use signals.Signal.Consistent.{Consistent}
use signals.Signal.Unmoved.{stays}
use signals.Signal.Visited.{set_current_list-same, set_current_list-other}
use signals.Signal.Cleaned.{staying}
use signals.Signal.Owned.{reader_apart, Owned, force_unique-Owned}
use signals.Signal.Placed.{place, push_at-Models, Keyed-place}

abbrev default_key : {Group : Type 0} → GroupKey Group
default_key = record { first = front_ungrouped_slots; second = none }

module _ {F Group C : Type 0} where
  abbrev pub with_body : Slot F → SignalImpl F Group C → SignalImpl F Group C
  with_body slot s = record s {
    bodies = put_body s.next_body (make_body slot default_key) s.bodies;
    next_body = suc s.next_body;
  }

module _ {F Group C : Type 0} (cmp : Group → Group → Bool) (alive : ℕ → Bool) where
  -- What connecting a slot under a key leaves.
  pub record Connects (users : ℕ → ℕ) (position : ConnectPosition) (key : GroupKey Group)
      (slot : Slot F) (s : SignalImpl F Group C) (o : Option (SignalImpl F Group C × ℕ))
      : Type 0 where
    pub after : SignalImpl F Group C
    pub returns : o ≡ some (after, s.next_body)
    pub segs : List (Segment (GroupKey Group) ℕ)
    pub sorted : Sorted (group_key_less cmp) segs
    pub node_id : ℕ
    pub living :
        staying (stays true alive s.bodies) (values_of (flat segs))
        ≡ staying (stays true alive s.bodies) (values_of (current_list s).list)
    pub consistent :
        Consistent cmp users
          (place
            (group_key_less cmp)
            position
            key
            (record { id = node_id; value = s.next_body })
            segs)
          after
    pub new_body : after.bodies s.next_body ≡ some (make_body slot key)
    pub others_left :
        (j : ℕ)
        → (s.next_body == j) ≡ false
        → stays true alive after.bodies j ≡ stays true alive s.bodies j
    pub alone : unique after ≡ true
    pub lists_left : (a : ℕ) → is_reader_list a s.readers ≡ true → after.lists a ≡ s.lists a

  pub create_new_connection_lem :
      (slot : Slot F) (s s₁ : SignalImpl F Group C)
      → nolock_force_unique_connection_list cmp alive s ≡ some s₁
      → create_new_connection cmp alive slot s ≡ some (with_body slot s₁, s₁.next_body)
  unfolding create_new_connection
  create_new_connection_lem slot s s₁ e = rw e refl

module _ {F Group : Type 0} where
  -- The key is set where the new body has been put.
  keyed_body :
      (slot : Slot F) (key k : GroupKey Group) (i : ℕ) (store : Store F (GroupKey Group)) (j : ℕ)
      → set_key_of key i (put_body i (make_body slot k) store) j
        ≡ put_body i (make_body slot key) store j
  unfolding set_group_key make_body
  keyed_body slot key k i store j = elim (Bool-cases (i == j)) [
    | inl e ↦ rw e refl
    | inr e ↦ rw e refl
  ]

  made_key : (slot : Slot F) (key : GroupKey Group) → (make_body slot key).group_key ≡ key
  unfolding make_body
  made_key slot key = refl

  kept_body :
      (i : ℕ) (body : ConnectionBody F (GroupKey Group)) (store : Store F (GroupKey Group))
      → store i ≡ none
      → (j : ℕ) (b : ConnectionBody F (GroupKey Group)) → store j ≡ some b
      → (b' : ConnectionBody F (GroupKey Group)) × (put_body i body store j ≡ some b')
        × (b'.group_key ≡ b.group_key)
  kept_body i body store gone j b e = elim (Bool-cases (i == j)) [
    | inl h ↦
        let same : i ≡ j = ground arith in
        let none_there : store j ≡ none = subst (λ k. store k ≡ none) same gone in
        absurd (ground arith)
    | inr h ↦ (b, put_other i j body store h ∙ e, refl)
  ]

module _ {F Group C : Type 0} (cmp : Group → Group → Bool) (alive : ℕ → Bool) where
  abbrev pub added :
      ConnectPosition → GroupKey Group → Slot F → SignalImpl F Group C → SignalImpl F Group C
  added position key slot t =
      (add_connection cmp alive position key (with_body slot t, t.next_body)).0

  pub added_bodies :
      (position : ConnectPosition) (key : GroupKey Group) (slot : Slot F) (t : SignalImpl F Group C)
      → (added position key slot t).bodies ≡ put_body t.next_body (make_body slot key) t.bodies
  unfolding add_connection
  added_bodies position key slot t = fun_ext (keyed_body slot key default_key t.next_body t.bodies)

  pub added-Consistent :
      (o : StrictWeakOrder cmp) (users : ℕ → ℕ) (position : ConnectPosition) (key : GroupKey Group)
      (slot : Slot F) (segs : List (Segment (GroupKey Group) ℕ)) (t : SignalImpl F Group C)
      → Consistent cmp users segs t
      → t.bodies t.next_body ≡ none
      → users t.next_body ≡ 0
      → Consistent cmp users
          (place
            (group_key_less cmp)
            position
            key
            (record { id = (current_list t).next_id; value = t.next_body })
            segs)
          (added position key slot t)
  unfolding add_connection
  added-Consistent o users position key slot segs t c gone unused =
      let i = t.next_body in
      let body = make_body slot key in
      let store : Store F (GroupKey Group) = put_body i body t.bodies in
      let bodies = added_bodies position key slot t in
      record {
        models =
            rw (set_current_list-same (push_at cmp position key i (current_list t)) t)
              (push_at-Models cmp o position key i (current_list t) segs c.models);
        counted = subst (AllCounted users) (sym bodies) (
            put-AllCounted users i body t.bodies c.counted
              (subst (λ n. IsCounted n body) (sym unused) (make_body-IsCounted slot key)));
        keyed = subst (Keyed cmp _) (sym bodies) (
            Keyed-place cmp (group_key_less-StrictWeakOrder cmp o) position key
              (record { id = (current_list t).next_id; value = i }) segs store
              (body, put_same i body t.bodies, made_key slot key)
              (Keyed-kept cmp segs t.bodies store (kept_body i body t.bodies gone) c.keyed));
      }

  -- Adding the new body to a signal whose list no call reads.
  added-Connects :
      (o : StrictWeakOrder cmp) (users : ℕ → ℕ) (position : ConnectPosition) (key : GroupKey Group)
      (slot : Slot F) (s : SignalImpl F Group C) (f : Option (SignalImpl F Group C))
      (r : Owned cmp alive users s f)
      → s.bodies s.next_body ≡ none
      → users s.next_body ≡ 0
      → Connects cmp alive users position key slot s
          (some (add_connection cmp alive position key (with_body slot r.after, r.after.next_body)))
  unfolding add_connection unique
  added-Connects o users position key slot s f r free unused =
      let t = r.after in
      let i = t.next_body in
      let body = make_body slot key in
      let s' = added position key slot t in
      let gone : t.bodies i ≡ none =
        ap t.bodies r.next_body_left ∙ r.absent_left s.next_body free in
      record {
        after = s';
        returns = ap (λ n. some (s', n)) r.next_body_left;
        segs = r.segs;
        sorted = r.consistent.models.sorted;
        node_id = (current_list t).next_id;
        living =
            ap (λ x. staying (stays true alive s.bodies) (values_of x))
              (sym r.consistent.models.list_flat)
            ∙ r.living;
        consistent =
            subst
              (λ n.
                Consistent cmp users
                  (place (group_key_less cmp) position key
                    (record { id = (current_list t).next_id; value = n }) r.segs)
                  s')
              r.next_body_left
              (added-Consistent o users position key slot r.segs t r.consistent gone
                (ap users r.next_body_left ∙ unused));
        new_body =
            subst (λ n. s'.bodies n ≡ some body) r.next_body_left
              (ap (λ f. f i) (added_bodies position key slot t) ∙ put_same i body t.bodies);
        others_left = λ j h.
            ap (λ f. stays true alive f j) (added_bodies position key slot t)
            ∙ ap (is_live alive)
                (put_other i j body t.bodies (ap (λ n. n == j) r.next_body_left ∙ h))
            ∙ ap (λ g. g j) r.stays_left;
        alone = r.alone;
        lists_left = λ a h.
            set_current_list-other (push_at cmp position key i (current_list t)) t a
              (reader_apart t.shared_state.connection_bodies a s.readers r.list_apart h)
            ∙ r.lists_left a h;
      }

  -- connect of a slot without a group passes every assertion, returns the identity of a new body
  -- with the slot, and leaves a consistent signal whose list is the list of before, without some
  -- slots that cannot be called, and with the new slot at its place in front of all groups or
  -- behind them; the other bodies that could be called still can, no call holds the state, and the
  -- lists that calls read are as before. The group comparison is a strict weak order, the signal
  -- is consistent, the readers' addresses have been allocated, a list that a call reads belongs to
  -- a state that a call holds, and the new body's identity is unused.
  pub nolock_connect-Connects :
      (o : StrictWeakOrder cmp) (users : ℕ → ℕ) (segs : List (Segment (GroupKey Group) ℕ))
      (slot : Slot F) (position : ConnectPosition) (s : SignalImpl F Group C)
      → Consistent cmp users segs s
      → addressed s.next_address s.readers ≡ true
      → (unique s ≡ true → is_reader_list s.shared_state.connection_bodies s.readers ≡ false)
      → s.bodies s.next_body ≡ none
      → users s.next_body ≡ 0
      → Connects cmp alive users position
          (ungrouped_key position)
          slot
          s
          (nolock_connect cmp alive slot position s)
  unfolding nolock_connect
  nolock_connect-Connects o users segs slot position s c low apart free unused =
      let r = force_unique-Owned cmp alive o users segs s c low apart in
      rw (create_new_connection_lem cmp alive slot s r.after r.returns)
        (added-Connects o users position (ungrouped_key position) slot s _ r free unused)

  -- connect of a slot to a group passes every assertion, returns the identity of a new body with
  -- the slot, and leaves a consistent signal whose list is the list of before, without some slots
  -- that cannot be called, and with the new slot at the front or the back of its group; the other
  -- bodies that could be called still can, no call holds the state, and the lists that calls read
  -- are as before. The group comparison is a strict weak order, the signal is consistent, the
  -- readers' addresses have been allocated, a list that a call reads belongs to a state that a
  -- call holds, and the new body's identity is unused.
  pub nolock_connect_group-Connects :
      (o : StrictWeakOrder cmp) (users : ℕ → ℕ) (segs : List (Segment (GroupKey Group) ℕ))
      (group : Group) (slot : Slot F) (position : ConnectPosition) (s : SignalImpl F Group C)
      → Consistent cmp users segs s
      → addressed s.next_address s.readers ≡ true
      → (unique s ≡ true → is_reader_list s.shared_state.connection_bodies s.readers ≡ false)
      → s.bodies s.next_body ≡ none
      → users s.next_body ≡ 0
      → Connects cmp alive users position
          (record { first = grouped_slots; second = some group })
          slot
          s
          (nolock_connect_group cmp alive group slot position s)
  unfolding nolock_connect_group
  nolock_connect_group-Connects o users segs group slot position s c low apart free unused =
      let r = force_unique-Owned cmp alive o users segs s c low apart in
      rw (create_new_connection_lem cmp alive slot s r.after r.returns) (
        added-Connects o users position (record { first = grouped_slots; second = some group }) slot
          s _ r free unused)
