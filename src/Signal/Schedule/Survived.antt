-- ===== src/Signal/Schedule/Survived.antt =====
-- The lists that running calls read survive what happens to the signal meanwhile.
use signals.Base.{
  ℕ, ◌≡◌, refl, sym, ap, ◌∙◌, ltb, Bool, true, false, Option, none, some, List, [], ◌∷◌, arith,
}
use signals.Buffer.{◌>>=◌}
use signals.Slot.{Slot}
use signals.Groups.{GroupKey, grouped_slots}
use signals.Groups.Segments.{StrictWeakOrder}
use signals.Connection.{make_body}
use signals.Signal.{SignalImpl, unique, add_reader, current_list}
use signals.Signal.Connect.{
  ConnectPosition, ungrouped_key, add_connection, nolock_connect, nolock_connect_group, push_at,
}
use signals.Signal.Emit.{begin_call}
use signals.Signal.Cleanup.{nolock_force_unique_connection_list}
use signals.Signal.Stored.{put_other}
use signals.Signal.Sharing.{addressed, is_reader_list}
use signals.Signal.Keyed.{Keyed-kept}
use signals.Signal.Visited.{set_current_list-other}
use signals.Signal.Owned.{reader_apart, Owned, force_unique-Owned}
use signals.Signal.Connected.{create_new_connection_lem, added, added_bodies, added-Consistent}
use signals.Signal.Begun.{begin_call-Begins}
use signals.Signal.Schedule.{Action, connects, connects_group, disconnects, calls, act, act_all}
use signals.Signal.Schedule.Ready.{Ready, Survives, doubled, low_tail, disconnect-Kept}

module _ {F Group C : Type 0} (cmp : Group → Group → Bool) (alive : ℕ → Bool) where
  added-Survives :
      (o : StrictWeakOrder cmp) (users : ℕ → ℕ) (position : ConnectPosition) (key : GroupKey Group)
      (slot : Slot F) (s : SignalImpl F Group C) (f : Option (SignalImpl F Group C))
      → Ready cmp users s
      → (r : Owned cmp alive users s f)
      → Survives cmp users s (some (added cmp alive position key slot r.after))
  unfolding add_connection unique
  added-Survives o users position key slot s f d r =
      let t = r.after in
      let i = t.next_body in
      let body = make_body slot key in
      let later : (j : ℕ) → ltb j t.next_body ≡ false → (s.bodies j ≡ none) × (users j ≡ 0) =
        λ j h. d.fresh j (ap (ltb j) (sym r.next_body_left) ∙ h) in
      let free = later i (ground arith) in
      record {
        after = added cmp alive position key slot t;
        returns = refl;
        ready = record {
          segs = _;
          consistent =
              added-Consistent cmp alive o users position key slot r.segs t r.consistent
                (r.absent_left i free.0) free.1;
          low =
              ap (λ x. addressed t.next_address (t.shared_state ∷ x)) r.readers_left
              ∙ r.low_left d.low;
          apart = λ u.
              ap (is_reader_list t.shared_state.connection_bodies) r.readers_left ∙ r.list_apart;
          fresh = λ j h.
              let q = later j (ground arith) in
              (
                ap (λ g. g j) (added_bodies cmp alive position key slot t)
                    ∙ put_other i j body t.bodies (ground arith)
                    ∙ r.absent_left j q.0,
                q.1,
              );
        };
        read_on = λ a h. ap (is_reader_list a) r.readers_left ∙ h;
        lists_left = λ a h.
            set_current_list-other (push_at cmp position key i (current_list t)) t a
              (reader_apart t.shared_state.connection_bodies a s.readers r.list_apart h)
            ∙ r.lists_left a h;
      }

  owned :
      (o : StrictWeakOrder cmp) (users : ℕ → ℕ) (s : SignalImpl F Group C)
      → (d : Ready cmp users s)
      → Owned cmp alive users s (nolock_force_unique_connection_list cmp alive s)
  owned o users s d =
      force_unique-Owned cmp alive o users d.segs s d.consistent (low_tail cmp s d.low) d.apart

  disconnects-Survives :
      (users : ℕ → ℕ) (i : ℕ) (s : SignalImpl F Group C)
      → Ready cmp users s
      → Survives cmp users s (act cmp alive (disconnects i) s)
  unfolding act unique
  disconnects-Survives users i s d =
      let r = disconnect-Kept users i s.bodies d.consistent.counted in
      record {
        after = record s { bodies = r.0 };
        returns = rw r.2 refl;
        ready = record {
          segs = d.segs;
          consistent = record {
            models = d.consistent.models;
            counted = r.3;
            keyed = Keyed-kept cmp d.segs s.bodies r.0 r.4 d.consistent.keyed;
          };
          low = d.low;
          apart = d.apart;
          fresh = λ j h. (r.5 j (d.fresh j h).0, (d.fresh j h).1);
        };
        read_on = λ a h. h;
        lists_left = λ a h. refl;
      }

  calls-Survives :
      (o : StrictWeakOrder cmp) (users : ℕ → ℕ) (s : SignalImpl F Group C)
      → Ready cmp users s
      → Survives cmp users s (begin_call cmp alive s)
  unfolding add_reader unique
  calls-Survives o users s d =
      let r = begin_call-Begins cmp alive o users d.segs s d.consistent d.apart in
      record {
        after = add_reader r.read;
        returns = r.returns;
        ready = record {
          segs = r.segs;
          consistent = record {
            models = r.consistent.models;
            counted = r.consistent.counted;
            keyed = r.consistent.keyed;
          };
          low = doubled cmp r.read (
              ap (λ n. addressed n (r.read.shared_state ∷ r.read.readers)) r.addresses_left
              ∙ ap (λ t. addressed s.next_address (t ∷ r.read.readers)) r.state_left
              ∙ ap (λ l. addressed s.next_address (s.shared_state ∷ l)) r.readers_left
              ∙ d.low);
          apart = λ u. absurd (ground arith);
          fresh = λ j h.
              let q = d.fresh j (ap (ltb j) (sym r.next_body_left) ∙ h) in
              (r.absent_left j q.0, q.1);
        };
        read_on = λ a h.
            (let p : is_reader_list a r.read.readers ≡ true =
                ap (is_reader_list a) r.readers_left ∙ h in
              ground arith);
        lists_left = r.lists_left;
      }

  act-Survives :
      (o : StrictWeakOrder cmp) (users : ℕ → ℕ) (x : Action F Group) (s : SignalImpl F Group C)
      → Ready cmp users s
      → Survives cmp users s (act cmp alive x s)
  unfolding act nolock_connect nolock_connect_group
  act-Survives o users (connects position slot) s d =
      let r = owned o users s d in
      rw (create_new_connection_lem cmp alive slot s r.after r.returns)
        (added-Survives o users position (ungrouped_key position) slot s _ d r)
  act-Survives o users (connects_group group position slot) s d =
      let r = owned o users s d in
      rw (create_new_connection_lem cmp alive slot s r.after r.returns) (
        added-Survives o users position (record { first = grouped_slots; second = some group }) slot
          s _ d r)
  act-Survives o users (disconnects i) s d = disconnects-Survives users i s d
  act-Survives o users calls s d = calls-Survives o users s d

  -- While no combiner's iterator moves, any sequence of connecting slots with and without a group,
  -- disconnecting through handles and beginning further calls passes every assertion and takes a
  -- signal that is ready to one that is ready: consistent, with its addresses and identities
  -- allocated in order, and with a list that calls read only if they hold its state. Each list
  -- that a call read before is still read and is unchanged. The group comparison is a strict weak
  -- order.
  pub act_all-Survives :
      (o : StrictWeakOrder cmp) (users : ℕ → ℕ) (xs : List (Action F Group))
      (s : SignalImpl F Group C)
      → Ready cmp users s
      → Survives cmp users s (act_all cmp alive xs s)
  unfolding act_all
  act_all-Survives o users [] s d = record {
    after = s;
    returns = refl;
    ready = d;
    read_on = λ a h. h;
    lists_left = λ a h. refl;
  }
  act_all-Survives o users (x ∷ xs) s d =
      let p = act-Survives o users x s d in
      let q = act_all-Survives o users xs p.after p.ready in
      record {
        after = q.after;
        returns = ap (λ t. t >>= λ y. act_all cmp alive xs y) p.returns ∙ q.returns;
        ready = q.ready;
        read_on = λ a h. q.read_on a (p.read_on a h);
        lists_left = λ a h. q.lists_left a (p.read_on a h) ∙ p.lists_left a h;
      }
