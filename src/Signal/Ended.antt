-- ===== src/Signal/Ended.antt =====
-- The end of a call of a signal: the janitor's clean-up, the cache, and the copy of the state.
use signals.Base.{
  ℕ, ◌+◌, ◌≡◌, refl, ap, ◌∙◌, Bool, true, false, not, Option, none, some, List, [], ◌==◌, ltb,
  if◌then◌else◌, arith, inl, inr, Bool-cases,
}
use signals.Buffer.{◌>>=◌}
use signals.Groups.{GroupKey}
use signals.Groups.Containers.{head_id}
use signals.Groups.Segments.{Segment, StrictWeakOrder}
use signals.Connection.Handle.{Store, AllCounted}
use signals.Invocation.{Iter}
use signals.Invocation.Combiner.{destroy_cache}
use signals.Invocation.Callee.{Keeps}
use signals.Invocation.Counting.{in_use, Exists}
use signals.Invocation.Whole.{destroy_cache-Counted}
use signals.Signal.{SignalImpl, InvocationState, without_reader, unique, current_list, drop_reader}
use signals.Signal.Cleanup.{copy_state, nolock_cleanup_connections_from, force_cleanup_connections}
use signals.Signal.Emit.{settle_in, janitor, end_call}
use signals.Signal.Keyed.{Keyed-kept}
use signals.Signal.Consistent.{Consistent}
use signals.Signal.Sharing.{addressed, is_reader_list, copy_state-isolates, new_apart}
use signals.Signal.Cleaned.{cleanup_from-Cleans}
use signals.Signal.Owned.{copy_state-Consistent, reader_apart}
use signals.Groups.Copied.{renumber}

module _ {F K : Type 0} where
  Exists-kept :
      (a : Option ℕ) (store store' : Store F K)
      → Keeps store store'
      → Exists a store
      → Exists a store'
  Exists-kept none store store' k x = tt
  Exists-kept (some i) store store' k x = let q = k i x.0 x.1 in (q.0, q.1)

same_number : (i : ℕ) → (i == i) ≡ true
same_number i = ground arith

module _ {F Group C : Type 0} (cmp : Group → Group → Bool) where
  -- A signal that has lost nothing to the end of the call.
  pub record Closes (users : ℕ → ℕ) (s : SignalImpl F Group C) (o : Option (SignalImpl F Group C))
      : Type 0 where
    pub after : SignalImpl F Group C
    pub returns : o ≡ some after
    pub segs : List (Segment (GroupKey Group) ℕ)
    pub consistent : Consistent cmp users segs after
    pub kept : Keeps s.bodies after.bodies
    pub readers_left : after.readers ≡ s.readers
    pub lists_left : (a : ℕ) → is_reader_list a s.readers ≡ true → after.lists a ≡ s.lists a

  -- What is left of a signal after a call.
  pub record Ended (users : ℕ → ℕ) (s : SignalImpl F Group C) (o : Option (SignalImpl F Group C))
      : Type 0 where
    pub after : SignalImpl F Group C
    pub returns : o ≡ some after
    pub segs : List (Segment (GroupKey Group) ℕ)
    pub consistent : Consistent cmp users segs after
    pub readers_left : after.readers ≡ without_reader s.shared_state.address s.readers
    pub lists_left : (a : ℕ) → is_reader_list a s.readers ≡ true → after.lists a ≡ s.lists a

  -- The bodies have changed, but for their keys.
  new_bodies :
      (users users' : ℕ → ℕ) (segs : List (Segment (GroupKey Group) ℕ))
      (s s' : SignalImpl F Group C)
      → Consistent cmp users segs s
      → current_list s' ≡ current_list s
      → AllCounted users' s'.bodies
      → Keeps s.bodies s'.bodies
      → Consistent cmp users' segs s'
  new_bodies users users' segs s s' c same all kept = record {
    models = rw same c.models;
    counted = all;
    keyed = Keyed-kept cmp segs s.bodies s'.bodies kept c.keyed;
  }

  dropped_Consistent :
      (users : ℕ → ℕ) (segs : List (Segment (GroupKey Group) ℕ)) (a : ℕ) (s : SignalImpl F Group C)
      → Consistent cmp users segs s
      → Consistent cmp users segs (drop_reader a s)
  unfolding drop_reader
  dropped_Consistent users segs a s c = record {
    models = c.models;
    counted = c.counted;
    keyed = c.keyed;
  }

module _ {F Group C : Type 0} (cmp : Group → Group → Bool) (alive : ℕ → Bool) where
  shared_cleanup :
      (s : SignalImpl F Group C)
      → unique s ≡ false
      → force_cleanup_connections cmp alive s.shared_state.connection_bodies s
        ≡ nolock_cleanup_connections_from cmp alive false
            (head_id (current_list (copy_state s)).list)
            0
            (copy_state s)
  unfolding force_cleanup_connections
  shared_cleanup s u =
      let l = s.shared_state.connection_bodies in
      ap
        (λ b.
          if not b
          then some s
          else (let s' = if not (unique s) then copy_state s else s in
              nolock_cleanup_connections_from cmp alive false (head_id (current_list s').list) 0
                s'))
        (same_number l)
      ∙ ap
          (λ b.
            (let s' = if not b then copy_state s else s in
              nolock_cleanup_connections_from cmp alive false (head_id (current_list s').list) 0
                s'))
          u

  -- The clean-up after a call works on a copy, because the call itself still reads the list.
  force_cleanup-Closes :
      (o : StrictWeakOrder cmp) (users : ℕ → ℕ) (segs : List (Segment (GroupKey Group) ℕ))
      (s : SignalImpl F Group C)
      → Consistent cmp users segs s
      → unique s ≡ false
      → addressed s.next_address s.readers ≡ true
      → Closes cmp users s (force_cleanup_connections cmp alive s.shared_state.connection_bodies s)
  force_cleanup-Closes o users segs s c u low =
      let i = copy_state-isolates s low in
      let s' = copy_state s in
      let r =
        cleanup_from-Cleans cmp alive o users false (head_id (current_list s').list) 0
          (renumber (current_list s).next_id segs) s'
          (copy_state-Consistent cmp alive users segs s c) i.0 in
      record {
        after = r.after;
        returns = shared_cleanup s u ∙ r.returns;
        segs = r.segs;
        consistent = r.consistent;
        kept = unfold copy_state in r.unmoved.kept;
        readers_left = unfold copy_state in r.unmoved.readers_left;
        lists_left = λ a h.
            r.lists_left a (
              unfold copy_state in
              reader_apart (s.next_address + 1) a s.readers (new_apart s.next_address s.readers low)
                h)
            ∙ i.1 a h;
      }

module _ {F Group C R : Type 0} (cmp : Group → Group → Bool) where
  abbrev settled : Iter F (GroupKey Group) R → SignalImpl F Group C → SignalImpl F Group C
  settled it s = settle_in cmp it s

  janitor-Closes :
      (o : StrictWeakOrder cmp) (users : ℕ → ℕ) (segs : List (Segment (GroupKey Group) ℕ))
      (it : Iter F (GroupKey Group) R) (s : SignalImpl F Group C)
      → Consistent cmp users segs s
      → unique s ≡ false
      → addressed s.next_address s.readers ≡ true
      → Closes cmp users s (janitor cmp s.shared_state it s)
  unfolding janitor
  janitor-Closes o users segs it s c u low =
      elim (Bool-cases (ltb it.cache.connected_slot_count it.cache.disconnected_slot_count)) [
        | inl many ↦ rw many (force_cleanup-Closes cmp it.world.alive o users segs s c u low)
        | inr few ↦ rw few (record {
          after = s;
          returns = refl;
          segs = segs;
          consistent = c;
          kept = λ j b e. (b, e, refl);
          readers_left = refl;
          lists_left = λ a h. refl;
        })
      ]

  abbrev closed :
      InvocationState
      → Iter F (GroupKey Group) R
      → SignalImpl F Group C
      → Option (SignalImpl F Group C)
  closed state it s₁ = do
    d ← destroy_cache (record it {
      world = record it.world { bodies = s₁.bodies };
      cache = record it.cache { released = [] };
    })
    some (drop_reader state.address (settled d s₁))

  end_call_first :
      (state : InvocationState) (it : Iter F (GroupKey Group) R) (s : SignalImpl F Group C)
      → end_call cmp state it s ≡ (janitor cmp state it (settled it s) >>= λ s₁. closed state it s₁)
  unfolding end_call
  end_call_first state it s = refl

  end_call_lem :
      (state : InvocationState) (it d : Iter F (GroupKey Group) R) (s s₁ : SignalImpl F Group C)
      → janitor cmp state it (settled it s) ≡ some s₁
      → destroy_cache (record it {
        world = record it.world { bodies = s₁.bodies };
        cache = record it.cache { released = [] };
      })
        ≡ some d
      → end_call cmp state it s ≡ some (drop_reader state.address (settled d s₁))
  end_call_lem state it d s s₁ j e =
      end_call_first state it s
      ∙ ap (λ t. t >>= λ x. closed state it x) j
      ∙ ap (λ t. t >>= λ y. some (drop_reader state.address (settled y s₁))) e

  settled_unique :
      (it : Iter F (GroupKey Group) R) (s : SignalImpl F Group C)
      → unique s ≡ false
      → unique (settled it s) ≡ false
  unfolding unique
  settled_unique it s u = u

  pub end_call-Ended :
      (o : StrictWeakOrder cmp) (users : ℕ → ℕ) (segs : List (Segment (GroupKey Group) ℕ))
      (it : Iter F (GroupKey Group) R) (s : SignalImpl F Group C)
      → Consistent cmp users segs s
      → unique s ≡ false
      → addressed s.next_address s.readers ≡ true
      → AllCounted (λ j. users j + in_use it.cache.active_slot j) it.world.bodies
      → Exists it.cache.active_slot it.world.bodies
      → Keeps s.bodies it.world.bodies
      → Ended cmp users s (end_call cmp s.shared_state it s)
  end_call-Ended o users segs it s c u low used there kept =
      let busy : ℕ → ℕ = λ j. users j + in_use it.cache.active_slot j in
      let s' = settled it s in
      let r =
        janitor-Closes o busy segs it s' (new_bodies cmp users busy segs s s' c refl used kept)
          (settled_unique it s u) low in
      let it' : Iter F (GroupKey Group) R = record it {
        world = record it.world { bodies = r.after.bodies };
        cache = record it.cache { released = [] };
      } in
      let d =
        destroy_cache-Counted users it' r.consistent.counted
          (Exists-kept it.cache.active_slot it.world.bodies r.after.bodies r.kept there) in
      record {
        after = drop_reader s.shared_state.address (settled d.0 r.after);
        returns = end_call_lem s.shared_state it d.0 s r.after r.returns d.1;
        segs = r.segs;
        consistent =
            dropped_Consistent cmp users r.segs s.shared_state.address (settled d.0 r.after) (
              new_bodies cmp busy users r.segs r.after (settled d.0 r.after) r.consistent refl d.2
                d.3);
        readers_left =
            unfold drop_reader in ap (without_reader s.shared_state.address) r.readers_left;
        lists_left = λ a h. unfold drop_reader in r.lists_left a h;
      }
