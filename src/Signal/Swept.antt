-- ===== src/Signal/Swept.antt =====
-- The clean-up of a signal's list: it removes the slots that are not connected among those that it
-- visits, and nothing else.
use signals.Base.{
  ℕ, suc, ◌≡◌, refl, sym, ap, subst, ◌∙◌, Bool, true, false, ◌||◌, Option, none, some, List, [],
  ◌∷◌, ◌++◌, ◌==◌, ltb, inl, inr, Bool-cases, append_assoc,
}
use signals.Buffer.{◌>>=◌}
use signals.Groups.{GroupKey}
use signals.Groups.Containers.{Node}
use signals.Groups.Segments.{Segment, StrictWeakOrder}
use signals.Groups.Order.{group_key_less-StrictWeakOrder}
use signals.Signal.{SignalImpl, ConnectionList, current_list, set_current_list}
use signals.Signal.Cleanup.{check_body, cleanup_loop}
use signals.Signal.Unmoved.{stays, Unmoved, Unmoved-refl, Unmoved-trans}
use signals.Signal.Consistent.{Consistent, CursorIn}
use signals.Signal.Keyed.{keyed_node}
use signals.Signal.Visited.{
  Present-middle, Visited, check_body-Visited, Erased, erase-Erased, set_current_list-other,
}
use signals.Signal.Sweep.{sweep, sweep_stop, sweep_keep, sweep_drop, Sweeps, loop_stop, loop_visit}

module _ {F Group C : Type 0} (cmp : Group → Group → Bool) (alive : ℕ → Bool) where
  -- At the end of the list, and where the count is reached.
  stops-Sweeps :
      (users : ℕ → ℕ) (grab : Bool) (count i : ℕ) (pre ns : List (Node ℕ))
      (segs : List (Segment (GroupKey Group) ℕ)) (s : SignalImpl F Group C) (it : Option ℕ)
      → Consistent cmp users segs s
      → (current_list s).list ≡ pre ++ ns
      → sweep (stays grab alive s.bodies) count i ns ≡ ns
      → CursorIn it (pre ++ ns)
      → Sweeps cmp alive users grab count i pre ns s (some (s, it))
  stops-Sweeps users grab count i pre ns segs s it c split all there = record {
    after = s;
    cursor = it;
    returns = refl;
    segs = segs;
    consistent = c;
    swept = split ∙ ap (λ t. pre ++ t) (sym all);
    cursor_in = rw split there;
    unmoved = Unmoved-refl grab alive s;
    lists_left = λ a h. refl;
  }

  abbrev Checked :
      (users : ℕ → ℕ)
      → Bool
      → Node ℕ
      → List (Segment (GroupKey Group) ℕ)
      → SignalImpl F Group C
      → Type 0
  Checked users grab n segs s =
      Visited cmp alive users grab n segs s (check_body cmp alive grab n.value s)

  same_list :
      (users : ℕ → ℕ) (grab : Bool) (n : Node ℕ) (segs : List (Segment (GroupKey Group) ℕ))
      (s : SignalImpl F Group C) (v : Checked users grab n segs s)
      → current_list v.after ≡ current_list s
  same_list users grab n segs s v =
      ap (λ l. l v.after.shared_state.connection_bodies) v.lists_left
      ∙ ap (λ t. s.lists t.connection_bodies) v.unmoved.state_left

  -- A slot that stays.
  keep-Sweeps :
      (users : ℕ → ℕ) (grab : Bool) (count i : ℕ) (pre : List (Node ℕ)) (n : Node ℕ)
      (ns : List (Node ℕ)) (segs : List (Segment (GroupKey Group) ℕ)) (s : SignalImpl F Group C)
      (v : Checked users grab n segs s)
      → (count == 0 || ltb i count) ≡ true
      → v.held.body.connected ≡ true
      → Sweeps cmp alive users grab count
          (suc i)
          (pre ++ n ∷ [])
          ns
          v.after
          (cleanup_loop cmp alive grab count (suc i) ns v.after)
      → Sweeps cmp alive users grab count i pre
          (n ∷ ns)
          s
          (cleanup_loop cmp alive grab count i (n ∷ ns) s)
  keep-Sweeps users grab count i pre n ns segs s v more on r = record {
    after = r.after;
    cursor = r.cursor;
    returns =
        loop_visit cmp alive grab count i n ns s v.after v.held true more v.returns on ∙ r.returns;
    segs = r.segs;
    consistent = r.consistent;
    swept =
        r.swept
        ∙ append_assoc pre (n ∷ []) _
        ∙ ap (λ t. pre ++ n ∷ sweep t count (suc i) ns) v.unmoved.stays_left
        ∙ ap (λ t. pre ++ t)
            (sym (sweep_keep (stays grab alive s.bodies) count i n ns more (sym v.flag ∙ on)));
    cursor_in = r.cursor_in;
    unmoved = Unmoved-trans grab alive s v.after r.after v.unmoved r.unmoved;
    lists_left = λ a h. r.lists_left a (rw v.unmoved.state_left h) ∙ ap (λ l. l a) v.lists_left;
  }

  -- A slot that is erased.
  drop-Sweeps :
      (users : ℕ → ℕ) (grab : Bool) (count i : ℕ) (pre : List (Node ℕ)) (n : Node ℕ)
      (ns : List (Node ℕ)) (segs : List (Segment (GroupKey Group) ℕ)) (s : SignalImpl F Group C)
      (v : Checked users grab n segs s)
      (e : Erased cmp users v.held.body.group_key pre n ns v.after)
      → (count == 0 || ltb i count) ≡ true
      → v.held.body.connected ≡ false
      → Sweeps cmp alive users grab count
          (suc i)
          pre
          ns
          (set_current_list e.left v.after)
          (cleanup_loop cmp alive grab count (suc i) ns (set_current_list e.left v.after))
      → Sweeps cmp alive users grab count i pre
          (n ∷ ns)
          s
          (cleanup_loop cmp alive grab count i (n ∷ ns) s)
  drop-Sweeps users grab count i pre n ns segs s v e more off r = record {
    after = r.after;
    cursor = r.cursor;
    returns =
        loop_visit cmp alive grab count i n ns s v.after v.held false more v.returns off
        ∙ ap
            (λ t. t >>= λ x.
              cleanup_loop cmp alive grab count (suc i) ns (set_current_list x.0 v.after))
            e.returns
        ∙ r.returns;
    segs = r.segs;
    consistent = r.consistent;
    swept =
        r.swept
        ∙ ap (λ t. pre ++ sweep t count (suc i) ns) v.unmoved.stays_left
        ∙ ap (λ t. pre ++ t)
            (sym (sweep_drop (stays grab alive s.bodies) count i n ns more (sym v.flag ∙ off)));
    cursor_in = r.cursor_in;
    unmoved =
        Unmoved-trans grab alive s v.after r.after v.unmoved
          (erased_unmoved e.left v.after r.after r.unmoved);
    lists_left = λ a h.
        r.lists_left a (rw v.unmoved.state_left h)
        ∙ set_current_list-other e.left v.after a (rw v.unmoved.state_left h)
        ∙ ap (λ l. l a) v.lists_left;
  }
    where
      erased_unmoved :
          (l : ConnectionList Group) (t u : SignalImpl F Group C)
          → Unmoved grab alive (set_current_list l t) u
          → Unmoved grab alive t u
      erased_unmoved l t u m = record {
        stays_left = m.stays_left;
        state_left = m.state_left;
        readers_left = m.readers_left;
        addresses_left = m.addresses_left;
        next_body_left = m.next_body_left;
        absent_left = m.absent_left;
        kept = m.kept;
      }

  pub cleanup_loop-Sweeps :
      (o : StrictWeakOrder cmp) (users : ℕ → ℕ) (grab : Bool) (count i : ℕ) (pre ns : List (Node ℕ))
      (segs : List (Segment (GroupKey Group) ℕ)) (s : SignalImpl F Group C)
      → Consistent cmp users segs s
      → (current_list s).list ≡ pre ++ ns
      → Sweeps cmp alive users grab count i pre ns s (cleanup_loop cmp alive grab count i ns s)
  cleanup_loop-Sweeps o users grab count i pre [] segs s c split =
      unfold cleanup_loop in
      stops-Sweeps users grab count i pre [] segs s none c split (unfold sweep in refl) tt
  cleanup_loop-Sweeps o users grab count i pre (n ∷ ns) segs s c split =
      elim (Bool-cases (count == 0 || ltb i count)) [
        | inr stop ↦
            subst (Sweeps cmp alive users grab count i pre (n ∷ ns) s)
              (sym (loop_stop cmp alive grab count i n ns s stop))
              (stops-Sweeps users grab count i pre (n ∷ ns) segs s (some n.id) c split
                (sweep_stop (stays grab alive s.bodies) count i n ns stop)
                (Present-middle pre n ns))
        | inl more ↦
            let v = check_body-Visited cmp alive users grab n segs s c (
              keyed_node cmp (group_key_less-StrictWeakOrder cmp o) segs s.bodies pre n ns
                c.models.sorted c.keyed (sym c.models.list_flat ∙ split)) in
            let split' : (current_list v.after).list ≡ pre ++ n ∷ ns =
              ap (λ l. l.list) (same_list users grab n segs s v) ∙ split in
            elim (Bool-cases v.held.body.connected) [
              | inl on ↦ keep-Sweeps users grab count i pre n ns segs s v more on (
                  cleanup_loop-Sweeps o users grab count (suc i) (pre ++ n ∷ []) ns segs v.after
                    v.consistent (split' ∙ sym (append_assoc pre (n ∷ []) ns)))
              | inr off ↦
                  let e =
                    erase-Erased cmp o users segs v.held.body.group_key pre n ns v.after
                      v.consistent v.in_group split' in
                  drop-Sweeps users grab count i pre n ns segs s v e more off (
                    cleanup_loop-Sweeps o users grab count (suc i) pre ns e.segs
                      (set_current_list e.left v.after) e.consistent e.list_left)
            ]
      ]
