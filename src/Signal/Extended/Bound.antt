-- ===== src/Signal/Extended/Bound.antt =====
-- An extended slot is called with the connection that connect_extended returned for it.
use signals.Base.{ℕ, suc, ◌≡◌, refl, ◌∙◌, Bool, true, false, Option, none, some, List, ◌==◌, ◌||◌}
use signals.Buffer.{◌>>=◌}
use signals.Slot.{Slot, Tracked, expired, expired_tracked, replace_slot_function}
use signals.Slot.Lock.{expired-replace_slot_function}
use signals.Groups.{GroupKey, grouped_slots}
use signals.Groups.Segments.{Segment, StrictWeakOrder}
use signals.Connection.Handle.{Connection}
use signals.Signal.{SignalImpl, put, unique}
use signals.Signal.Connect.{ConnectPosition}
use signals.Signal.Sharing.{addressed, is_reader_list, put_same, put_ne}
use signals.Signal.Consistent.{Consistent}
use signals.Signal.Connected.{Connects, nolock_connect_group-Connects}
use signals.Signal.Outer.{outer_key, nolock_connect-Outer}
use signals.Signal.Extended.{
  Cells, make_cell, set_connection, bound_slot, finish_extended, connect_extended,
  connect_extended_group,
}

module _ {E F Group C : Type 0} (bind : E → ℕ → F) (tracked_of : F → List Tracked)
    (cmp : Group → Group → Bool) (alive : ℕ → Bool) where
  -- The slot has been connected, and the cell that it is bound to holds its connection.
  pub record Binds (users : ℕ → ℕ) (position : ConnectPosition) (key : GroupKey Group)
      (ext_slot : Slot E) (cells : Cells) (s : SignalImpl F Group C)
      (o : Option (SignalImpl F Group C × Connection × Cells)) : Type 0 where
    pub connection_plain : Option (SignalImpl F Group C × ℕ)
    pub connects :
        Connects cmp alive users position key
          (bound_slot bind tracked_of ext_slot cells.next_cell)
          s
          connection_plain
    pub cells_after : Cells
    pub returns : o ≡ some (connects.after, record { weak = some s.next_body }, cells_after)
    pub calls_with :
        (bound_slot bind tracked_of ext_slot cells.next_cell).slot_function
        ≡ bind ext_slot.slot_function cells.next_cell
    pub cell_set : cells_after.content cells.next_cell ≡ record { weak = some s.next_body }
    pub cells_left :
        (j : ℕ) → (cells.next_cell == j) ≡ false → cells_after.content j ≡ cells.content j
    pub expires : expired alive (bound_slot bind tracked_of ext_slot cells.next_cell) ≡ (
        expired_tracked alive (tracked_of (bind ext_slot.slot_function cells.next_cell))
        || expired alive ext_slot)

  finished :
      (users : ℕ → ℕ) (position : ConnectPosition) (key : GroupKey Group) (ext_slot : Slot E)
      (cells : Cells) (s : SignalImpl F Group C) (o : Option (SignalImpl F Group C × ℕ))
      → Connects cmp alive users position key
          (bound_slot bind tracked_of ext_slot cells.next_cell)
          s
          o
      → Binds users position key ext_slot cells s (
          o >>= λ c.
          some
            (finish_extended bind tracked_of cmp alive (make_cell cells).1 (make_cell cells).0 c))
  unfolding finish_extended make_cell set_connection bound_slot replace_slot_function
  finished users position key ext_slot cells s o c =
      let conn : Connection = record { weak = some s.next_body } in
      let made = put cells.next_cell (record { weak = none }) cells.content in
      record {
        connection_plain = o;
        connects = c;
        cells_after = record {
          content = put cells.next_cell conn made;
          next_cell = suc cells.next_cell;
        };
        returns = rw c.returns refl;
        calls_with = refl;
        cell_set = put_same cells.next_cell conn made;
        cells_left = λ j h.
            put_ne cells.next_cell j conn made h
            ∙ put_ne cells.next_cell j (record { weak = none }) cells.content h;
        expires =
            expired-replace_slot_function alive tracked_of ext_slot
              (bind ext_slot.slot_function cells.next_cell);
      }

  -- connect_extended without and with a group connects, as connect does under the same conditions,
  -- the slot whose function is the extended slot's function bound to a new cell; afterwards that
  -- cell holds the connection that is returned, which is the new body's, the other cells are as
  -- before, and the connected slot has expired exactly if the extended slot has or something
  -- tracked in the bound function has expired. The group comparison is a strict weak order, the
  -- signal is consistent, the readers' addresses have been allocated, a list that a call reads
  -- belongs to a state that a call holds, and the new body's identity is unused.
  pub connect_extended-Binds :
      (o : StrictWeakOrder cmp) (users : ℕ → ℕ) (segs : List (Segment (GroupKey Group) ℕ))
      (group : Group) (ext_slot : Slot E) (position : ConnectPosition) (cells : Cells)
      (s : SignalImpl F Group C)
      → Consistent cmp users segs s
      → addressed s.next_address s.readers ≡ true
      → (unique s ≡ true → is_reader_list s.shared_state.connection_bodies s.readers ≡ false)
      → s.bodies s.next_body ≡ none
      → users s.next_body ≡ 0
      → Binds users position
          (outer_key position)
          ext_slot
          cells
          s
          (connect_extended bind tracked_of cmp alive ext_slot position cells s)
        × Binds users position
            (record { first = grouped_slots; second = some group })
            ext_slot
            cells
            s
            (connect_extended_group bind tracked_of cmp alive group ext_slot position cells s)
  unfolding connect_extended connect_extended_group
  connect_extended-Binds o users segs group ext_slot position cells s c low apart free unused =
      let slot = bound_slot bind tracked_of ext_slot cells.next_cell in
      (
        finished users position (outer_key position) ext_slot cells s _
            (nolock_connect-Outer cmp alive o users segs slot position s c low apart free unused).0,
        finished users position (record { first = grouped_slots; second = some group }) ext_slot
            cells s _
            (nolock_connect_group-Connects cmp alive o users segs group slot position s c low apart
              free unused),
      )
