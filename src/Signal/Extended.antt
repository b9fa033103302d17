-- ===== src/Signal/Extended.antt =====
-- signal_template.hpp: bound_extended_slot_function and connect_extended. The connection that is bound
-- to an extended slot is in a cell that all copies of the function share; `bind` makes the slot
-- function of an extended slot function and a cell.
pub mod Bound
use signals.Base.{ℕ, suc, Bool, Option, none, some, List, ◌==◌, if◌then◌else◌}
use signals.Buffer.{◌>>=◌}
use signals.Slot.{Slot, Tracked, replace_slot_function}
use signals.Connection.Handle.{Connection}
use signals.Signal.{SignalImpl, put}
use signals.Signal.Connect.{ConnectPosition, nolock_connect, nolock_connect_group}

-- The shared_ptr<connection> of all bound functions.
pub record Cells : Type 0 where
  pub content : ℕ → Connection
  pub next_cell : ℕ

-- bound_extended_slot_function( fun ): its cell has a connection that was never set.
unfoldable pub make_cell : Cells → Cells × ℕ
make_cell c = (
  record {
    content = put c.next_cell (record { weak = none }) c.content;
    next_cell = suc c.next_cell;
  },
  c.next_cell,
)

unfoldable pub set_connection : ℕ → Connection → Cells → Cells
set_connection cell conn c = record c { content = put cell conn c.content }

module _ {E F : Type 0} (bind : E → ℕ → F) (tracked_of : F → List Tracked) where
  -- The slot that is connected for an extended slot.
  unfoldable pub bound_slot : Slot E → ℕ → Slot F
  unfolding replace_slot_function
  bound_slot ext_slot cell =
      replace_slot_function tracked_of ext_slot (bind ext_slot.slot_function cell)

module _ {E F Group C : Type 0} (bind : E → ℕ → F) (tracked_of : F → List Tracked)
    (group_compare : Group → Group → Bool) (alive : ℕ → Bool) where
  -- What follows the connecting of the slot.
  unfoldable pub finish_extended :
      ℕ → Cells → SignalImpl F Group C × ℕ → SignalImpl F Group C × Connection × Cells
  unfolding set_connection
  finish_extended cell cells (s, i) =
      let conn : Connection = record { weak = some i } in (s, conn, set_connection cell conn cells)

  -- connect_extended( ext_slot, position )
  unfoldable pub connect_extended :
      Slot E
      → ConnectPosition
      → Cells
      → SignalImpl F Group C
      → Option (SignalImpl F Group C × Connection × Cells)
  unfolding make_cell bound_slot nolock_connect finish_extended
  connect_extended ext_slot position cells s = do
    let made = make_cell cells
    let slot = bound_slot bind tracked_of ext_slot made.1
    c ← nolock_connect group_compare alive slot position s
    some (finish_extended made.1 made.0 c)

  -- connect_extended( group, ext_slot, position )
  unfoldable pub connect_extended_group :
      Group
      → Slot E
      → ConnectPosition
      → Cells
      → SignalImpl F Group C
      → Option (SignalImpl F Group C × Connection × Cells)
  unfolding make_cell bound_slot nolock_connect_group finish_extended
  connect_extended_group group ext_slot position cells s = do
    let made = make_cell cells
    let slot = bound_slot bind tracked_of ext_slot made.1
    c ← nolock_connect_group group_compare alive group slot position s
    some (finish_extended made.1 made.0 c)
