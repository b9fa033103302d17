-- ===== src/Tests/Connections.antt =====
-- A body with a slot that one invocation is using, and blocks on its connection.
use signals.Base.{
  ℕ, ◌≡◌, refl, subst, ap, sym, Bool, true, false, not, ◌&&◌, none, some, [], ◌∷◌, ◌==◌, arith,
  if◌then◌else◌,
}
use signals.Slot.{void_ptr}
use signals.Connection.{
  ConnectionBody, Held, hold, dec_slot_refcount, nolock_disconnect, connected_body,
}
use signals.Connection.Body.{
  IsCounted, Releases, slot_expired, dec-Releases, nolock_disconnect-Releases, connected_body_lem,
}
use signals.Connection.Handle.{Store, AllCounted, scoped_move_assign}
use signals.Connection.Handle.Scoped.{Guards, scoped_move_assign-Guards}
use signals.Connection.Block.{ConnectionBlock, blocker_of, empty, block, AllShares, shares_held}
use signals.Connection.Block.Effect.{Blocks, block-Blocks}

abbrev pub used : ConnectionBody ℕ ℕ
used = record {
  connected = true;
  slot_refcount = 2;
  slot = some (record { slot_function = 40; tracked_objects = void_ptr 1 ∷ [] });
  blockers = 1;
  group_key = 0;
}

pub used-IsCounted : IsCounted 1 used
used-IsCounted = record {
  counted = refl;
  bounded = omega arith;
  present = ((λ e. absurd (ground arith)), (λ e. absurd (ground arith)));
}

abbrev pub store : Store ℕ ℕ
store i = if i == 7 then some used else none

abbrev pub users : ℕ → ℕ
users i = 1

stored : (i : ℕ) (b : ConnectionBody ℕ ℕ) → store i ≡ some b → used ≡ b
stored i b e = ground arith

at_seven : (i : ℕ) (b : ConnectionBody ℕ ℕ) → store i ≡ some b → (7 == i) ≡ true
at_seven i b e = ground arith

pub store-AllCounted : AllCounted users store
store-AllCounted i b e = subst (IsCounted 1) (stored i b e) used-IsCounted

dec-Releases_example :
    (r : Releases 0 false (hold used) (dec_slot_refcount (hold used))) × (r.left.body.connected
      ≡ true)
dec-Releases_example = dec-Releases 0 (hold used) used-IsCounted

nolock_disconnect-Releases_example :
    (r : Releases 1 false (hold used) (nolock_disconnect (hold used))) × (r.left.body.connected
      ≡ false)
    × (nolock_disconnect r.left ≡ some r.left)
nolock_disconnect-Releases_example = nolock_disconnect-Releases 1 (hold used) used-IsCounted

abbrev pub all_gone : ℕ → Bool
all_gone i = false

connected_body_lem_example :
    (h : Held ℕ ℕ) × (connected_body all_gone used
      ≡ some (h, used.connected && not (slot_expired all_gone used.slot)))
    × IsCounted 1 h.body
    × (h.body.connected ≡ (used.connected && not (slot_expired all_gone used.slot)))
    × (slot_expired all_gone used.slot ≡ false → h.body ≡ used)
connected_body_lem_example = connected_body_lem 1 all_gone used used-IsCounted

scoped_move_assign-Guards_example :
    Guards users
      (record { weak = none })
      (record { weak = some 7 })
      store
      (scoped_move_assign (record { weak = none }) (record { weak = some 7 }) store)
scoped_move_assign-Guards_example =
    scoped_move_assign-Guards users (record { weak = none }) (record { weak = some 7 }) store
      store-AllCounted

abbrev blocking_7 : ConnectionBlock
blocking_7 = record { weak = some 7; blocker = blocker_of 7 }

abbrev free : ConnectionBlock
free = record { weak = some 7; blocker = empty }

shared :
    (i : ℕ) (b : ConnectionBody ℕ ℕ)
    → store i ≡ some b
    → b.blockers ≡ shares_held i (free ∷ blocking_7 ∷ [])
shared i b e = rw (at_seven i b e) (ap (λ c. c.blockers) (sym (stored i b e)))

store-AllShares : AllShares (free ∷ blocking_7 ∷ []) store
store-AllShares i b e = shared i b e

block-Blocks_example : Blocks free (blocking_7 ∷ []) store (block free store)
block-Blocks_example = block-Blocks free (blocking_7 ∷ []) store tt store-AllShares
