-- ===== src/Connection.antt =====
-- include/boost/signals2/connection.hpp: connection_body, which a signal's slot list shares with the
-- connection handles, and its reference count. `none` is a failed BOOST_ASSERT. Each function runs
-- with the body's mutex held; the trash that it leaves is destroyed after the unlock.
pub mod Body
pub mod Handle
pub mod Block
use signals.Base.{
  ℕ, ◌+◌, ◌-◌, ◌%◌, ◌^◌, ◌<◌, Bool, true, false, not, ◌||◌, Option, none, some, List, [], ◌∷◌, ◌++◌,
  ltb, ◌==◌, if◌then◌else◌,
}
use signals.Buffer.{◌>>=◌, ◌>>◌, assert, unsigned_mod}
use signals.Slot.{Slot, Tracked, Locked, expired_tracked, expired_weak_ptr, lock_weak_ptr}

-- m_slot is null once it is released. `blockers` is the use count behind _weak_blocker.
pub record ConnectionBody (F K : Type 0) : Type 0 where
  pub connected : Bool
  pub slot_refcount : ℕ
  pub slot : Option (Slot F)
  pub blockers : ℕ
  pub group_key : K

-- A body under a garbage_collecting_lock, with the pieces of trash that the lock has taken.
pub record Held (F K : Type 0) : Type 0 where
  pub body : ConnectionBody F K
  pub garbage : List (Option (Slot F))

module _ {F K : Type 0} where
  -- connection_body( slot, mutex ) with the group key that the signal sets.
  unfoldable pub make_body : Slot F → K → ConnectionBody F K
  make_body slot key = record {
    connected = true;
    slot_refcount = 1;
    slot = some slot;
    blockers = 0;
    group_key = key;
  }

  abbrev pub hold : ConnectionBody F K → Held F K
  hold b = record { body = b; garbage = [] }

  unfoldable pub add_trash : Option (Slot F) → Held F K → Held F K
  add_trash piece h = record h { garbage = h.garbage ++ piece ∷ [] }

  -- m_slot is reset, and what it was goes to the garbage.
  unfoldable pub release_slot : Held F K → Held F K
  unfolding add_trash
  release_slot h = add_trash h.body.slot (record h { body = record h.body { slot = none } })

  unfoldable pub inc_slot_refcount : Held F K → Option (Held F K)
  inc_slot_refcount h = do
    assert (not (h.body.slot_refcount == 0))
    some (record h {
      body = record h.body { slot_refcount = (h.body.slot_refcount + 1) % unsigned_mod };
    })

  unfoldable pub dec_slot_refcount : Held F K → Option (Held F K)
  unfolding release_slot
  dec_slot_refcount h = do
    assert (not (h.body.slot_refcount == 0))
    let count = h.body.slot_refcount - 1
    let h' = record h { body = record h.body { slot_refcount = count } }
    some (if count == 0 then release_slot h' else h')

  unfoldable pub nolock_disconnect : Held F K → Option (Held F K)
  unfolding dec_slot_refcount
  nolock_disconnect h =
      if h.body.connected
      then dec_slot_refcount (record h { body = record h.body { connected = false } })
      else some h

  -- disconnect(): the garbage is destroyed after the unlock.
  unfoldable pub disconnect_body : ConnectionBody F K → Option (Held F K)
  unfolding nolock_disconnect
  disconnect_body b = nolock_disconnect (hold b)

  unfoldable pub nolock_nograb_connected : ConnectionBody F K → Bool
  nolock_nograb_connected b = b.connected

  -- The blocker's weak pointer has expired when no block holds it any more.
  unfoldable pub blocked_body : ConnectionBody F K → Bool
  blocked_body b = ltb 0 b.blockers

  unfoldable pub nolock_nograb_blocked : ConnectionBody F K → Bool
  unfolding nolock_nograb_connected blocked_body
  nolock_nograb_blocked b = not (nolock_nograb_connected b) || blocked_body b

  -- A live blocker is shared; otherwise a new one is made, which has one owner.
  unfoldable pub get_blocker : ConnectionBody F K → ConnectionBody F K
  get_blocker b =
      if b.blockers == 0 then record b { blockers = 1 } else record b { blockers = b.blockers + 1 }

  unfoldable pub disconnect_expired_slot : (ℕ → Bool) → Held F K → Option (Held F K)
  unfolding nolock_disconnect expired_tracked
  disconnect_expired_slot alive h = elim h.body.slot [
    | none ↦ some h
    | some s ↦ if expired_tracked alive s.tracked_objects then nolock_disconnect h else some h
  ]

  -- The loop of nolock_grab_tracked_objects over the tracked objects; `out` is what the inserter has
  -- been given.
  unfoldable pub grab_each :
      (ℕ → Bool) → Held F K → List Tracked → List Locked → Option (Held F K × List Locked)
  unfolding lock_weak_ptr expired_weak_ptr nolock_disconnect
  grab_each alive h [] out = some (h, out)
  grab_each alive h (x ∷ xs) out =
      let rest = grab_each alive h xs (out ++ lock_weak_ptr alive x ∷ []) in
      if expired_weak_ptr alive x then (do h' ← nolock_disconnect h; some (h', out)) else rest

  unfoldable pub grab_slot :
      (ℕ → Bool) → Held F K → Option (Slot F) → Option (Held F K × List Locked)
  unfolding grab_each
  grab_slot alive h none = some (h, [])
  grab_slot alive h (some s) = grab_each alive h s.tracked_objects []

  unfoldable pub nolock_grab_tracked_objects :
      (ℕ → Bool) → Held F K → Option (Held F K × List Locked)
  unfolding grab_slot
  nolock_grab_tracked_objects alive h = grab_slot alive h h.body.slot

  -- connection_body::connected(): a slot that has expired is disconnected first.
  unfoldable pub connected_body : (ℕ → Bool) → ConnectionBody F K → Option (Held F K × Bool)
  unfolding nolock_grab_tracked_objects nolock_nograb_connected
  connected_body alive b = do
    r ← nolock_grab_tracked_objects alive (hold b)
    some (r.0, nolock_nograb_connected r.0.body)
