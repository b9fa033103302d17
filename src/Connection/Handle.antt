-- ===== src/Connection/Handle.antt =====
-- connection.hpp: the handles. connection and scoped_connection hold a weak pointer to a body; a
-- body that no list owns any more is gone from the store.
pub mod Scoped
use signals.Base.{
  ℕ, ◌≡◌, refl, subst, Bool, true, false, Option, none, some, List, [], ◌==◌, if◌then◌else◌, arith,
}
use signals.Buffer.{◌>>=◌}
use signals.Slot.{Slot}
use signals.Connection.{ConnectionBody, hold, disconnect_body, connected_body, blocked_body}
use signals.Connection.Body.{IsCounted, nolock_disconnect-Releases}

-- _weak_connection_body; `none` is a pointer that was never set.
pub record Connection : Type 0 where
  pub weak : Option ℕ

-- Copying and moving.
unfoldable pub move_connection : Connection → Connection × Connection
move_connection other = (other, record { weak = none })

unfoldable pub swap_connections : Connection → Connection → Connection × Connection
swap_connections a b = (b, a)

-- scoped_connection::release
unfoldable pub release : Connection → Connection × Connection
release c = (record { weak = c.weak }, record { weak = none })

-- The bodies that are alive.
abbrev pub Store : Type 0 → Type 0 → Type 0
Store F K = ℕ → Option (ConnectionBody F K)

abbrev pub same_address : Option ℕ → Option ℕ → Bool
same_address none none = true
same_address none (some b) = false
same_address (some a) none = false
same_address (some a) (some b) = a == b

module _ {F K : Type 0} where
  abbrev pub put_body : ℕ → ConnectionBody F K → Store F K → Store F K
  put_body i b store j = if i == j then some b else store j

  -- weak_ptr::lock
  abbrev pub lock_body : Store F K → Option ℕ → Option (ConnectionBody F K)
  lock_body store none = none
  lock_body store (some i) = store i

  abbrev pub put_at : Option ℕ → ConnectionBody F K → Store F K → Store F K
  put_at none b store = store
  put_at (some i) b store = put_body i b store

  -- A call on the body, and what it leaves in the store.
  unfoldable pub disconnect_locked :
      Option ℕ
      → Store F K
      → Option (ConnectionBody F K)
      → Option (Store F K × List (Option (Slot F)))
  disconnect_locked w store none = some (store, [])
  disconnect_locked w store (some b) = do
    h ← disconnect_body b
    some (put_at w h.body store, h.garbage)

  -- connection::disconnect, with the trash that it destroys
  unfoldable pub disconnect : Connection → Store F K → Option (Store F K × List (Option (Slot F)))
  unfolding disconnect_locked
  disconnect c store = disconnect_locked c.weak store (lock_body store c.weak)

  unfoldable pub connected_locked :
      (ℕ → Bool) → Option ℕ → Store F K → Option (ConnectionBody F K) → Option (Store F K × Bool)
  connected_locked alive w store none = some (store, false)
  connected_locked alive w store (some b) = do
    r ← connected_body alive b
    some (put_at w r.0.body store, r.1)

  unfoldable pub connected : (ℕ → Bool) → Connection → Store F K → Option (Store F K × Bool)
  unfolding connected_locked
  connected alive c store = connected_locked alive c.weak store (lock_body store c.weak)

  unfoldable pub blocked_locked : Option (ConnectionBody F K) → Bool
  blocked_locked none = true
  blocked_locked (some b) = blocked_body b

  unfoldable pub blocked : Connection → Store F K → Bool
  unfolding blocked_locked
  blocked c store = blocked_locked (lock_body store c.weak)

  -- The address of the body; a null pointer once it is gone.
  abbrev pub address : Option ℕ → Option (ConnectionBody F K) → Option ℕ
  address w none = none
  address w (some b) = w

  -- connection::operator==
  unfoldable pub equals : Connection → Connection → Store F K → Bool
  equals a b store =
      same_address (address a.weak (lock_body store a.weak))
        (address b.weak (lock_body store b.weak))

  -- scoped_connection::operator=( connection )
  unfoldable pub scoped_assign :
      Connection → Connection → Store F K → Option (Connection × Store F K × List (Option (Slot F)))
  unfolding disconnect
  scoped_assign lhs rhs store = do r ← disconnect lhs store; some (rhs, r.0, r.1)

  -- scoped_connection::operator=( scoped_connection && ), for another object
  unfoldable pub scoped_move_assign :
      Connection
      → Connection
      → Store F K
      → Option (Connection × Connection × Store F K × List (Option (Slot F)))
  unfolding disconnect move_connection
  scoped_move_assign lhs other store = do
    r ← disconnect lhs store
    some ((move_connection other).0, (move_connection other).1, r.0, r.1)

  -- ~scoped_connection
  unfoldable pub destroy_scoped :
      Connection → Store F K → Option (Store F K × List (Option (Slot F)))
  unfolding disconnect
  destroy_scoped c store = disconnect c store

  -- Every body of the store is counted; `users` says how many invocations use each.
  abbrev pub AllCounted : (ℕ → ℕ) → Store F K → Type 0
  AllCounted users store =
      (i : ℕ) (b : ConnectionBody F K) → store i ≡ some b → IsCounted (users i) b

  -- Where all bodies are counted, disconnect on a handle passes its assertions; afterwards the
  -- handle's body, if it is there, is disconnected and counted, and no other body has changed.
  pub disconnect_lem :
      (users : ℕ → ℕ) (i : ℕ) (store : Store F K)
      → AllCounted users store
      → (after : Store F K) × (trash : List (Option (Slot F))) × (disconnect
            (record { weak = some i })
            store
          ≡ some (after, trash))
        × ((j : ℕ) → (i == j) ≡ false → after j ≡ store j)
        × ((b : ConnectionBody F K)
            → after i ≡ some b
            → (b.connected ≡ false) × IsCounted (users i) b)
  unfolding disconnect
  disconnect_lem users i store all = go (store i) refl
    where
      go :
          (o : Option (ConnectionBody F K))
          → store i ≡ o
          → (after : Store F K) × (trash : List (Option (Slot F))) × (disconnect_locked
                (some i)
                store
                o
              ≡ some (after, trash))
            × ((j : ℕ) → (i == j) ≡ false → after j ≡ store j)
            × ((b : ConnectionBody F K)
                → after i ≡ some b
                → (b.connected ≡ false) × IsCounted (users i) b)
      go none e = (store, [], refl, (λ j h. refl), (λ b h. absurd (ground arith)))
      go (some b) e =
          let d = nolock_disconnect-Releases (users i) (hold b) (all i b e) in
          (
            put_body i d.0.left.body store,
            d.0.left.garbage,
            (unfold disconnect_locked disconnect_body in ground (arith, d.0.returns)),
            (λ j h. ground arith),
            λ b' h.
                let same : d.0.left.body ≡ b' = ground arith in
                (
                  subst (λ x. x.connected ≡ false) same d.1,
                  subst (IsCounted (users i)) same d.0.keeps,
                ),
          )
