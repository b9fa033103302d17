-- ===== src/Connection/Block.antt =====
-- include/boost/signals2/shared_connection_block.hpp: a connection is blocked as long as some block
-- holds its blocker.
pub mod Effect
use signals.Base.{
  ℕ, ◌+◌, ◌-◌, ◌≡◌, ◌<◌, ◌↔◌, refl, Bool, true, false, Option, none, some, List, [], ◌∷◌, ◌==◌,
  if◌then◌else◌, arith, inl, inr, Option-cases,
}
use signals.Connection.{ConnectionBody, get_blocker, blocked_body}
use signals.Connection.Handle.{Connection, Store, put_body, lock_body, blocked}

-- _blocker: empty, the non-empty null pointer of a block whose connection is gone, or a share of the
-- blocker of a body.
pub data Blocker : Type 0 where
  empty expired_blocker : Blocker
  blocker_of : ℕ → Blocker

pub record ConnectionBlock : Type 0 where
  pub weak : Option ℕ
  pub blocker : Blocker

unfoldable pub blocking : ConnectionBlock → Bool
blocking s = elim s.blocker [ empty ↦ false | expired_blocker ↦ true | blocker_of i ↦ true ]

unfoldable pub connection : ConnectionBlock → Connection
connection s = record { weak = s.weak }

module _ {F K : Type 0} where
  -- The body that the handle locks gives a share of its blocker.
  unfoldable pub block_locked :
      ConnectionBlock
      → Store F K
      → Option ℕ
      → Option (ConnectionBody F K)
      → ConnectionBlock × Store F K
  unfolding get_blocker
  block_locked s store w none = (record s { blocker = expired_blocker }, store)
  block_locked s store none (some b) = (record s { blocker = expired_blocker }, store)
  block_locked s store (some i) (some b) =
      (record s { blocker = blocker_of i }, put_body i (get_blocker b) store)

  unfoldable pub block : ConnectionBlock → Store F K → ConnectionBlock × Store F K
  unfolding blocking block_locked
  block s store =
      if blocking s then (s, store) else block_locked s store s.weak (lock_body store s.weak)

  -- A share less of the blocker; the body may be gone.
  unfoldable pub drop_share : Option (ConnectionBody F K) → Option (ConnectionBody F K)
  drop_share none = none
  drop_share (some b) = some (record b { blockers = b.blockers - 1 })

  unfoldable pub reset_blocker : Blocker → Store F K → Store F K
  unfolding drop_share
  reset_blocker empty store = store
  reset_blocker expired_blocker store = store
  reset_blocker (blocker_of i) store = λ j. if i == j then drop_share (store i) else store j

  unfoldable pub unblock : ConnectionBlock → Store F K → ConnectionBlock × Store F K
  unfolding reset_blocker
  unblock s store = (record s { blocker = empty }, reset_blocker s.blocker store)

  -- The constructor.
  unfoldable pub make_block : Connection → Bool → Store F K → ConnectionBlock × Store F K
  unfolding block
  make_block conn initially_blocked store =
      let s : ConnectionBlock = record { weak = conn.weak; blocker = empty } in
      if initially_blocked then block s store else (s, store)

abbrev pub holds : ℕ → Blocker → ℕ
holds i empty = 0
holds i expired_blocker = 0
holds i (blocker_of j) = if j == i then 1 else 0

abbrev pub shares_held : ℕ → List ConnectionBlock → ℕ
shares_held i [] = 0
shares_held i (s ∷ ss) = holds i s.blocker + shares_held i ss

module _ {F K : Type 0} where
  -- The use count of every body's blocker is the number of blocks that hold it.
  abbrev pub AllShares : List ConnectionBlock → Store F K → Type 0
  AllShares ss store =
      (i : ℕ) (b : ConnectionBody F K) → store i ≡ some b → b.blockers ≡ shares_held i ss

  block_locked-AllShares :
      (w : Option ℕ) (ss : List ConnectionBlock) (store : Store F K)
      (o : Option (ConnectionBody F K)) (v : Option ℕ)
      → lock_body store w ≡ o
      → AllShares (record { weak = v; blocker = empty } ∷ ss) store
      → AllShares
          ((block_locked (record { weak = v; blocker = empty }) store w o).0 ∷ ss)
          (block_locked (record { weak = v; blocker = empty }) store w o).1
  unfolding block_locked
  block_locked-AllShares w ss store none v e all = all
  block_locked-AllShares none ss store (some b) v e all = all
  block_locked-AllShares (some i) ss store (some b) v e all =
      λ j c h. ground (arith, all i b e, all j c)

  block-cases :
      (v : Option ℕ) (held : Blocker) (ss : List ConnectionBlock) (store : Store F K)
      → AllShares (record { weak = v; blocker = held } ∷ ss) store
      → AllShares
          ((block (record { weak = v; blocker = held }) store).0 ∷ ss)
          (block (record { weak = v; blocker = held }) store).1
  block-cases v empty ss store all =
      unfold block in block_locked-AllShares v ss store (lock_body store v) v refl all
  block-cases v expired_blocker ss store all = unfold block in all
  block-cases v (blocker_of i) ss store all = unfold block in all

  pub block-AllShares :
      (s : ConnectionBlock) (ss : List ConnectionBlock) (store : Store F K)
      → AllShares (s ∷ ss) store
      → AllShares ((block s store).0 ∷ ss) (block s store).1
  block-AllShares s ss store all = block-cases s.weak s.blocker ss store all

  drop_share-AllShares :
      (i : ℕ) (ss : List ConnectionBlock) (store : Store F K) (j : ℕ) (c : ConnectionBody F K)
      → ((k : ℕ) (b : ConnectionBody F K)
          → store k ≡ some b
          → b.blockers ≡ (if i == k then 1 else 0) + shares_held k ss)
      → reset_blocker (blocker_of i) store j ≡ some c
      → c.blockers ≡ shares_held j ss
  unfolding reset_blocker
  drop_share-AllShares i ss store j c all h = elim (Option-cases (store i)) [
    | inl e ↦ ground (arith, all j c)
    | inr (b, e) ↦ ground (arith, all i b e, all j c)
  ]

  reset_blocker-AllShares :
      (held : Blocker) (v : Option ℕ) (ss : List ConnectionBlock) (store : Store F K)
      → AllShares (record { weak = v; blocker = held } ∷ ss) store
      → AllShares (record { weak = v; blocker = empty } ∷ ss) (reset_blocker held store)
  reset_blocker-AllShares empty v ss store all = unfold reset_blocker in all
  reset_blocker-AllShares expired_blocker v ss store all = unfold reset_blocker in all
  reset_blocker-AllShares (blocker_of i) v ss store all =
      λ j c h. omega (arith, drop_share-AllShares i ss store j c all h)

  pub unblock-AllShares :
      (s : ConnectionBlock) (ss : List ConnectionBlock) (store : Store F K)
      → AllShares (s ∷ ss) store
      → AllShares ((unblock s store).0 ∷ ss) (unblock s store).1
  unfolding unblock
  unblock-AllShares s ss store all = reset_blocker-AllShares s.blocker s.weak ss store all
