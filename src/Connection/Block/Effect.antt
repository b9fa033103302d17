-- ===== src/Connection/Block/Effect.antt =====
-- shared_connection_block.hpp: which connections are blocked after block() and unblock().
use signals.Base.{
  ℕ, ◌≡◌, refl, ap, subst, ◌∙◌, ltb, Bool, true, false, ◌||◌, Option, none, some, List, ◌∷◌, ◌==◌,
  arith, inl, inr, Bool-cases, Option-cases,
}
use signals.Connection.{ConnectionBody, get_blocker, blocked_body}
use signals.Connection.Handle.{Store, put_body, lock_body, blocked, blocked_locked}
use signals.Connection.Block.{
  Blocker, empty, expired_blocker, blocker_of, ConnectionBlock, blocking, connection, block_locked,
  block, shares_held, AllShares, block-AllShares,
}

same_number : (i : ℕ) → (i == i) ≡ true
same_number i = ground arith

abbrev pub refers_to : Option ℕ → ℕ → Bool
refers_to none j = false
refers_to (some i) j = i == j

module _ {F K : Type 0} where
  abbrev pub is_gone : Option (ConnectionBody F K) → Bool
  is_gone none = true
  is_gone (some b) = false

  -- A block holds the blocker of its connection's body, or found that the body was gone.
  abbrev pub Fits : Option ℕ → Blocker → Store F K → Type 0
  Fits w empty store = Unit {0}
  Fits w expired_blocker store = lock_body store w ≡ none
  Fits w (blocker_of i) store = w ≡ some i

  -- The block's connection is blocked, and no other has changed.
  pub record Blocks (s : ConnectionBlock) (ss : List ConnectionBlock) (store : Store F K)
      (r : ConnectionBlock × Store F K) : Type 0 where
    pub shares : AllShares (r.0 ∷ ss) r.1
    pub fits : Fits r.0.weak r.0.blocker r.1
    pub handle_left : connection r.0 ≡ connection s
    pub is_blocking : blocking r.0 ≡ true
    pub blocked_now : blocked (connection r.0) r.1 ≡ true
    pub blocks_it :
        (j : ℕ)
        → blocked (record { weak = some j }) r.1
          ≡ (refers_to s.weak j || blocked (record { weak = some j }) store)

  -- A connection is blocked as far as other blocks hold its blocker, or as it is gone.
  pub record Unblocks (s : ConnectionBlock) (ss : List ConnectionBlock) (store : Store F K)
      (r : ConnectionBlock × Store F K) : Type 0 where
    pub shares : AllShares (r.0 ∷ ss) r.1
    pub fits : Fits r.0.weak r.0.blocker r.1
    pub handle_left : connection r.0 ≡ connection s
    pub is_blocking : blocking r.0 ≡ false
    pub blocked_left :
        (j : ℕ)
        → blocked (record { weak = some j }) r.1 ≡ (is_gone (store j) || ltb 0 (shares_held j ss))

  gone_blocked :
      (w : Option ℕ) (store : Store F K)
      → lock_body store w ≡ none
      → blocked (record { weak = w }) store ≡ true
  unfolding blocked blocked_locked
  gone_blocked w store e = ap blocked_locked e

  gone_refers :
      (w : Option ℕ) (store : Store F K) (j : ℕ)
      → lock_body store w ≡ none
      → blocked (record { weak = some j }) store
        ≡ (refers_to w j || blocked (record { weak = some j }) store)
  unfolding blocked blocked_locked
  gone_refers none store j e = refl
  gone_refers (some i) store j e = elim (Bool-cases (i == j)) [
    | inl h ↦
        let p : i ≡ j = ground arith in
        let q : store j ≡ none = subst (λ k. store k ≡ none) p e in rw (h, q) refl
    | inr h ↦ rw h refl
  ]

  -- What a block holds is blocked.
  held_blocked :
      (i j : ℕ) (ss : List ConnectionBlock) (w : Option ℕ) (store : Store F K)
      → AllShares (record { weak = w; blocker = blocker_of i } ∷ ss) store
      → (i == j) ≡ true
      → blocked (record { weak = some j }) store ≡ true
  unfolding blocked blocked_locked blocked_body
  held_blocked i j ss w store all h = elim (Option-cases (store j)) [
    | inl e ↦ rw e refl
    | inr (b, e) ↦ rw e (ground (arith, all j b e))
  ]

  held_refers :
      (i j : ℕ) (ss : List ConnectionBlock) (w : Option ℕ) (store : Store F K)
      → AllShares (record { weak = w; blocker = blocker_of i } ∷ ss) store
      → blocked (record { weak = some j }) store
        ≡ (refers_to (some i) j || blocked (record { weak = some j }) store)
  held_refers i j ss w store all = elim (Bool-cases (i == j)) [
    | inl h ↦ rw h (held_blocked i j ss w store all h)
    | inr h ↦ rw h refl
  ]

  block_locked-Blocks :
      (w : Option ℕ) (o : Option (ConnectionBody F K)) (ss : List ConnectionBlock)
      (store : Store F K)
      → lock_body store w ≡ o
      → AllShares
          ((block_locked (record { weak = w; blocker = empty }) store w o).0 ∷ ss)
          (block_locked (record { weak = w; blocker = empty }) store w o).1
      → Blocks
          (record { weak = w; blocker = empty })
          ss
          store
          (block_locked (record { weak = w; blocker = empty }) store w o)
  unfolding block_locked blocking connection
  block_locked-Blocks w none ss store e all = record {
    shares = all;
    fits = e;
    handle_left = refl;
    is_blocking = refl;
    blocked_now = gone_blocked w store e;
    blocks_it = λ j. gone_refers w store j e;
  }
  block_locked-Blocks none (some b) ss store e all = absurd (ground arith)
  block_locked-Blocks (some i) (some b) ss store e all = record {
    shares = all;
    fits = refl;
    handle_left = refl;
    is_blocking = refl;
    blocked_now =
        held_blocked i i ss (some i) (put_body i (get_blocker b) store) all (same_number i);
    blocks_it = λ j. elim (Bool-cases (i == j)) [
      | inl h ↦ rw h (held_blocked i j ss (some i) (put_body i (get_blocker b) store) all h)
      | inr h ↦ unfold blocked in rw h refl
    ];
  }

  block-cases :
      (w : Option ℕ) (held : Blocker) (ss : List ConnectionBlock) (store : Store F K)
      → Fits w held store
      → AllShares (record { weak = w; blocker = held } ∷ ss) store
      → AllShares
          ((block (record { weak = w; blocker = held }) store).0 ∷ ss)
          (block (record { weak = w; blocker = held }) store).1
      → Blocks
          (record { weak = w; blocker = held })
          ss
          store
          (block (record { weak = w; blocker = held }) store)
  unfolding block blocking connection
  block-cases w empty ss store fits all kept =
      block_locked-Blocks w (lock_body store w) ss store refl kept
  block-cases w expired_blocker ss store fits all kept = record {
    shares = all;
    fits = fits;
    handle_left = refl;
    is_blocking = refl;
    blocked_now = gone_blocked w store fits;
    blocks_it = λ j. gone_refers w store j fits;
  }
  block-cases w (blocker_of i) ss store fits all kept = record {
    shares = all;
    fits = fits;
    handle_left = refl;
    is_blocking = refl;
    blocked_now =
        ap (λ v. blocked (record { weak = v }) store) fits
        ∙ held_blocked i i ss w store all (same_number i);
    blocks_it = λ j. rw fits (held_refers i j ss w store all);
  }

  -- Where every body's blocker has as many shares as there are blocks that hold it, and a block
  -- holds nothing, or the blocker of its connection's body, or found that body gone, block() keeps
  -- both, on each of its branches; afterwards the block is blocking, its connection is blocked and
  -- still its connection, and any other connection is blocked exactly if it was before.
  pub block-Blocks :
      (s : ConnectionBlock) (ss : List ConnectionBlock) (store : Store F K)
      → Fits s.weak s.blocker store
      → AllShares (s ∷ ss) store
      → Blocks s ss store (block s store)
  block-Blocks s ss store fits all =
      block-cases s.weak s.blocker ss store fits all (block-AllShares s ss store all)
