-- ===== src/Buffer/Insert.antt =====
-- auto_buffer.hpp: insertion. A position is an index; `cend()` is the index size_. `raw` says whether
-- std::copy moves the objects as raw memory, as it does for trivially copyable types.
use signals.Base.{
  ℕ, ◌+◌, ◌-◌, Bool, not, Option, some, List, [], ◌∷◌, ltb, leb, ◌==◌, if◌then◌else◌, length, take,
  drop, set, replicate,
}
use signals.Buffer.{
  AutoBuffer, null, ◌>>=◌, ◌>>◌, assert, size, is_on_stack, is_valid, unchecked_push_back,
  unchecked_push_back_range, unchecked_push_back_n,
}
use signals.Buffer.Copy.{std_copy, fill, assign_impl}
use signals.Buffer.Growth.{with_capacity, new_capacity_impl}

module _ {ℓ} {A : Type ℓ} where
  -- The temporary gives its buffer away. What is left of it has a null buffer, and is valid.
  unfoldable pub one_sided_swap : ℕ → AutoBuffer A → AutoBuffer A → Option (AutoBuffer A)
  unfolding size is_on_stack is_valid
  one_sided_swap N b temp = do
    assert (not (is_on_stack N temp))
    assert (is_valid N b)
    assert (leb (size b + 1) (size temp))
    assert (is_valid N (record temp { buffer = null }))
    some (record b { items = temp.items; capacity = temp.capacity; buffer = temp.buffer })

  -- The three pieces of the growing path, in a new buffer.
  unfoldable pub rebuild : ℕ → AutoBuffer A → ℕ → List A → Option (AutoBuffer A)
  unfolding size is_valid new_capacity_impl with_capacity unchecked_push_back_range one_sided_swap
  rebuild N b before xs = do
    capacity ← new_capacity_impl b (size b + length xs)
    t₁ ← unchecked_push_back_range (with_capacity N capacity) (take before b.items)
    t₂ ← unchecked_push_back_range t₁ xs
    t₃ ← unchecked_push_back_range t₂ (drop before b.items)
    b' ← one_sided_swap N b t₃
    assert (is_valid N b')
    some b'

  -- insert( before, x ) while there is room. `init` is what T() or the fresh memory puts into the
  -- cell that grow_back_one adds.
  unfoldable pub insert_room : Bool → ℕ → A → AutoBuffer A → ℕ → A → Option (AutoBuffer A)
  unfolding size is_valid unchecked_push_back std_copy
  insert_room raw N init b before x =
      if not (before == size b)
      then (do
        g ← unchecked_push_back b init
        let moved = std_copy raw (size g - 1 - before) before (before + 1) g.items
        let b' = record g { items = set moved before x }
        assert (is_valid N b')
        some b')
      else unchecked_push_back b x

  -- insert( before, x ); the result is the buffer and the new object's position.
  unfoldable pub insert : Bool → ℕ → A → AutoBuffer A → ℕ → A → Option (AutoBuffer A × ℕ)
  unfolding size
  insert raw N init b before x = do
    b' ←
        (if ltb (size b) b.capacity
          then insert_room raw N init b before x
          else rebuild N b before (x ∷ []))
    some (b', before)

  -- insert( before, n, x )
  unfoldable pub insert_n : Bool → ℕ → A → AutoBuffer A → ℕ → ℕ → A → Option (AutoBuffer A)
  unfolding size is_valid unchecked_push_back_n std_copy fill rebuild
  insert_n raw N init b before n x =
      if leb (size b + n) b.capacity
      then (do
        g ← unchecked_push_back_n b n init
        let moved = std_copy raw (size g - n - before) before (before + n) g.items
        let b' = record g { items = fill n before x moved }
        assert (is_valid N b')
        some b')
      else rebuild N b before (replicate n x)

  -- insert( before, begin_arg, end_arg ) for forward iterators
  unfoldable pub insert_range : Bool → ℕ → A → AutoBuffer A → ℕ → List A → Option (AutoBuffer A)
  unfolding size is_valid unchecked_push_back_n unchecked_push_back_range std_copy assign_impl
      rebuild
  insert_range raw N init b before xs =
      let n = length xs in
      if leb (size b + n) b.capacity
      then (do
        b' ←
            (if not (before == size b)
              then (do
                g ← unchecked_push_back_n b n init
                let moved = std_copy raw (size g - n - before) before (before + n) g.items
                some (record g { items = assign_impl xs before moved }))
              else unchecked_push_back_range b xs)
        assert (is_valid N b')
        some b')
      else rebuild N b before xs
