-- ===== src/Buffer/Growth.antt =====
-- auto_buffer.hpp: construction, and what allocates a larger or a smaller buffer.
use signals.Base.{
  ℕ, ◌+◌, ◌%◌, ◌-◌, max, not, ◌||◌, Option, some, List, [], ◌++◌, ltb, leb, ◌==◌, if◌then◌else◌,
  length, take, replicate,
}
use signals.Buffer.{
  AutoBuffer, stack, ◌>>=◌, ◌>>◌, assert, allocate, new_capacity, should_shrink, size, is_on_stack,
  is_valid, size_mod, unchecked_push_back, unchecked_push_back_range,
}

module _ {ℓ} {A : Type ℓ} where
  -- auto_buffer()
  unfoldable pub default_buffer : ℕ → AutoBuffer A
  default_buffer N = record { items = []; capacity = N; buffer = stack }

  -- auto_buffer( capacity_arg )
  unfoldable pub with_capacity : ℕ → ℕ → AutoBuffer A
  unfolding allocate
  with_capacity N capacity_arg =
      let c = max capacity_arg N in record { items = []; capacity = c; buffer = allocate N c }

  -- auto_buffer( size_arg, init_value )
  unfoldable pub filled : ℕ → ℕ → A → AutoBuffer A
  unfolding allocate
  filled N size_arg init_value =
      let c = max size_arg N in
      record { items = replicate size_arg init_value; capacity = c; buffer = allocate N c }

  -- auto_buffer( const auto_buffer& )
  unfoldable pub copy_of : ℕ → AutoBuffer A → AutoBuffer A
  unfolding allocate size
  copy_of N r =
      let c = max (size r) N in record { items = r.items; capacity = c; buffer = allocate N c }

  -- auto_buffer( begin_arg, end_arg ): the buffer is allocated before the capacity is raised to N.
  unfoldable pub from_range : ℕ → List A → AutoBuffer A
  unfolding allocate
  from_range N xs =
      let n = length xs in
      record { items = xs; capacity = (if ltb n N then N else n); buffer = allocate N n }

  -- The copy goes to the new buffer, then the old one is destroyed, which asserts is_valid().
  unfoldable pub reserve_impl : ℕ → AutoBuffer A → ℕ → Option (AutoBuffer A)
  unfolding allocate is_valid size
  reserve_impl N b capacity = do
    assert (is_valid N b)
    assert (leb (size b) capacity)
    some (record { items = b.items; capacity = capacity; buffer = allocate N capacity })

  unfoldable pub new_capacity_impl : AutoBuffer A → ℕ → Option ℕ
  unfolding new_capacity
  new_capacity_impl b n = do assert (ltb b.capacity n); some (max (new_capacity b.capacity) n)

  unfoldable pub reserve_precisely : ℕ → AutoBuffer A → ℕ → Option (AutoBuffer A)
  unfolding reserve_impl
  reserve_precisely N b n = do
    assert (leb N b.capacity)
    if leb n b.capacity
        then some b
        else do b' ← reserve_impl N b n; assert (b'.capacity == n); some b'

  unfoldable pub reserve : ℕ → AutoBuffer A → ℕ → Option (AutoBuffer A)
  unfolding reserve_impl new_capacity_impl
  reserve N b n = do
    assert (leb N b.capacity)
    if leb n b.capacity then some b else do
      capacity ← new_capacity_impl b n
      b' ← reserve_impl N b capacity
      assert (leb n b'.capacity)
      some b'

  unfoldable pub push_back : ℕ → AutoBuffer A → A → Option (AutoBuffer A)
  unfolding size reserve unchecked_push_back
  push_back N b x =
      if not (size b == b.capacity)
      then unchecked_push_back b x
      else do b' ← reserve N b (size b + 1); unchecked_push_back b' x

  unfoldable pub push_back_range : ℕ → AutoBuffer A → List A → Option (AutoBuffer A)
  unfolding size reserve unchecked_push_back_range
  push_back_range N b xs = do
    b' ← (if ltb b.capacity (size b + length xs) then reserve N b (size b + length xs) else some b)
    unchecked_push_back_range b' xs

  unfoldable pub shrink_to_fit : ℕ → AutoBuffer A → Option (AutoBuffer A)
  unfolding is_on_stack should_shrink reserve_impl size
  shrink_to_fit N b =
      if is_on_stack N b || not (should_shrink (size b) b.capacity) then some b else do
        r ← reserve_impl N b (size b)
        let b' = record r { capacity = max N r.capacity }
        assert (is_on_stack N b' || size b' == b'.capacity)
        assert (not (is_on_stack N b') || leb (size b') b'.capacity)
        some b'

  -- The new cells hold what the memory held: `raw`. The result is also a pointer to them.
  unfoldable pub uninitialized_grow : ℕ → AutoBuffer A → ℕ → A → Option (AutoBuffer A × ℕ)
  unfolding size reserve
  uninitialized_grow N b n raw = do
    let wanted = (size b + n) % size_mod
    b' ← (if ltb b.capacity wanted then reserve N b wanted else some b)
    some (record b' { items = b'.items ++ replicate n raw }, size b')

  -- An n above size_ would leave a negative number of objects: no list of them is left.
  unfoldable pub uninitialized_shrink : AutoBuffer A → ℕ → Option (AutoBuffer A)
  unfolding size
  uninitialized_shrink b n = do
    assert (leb n (size b))
    assert (leb (size b - n) b.capacity)
    some (record b { items = take (size b - n) b.items })

  unfoldable pub uninitialized_resize : ℕ → AutoBuffer A → ℕ → A → Option (AutoBuffer A)
  unfolding size uninitialized_grow uninitialized_shrink
  uninitialized_resize N b n raw = do
    b' ←
        (if ltb (size b) n
          then (do r ← uninitialized_grow N b (n - size b) raw; some r.0)
          else if ltb n (size b)
          then uninitialized_shrink b (size b - n)
          else some b)
    assert (size b' == n)
    some b'
