-- ===== src/Buffer/Whole.antt =====
-- auto_buffer.hpp: assignment, swap and comparison of whole buffers.
use signals.Base.{
  ℕ, ◌-◌, min, Bool, true, false, not, ◌&&◌, Option, some, List, [], ◌∷◌, leb, ◌==◌, if◌then◌else◌,
  drop,
}
use signals.Buffer.{
  AutoBuffer, stack, ◌>>=◌, ◌>>◌, assert, allocate, size, is_on_stack, is_valid,
  unchecked_push_back, unchecked_push_back_n, pop_back_n,
}
use signals.Buffer.Copy.{assign_impl}

module _ {ℓ} {A : Type ℓ} where
  -- operator=, for another object. `init` is what the grown cells hold before they are assigned.
  unfoldable pub assign : ℕ → A → AutoBuffer A → AutoBuffer A → Option (AutoBuffer A)
  unfolding size is_valid allocate pop_back_n unchecked_push_back_n assign_impl
  assign N init b r = do
    b' ←
        (if leb (size r) (size b)
          then (do
            p ← pop_back_n b (size b - size r)
            some (record p { items = assign_impl r.items 0 p.items }))
          else if leb (size r) b.capacity
          then (do
            g ← unchecked_push_back_n b (size r - size b) init
            some (record g { items = assign_impl r.items 0 g.items }))
          else (do
            assert (is_valid N b)
            some (record { items = r.items; capacity = size r; buffer = allocate N (size r) })))
    assert (size b' == size r)
    assert (is_valid N b')
    some b'

  -- for( ; i < min_size; ++i ) swap( (*smallest)[i], (*largest)[i] );
  unfoldable pub swap_front : List A → List A → List A × List A
  swap_front (x ∷ xs) (y ∷ ys) = let (s, l) = swap_front xs ys in (y ∷ s, x ∷ l)
  swap_front [] ys = ([], ys)
  swap_front (x ∷ xs) [] = (x ∷ xs, [])

  -- for( ; i < max_size; ++i ) smallest->unchecked_push_back( (*largest)[i] );
  unfoldable pub push_each : AutoBuffer A → List A → Option (AutoBuffer A)
  unfolding unchecked_push_back
  push_each b [] = some b
  push_each b (x ∷ xs) = unchecked_push_back b x >>= λ b'. push_each b' xs

  -- swap_helper for a T without trivial assignment, given the smaller and the larger buffer.
  unfoldable pub swap_sized : AutoBuffer A → AutoBuffer A → Option (AutoBuffer A × AutoBuffer A)
  unfolding size swap_front push_each pop_back_n
  swap_sized smallest largest = do
    let min_size = size smallest
    let diff = size largest - min_size
    let fronts = swap_front smallest.items largest.items
    s ← push_each (record smallest { items = fronts.0 }) (drop min_size fronts.1)
    l ← pop_back_n (record largest { items = fronts.1 }) diff
    some (record s { capacity = largest.capacity }, record l { capacity = smallest.capacity })

  unfoldable pub swap_helper :
      ℕ → AutoBuffer A → AutoBuffer A → Option (AutoBuffer A × AutoBuffer A)
  unfolding size is_on_stack swap_sized
  swap_helper N l r = do
    assert (is_on_stack N l && is_on_stack N r)
    (if size l == min (size l) (size r)
        then swap_sized l r
        else (do p ← swap_sized r l; some (p.1, p.0)))

  -- The buffer on the stack is copied into the stack storage of the other, whose heap buffer it takes.
  unfoldable pub swap_one : ℕ → AutoBuffer A → AutoBuffer A → Option (AutoBuffer A × AutoBuffer A)
  unfolding is_on_stack is_valid
  swap_one N one_on_stack other = do
    assert (is_valid N one_on_stack)
    let other' = record other {
      items = one_on_stack.items;
      capacity = one_on_stack.capacity;
      buffer = stack;
    }
    let one' = record one_on_stack {
      items = other.items;
      capacity = other.capacity;
      buffer = other.buffer;
    }
    assert (is_on_stack N other')
    assert (not (is_on_stack N one'))
    some (one', other')

  unfoldable pub swap : ℕ → AutoBuffer A → AutoBuffer A → Option (AutoBuffer A × AutoBuffer A)
  unfolding is_on_stack is_valid swap_one swap_helper
  swap N b r = do
    let on_stack = is_on_stack N b
    let r_on_stack = is_on_stack N r
    p ←
        (if not on_stack && not r_on_stack
          then some (r, b)
          else if on_stack && not r_on_stack
          then swap_one N b r
          else if not on_stack && r_on_stack
          then (do q ← swap_one N r b; some (q.1, q.0))
          else swap_helper N b r)
    assert (is_valid N p.0)
    assert (is_valid N p.1)
    some p

  -- std::equal over two ranges, of which the second is at least as long.
  abbrev pub equal : (A → A → Bool) → List A → List A → Bool
  equal eq [] ys = true
  equal eq (x ∷ xs) [] = false
  equal eq (x ∷ xs) (y ∷ ys) = eq x y && equal eq xs ys

  unfoldable pub equals : (A → A → Bool) → AutoBuffer A → AutoBuffer A → Bool
  unfolding size
  equals eq l r = if not (size l == size r) then false else equal eq l.items r.items

  -- std::lexicographical_compare
  abbrev pub lexicographical : (A → A → Bool) → List A → List A → Bool
  lexicographical lt xs [] = false
  lexicographical lt [] (y ∷ ys) = true
  lexicographical lt (x ∷ xs) (y ∷ ys) =
      if lt x y then true else if lt y x then false else lexicographical lt xs ys

  unfoldable pub less_than : (A → A → Bool) → AutoBuffer A → AutoBuffer A → Bool
  less_than lt l r = lexicographical lt l.items r.items

  unfoldable pub at_most : (A → A → Bool) → AutoBuffer A → AutoBuffer A → Bool
  unfolding less_than
  at_most lt l r = not (less_than lt r l)
