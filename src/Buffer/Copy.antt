-- ===== src/Buffer/Copy.antt =====
-- What auto_buffer.hpp uses of <algorithm>, on the cells of one buffer.
pub mod Shift
use signals.Base.{
  ℕ, zero, suc, ◌+◌, Option, none, some, List, [], ◌∷◌, ◌++◌, Bool, true, false, take, drop, set,
  get_elem?,
}

module _ {ℓ} {A : Type ℓ} where
  -- One round of a copy: the cell `to` takes the value of the cell `from`.
  abbrev pub copy_cell : Option A → ℕ → List A → List A
  copy_cell none to xs = xs
  copy_cell (some x) to xs = set xs to x

  -- std::copy( from, from + n, to ) within one buffer, element by element from the front.
  unfoldable pub copy_forward : ℕ → ℕ → ℕ → List A → List A
  copy_forward zero from to xs = xs
  copy_forward (suc n) from to xs =
      copy_forward n (suc from) (suc to) (copy_cell (get_elem? xs from) to xs)

  -- std::copy of raw memory, which is memmove.
  unfoldable pub move_memory : ℕ → ℕ → ℕ → List A → List A
  move_memory n from to xs = take to xs ++ (take n (drop from xs) ++ drop (to + n) xs)

  -- std::copy within one buffer, to a place inside of what is copied.
  unfoldable pub std_copy : Bool → ℕ → ℕ → ℕ → List A → List A
  unfolding copy_forward move_memory
  std_copy true n from to xs = move_memory n from to xs
  std_copy false n from to xs = copy_forward n from to xs

  -- std::fill( to, to + n, x )
  unfoldable pub fill : ℕ → ℕ → A → List A → List A
  fill zero to x xs = xs
  fill (suc n) to x xs = fill n (suc to) x (set xs to x)

  -- assign_impl: each element of another buffer is assigned to the cells from `to` on.
  unfoldable pub assign_impl : List A → ℕ → List A → List A
  assign_impl [] to xs = xs
  assign_impl (y ∷ ys) to xs = assign_impl ys (suc to) (set xs to y)
