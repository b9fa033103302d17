-- ===== src/Buffer/Erase.antt =====
-- auto_buffer.hpp: what erase removes. The objects are written as pre ++ (mid ++ post).
use signals.Base.{
  ℕ, zero, suc, ◌+◌, ◌-◌, ◌%◌, ◌≤◌, ◌<◌, ◌≡◌, refl, ◌∙◌, true, Option, none, some, List, [], ◌∷◌,
  ◌++◌, arith, length, length-append, length-set, get_elem?, take, take-append,
}
use signals.Buffer.{AutoBuffer, unsigned_mod, size, full, erase, erase_range}
use signals.Buffer.Copy.{copy_forward, copy_cell}
use signals.Buffer.Copy.Shift.{copy_forward-left}

module _ {A : Type 0} where
  length-copy_cell : (o : Option A) (to : ℕ) (xs : List A) → length (copy_cell o to xs) ≡ length xs
  length-copy_cell none to xs = refl
  length-copy_cell (some x) to xs = length-set xs to x

  pub length-copy_forward :
      (n from to : ℕ) (xs : List A) → length (copy_forward n from to xs) ≡ length xs
  unfolding copy_forward
  length-copy_forward zero from to xs = refl
  length-copy_forward (suc n) from to xs =
      length-copy_forward n (suc from) (suc to) _ ∙ length-copy_cell (get_elem? xs from) to xs

  take_kept :
      (kept rest xs : List A) (n : ℕ) → xs ≡ kept ++ rest → n ≡ length kept → take n xs ≡ kept
  take_kept kept rest xs n e h = rw (e, h) (take-append kept rest)

  length_parts :
      (pre mid post : List A)
      → length (pre ++ (mid ++ post)) ≡ length pre + length mid + length post
  length_parts pre mid post = omega (arith, length-append pre (mid ++ post), length-append mid post)

  -- erase of a range that is not empty, with fewer than 2^32 objects behind it in a buffer within
  -- its capacity, passes its assertions, removes exactly the range, and returns its position.
  pub erase_range_lem :
      (b : AutoBuffer A) (pre mid post : List A)
      → b.items ≡ pre ++ (mid ++ post)
      → 0 < length mid
      → length post < unsigned_mod
      → length b.items ≤ b.capacity
      → erase_range b (length pre) (length pre + length mid)
        ≡ some (record b { items = pre ++ post }, length pre)
  unfolding erase_range
  erase_range_lem b pre mid post e h small fits =
      let k = copy_forward-left pre mid post h in
      rw e (
        ground (
          arith,
          length_parts pre mid post,
          k.2,
          k.1,
          length-append pre post,
          length-append (pre ++ post) k.0,
          take-append (pre ++ post) k.0,
        ))

  -- erase of one object, with fewer than 2^32 objects behind it in a buffer within its capacity,
  -- passes its assertions, removes exactly that object, and returns its position.
  pub erase_lem :
      (b : AutoBuffer A) (pre post : List A) (x : A)
      → b.items ≡ pre ++ x ∷ post
      → length post < unsigned_mod
      → length b.items ≤ b.capacity
      → erase b (length pre) ≡ some (record b { items = pre ++ post }, length pre)
  unfolding erase
  erase_lem b pre post x e small fits =
      let k = copy_forward-left pre (x ∷ []) post (omega arith) in
      rw e (
        ground (
          arith,
          length_parts pre (x ∷ []) post,
          k.2,
          k.1,
          length-append pre post,
          length-append (pre ++ post) k.0,
          take-append (pre ++ post) k.0,
        ))

  -- erase of an empty range inside a full buffer fails an assertion.
  pub erase_range-full :
      (b : AutoBuffer A) (from : ℕ) → from ≤ size b → full b ≡ true → erase_range b from from ≡ none
  unfolding erase_range
  erase_range-full b from h f =
      ground (arith, length-copy_forward ((length b.items - from) % unsigned_mod) from from b.items)
