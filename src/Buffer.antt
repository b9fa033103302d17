-- ===== src/Buffer.antt =====
-- include/boost/signals2/detail/auto_buffer.hpp: a vector whose first N objects lie on the stack.
-- `items` holds the constructed objects, so `size_` is its length; `buffer` tells what `buffer_`
-- points to. `none` is a failed BOOST_ASSERT. Exceptions of allocation and of T are not modelled.
pub mod Copy
pub mod Growth
pub mod Insert
pub mod Whole
pub mod Laws
pub mod Swapped
pub mod Inserted
pub mod Erase
use signals.Base.{
  ℕ, ◌+◌, ◌-◌, ◌*◌, ◌%◌, ◌^◌, max, Bool, true, false, not, ◌&&◌, ◌||◌, Option, none, some, List, [],
  ◌∷◌, ◌++◌, ltb, leb, ◌==◌, if◌then◌else◌, length, take, drop, replicate, get_elem?,
}
use Copy.{copy_forward, fill, assign_impl}

-- A null pointer, the storage inside the object, or memory of the allocator.
pub data Place : Type 0 where
  null stack heap : Place

pub record AutoBuffer {ℓ} (A : Type ℓ) : Type ℓ where
  pub items : List A
  pub capacity : ℕ
  pub buffer : Place

-- A failed assertion ends the call.
infixl 5 ◌>>=◌ ◌>>◌
abbrev pub ◌>>=◌ {ℓ κ} : {A : Type ℓ} {B : Type κ} → Option A → (A → Option B) → Option B
none >>= f = none
some a >>= f = f a

abbrev pub ◌>>◌ {ℓ} : {B : Type ℓ} → Option (Unit {0}) → Option B → Option B
m >> k = m >>= λ _. k

abbrev pub assert : Bool → Option (Unit {0})
assert true = some tt
assert false = none

abbrev pub size_mod : ℕ
size_mod = 2 ^ 64

abbrev pub unsigned_mod : ℕ
unsigned_mod = 2 ^ 32

-- default_grow_policy::new_capacity, in a 64-bit size_type.
unfoldable pub new_capacity : ℕ → ℕ
new_capacity capacity = capacity * 4 % size_mod

unfoldable pub should_shrink : ℕ → ℕ → Bool
should_shrink size capacity = true

-- N is the capacity of the stack buffer, a template parameter.
unfoldable pub allocate : ℕ → ℕ → Place
allocate N capacity = if ltb N capacity then heap else stack

abbrev pub is_null : Place → Bool
is_null null = true
is_null stack = false
is_null heap = false

abbrev pub is_stack : Place → Bool
is_stack null = false
is_stack stack = true
is_stack heap = false

module _ {ℓ} {A : Type ℓ} where
  unfoldable pub size : AutoBuffer A → ℕ
  size b = length b.items

  unfoldable pub empty : AutoBuffer A → Bool
  unfolding size
  empty b = size b == 0

  unfoldable pub full : AutoBuffer A → Bool
  unfolding size
  full b = size b == b.capacity

  unfoldable pub back : AutoBuffer A → Option A
  unfolding size
  back b = get_elem? b.items (size b - 1)

  unfoldable pub at : AutoBuffer A → ℕ → Option A
  unfolding size
  at b n = do assert (ltb n (size b)); get_elem? b.items n

  -- new (buffer_ + size_) T( x ); ++size_;
  unfoldable pub unchecked_push_back : AutoBuffer A → A → Option (AutoBuffer A)
  unfolding full
  unchecked_push_back b x = do assert (not (full b)); some (record b { items = b.items ++ x ∷ [] })

  -- The overload for a range.
  unfoldable pub unchecked_push_back_range : AutoBuffer A → List A → Option (AutoBuffer A)
  unfolding size
  unchecked_push_back_range b xs = do
    assert (leb (size b + length xs) b.capacity)
    some (record b { items = b.items ++ xs })

  unfoldable pub unchecked_push_back_n : AutoBuffer A → ℕ → A → Option (AutoBuffer A)
  unfolding size
  unchecked_push_back_n b n init = do
    assert (leb (size b + n) b.capacity)
    some (record b { items = b.items ++ replicate n init })

  unfoldable pub pop_back : AutoBuffer A → Option (AutoBuffer A)
  unfolding empty size
  pop_back b = do assert (not (empty b)); some (record b { items = take (size b - 1) b.items })

  unfoldable pub pop_back_n : AutoBuffer A → ℕ → Option (AutoBuffer A)
  unfolding size
  pop_back_n b n = do
    assert (leb n (size b))
    if n == 0 then some b else some (record b { items = take (size b - n) b.items })

  unfoldable pub clear : AutoBuffer A → Option (AutoBuffer A)
  unfolding size pop_back_n
  clear b = pop_back_n b (size b)

  -- erase( where ): `elements` is an unsigned int.
  unfoldable pub erase : AutoBuffer A → ℕ → Option (AutoBuffer A × ℕ)
  unfolding size empty full pop_back copy_forward
  erase b where' = do
    assert (not (empty b))
    assert (ltb where' (size b))
    let elements = (size b - where' - 1) % unsigned_mod
    let moved =
        if ltb 0 elements then copy_forward elements (where' + 1) where' b.items else b.items
    b' ← pop_back (record b { items = moved })
    assert (not (full b'))
    assert (leb where' (size b'))
    some (b', where')

  -- erase( from, to )
  unfoldable pub erase_range : AutoBuffer A → ℕ → ℕ → Option (AutoBuffer A × ℕ)
  unfolding size empty full pop_back_n copy_forward
  erase_range b from to = do
    assert (not (ltb from to) || not (empty b))
    assert (leb to (size b))
    let elements = (size b - to) % unsigned_mod
    let moved = if ltb 0 elements then copy_forward elements to from b.items else b.items
    let distance = if ltb to from then size_mod + to - from else to - from
    b' ← pop_back_n (record b { items = moved }) distance
    assert (not (full b'))
    assert (leb from (size b'))
    some (b', from)

  unfoldable pub is_on_stack : ℕ → AutoBuffer A → Bool
  is_on_stack N b = leb b.capacity N

  -- The class's own invariant.
  unfoldable pub is_valid : ℕ → AutoBuffer A → Bool
  unfolding size is_on_stack
  is_valid N b =
      if is_null b.buffer
      then true
      else if ltb b.capacity N
      then false
      else if not (is_on_stack N b) && leb b.capacity N
      then false
      else if is_stack b.buffer && ltb N b.capacity
      then false
      else not (ltb b.capacity (size b))
