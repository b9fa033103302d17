-- ===== src/Buffer/Laws.antt =====
-- auto_buffer.hpp: the invariant, and what the growing operations do.
use signals.Base.{
  ℕ, ◌+◌, ◌≤◌, ◌≡◌, refl, ◌⊎◌, true, Option, some, List, [], ◌∷◌, ◌++◌, ltb, leb, ◌==◌, arith,
  length, length-append, max, inl, inr, Bool-cases,
}
use signals.Buffer.{AutoBuffer, allocate, new_capacity, size, is_valid}
use signals.Buffer.Growth.{reserve, push_back, push_back_range, shrink_to_fit}

module _ {A : Type 0} where
  -- A buffer between two calls: it is not a temporary that gave its memory away.
  pub record IsLive (N : ℕ) (b : AutoBuffer A) : Type 0 where
    pub fits : length b.items ≤ b.capacity
    pub covers : N ≤ b.capacity
    pub placed : b.buffer ≡ allocate N b.capacity

  -- The call passes its assertions and leaves a live buffer with these objects.
  pub record Yields (N : ℕ) (r : Option (AutoBuffer A)) (xs : List A) : Type 0 where
    pub buf : AutoBuffer A
    pub returns : r ≡ some buf
    pub holds : buf.items ≡ xs
    pub live : IsLive N buf

  pub is_valid-IsLive : (N : ℕ) (b : AutoBuffer A) → IsLive N b → is_valid N b ≡ true
  unfolding is_valid allocate
  is_valid-IsLive N b v = ground arith

  -- reserve on a live buffer passes its assertions and leaves a live buffer with the same objects
  -- and at least the capacity asked for, also where capacity * 4 wraps.
  pub reserve-Yields :
      (N : ℕ) (b : AutoBuffer A) (n : ℕ)
      → IsLive N b
      → (v : Yields N (reserve N b n) b.items) × (n ≤ v.buf.capacity)
  unfolding reserve
  reserve-Yields N b n v = elim (Bool-cases (leb n b.capacity)) [
    | inl e ↦ (record { buf = b; returns = ground arith; holds = refl; live = v }, ground arith)
    | inr e ↦ (
      record {
        buf = record {
          items = b.items;
          capacity = max (new_capacity b.capacity) n;
          buffer = allocate N (max (new_capacity b.capacity) n);
        };
        returns = ground (arith, is_valid-IsLive N b);
        holds = refl;
        live = ground arith;
      },
      ground arith,
    )
  ]

  -- push_back on a live buffer passes its assertions and leaves a live buffer with the object
  -- appended, whether or not it grows.
  pub push_back-Yields :
      (N : ℕ) (b : AutoBuffer A) (x : A)
      → IsLive N b
      → Yields N (push_back N b x) (b.items ++ x ∷ [])
  unfolding push_back
  push_back-Yields N b x v = elim (Bool-cases (size b == b.capacity)) [
    | inl e ↦
        let r = reserve-Yields N b (size b + 1) v in
        record {
          buf = record r.0.buf { items = b.items ++ x ∷ [] };
          returns = ground arith;
          holds = refl;
          live = ground (arith, length-append b.items (x ∷ []));
        }
    | inr e ↦ record {
      buf = record b { items = b.items ++ x ∷ [] };
      returns = ground arith;
      holds = refl;
      live = ground (arith, length-append b.items (x ∷ []));
    }
  ]

  -- push_back of a range on a live buffer passes its assertions and leaves a live buffer with the
  -- range appended.
  pub push_back_range-Yields :
      (N : ℕ) (b : AutoBuffer A) (xs : List A)
      → IsLive N b
      → Yields N (push_back_range N b xs) (b.items ++ xs)
  unfolding push_back_range
  push_back_range-Yields N b xs v = elim (Bool-cases (ltb b.capacity (size b + length xs))) [
    | inl e ↦
        let r = reserve-Yields N b (size b + length xs) v in
        record {
          buf = record r.0.buf { items = b.items ++ xs };
          returns = ground arith;
          holds = refl;
          live = ground (arith, length-append b.items xs);
        }
    | inr e ↦ record {
      buf = record b { items = b.items ++ xs };
      returns = ground arith;
      holds = refl;
      live = ground (arith, length-append b.items xs);
    }
  ]

  -- shrink_to_fit on a live buffer passes its assertions and leaves a live buffer with the same
  -- objects, whose capacity is at most that of the stack or the number of objects.
  pub shrink_to_fit-Yields :
      (N : ℕ) (b : AutoBuffer A)
      → IsLive N b
      → (v : Yields N (shrink_to_fit N b) b.items) × ((v.buf.capacity ≤ N)
          ⊎ (v.buf.capacity ≡ length b.items))
  unfolding shrink_to_fit
  shrink_to_fit-Yields N b v = elim (Bool-cases (leb b.capacity N)) [
    | inl e ↦ (record { buf = b; returns = ground arith; holds = refl; live = v }, ground arith)
    | inr e ↦ (
      record {
        buf = record {
          items = b.items;
          capacity = max N (length b.items);
          buffer = allocate N (length b.items);
        };
        returns = ground (arith, is_valid-IsLive N b);
        holds = refl;
        live = ground arith;
      },
      ground arith,
    )
  ]
