-- ===== src/Buffer/Swapped.antt =====
-- auto_buffer.hpp: what assignment and swap leave, and what the comparisons mean.
use signals.Base.{
  ℕ, suc, ◌+◌, ◌-◌, ◌≤◌, ◌≡◌, refl, sym, ap, ◌∙◌, Bool, true, Option, some, List, [], ◌∷◌, ◌++◌,
  inl, inr, Bool-cases, ◌↔◌, leb, ◌==◌, arith, length, length-append, take, take-append,
  take-append-drop, drop-append, length-take, length-drop, drop, append-nil, append_assoc, set,
  set-append, replicate, length-replicate,
}
use signals.Buffer.{AutoBuffer, stack, allocate, size, pop_back_n}
use signals.Buffer.Copy.{assign_impl}
use signals.Buffer.Whole.{
  assign, swap_front, push_each, swap_sized, swap_helper, swap, equal, equals,
}
use signals.Buffer.Laws.{IsLive, Yields, is_valid-IsLive}

module _ {A : Type 0} where
  assign_impl-append :
      (ys pre zs : List A)
      → length ys ≡ length zs
      → assign_impl ys (length pre) (pre ++ zs) ≡ pre ++ ys
  unfolding assign_impl
  assign_impl-append [] pre [] h = refl
  assign_impl-append [] pre (z ∷ zs) h = absurd (omega arith)
  assign_impl-append (y ∷ ys) pre [] h = absurd (omega arith)
  assign_impl-append (y ∷ ys) pre (z ∷ zs) h =
      let step : set (pre ++ z ∷ zs) (length pre) y ≡ (pre ++ y ∷ []) ++ zs =
        set-append pre zs z y ∙ sym (append_assoc pre (y ∷ []) zs) in
      let len : suc (length pre) ≡ length (pre ++ y ∷ []) =
        omega (arith, length-append pre (y ∷ [])) in
      rw (step, len)
        (assign_impl-append ys (pre ++ y ∷ []) zs (omega arith) ∙ append_assoc pre (y ∷ []) ys)

  -- operator= of a live buffer to a live buffer passes its assertions and leaves a live buffer
  -- with the other's objects, on each of its three paths.
  pub assign-Yields :
      (N : ℕ) (init : A) (b r : AutoBuffer A)
      → IsLive N b
      → IsLive N r
      → Yields N (assign N init b r) r.items
  unfolding assign
  assign-Yields N init b r v w = elim (Bool-cases (leb (size r) (size b))) [
    | inl e ↦
        let kept = take (length b.items - (length b.items - length r.items)) b.items in
        record {
          buf = record b { items = r.items };
          returns = ground (
            arith,
            assign_impl-append r.items [] b.items,
            assign_impl-append r.items [] kept,
            length-take (length b.items - (length b.items - length r.items)) b.items,
          );
          holds = refl;
          live = ground arith;
        }
    | inr e ↦ elim (Bool-cases (leb (size r) b.capacity)) [
      | inl f ↦
          let grown = b.items ++ replicate (length r.items - length b.items) init in
          record {
            buf = record b { items = r.items };
            returns = ground (
              arith,
              assign_impl-append r.items [] grown,
              length-append b.items (replicate (length r.items - length b.items) init),
              length-replicate (length r.items - length b.items) init,
            );
            holds = refl;
            live = ground arith;
          }
      | inr f ↦ record {
        buf = record {
          items = r.items;
          capacity = length r.items;
          buffer = allocate N (length r.items);
        };
        returns = ground arith;
        holds = refl;
        live = ground arith;
      }
    ]
  ]

  swap_front-short :
      (xs ys : List A)
      → length xs ≤ length ys
      → swap_front xs ys ≡ (take (length xs) ys, xs ++ drop (length xs) ys)
  unfolding swap_front
  swap_front-short [] ys h = refl
  swap_front-short (x ∷ xs) [] h = elim h [ ]
  swap_front-short (x ∷ xs) (y ∷ ys) h = rw (swap_front-short xs ys (omega arith))

  push_each-fits :
      (b : AutoBuffer A) (xs : List A)
      → length b.items + length xs ≤ b.capacity
      → push_each b xs ≡ some (record b { items = b.items ++ xs })
  unfolding push_each
  push_each-fits b [] h = rw (append-nil b.items)
  push_each-fits b (x ∷ xs) h = ground (
    arith,
    push_each-fits (record b { items = b.items ++ x ∷ [] }) xs,
    length-append b.items (x ∷ []),
    append_assoc b.items (x ∷ []) xs,
  )

  -- pop_back_n removes the last objects.
  pop_back_n-append :
      (b : AutoBuffer A) (xs d : List A) (n : ℕ)
      → b.items ≡ xs ++ d
      → n ≡ length d
      → pop_back_n b n ≡ some (record b { items = xs })
  unfolding pop_back_n
  pop_back_n-append b xs [] n e h = rw h (ground (arith, append-nil xs))
  pop_back_n-append b xs (y ∷ d) n e h =
      let len : length (xs ++ y ∷ d) ≡ length xs + suc (length d) = length-append xs (y ∷ d) in
      let at_end : length (xs ++ y ∷ d) - suc (length d) ≡ length xs = omega (arith, len) in
      rw (h, e) (ground (arith, len, at_end, take-append xs (y ∷ d)))

  swap_sized_lem :
      (s l : AutoBuffer A)
      → length s.items ≤ length l.items
      → length l.items ≤ s.capacity
      → swap_sized s l
        ≡ some (
          record s { items = l.items; capacity = l.capacity },
          record l { items = s.items; capacity = s.capacity },
        )
  unfolding swap_sized
  swap_sized_lem s l h fits =
      let n = length s.items in
      let d = drop n l.items in
      let l' = record l { items = s.items ++ d } in
      rw (swap_front-short s.items l.items h, drop-append s.items d)
        (rw
          (push_each-fits (record s { items = take n l.items }) d
            (omega (arith, length-drop n l.items, length-take n l.items)))
          (rw (take-append-drop n l.items) (
            ground (
              arith,
              pop_back_n-append l' s.items d (length l.items - n) refl
                  (omega (arith, length-drop n l.items)),
            ))))

  -- Two live buffers, and what swap makes of them.
  pub record Exchanged (N : ℕ) (b r : AutoBuffer A) (o : Option (AutoBuffer A × AutoBuffer A))
      : Type 0 where
    pub left : AutoBuffer A
    pub right : AutoBuffer A
    pub returns : o ≡ some (left, right)
    pub left_items : left.items ≡ r.items
    pub right_items : right.items ≡ b.items
    pub left_live : IsLive N left
    pub right_live : IsLive N right

  swap_helper-Exchanged :
      (N : ℕ) (b r : AutoBuffer A)
      → IsLive N b
      → IsLive N r
      → b.capacity ≤ N
      → r.capacity ≤ N
      → Exchanged N b r (swap_helper N b r)
  unfolding swap_helper
  swap_helper-Exchanged N b r v w hb hr = record {
    left = record b { items = r.items; capacity = r.capacity };
    right = record r { items = b.items; capacity = b.capacity };
    returns = ground (arith, swap_sized_lem b r, swap_sized_lem r b);
    left_items = refl;
    right_items = refl;
    left_live = unfold allocate in ground arith;
    right_live = unfold allocate in ground arith;
  }

  -- swap of two live buffers passes its assertions and leaves two live buffers with their objects
  -- exchanged, be they on the heap, on the stack or one on each.
  pub swap-Exchanged :
      (N : ℕ) (b r : AutoBuffer A) → IsLive N b → IsLive N r → Exchanged N b r (swap N b r)
  unfolding swap allocate
  swap-Exchanged N b r v w = elim (Bool-cases (leb b.capacity N)) [
    | inl e ↦ elim (Bool-cases (leb r.capacity N)) [
      | inl f ↦
          let h = swap_helper-Exchanged N b r v w (ground arith) (ground arith) in
          record {
            left = h.left;
            right = h.right;
            returns = ground (
              arith,
              h.returns,
              is_valid-IsLive N h.left h.left_live,
              is_valid-IsLive N h.right h.right_live,
            );
            left_items = h.left_items;
            right_items = h.right_items;
            left_live = h.left_live;
            right_live = h.right_live;
          }
      | inr f ↦ record {
        left = record { items = r.items; capacity = r.capacity; buffer = r.buffer };
        right = record { items = b.items; capacity = b.capacity; buffer = stack };
        returns = ground arith;
        left_items = refl;
        right_items = refl;
        left_live = ground arith;
        right_live = ground arith;
      }
    ]
    | inr e ↦ elim (Bool-cases (leb r.capacity N)) [
      | inl f ↦ record {
        left = record { items = r.items; capacity = r.capacity; buffer = stack };
        right = record { items = b.items; capacity = b.capacity; buffer = b.buffer };
        returns = ground arith;
        left_items = refl;
        right_items = refl;
        left_live = ground arith;
        right_live = ground arith;
      }
      | inr f ↦ record {
        left = r;
        right = b;
        returns = ground arith;
        left_items = refl;
        right_items = refl;
        left_live = w;
        right_live = v;
      }
    ]
  ]

  equal_iff :
      (eq : A → A → Bool)
      → ((x y : A) → (eq x y ≡ true) ↔ (x ≡ y))
      → (xs ys : List A) → length xs ≡ length ys
      → (equal eq xs ys ≡ true) ↔ (xs ≡ ys)
  equal_iff eq h [] [] e = (λ _. refl, λ _. refl)
  equal_iff eq h [] (y ∷ ys) e = absurd (omega arith)
  equal_iff eq h (x ∷ xs) [] e = absurd (omega arith)
  equal_iff eq h (x ∷ xs) (y ∷ ys) e = ground (arith, h x y, equal_iff eq h xs ys (omega arith))

  -- operator== of two buffers holds exactly when their objects are the same in the same order,
  -- whatever the capacities are, if the comparison of the objects decides their equality.
  pub equals_iff :
      (eq : A → A → Bool)
      → ((x y : A) → (eq x y ≡ true) ↔ (x ≡ y))
      → (l r : AutoBuffer A) → (equals eq l r ≡ true) ↔ (l.items ≡ r.items)
  unfolding equals
  equals_iff eq h l r = elim (Bool-cases (size l == size r)) [
    | inl e ↦
        let k = equal_iff eq h l.items r.items (ground arith) in
        (λ q. k.0 (ground arith), λ p. ground (arith, k.1 p))
    | inr e ↦ (λ q. ground arith, λ p. absurd (ground (arith, ap length p)))
  ]
