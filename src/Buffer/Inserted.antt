-- ===== src/Buffer/Inserted.antt =====
-- auto_buffer.hpp: what insert leaves, in place and in a new buffer.
use signals.Base.{
  ℕ, suc, Bool, true, false, take, drop, ◌+◌, ◌-◌, ◌<◌, ◌≡◌, refl, sym, ap, ◌∙◌, some, List, [],
  ◌∷◌, ◌++◌, arith, length, length-append, take-append, drop, drop-append, append-nil, append_assoc,
  set, set-append, replicate, length-replicate, max,
}
use signals.Buffer.{AutoBuffer, allocate, size, new_capacity}
use signals.Buffer.Copy.{copy_forward, move_memory, std_copy}
use signals.Buffer.Copy.Shift.{copy_forward-smear}
use signals.Buffer.Insert.{insert, insert_room, rebuild}
use signals.Buffer.Laws.{IsLive, Yields, is_valid-IsLive}

drop-snoc : {A : Type 0} (xs : List A) (y : A) → drop (suc (length xs)) (xs ++ y ∷ []) ≡ []
drop-snoc [] y = refl
drop-snoc (x ∷ xs) y = drop-snoc xs y

drop-length : {A : Type 0} (xs : List A) → drop (length xs) xs ≡ []
drop-length [] = refl
drop-length (x ∷ xs) = drop-length xs

module _ {A : Type 0} (N : ℕ) where
  rebuilt : AutoBuffer A → List A → ℕ → AutoBuffer A
  rebuilt b xs n =
      let c = max (max (new_capacity b.capacity) n) N in
      record { items = xs; capacity = c; buffer = allocate N c }

  -- On a live buffer whose capacity the new objects exceed, the growing path of insert passes its
  -- assertions and leaves a live buffer with the new objects before the position.
  pub rebuild-Yields :
      (b : AutoBuffer A) (pre post xs : List A)
      → IsLive N b
      → b.items ≡ pre ++ post
      → 0 < length xs
      → b.capacity < size b + length xs
      → Yields N (rebuild N b (length pre) xs) ((pre ++ xs) ++ post)
  unfolding rebuild rebuilt
  rebuild-Yields b pre post xs v e some_new grows = record {
    buf = rebuilt b ((pre ++ xs) ++ post) (length b.items + length xs);
    returns = rw e (
        ground (
          arith,
          take-append pre post,
          drop-append pre post,
          length-append pre post,
          length-append pre xs,
          length-append (pre ++ xs) post,
          is_valid-IsLive N b v,
        ));
    holds = refl;
    live = rw e (
        ground
          (arith, length-append pre post, length-append pre xs, length-append (pre ++ xs) post));
  }

  -- What the forward copy makes of the cells behind the position.
  smeared :
      (init : A) (pre tl : List A) (a x : A) (n k : ℕ)
      → n ≡ suc (length tl)
      → k ≡ suc (length pre)
      → set (copy_forward n (length pre) k ((pre ++ a ∷ tl) ++ init ∷ [])) (length pre) x
        ≡ pre ++ x ∷ replicate (suc (length tl)) a
  smeared init pre tl a x n k hn hk =
      rw
        (
          hn,
          hk,
          append_assoc pre (a ∷ tl) (init ∷ []),
          copy_forward-smear (suc (length tl)) pre (tl ++ init ∷ []) a
              (omega (arith, length-append tl (init ∷ []))),
          drop-snoc tl init,
        )
        (rw (append-nil (replicate (suc (length tl)) a))
          (set-append pre (replicate (suc (length tl)) a) a x))

  insert_room-smears :
      (init : A) (b : AutoBuffer A) (pre tl : List A) (a x : A)
      → IsLive N b
      → b.items ≡ pre ++ a ∷ tl
      → size b < b.capacity
      → insert_room false N init b (length pre) x
        ≡ some (record b { items = pre ++ x ∷ replicate (suc (length tl)) a })
  unfolding insert_room std_copy
  insert_room-smears init b pre tl a x v e room =
      let g = (pre ++ a ∷ tl) ++ init ∷ [] in
      let out = pre ++ x ∷ replicate (suc (length tl)) a in
      let old : length (pre ++ a ∷ tl) ≡ length pre + suc (length tl) =
        length-append pre (a ∷ tl) in
      let grown : length g ≡ length (pre ++ a ∷ tl) + 1 =
        length-append (pre ++ a ∷ tl) (init ∷ []) in
      let new : length out ≡ length pre + suc (suc (length tl)) =
        length-append pre (x ∷ replicate (suc (length tl)) a)
        ∙ ap (λ k. length pre + suc (suc k)) (length-replicate (length tl) a) in
      let kept : length b.items ≡ length (pre ++ a ∷ tl) = ap length e in
      let valid =
        is_valid-IsLive N (record b { items = out })
          (record {
            fits = omega (arith, old, new, kept, room);
            covers = v.covers;
            placed = v.placed;
          }) in
      let cells =
        smeared init pre tl a x (length g - 1 - length pre) (length pre + 1)
          (omega (arith, old, grown)) (omega arith) in
      rw e (ground (arith, old, grown, new, kept, room, valid, cells))

  -- insert on a full live buffer passes its assertions and leaves a live buffer with the object
  -- before the position, which it returns.
  pub insert-full :
      (raw : Bool) (init : A) (b : AutoBuffer A) (pre post : List A) (x : A)
      → IsLive N b
      → b.items ≡ pre ++ post
      → size b ≡ b.capacity
      → (v : Yields N (rebuild N b (length pre) (x ∷ [])) ((pre ++ x ∷ []) ++ post)) × (insert raw N
            init b
            (length pre)
            x
          ≡ some (v.buf, length pre))
  unfolding insert
  insert-full raw init b pre post x v e h =
      let r = rebuild-Yields b pre post (x ∷ []) v e (omega arith) (omega arith) in
      (r, ground (arith, r.returns))

  -- insert at the end, with room left, appends the object.
  pub insert-back :
      (raw : Bool) (init : A) (b : AutoBuffer A) (x : A)
      → size b < b.capacity
      → insert raw N init b (size b) x ≡ some (record b { items = b.items ++ x ∷ [] }, size b)
  unfolding insert insert_room
  insert-back raw init b x room = ground arith

  moved :
      (init : A) (pre tl : List A) (a x : A) (n k : ℕ)
      → n ≡ suc (length tl)
      → k ≡ suc (length pre)
      → set (move_memory n (length pre) k ((pre ++ a ∷ tl) ++ init ∷ [])) (length pre) x
        ≡ pre ++ x ∷ (a ∷ tl)
  unfolding move_memory
  moved init pre tl a x n k hn hk =
      let whole = (pre ++ a ∷ tl) ++ init ∷ [] in
      let front : take k whole ≡ pre ++ a ∷ [] =
        ap (λ m. take m whole) (omega (arith, hk, length-append pre (a ∷ [])))
        ∙ ap (take (length (pre ++ a ∷ []))) (
            append_assoc pre (a ∷ tl) (init ∷ [])
            ∙ sym (append_assoc pre (a ∷ []) (tl ++ init ∷ [])))
        ∙ take-append (pre ++ a ∷ []) (tl ++ init ∷ []) in
      let middle : take n (drop (length pre) whole) ≡ a ∷ tl =
        ap (λ t. take n (drop (length pre) t)) (append_assoc pre (a ∷ tl) (init ∷ []))
        ∙ ap (take n) (drop-append pre ((a ∷ tl) ++ init ∷ []))
        ∙ ap (λ m. take m ((a ∷ tl) ++ init ∷ [])) hn
        ∙ take-append (a ∷ tl) (init ∷ []) in
      let back : drop (k + n) whole ≡ [] =
        ap (λ m. drop m whole)
          (omega
            (arith, hk, hn, length-append (pre ++ a ∷ tl) (init ∷ []), length-append pre (a ∷ tl)))
        ∙ drop-length whole in
      rw (front, middle, back)
        (rw (append-nil (a ∷ tl))
          (rw (append_assoc pre (a ∷ []) (a ∷ tl)) (set-append pre (a ∷ tl) a x)))

  insert_room-moves :
      (init : A) (b : AutoBuffer A) (pre tl : List A) (a x : A)
      → IsLive N b
      → b.items ≡ pre ++ a ∷ tl
      → size b < b.capacity
      → insert_room true N init b (length pre) x ≡ some (record b { items = pre ++ x ∷ (a ∷ tl) })
  unfolding insert_room std_copy
  insert_room-moves init b pre tl a x v e room =
      let g = (pre ++ a ∷ tl) ++ init ∷ [] in
      let out = pre ++ x ∷ (a ∷ tl) in
      let old : length (pre ++ a ∷ tl) ≡ length pre + suc (length tl) =
        length-append pre (a ∷ tl) in
      let grown : length g ≡ length (pre ++ a ∷ tl) + 1 =
        length-append (pre ++ a ∷ tl) (init ∷ []) in
      let new : length out ≡ length pre + suc (suc (length tl)) =
        length-append pre (x ∷ (a ∷ tl)) in
      let kept : length b.items ≡ length (pre ++ a ∷ tl) = ap length e in
      let valid =
        is_valid-IsLive N (record b { items = out })
          (record {
            fits = omega (arith, old, new, kept, room);
            covers = v.covers;
            placed = v.placed;
          }) in
      let cells =
        moved init pre tl a x (length g - 1 - length pre) (length pre + 1)
          (omega (arith, old, grown)) (omega arith) in
      rw e (ground (arith, old, grown, new, kept, room, valid, cells))

  -- insert before an object of a live buffer that has room left passes its assertions. Where
  -- std::copy assigns the objects one after the other, every object behind the new one becomes a
  -- copy of the object at the position; where it moves them as raw memory, as for trivially
  -- copyable types, the objects behind the new one are those of before in their order.
  pub insert-copies :
      (init : A) (b : AutoBuffer A) (pre tl : List A) (a x : A)
      → IsLive N b
      → b.items ≡ pre ++ a ∷ tl
      → size b < b.capacity
      → (insert false N init b (length pre) x
          ≡ some (record b { items = pre ++ x ∷ replicate (suc (length tl)) a }, length pre))
        × (insert true N init b (length pre) x
            ≡ some (record b { items = pre ++ x ∷ (a ∷ tl) }, length pre))
  unfolding insert
  insert-copies init b pre tl a x v e room = (
    ground (arith, insert_room-smears init b pre tl a x v e room),
    ground (arith, insert_room-moves init b pre tl a x v e room),
  )
