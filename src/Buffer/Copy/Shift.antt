-- ===== src/Buffer/Copy/Shift.antt =====
-- A forward copy to the left moves the cells, to the right by one it smears the first.
use signals.Base.{
  ℕ, zero, suc, ◌+◌, ◌≤◌, ◌<◌, ◌≡◌, refl, sym, ap, ◌∙◌, List, [], ◌∷◌, ◌++◌, append-nil,
  append_assoc, arith, length, length-append, get_elem?-append, get_elem?, some, set-append, set,
  replicate, drop,
}
use signals.Buffer.Copy.{copy_forward, copy_cell}

module _ {ℓ} {A : Type ℓ} where
  length-snoc : (xs : List A) (x : A) → suc (length xs) ≡ length (xs ++ x ∷ [])
  length-snoc xs x = omega (arith, length-append xs (x ∷ []))

  -- Reading behind a prefix and writing at its end.
  set_after :
      (pre ys : List A) (a m p : A)
      → set (pre ++ a ∷ m ∷ ys) (suc (length pre)) p ≡ (pre ++ a ∷ []) ++ p ∷ ys
  set_after [] ys a m p = refl
  set_after (x ∷ pre) ys a m p = ap (◌∷◌ x) (set_after pre ys a m p)

  smear_cell :
      (pre tl : List A) (a t : A)
      → copy_cell
          (get_elem? (pre ++ a ∷ t ∷ tl) (length pre))
          (suc (length pre))
          (pre ++ a ∷ t ∷ tl)
        ≡ (pre ++ a ∷ []) ++ a ∷ tl
  smear_cell pre tl a t = rw (get_elem?-append pre (t ∷ tl) a) (set_after pre tl a t a)

  get_behind :
      (pre mid post : List A) (p : A)
      → get_elem? (pre ++ (mid ++ p ∷ post)) (length pre + length mid) ≡ some p
  get_behind pre mid post p =
      rw (← length-append pre mid, ← append_assoc pre mid (p ∷ post))
        (get_elem?-append (pre ++ mid) post p)

  left_cell :
      (pre mid post : List A) (m p : A)
      → copy_cell
          (get_elem? (pre ++ ((m ∷ mid) ++ p ∷ post)) (length pre + suc (length mid)))
          (length pre)
          (pre ++ ((m ∷ mid) ++ p ∷ post))
        ≡ pre ++ p ∷ (mid ++ p ∷ post)
  left_cell pre mid post m p =
      rw (get_behind pre (m ∷ mid) post p) (set-append pre (mid ++ p ∷ post) m p)

  snoc_cons : (pre xs : List A) (p : A) → pre ++ p ∷ xs ≡ (pre ++ p ∷ []) ++ xs
  snoc_cons pre xs p = sym (append_assoc pre (p ∷ []) xs)

  -- std::copy to a place on its left moves the cells; `mid` is what lies between.
  pub copy_forward-left :
      (pre mid post : List A)
      → 0 < length mid
      → (rest : List A) × (length rest ≡ length mid)
        × (copy_forward (length post) (length pre + length mid) (length pre) (pre ++ (mid ++ post))
            ≡ (pre ++ post) ++ rest)
  unfolding copy_forward
  copy_forward-left pre [] post h = elim h [ ]
  copy_forward-left pre (m ∷ mid) [] h = (m ∷ mid, refl, rw (append-nil pre, append-nil mid))
  copy_forward-left pre (m ∷ mid) (p ∷ post) h =
      let mid' = mid ++ p ∷ [] in
      let pre' = pre ++ p ∷ [] in
      let len : length mid' ≡ suc (length mid) = sym (length-snoc mid p) in
      let ih = copy_forward-left pre' mid' post (omega arith) in
      (
        ih.0,
        ih.1 ∙ len,
        ap (copy_forward (length post) (suc (length pre + suc (length mid))) (suc (length pre))) (
              left_cell pre mid post m p
              ∙ snoc_cons pre (mid ++ p ∷ post) p
              ∙ ap (◌++◌ pre') (snoc_cons mid post p))
            ∙ ap
                (λ k.
                  copy_forward (length post) (suc (length pre + suc (length mid))) k
                    (pre' ++ (mid' ++ post)))
                (length-snoc pre p)
            ∙ ap (λ k. copy_forward (length post) k (length pre') (pre' ++ (mid' ++ post)))
                (omega (arith, length-snoc pre p, length-snoc mid p))
            ∙ ih.2
            ∙ ap (λ l. l ++ ih.0) (sym (snoc_cons pre post p)),
      )

  -- std::copy to the place one to the right of its source repeats the first cell.
  pub copy_forward-smear :
      (n : ℕ) (pre tl : List A) (a : A)
      → n ≤ length tl
      → copy_forward n (length pre) (suc (length pre)) (pre ++ a ∷ tl)
        ≡ pre ++ a ∷ (replicate n a ++ drop n tl)
  unfolding copy_forward
  copy_forward-smear zero pre tl a h = refl
  copy_forward-smear (suc n) pre [] a h = elim h [ ]
  copy_forward-smear (suc n) pre (t ∷ tl) a h =
      ap (copy_forward n (suc (length pre)) (suc (suc (length pre)))) (smear_cell pre tl a t)
      ∙ ap (λ k. copy_forward n k (suc k) ((pre ++ a ∷ []) ++ a ∷ tl)) (length-snoc pre a)
      ∙ copy_forward-smear n (pre ++ a ∷ []) tl a (omega arith)
      ∙ append_assoc pre (a ∷ []) _
