-- ===== src/Signal/Sharing.antt =====
-- Which running calls share a signal's state and its connection list.
use signals.Base.{
  ℕ, suc, ◌+◌, ◌<◌, ◌≡◌, refl, ap, ◌∙◌, Bool, true, false, ◌&&◌, ◌||◌, List, [], ◌∷◌, ltb, ◌==◌,
  arith, inl, inr, Bool-cases,
}
use signals.Groups.Containers.{Node}
use signals.Groups.Duplicate.{copy_nodes, copy_list}
use signals.Signal.{
  SignalImpl, InvocationState, put, held, unique, current_list, set_combiner, combiner, add_reader,
}
use signals.Signal.Cleanup.{copy_state}
use signals.Signal.Emit.{values_of}

-- Every reader's addresses are below a bound.
abbrev pub addressed : ℕ → List InvocationState → Bool
addressed n [] = true
addressed n (r ∷ rs) = ltb r.address n && (ltb r.connection_bodies n && addressed n rs)

abbrev pub is_reader_list : ℕ → List InvocationState → Bool
is_reader_list a [] = false
is_reader_list a (r ∷ rs) = r.connection_bodies == a || is_reader_list a rs

pub addressed-held : (n : ℕ) (rs : List InvocationState) → addressed n rs ≡ true → held n rs ≡ false
addressed-held n [] h = refl
addressed-held n (r ∷ rs) h = let p = addressed-held n rs in ground arith

pub addressed-is_reader_list :
    (n a : ℕ) (rs : List InvocationState)
    → addressed n rs ≡ true
    → is_reader_list a rs ≡ true
    → a < n
addressed-is_reader_list n a [] h p = absurd (ground arith)
addressed-is_reader_list n a (r ∷ rs) h p =
    let q = addressed-is_reader_list n a rs in
    elim (Bool-cases (r.connection_bodies == a)) [
      | inl e ↦ ground arith
      | inr e ↦ q (ground arith) (ground arith)
    ]

pub new_apart :
    (n : ℕ) (rs : List InvocationState) → addressed n rs ≡ true → is_reader_list (n + 1) rs ≡ false
new_apart n rs h = elim (Bool-cases (is_reader_list (n + 1) rs)) [
  | inr e ↦ e
  | inl e ↦ (let p = addressed-is_reader_list n (n + 1) rs h e in absurd (ground arith))
]

pub values_of-copy_nodes {ℓ} :
    {V : Type ℓ} (next : ℕ) (xs : List (Node V)) → values_of (copy_nodes next xs) ≡ values_of xs
unfolding copy_nodes
values_of-copy_nodes next [] = refl
values_of-copy_nodes next (x ∷ xs) = ap (λ t. x.value ∷ t) (values_of-copy_nodes (suc next) xs)

same_test : (i : ℕ) → (i == i) ≡ true
same_test i = ground arith

pub put_same {ℓ} : {A : Type ℓ} (i : ℕ) (a : A) (f : ℕ → A) → put i a f i ≡ a
put_same i a f = rw (same_test i) refl

pub put_ne {ℓ} : {A : Type ℓ} (i j : ℕ) (a : A) (f : ℕ → A) → (i == j) ≡ false → put i a f j ≡ f j
put_ne i j a f h = rw h refl

module _ {F Group C : Type 0} where
  -- A call holds the state that it has just read.
  in_use : (s : SignalImpl F Group C) → unique (add_reader s) ≡ false
  unfolding unique add_reader
  in_use s = ground arith

  -- Where the readers' addresses have been allocated, the copy of the shared state that a writer
  -- makes is held by no running call, leaves every list that one reads as it was, has the same
  -- bodies in the same order, and the same combiner; and its list is one that no running call
  -- reads.
  pub copy_state-isolates :
      (s : SignalImpl F Group C)
      → addressed s.next_address s.readers ≡ true
      → (unique (copy_state s) ≡ true)
        × ((a : ℕ) → is_reader_list a s.readers ≡ true → (copy_state s).lists a ≡ s.lists a)
        × (values_of (current_list (copy_state s)).list ≡ values_of (current_list s).list)
        × (combiner (copy_state s) ≡ combiner s)
        × (is_reader_list (copy_state s).shared_state.connection_bodies (copy_state s).readers
            ≡ false)
  unfolding unique copy_state copy_list combiner
  copy_state-isolates s h = (
    rw (addressed-held s.next_address s.readers h) refl,
    (λ a r.
        let p = addressed-is_reader_list s.next_address a s.readers h r in
        put_ne (s.next_address + 1) a (copy_list (current_list s)) s.lists (ground arith)),
    ap (λ l. values_of l.list) (put_same (s.next_address + 1) (copy_list (current_list s)) s.lists)
        ∙ values_of-copy_nodes (current_list s).next_id (current_list s).list,
    refl,
    new_apart s.next_address s.readers h,
  )

  -- Where the readers' addresses have been allocated, set_combiner during a call sets the combiner
  -- and makes the state unique, although its connection list is still one that a running call
  -- reads.
  pub set_combiner-shares :
      (c : C) (s : SignalImpl F Group C)
      → addressed s.next_address (add_reader s).readers ≡ true
      → (combiner (set_combiner c (add_reader s)) ≡ c)
        × (unique (set_combiner c (add_reader s)) ≡ true)
        × (is_reader_list
              (set_combiner c (add_reader s)).shared_state.connection_bodies
              (set_combiner c (add_reader s)).readers
            ≡ true)
  unfolding set_combiner combiner add_reader
  set_combiner-shares c s h = rw (in_use s) (
    put_same (s.next_address + 1) c s.combiners,
    (unfold unique in rw (addressed-held s.next_address (s.shared_state ∷ s.readers) h) refl),
    ground arith,
  )
