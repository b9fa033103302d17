-- ===== src/Slot/Lock.antt =====
-- slot_base::lock while other threads drop their owners: an object is locked before it is tested.
use signals.Base.{
  ℕ, suc, ◌≡◌, refl, Bool, true, false, none, some, List, [], ◌∷◌, ◌++◌, arith, inl, inr, ◌↔◌, ◌||◌,
  Bool-cases, Option-cases, subst, append_assoc, append-nil, sym, ◌∙◌,
}
use signals.Slot.{
  Tracked, trackable_ptr, void_ptr, foreign_ptr, Locked, void_shared, foreign_shared, Life, Slot,
  lock_weak_ptr, expired_weak_ptr, lock_tracked, expired_tracked, lock, expired, track_each,
  replace_slot_function,
}

-- A control block without owners never gets one again.
abbrev pub IsDying : Life → Type 0
IsDying life = (t i : ℕ) → life (suc t) i ≡ true → life t i ≡ true

-- The pointer holds the object; a trackable's holds nothing.
abbrev pub Holds : Tracked → Locked → Type 0
Holds (trackable_ptr i) l = l ≡ void_shared none
Holds (void_ptr i) l = l ≡ void_shared (some i)
Holds (foreign_ptr i) l = l ≡ foreign_shared (some i)

abbrev pub HoldsAll : List Tracked → List Locked → Type 0
HoldsAll [] [] = Unit {0}
HoldsAll [] (l ∷ ls) = ⊥
HoldsAll (x ∷ xs) [] = ⊥
HoldsAll (x ∷ xs) (l ∷ ls) = Holds x l × HoldsAll xs ls

lock_weak_ptr-Holds :
    (life : Life) (t : ℕ) (x : Tracked)
    → IsDying life
    → expired_weak_ptr (life (suc t)) x ≡ false
    → Holds x (lock_weak_ptr (life t) x)
unfolding lock_weak_ptr expired_weak_ptr
lock_weak_ptr-Holds life t (trackable_ptr i) d e = refl
lock_weak_ptr-Holds life t (void_ptr i) d e = ground (arith, d t i)
lock_weak_ptr-Holds life t (foreign_ptr i) d e = ground (arith, d t i)

some_inj : {A : Type 0} (a b : A) → some a ≡ some b → a ≡ b
some_inj a b e = ground arith

lock_tracked-Holds :
    (life : Life) (t : ℕ) (xs : List Tracked) (ls : List Locked)
    → IsDying life
    → lock_tracked life t xs ≡ some ls
    → HoldsAll xs ls
unfolding lock_tracked
lock_tracked-Holds life t [] ls d e = subst (HoldsAll []) (some_inj [] ls e) tt
lock_tracked-Holds life t (x ∷ xs) ls d e = elim (Bool-cases (expired_weak_ptr (life (suc t)) x)) [
  | inl gone ↦ absurd (ground arith)
  | inr there ↦ elim (Option-cases (lock_tracked life (suc (suc t)) xs)) [
    | inl failed ↦ absurd (ground arith)
    | inr (r, locked) ↦
        subst (HoldsAll (x ∷ xs)) {x = lock_weak_ptr (life t) x ∷ r} {y = ls} (ground arith) (
          lock_weak_ptr-Holds life t x d there,
          lock_tracked-Holds life (suc (suc t)) xs r d locked,
        )
  ]
]

-- Where an object without owners never gets one again, a slot's lock that does not throw while
-- owners go away holds, for each tracked object but a trackable, a pointer to it.
pub lock-Holds :
    {F : Type 0} (life : Life) (t : ℕ) (s : Slot F) (ls : List Locked)
    → IsDying life
    → lock life t s ≡ some ls
    → HoldsAll s.tracked_objects ls
unfolding lock
lock-Holds life t s ls d e = lock_tracked-Holds life t s.tracked_objects ls d e

lock_tracked-expired :
    (alive : ℕ → Bool) (t : ℕ) (xs : List Tracked)
    → (lock_tracked (λ _. alive) t xs ≡ none) ↔ (expired_tracked alive xs ≡ true)
unfolding lock_tracked expired_tracked
lock_tracked-expired alive t [] = ((λ e. ground arith), (λ e. ground arith))
lock_tracked-expired alive t (x ∷ xs) =
    let ih = lock_tracked-expired alive (suc (suc t)) xs in ground (arith, ih)

-- While no owner goes away, a slot's lock throws expired_slot exactly when expired() says that the
-- slot has expired.
pub lock-expired :
    {F : Type 0} (alive : ℕ → Bool) (t : ℕ) (s : Slot F)
    → (lock (λ _. alive) t s ≡ none) ↔ (expired alive s ≡ true)
unfolding lock expired
lock-expired alive t s = lock_tracked-expired alive t s.tracked_objects

track_each-append : (acc xs : List Tracked) → track_each acc xs ≡ acc ++ xs
unfolding track_each
track_each-append acc [] = sym (append-nil acc)
track_each-append acc (x ∷ xs) = track_each-append (acc ++ x ∷ []) xs ∙ append_assoc acc (x ∷ []) xs

expired_tracked-append :
    (alive : ℕ → Bool) (xs ys : List Tracked)
    → expired_tracked alive (xs ++ ys) ≡ (expired_tracked alive xs || expired_tracked alive ys)
unfolding expired_tracked
expired_tracked-append alive [] ys = refl
expired_tracked-append alive (x ∷ xs) ys = ground (arith, expired_tracked-append alive xs ys)

-- The slot that replace_slot_function makes has expired exactly when an object that the new
-- function tracks has, or the wrapped slot has.
pub expired-replace_slot_function :
    {F G : Type 0} (alive : ℕ → Bool) (tracked_of : F → List Tracked) (s : Slot G) (f : F)
    → expired alive (replace_slot_function tracked_of s f)
      ≡ (expired_tracked alive (tracked_of f) || expired alive s)
unfolding replace_slot_function expired
expired-replace_slot_function alive tracked_of s f =
    rw (track_each-append (tracked_of f) s.tracked_objects)
      (expired_tracked-append alive (tracked_of f) s.tracked_objects)
