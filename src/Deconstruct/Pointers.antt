-- ===== src/Deconstruct/Pointers.antt =====
-- The life of an object that has been given to deconstruct_ptr.
use signals.Base.{
  ℕ, ◌≡◌, refl, sym, subst, Bool, true, false, Option, none, some, List, [], ◌∷◌, ◌++◌,
}
use signals.Buffer.{◌>>=◌}
use signals.Deconstruct.{
  PointerClass, PointerEvent, postconstructs, predestructs, deletes, deletes_with, SharedPointer,
  end_pointer, deconstruct_ptr, deconstruct_ptr_with, postconstruct_shared, do_postconstruct,
  delete_by, predestructing_deleter, do_predestruct,
}

-- What happens to the object of deconstruct_ptr from then on.
unfoldable pub pointer_life :
    PointerClass → Option (Option SharedPointer × List PointerEvent) → Option (List PointerEvent)
unfolding end_pointer
pointer_life c o = o >>= λ r. ended c r.0 r.1
  where
    ended : PointerClass → Option SharedPointer → List PointerEvent → Option (List PointerEvent)
    ended c none log = some log
    ended c (some s) log = end_pointer c s log

abbrev if_so : Bool → PointerEvent → List PointerEvent
if_so true e = e ∷ []
if_so false e = []

-- What becomes of a pointer, and of one that is given with a deleter.
abbrev Lives : ℕ → PointerClass → Type 0
Lives i c =
    (pointer_life c (deconstruct_ptr c (some i) [])
      ≡ some (
          if_so c.is_postconstructible (postconstructs i)
          ++ if_so c.is_predestructible (predestructs i)
          ++ deletes i ∷ []))
    × (pointer_life c (deconstruct_ptr_with c (some i) [])
        ≡ some (if_so c.is_postconstructible (postconstructs i) ++ deletes_with (some i) ∷ []))
    × (pointer_life c (deconstruct_ptr c none []) ≡ some [])
    × (pointer_life c (deconstruct_ptr_with c none []) ≡ some (deletes_with none ∷ []))

lives :
    (p q t : Bool) (i : ℕ)
    → Lives i (record {
      is_postconstructible = p;
      is_predestructible = q;
      postconstruct_throws = t;
      predestruct_throws = false;
    })
unfolding pointer_life deconstruct_ptr deconstruct_ptr_with postconstruct_shared do_postconstruct
    end_pointer delete_by predestructing_deleter do_predestruct
lives false false t i = (refl, refl, refl, refl)
lives false true t i = (refl, refl, refl, refl)
lives true false false i = (refl, refl, refl, refl)
lives true false true i = (refl, refl, refl, refl)
lives true true false i = (refl, refl, refl, refl)
lives true true true i = (refl, refl, refl, refl)

-- Where a class's predestructor does not throw, an object given to deconstruct_ptr is
-- postconstructed, if it can be, and in the end, also when its postconstructor throws,
-- predestructed if it can be and then deleted, each once; an object given with a deleter is
-- postconstructed, if it can be, and then given to the deleter once; nothing is done to a null
-- pointer but giving it to that deleter. No assertion fails.
pub pointer_life_lem :
    (c : PointerClass) (i : ℕ)
    → c.predestruct_throws ≡ false
    → (pointer_life c (deconstruct_ptr c (some i) [])
        ≡ some (
            if_so c.is_postconstructible (postconstructs i)
            ++ if_so c.is_predestructible (predestructs i)
            ++ deletes i ∷ []))
      × (pointer_life c (deconstruct_ptr_with c (some i) [])
          ≡ some (if_so c.is_postconstructible (postconstructs i) ++ deletes_with (some i) ∷ []))
      × (pointer_life c (deconstruct_ptr c none []) ≡ some [])
      × (pointer_life c (deconstruct_ptr_with c none []) ≡ some (deletes_with none ∷ []))
pointer_life_lem c i h =
    subst
      (λ b. Lives i (record {
        is_postconstructible = c.is_postconstructible;
        is_predestructible = c.is_predestructible;
        postconstruct_throws = c.postconstruct_throws;
        predestruct_throws = b;
      }))
      (sym h) (lives c.is_postconstructible c.is_predestructible c.postconstruct_throws i)
