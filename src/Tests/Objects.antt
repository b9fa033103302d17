-- ===== src/Tests/Objects.antt =====
-- Objects that the factories make.
use signals.Base.{◌≡◌, refl, true, false, some, none, [], ◌∷◌, ◌==◌}
use signals.Deconstruct.{
  construct, postconstruct, predestruct, destruct, PointerClass, postconstructs, predestructs,
  deletes, deletes_with, deconstruct_ptr, deconstruct_ptr_with,
}
use signals.Deconstruct.Lifetime.{whole_life, whole_life_lem}
use signals.Deconstruct.Pointers.{pointer_life, pointer_life_lem}

-- The second call of the postconstructor is the first that does not throw.
whole_life_lem_example :
    whole_life (λ a. false) (λ a. a == 1) 7 (1 ∷ 2 ∷ 3 ∷ [])
    ≡ construct 7 ∷ postconstruct 1 ∷ postconstruct 2 ∷ predestruct ∷ destruct ∷ []
whole_life_lem_example = whole_life_lem (λ a. false) (λ a. a == 1) 7 (1 ∷ 2 ∷ 3 ∷ [])

abbrev throwing : PointerClass
throwing = record {
  is_postconstructible = true;
  is_predestructible = true;
  postconstruct_throws = true;
  predestruct_throws = false;
}

pointer_life_lem_example :
    (pointer_life throwing (deconstruct_ptr throwing (some 4) [])
      ≡ some (postconstructs 4 ∷ predestructs 4 ∷ deletes 4 ∷ []))
    × (pointer_life throwing (deconstruct_ptr_with throwing (some 4) [])
        ≡ some (postconstructs 4 ∷ deletes_with (some 4) ∷ []))
    × (pointer_life throwing (deconstruct_ptr throwing none []) ≡ some [])
    × (pointer_life throwing (deconstruct_ptr_with throwing none [])
        ≡ some (deletes_with none ∷ []))
pointer_life_lem_example = pointer_life_lem throwing 4 refl
