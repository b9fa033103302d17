-- ===== src/Tests/Runs.antt =====
-- A call of four slots: one that returns a value, one that throws expired_slot, one that is gone, and
-- one more that returns a value.
use signals.Base.{
  ℕ, ◌+◌, ◌<◌, ◌≡◌, refl, subst, true, none, some, List, [], ◌∷◌, ◌==◌, if◌then◌else◌, arith, ◌*◌,
  not, inl, inr, Bool-cases,
}
use signals.Buffer.{unsigned_mod}
use signals.Slot.{Slot, void_ptr, expired_tracked}
use signals.Connection.{ConnectionBody}
use signals.Connection.Body.{IsCounted}
use signals.Connection.Handle.{AllCounted}
use signals.Invocation.{World, Outcome, returned, slot_expired, other_exception}
use signals.Invocation.Combiner.{Calls, optional_last_value, last_value}
use signals.Invocation.Called.{Respects, view}
use signals.Invocation.Live.{StoredAll}
use signals.Invocation.Abstract.{Acts, Implements, call_each}
use signals.Invocation.Whole.{
  Completes, Obeys, value_or_exception, last_value_told, optional_last_value-Completes,
  optional_last_value-Obeys, last_value-Obeys,
}

abbrev slot_of : ℕ → Slot ℕ
slot_of f = record { slot_function = f; tracked_objects = void_ptr f ∷ [] }

abbrev free : ℕ → ConnectionBody ℕ ℕ
free f = record {
  connected = true;
  slot_refcount = 1;
  slot = some (slot_of f);
  blockers = 0;
  group_key = 0;
}

-- The body 9 has the function 0, which throws; the object 30 is gone.
abbrev four : World ℕ ℕ
four = record {
  bodies = λ i. if i == 9 then some (free 0) else some (free (i * 10));
  alive = λ i. not (i == 30);
}

abbrev outcome_of : ℕ → Outcome ℕ
outcome_of f = if f == 0 then slot_expired else if f == 1 then other_exception else returned f

abbrev pub leaves_alone : {K : Type 0} → Calls ℕ K ℕ
leaves_alone f w = (outcome_of f, w)

abbrev told : Acts ℕ ℕ
told f v = (outcome_of f, v)

pub leaves_alone-Respects : {K : Type 0} → Respects {K = K} leaves_alone
leaves_alone-Respects = record {
  counts = λ users f w room all. all;
  bodies_kept = λ f w j b e. (b, e, refl);
}

leaves_alone-Implements : {K : Type 0} → Implements {K = K} leaves_alone told
leaves_alone-Implements = record { outcome = λ f w. refl; effect = λ f w. refl }

abbrev pub unused : ℕ → ℕ
unused j = 0

pub unused-bounded : (j : ℕ) → unused j + 2 < unsigned_mod
unused-bounded j = ground arith

free-IsCounted : (f : ℕ) → IsCounted 0 (free f)
free-IsCounted f = ground arith

free_at : (i : ℕ) (b : ConnectionBody ℕ ℕ) → four.bodies i ≡ some b → (f : ℕ) × (free f ≡ b)
free_at i b e = elim (Bool-cases (i == 9)) [
  | inl h ↦ (0, ground arith)
  | inr h ↦ (i * 10, ground arith)
]

four-AllCounted : AllCounted unused four.bodies
four-AllCounted i b e = let p = free_at i b e in subst (IsCounted 0) p.1 (free-IsCounted p.0)

abbrev order : List ℕ
order = 2 ∷ 9 ∷ 3 ∷ 4 ∷ []

order-StoredAll : StoredAll order four.bodies
order-StoredAll = ((free 20, refl), ((free 0, refl), ((free 30, refl), ((free 40, refl), tt))))

told-order : (call_each told order none (view four)).1 ≡ some 40
unfolding call_each expired_tracked
told-order = refl

told_gone : (call_each told order none (view four)).2 9 ≡ none
unfolding call_each expired_tracked
told_gone = refl

optional_last_value-Completes_example :
    Completes unused four order (optional_last_value leaves_alone)
optional_last_value-Completes_example =
    optional_last_value-Completes leaves_alone unused four order leaves_alone-Respects
      unused-bounded four-AllCounted order-StoredAll

optional_last_value-Obeys_example :
    Obeys value_or_exception
      (call_each told order none (view four))
      four
      order
      (optional_last_value leaves_alone)
optional_last_value-Obeys_example =
    optional_last_value-Obeys leaves_alone told unused four order leaves_alone-Implements
      leaves_alone-Respects unused-bounded four-AllCounted order-StoredAll

last_value-Obeys_example :
    Obeys last_value_told
      (call_each told order none (view four))
      four
      order
      (last_value leaves_alone)
last_value-Obeys_example =
    last_value-Obeys leaves_alone told unused four order leaves_alone-Implements
      leaves_alone-Respects unused-bounded four-AllCounted order-StoredAll
