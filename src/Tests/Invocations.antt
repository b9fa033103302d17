-- ===== src/Tests/Invocations.antt =====
-- An iterator that moves from one slot to the next.
use signals.Base.{
  ℕ, ◌+◌, ◌<◌, ◌≡◌, refl, subst, sym, true, some, [], ◌∷◌, ◌==◌, if◌then◌else◌, arith,
}
use signals.Buffer.{unsigned_mod}
use signals.Connection.Body.{IsCounted}
use signals.Connection.Handle.{AllCounted}
use signals.Invocation.{Iter, empty_cache, set_active_slot}
use signals.Invocation.Counting.{in_use, Takes, set_active_slot-Takes}
use signals.Tests.Connections.{used, used-IsCounted}

abbrev calling : Iter ℕ ℕ ℕ
calling = record {
  world = record { bodies = λ i. some used; alive = λ i. true };
  cache = record empty_cache { active_slot = some 3 };
  iter = 3 ∷ 4 ∷ [];
  callable_iter = 3 ∷ 4 ∷ [];
}

-- One more call uses every slot but the active one, whose use is the iterator's own.
abbrev others : ℕ → ℕ
others i = if 3 == i then 0 else 1

all_used : (i : ℕ) → others i + in_use (some 3) i ≡ 1
all_used i = ground arith

calling-AllCounted : AllCounted (λ j. others j + in_use (some 3) j) calling.world.bodies
calling-AllCounted i b e =
    subst (IsCounted (others i + in_use (some 3) i)) {x = used} {y = b} (ground arith)
      (subst (λ n. IsCounted n used) (sym (all_used i)) used-IsCounted)

others-bounded : (j : ℕ) → others j + 2 < unsigned_mod
others-bounded j = ground arith

set_active_slot-Takes_example : Takes others (some 4) calling (set_active_slot (some 4) calling)
set_active_slot-Takes_example =
    set_active_slot-Takes others (some 4) calling others-bounded calling-AllCounted (used, refl)
      (used, refl, refl)
