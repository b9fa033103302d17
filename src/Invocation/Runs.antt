-- ===== src/Invocation/Runs.antt =====
-- A call of a signal runs to its end: the combiner's loop never fails an assertion.
use signals.Base.{
  ℕ, suc, ◌+◌, ◌<◌, ◌≡◌, refl, ap, subst, ◌∙◌, false, none, some, List, [], ◌∷◌, ◌==◌, arith,
  length,
}
use signals.Buffer.{◌>>=◌, unsigned_mod}
use signals.Connection.Body.{IsCounted}
use signals.Connection.Handle.{AllCounted}
use signals.Invocation.{
  World, Iter, same_place, lock_next_callable, make_iterator, next_callable, increment, empty_cache,
}
use signals.Invocation.Live.{StoredAll, next_live}
use signals.Invocation.Steps.{Searching, Found, next_callable-Found}

shorter : (n : ℕ) → (n == suc n) ≡ false
shorter n = ground arith

module _ {F K R : Type 0} where
  -- The constructor.
  pub make_iterator-Found :
      (users : ℕ → ℕ) (w : World F K) (is : List ℕ)
      → ((j : ℕ) → users j + 2 < unsigned_mod)
      → AllCounted users w.bodies
      → StoredAll is w.bodies
      → Found users
          (next_live w.alive w.bodies is)
          w
          none
          (make_iterator {F = F} {K = K} {R = R} w empty_cache is)
  unfolding make_iterator lock_next_callable next_live
  make_iterator-Found users w [] room all st = record {
    after = record { world = w; cache = empty_cache; iter = []; callable_iter = [] };
    returns = refl;
    standing = record {
      counted = λ j b e.
          subst (λ n. IsCounted n b) {x = users j} {y = users j + 0} (omega arith) (all j b e);
      held = tt;
      stored = tt;
      callable_here = refl;
      active_here = refl;
    };
    found = refl;
    result_left = refl;
    follows = record { keeps = λ j b e. (b, e, refl); callees = λ j. refl; alive_left = refl };
  }
  make_iterator-Found users w (i ∷ is) room all st =
      let far : (suc (length is) == 0) ≡ false = ground arith in
      rw far (
        next_callable-Found users (i ∷ is)
          (record { world = w; cache = empty_cache; iter = i ∷ is; callable_iter = [] }) room
          (record {
            counted = λ j b e.
                subst (λ n. IsCounted n b) {x = users j} {y = users j + 0} (omega arith)
                  (all j b e);
            there = tt;
            here = refl;
          })
          st)

  moved_on :
      (s : Iter F K R) (i : ℕ) (is : List ℕ)
      → s.iter ≡ is
      → s.callable_iter ≡ i ∷ is
      → lock_next_callable s ≡ next_callable is s
  unfolding lock_next_callable
  moved_on s i is here at =
      let far : same_place s.iter s.callable_iter ≡ false =
        ap (λ c. length s.iter == length c) at
        ∙ ap (λ c. length c == suc (length is)) here
        ∙ shorter (length is) in
      rw far (ap (λ c. next_callable c s) here)

  increment-lock :
      (s : Iter F K R) (i : ℕ) (is : List ℕ)
      → s.iter ≡ i ∷ is
      → increment s ≡ (
          lock_next_callable (record s { iter = is }) >>= λ s₁.
          some (record s₁ { cache = record s₁.cache { result = none } }))
  unfolding increment
  increment-lock s i is here = rw here refl

  -- The iterator moves on after a call.
  pub increment-Found :
      (users : ℕ → ℕ) (i : ℕ) (is : List ℕ) (s : Iter F K R)
      → ((j : ℕ) → users j + 2 < unsigned_mod)
      → Searching users s.world s.cache.active_slot s.callable_iter
      → s.iter ≡ i ∷ is
      → s.callable_iter ≡ i ∷ is
      → StoredAll is s.world.bodies
      → Found users (next_live s.world.alive s.world.bodies is) s.world none (increment s)
  increment-Found users i is s room w here at st =
      let r = next_callable-Found users is (record s { iter = is }) room w st in
      record {
        after = record r.after { cache = record r.after.cache { result = none } };
        returns =
            rw (increment-lock s i is here)
              (rw (moved_on (record s { iter = is }) i is refl at) (rw r.returns refl));
        standing = record {
          counted = r.standing.counted;
          held = r.standing.held;
          stored = r.standing.stored;
          callable_here = r.standing.callable_here;
          active_here = r.standing.active_here;
        };
        found = r.found;
        result_left = refl;
        follows = r.follows;
      }
