-- ===== src/Invocation/Whole.antt =====
-- A call of all slots with optional_last_value or last_value, from the making of the iterators to the
-- destruction of their cache.
use signals.Base.{
  ℕ, suc, ◌+◌, ◌<◌, ◌≡◌, refl, sym, ap, subst, ◌∙◌, Bool, true, false, Option, none, some, List, [],
  ◌∷◌, ◌⊎◌, inl, inr, arith, length,
}
use signals.Buffer.{◌>>=◌, unsigned_mod}
use signals.Connection.Handle.{AllCounted}
use signals.Invocation.{World, Iter, make_iterator, empty_cache}
use signals.Invocation.Combiner.{
  Combined, value, exception, Calls, destroy_cache, last_loop, optional_last_value, last_value,
  value_or_error, no_slots_error,
}
use signals.Invocation.Called.{Respects, View, view}
use signals.Invocation.Callee.{Keeps, Keeps-trans}
use signals.Invocation.Counting.{in_use, Exists, drop_active-Counted}
use signals.Invocation.Live.{StoredAll, next_live, next_live-Follows}
use signals.Invocation.Abstract.{Acts, Implements, call_each, view-Follows}
use signals.Invocation.Runs.{make_iterator-Found}
use signals.Invocation.Loop.{loop_ends, last_loop-Ends, Tells, last_loop-Tells}

abbrev pub value_or_exception : {R : Type 0} → Bool → Option R → Combined (Option R)
value_or_exception true v = exception
value_or_exception false v = value v

-- What last_value makes of a told call.
abbrev pub last_value_told : {R : Type 0} → Bool → Option R → Combined R
last_value_told true v = exception
last_value_told false none = no_slots_error
last_value_told false (some r) = value r

enough : (n : ℕ) → n < suc n
enough n = omega arith

list_cases : (is : List ℕ) → (is ≡ []) ⊎ ((i : ℕ) × (js : List ℕ) × (is ≡ i ∷ js))
list_cases [] = inl refl
list_cases (i ∷ is) = inr (i, is, refl)

module _ {F K R : Type 0} where
  -- The call ends, and leaves the bodies counted as they were.
  pub record Completes {Result : Type 0} (users : ℕ → ℕ) (w : World F K) (is : List ℕ)
      (run : Iter F K R → Option (Result × Iter F K R)) : Type 0 where
    pub began : Iter F K R
    pub made : make_iterator w empty_cache is ≡ some began
    pub result : Result
    pub after : Iter F K R
    pub returns : run began ≡ some (result, after)
    pub used : AllCounted (λ j. users j + in_use after.cache.active_slot j) after.world.bodies
    pub there : Exists after.cache.active_slot after.world.bodies
    pub kept : Keeps w.bodies after.world.bodies
    pub closed : Iter F K R
    pub destroyed : destroy_cache after ≡ some closed
    pub counted : AllCounted users closed.world.bodies

  -- The result is the one that is told, and so is what can be called afterwards.
  pub record Obeys {Result : Type 0} (tell : Bool → Option R → Result)
      (t : Bool × Option R × View F) (w : World F K) (is : List ℕ)
      (run : Iter F K R → Option (Result × Iter F K R)) : Type 0 where
    pub began : Iter F K R
    pub made : make_iterator w empty_cache is ≡ some began
    pub after : Iter F K R
    pub returns : run began ≡ some (tell t.0 t.1, after)
    pub sees : view after.world ≡ t.2

  pub destroy_cache-Counted :
      (users : ℕ → ℕ) (s : Iter F K R)
      → AllCounted (λ j. users j + in_use s.cache.active_slot j) s.world.bodies
      → Exists s.cache.active_slot s.world.bodies
      → (s' : Iter F K R) × (destroy_cache s ≡ some s')
        × AllCounted users s'.world.bodies
        × Keeps s.world.bodies s'.world.bodies
  unfolding destroy_cache
  destroy_cache-Counted users s all x =
      let d = drop_active-Counted users s.cache.active_slot none s all x tt in
      (d.0, d.1, d.2, (d.7 s.world.alive).keeps)

  optional_last_value_lem :
      (calls : Calls F K R) (s s' : Iter F K R) (b : Bool) (v : Option R)
      → last_loop calls (suc (length s.iter)) none s ≡ some (b, v, s')
      → optional_last_value calls s ≡ some (value_or_exception b v, s')
  unfolding optional_last_value
  optional_last_value_lem calls s s' true v e = rw e refl
  optional_last_value_lem calls s s' false v e = rw e refl

  abbrev value_of_loop : Option (Bool × Option R × Iter F K R) → Option (Combined R × Iter F K R)
  value_of_loop o = o >>= λ r. some (value_or_error r.0 r.1, r.2)

  last_value-loop :
      (calls : Calls F K R) (s : Iter F K R) (i : ℕ) (is : List ℕ)
      → s.iter ≡ i ∷ is
      → last_value calls s ≡ value_of_loop (last_loop calls (suc (length s.iter)) none s)
  unfolding last_value
  last_value-loop calls s i is here = rw here refl

  last_value-nothing :
      (calls : Calls F K R) (s : Iter F K R)
      → s.iter ≡ []
      → last_value calls s ≡ value_of_loop (some (false, none, s))
  unfolding last_value
  last_value-nothing calls s here = rw here refl

  told_error :
      (b : Bool) (v : Option R) (s' : Iter F K R) {o : Option (Combined R × Iter F K R)}
      → o ≡ some (value_or_error b v, s')
      → o ≡ some (last_value_told b v, s')
  told_error true v s' e = e
  told_error false none s' e = e
  told_error false (some r) s' e = e

  last_value_lem :
      (calls : Calls F K R) (s s' : Iter F K R) (b : Bool) (v : Option R)
      → last_loop calls (suc (length s.iter)) none s ≡ some (b, v, s')
      → last_value calls s ≡ some (last_value_told b v, s')
  last_value_lem calls s s' b v e = told_error b v s' (elim (list_cases s.iter) [
    | inr (i, is, here) ↦ last_value-loop calls s i is here ∙ ap value_of_loop e
    | inl here ↦
        last_value-nothing calls s here
        ∙ ap value_of_loop (sym (loop_ends calls (length s.iter) none s here) ∙ e)
  ])

  -- Both combiners are the loop, with another way to tell its end.
  loop-Completes :
      {Result : Type 0} (tell : Bool → Option R → Result) (calls : Calls F K R)
      (run : Iter F K R → Option (Result × Iter F K R))
      → ((s s' : Iter F K R) (b : Bool) (v : Option R)
          → last_loop calls (suc (length s.iter)) none s ≡ some (b, v, s')
          → run s ≡ some (tell b v, s'))
      → (users : ℕ → ℕ) (w : World F K) (is : List ℕ) → Respects calls
      → ((j : ℕ) → users j + 2 < unsigned_mod)
      → AllCounted users w.bodies
      → StoredAll is w.bodies
      → Completes users w is run
  loop-Completes tell calls run loops users w is respects room all st =
      let m = make_iterator-Found users w is room all st in
      let e =
        last_loop-Ends calls users (suc (length m.after.iter)) none m.after m.after.iter respects
          room m.standing m.result_left refl (enough (length m.after.iter)) in
      let d = destroy_cache-Counted users e.after e.counted e.there in
      record {
        began = m.after;
        made = m.returns;
        result = tell e.stopped e.last;
        after = e.after;
        returns = loops m.after e.after e.stopped e.last e.returns;
        used = e.counted;
        there = e.there;
        kept =
            Keeps-trans w.bodies m.after.world.bodies e.after.world.bodies m.follows.keeps e.kept;
        closed = d.0;
        destroyed = d.1;
        counted = d.2;
      }

  loop-Obeys :
      {Result : Type 0} (tell : Bool → Option R → Result) (calls : Calls F K R) (acts : Acts F R)
      (run : Iter F K R → Option (Result × Iter F K R))
      → ((s s' : Iter F K R) (b : Bool) (v : Option R)
          → last_loop calls (suc (length s.iter)) none s ≡ some (b, v, s')
          → run s ≡ some (tell b v, s'))
      → (users : ℕ → ℕ) (w : World F K) (is : List ℕ) → Implements calls acts
      → Respects calls
      → ((j : ℕ) → users j + 2 < unsigned_mod)
      → AllCounted users w.bodies
      → StoredAll is w.bodies
      → Obeys tell (call_each acts is none (view w)) w is run
  loop-Obeys tell calls acts run loops users w is imp respects room all st =
      let m = make_iterator-Found {R = R} users w is room all st in
      let e =
        last_loop-Tells calls acts users (suc (length m.after.iter)) none m.after m.after.iter is
          imp respects room m.standing m.result_left refl (enough (length m.after.iter))
          (ap (λ a. next_live a m.after.world.bodies is) m.follows.alive_left
            ∙ next_live-Follows w.alive is w m.after.world m.follows
            ∙ sym m.found) in
      let same : view m.after.world ≡ view w = view-Follows w m.after.world m.follows in
      let t =
        subst
          (λ x.
            Tells (last_loop calls (suc (length m.after.iter)) none m.after)
              (call_each acts is none x))
          same e in
      record {
        began = m.after;
        made = m.returns;
        after = t.0;
        returns =
            loops m.after t.0 (call_each acts is none (view w)).0
              (call_each acts is none (view w)).1 t.1;
        sees = t.2;
      }

module _ {F K R : Type 0} (calls : Calls F K R) (users : ℕ → ℕ) (w : World F K) (is : List ℕ) where
  -- Where all bodies are counted, those of the list exist, every count has room for two more uses,
  -- and the slot functions keep the bodies, their keys and their counting, a call of all slots
  -- with optional_last_value ends, whatever the slots throw or disconnect: no assertion fails, and
  -- when the cache is destroyed every body is counted as before.
  pub optional_last_value-Completes :
      Respects calls
      → ((j : ℕ) → users j + 2 < unsigned_mod)
      → AllCounted users w.bodies
      → StoredAll is w.bodies
      → Completes users w is (optional_last_value calls)
  optional_last_value-Completes respects room all st =
      loop-Completes value_or_exception calls (optional_last_value calls)
        (optional_last_value_lem calls) users w is respects room all st

  -- The same with last_value.
  pub last_value-Completes :
      Respects calls
      → ((j : ℕ) → users j + 2 < unsigned_mod)
      → AllCounted users w.bodies
      → StoredAll is w.bodies
      → Completes users w is (last_value calls)
  last_value-Completes respects room all st =
      loop-Completes last_value_told calls (last_value calls) (last_value_lem calls) users w is
        respects room all st

module _ {F K R : Type 0} (calls : Calls F K R) (acts : Acts F R) (users : ℕ → ℕ) (w : World F K)
    (is : List ℕ) where
  -- Where all bodies are counted, those of the list exist, every count has room for two more uses,
  -- and the slot functions keep the bodies, their keys and their counting, and do to what can be
  -- called what their telling says, a call of all slots with optional_last_value has the result of
  -- call_each: one slot of the list after the other runs if it can be called when its turn comes,
  -- a slot that throws expired_slot cannot be called again, another exception ends the call, and
  -- the result is the last value returned.
  pub optional_last_value-Obeys :
      Implements calls acts
      → Respects calls
      → ((j : ℕ) → users j + 2 < unsigned_mod)
      → AllCounted users w.bodies
      → StoredAll is w.bodies
      → Obeys value_or_exception (call_each acts is none (view w)) w is (optional_last_value calls)
  optional_last_value-Obeys imp respects room all st =
      loop-Obeys value_or_exception calls acts (optional_last_value calls)
        (optional_last_value_lem calls) users w is imp respects room all st

  -- Where all bodies are counted, those of the list exist, every count has room for two more uses,
  -- and the slot functions keep the bodies, their keys and their counting, and do to what can be
  -- called what their telling says, a call of all slots with last_value has the result of
  -- call_each, and throws no_slots_error if no slot returned a value.
  pub last_value-Obeys :
      Implements calls acts
      → Respects calls
      → ((j : ℕ) → users j + 2 < unsigned_mod)
      → AllCounted users w.bodies
      → StoredAll is w.bodies
      → Obeys last_value_told (call_each acts is none (view w)) w is (last_value calls)
  last_value-Obeys imp respects room all st =
      loop-Obeys last_value_told calls acts (last_value calls) (last_value_lem calls) users w is imp
        respects room all st
