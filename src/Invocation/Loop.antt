-- ===== src/Invocation/Loop.antt =====
-- The loop of optional_last_value and last_value: it ends without a failed assertion, and calls the
-- slots as they are told to be called.
use signals.Base.{
  fun_ext, ℕ, zero, suc, ◌+◌, ◌<◌, ◌≤◌, ◌≡◌, refl, sym, ap, subst, ◌∙◌, Bool, true, false, Option,
  none, some, List, [], ◌∷◌, if◌then◌else◌, arith, inl, inr, Bool-cases, length,
}
use signals.Buffer.{◌>>=◌, unsigned_mod}
use signals.Connection.{ConnectionBody}
use signals.Connection.Handle.{Store, AllCounted}
use signals.Invocation.{Iter, Outcome, first_of_rest, increment}
use signals.Invocation.Combiner.{Calls, next_value, stops, dereference, last_loop}
use signals.Invocation.Callee.{Keeps, Keeps-trans, callee, is_callable, slot_function_of}
use signals.Invocation.Called.{Respects, View, view, after_view, dereference-Called}
use signals.Invocation.Counting.{in_use, Exists}
use signals.Invocation.Live.{is_some, next_live, next_live-Follows}
use signals.Invocation.Steps.{Standing}
use signals.Invocation.Abstract.{
  Acts, Implements, call_each, call_each-next_live, call_each-run, view-Follows,
}
use signals.Invocation.Runs.{increment-Found}

length-next_live :
    {F K : Type 0} (alive : ℕ → Bool) (store : Store F K) (is : List ℕ)
    → length (next_live alive store is) ≤ length is
unfolding next_live
length-next_live alive store [] = ground arith
length-next_live alive store (i ∷ is) =
    let ih = length-next_live alive store is in
    elim (Bool-cases (is_some (callee alive (store i)))) [
      | inl e ↦ rw e (ground arith)
      | inr e ↦ rw e (ground arith)
    ]

module _ {F K : Type 0} where
  abbrev IsHeadLive : (ℕ → Bool) → Store F K → List ℕ → Type 0
  IsHeadLive alive store [] = Unit {0}
  IsHeadLive alive store (i ∷ is) = is_some (callee alive (store i)) ≡ true

  next_live-IsHeadLive :
      (alive : ℕ → Bool) (store : Store F K) (js : List ℕ)
      → IsHeadLive alive store (next_live alive store js)
  unfolding next_live
  next_live-IsHeadLive alive store [] = tt
  next_live-IsHeadLive alive store (j ∷ js) = elim (Bool-cases (is_some (callee alive (store j)))) [
    | inl e ↦ rw e e
    | inr e ↦ rw e (next_live-IsHeadLive alive store js)
  ]

  live_function :
      (alive : ℕ → Bool) (o : Option (ConnectionBody F K)) (f : F)
      → is_some (callee alive o) ≡ true
      → slot_function_of o ≡ some f
      → callee alive o ≡ some f
  live_function alive o f live here = elim (Bool-cases (is_callable alive o)) [
    | inl e ↦ rw e here
    | inr e ↦ absurd (ground arith)
  ]

module _ {F K R : Type 0} where
  -- The loop has ended: the uses of the slots are balanced but for the active one.
  pub record Ends (users : ℕ → ℕ) (store : Store F K) (o : Option (Bool × Option R × Iter F K R))
      : Type 0 where
    pub stopped : Bool
    pub last : Option R
    pub after : Iter F K R
    pub returns : o ≡ some (stopped, last, after)
    pub counted : AllCounted (λ j. users j + in_use after.cache.active_slot j) after.world.bodies
    pub there : Exists after.cache.active_slot after.world.bodies
    pub kept : Keeps store after.world.bodies

  -- What a round does once the slot has been called.
  abbrev round :
      Calls F K R
      → ℕ
      → Option R
      → Outcome R × Iter F K R
      → Bool
      → Option (Bool × Option R × Iter F K R)
  round calls fuel v d b = elim b [
    | true ↦ some (true, v, d.1)
    | false ↦ do s₁ ← increment d.1; last_loop calls fuel (next_value d.0 v) s₁
  ]

  last_loop-round :
      (calls : Calls F K R) (fuel : ℕ) (v : Option R) (i : ℕ) (is : List ℕ) (s : Iter F K R)
      → s.iter ≡ i ∷ is
      → last_loop calls (suc fuel) v s
        ≡ (dereference calls s >>= λ d. round calls fuel v d (stops d.0))
  unfolding last_loop
  last_loop-round calls fuel v i is s here = rw here refl

  -- One round, up to the exception and after it.
  loop_stops :
      (calls : Calls F K R) (fuel : ℕ) (v : Option R) (i : ℕ) (is : List ℕ) (s s' : Iter F K R)
      (o : Outcome R)
      → s.iter ≡ i ∷ is
      → dereference calls s ≡ some (o, s')
      → stops o ≡ true
      → last_loop calls (suc fuel) v s ≡ some (true, v, s')
  loop_stops calls fuel v i is s s' o here d h =
      last_loop-round calls fuel v i is s here
      ∙ ap (λ t. t >>= λ d. round calls fuel v d (stops d.0)) d
      ∙ ap (round calls fuel v (o, s')) h

  loop_goes_on :
      (calls : Calls F K R) (fuel : ℕ) (v : Option R) (i : ℕ) (is : List ℕ) (s s' s₁ : Iter F K R)
      (o : Outcome R)
      → s.iter ≡ i ∷ is
      → dereference calls s ≡ some (o, s')
      → stops o ≡ false
      → increment s' ≡ some s₁
      → last_loop calls (suc fuel) v s ≡ last_loop calls fuel (next_value o v) s₁
  loop_goes_on calls fuel v i is s s' s₁ o here d h m =
      last_loop-round calls fuel v i is s here
      ∙ ap (λ t. t >>= λ d. round calls fuel v d (stops d.0)) d
      ∙ ap (round calls fuel v (o, s')) h
      ∙ ap (λ t. t >>= λ s₁. last_loop calls fuel (next_value o v) s₁) m

  pub loop_ends :
      (calls : Calls F K R) (fuel : ℕ) (v : Option R) (s : Iter F K R)
      → s.iter ≡ []
      → last_loop calls (suc fuel) v s ≡ some (false, v, s)
  unfolding last_loop
  loop_ends calls fuel v s here = rw here refl

  pub last_loop-Ends :
      (calls : Calls F K R) (users : ℕ → ℕ) (fuel : ℕ) (v : Option R) (s : Iter F K R) (is : List ℕ)
      → Respects calls
      → ((j : ℕ) → users j + 2 < unsigned_mod)
      → Standing users s
      → s.cache.result ≡ none
      → s.iter ≡ is
      → length is < fuel
      → Ends users s.world.bodies (last_loop calls fuel v s)
  last_loop-Ends calls users zero v s is respects room st empty here enough = absurd (ground arith)
  last_loop-Ends calls users (suc fuel) v s [] respects room st empty here enough = record {
    stopped = false;
    last = v;
    after = s;
    returns = loop_ends calls fuel v s here;
    counted = rw st.active_here st.counted;
    there = subst (λ a. Exists a s.world.bodies) (sym (st.active_here ∙ ap first_of_rest here)) tt;
    kept = λ j b e. (b, e, refl);
  }
  last_loop-Ends calls users (suc fuel) v s (i ∷ is) respects room st empty here enough =
      let d = dereference-Called calls users i is s respects room st here empty in
      let o = (calls d.function s.world).0 in
      elim (Bool-cases (stops o)) [
        | inl h ↦ record {
          stopped = true;
          last = v;
          after = d.after;
          returns = loop_stops calls fuel v i is s d.after o here d.returns h;
          counted = d.searching.counted;
          there = d.searching.there;
          kept = d.kept;
        }
        | inr h ↦
            let m =
              increment-Found users i is d.after room d.searching (d.iter_left ∙ here)
                (d.callable_left ∙ st.callable_here ∙ here) d.stored in
            let shorter = length-next_live d.after.world.alive d.after.world.bodies is in
            let r =
              last_loop-Ends calls users fuel (next_value o v) m.after
                (next_live d.after.world.alive d.after.world.bodies is) respects room m.standing
                m.result_left m.found (ground arith) in
            record {
              stopped = r.stopped;
              last = r.last;
              after = r.after;
              returns =
                  loop_goes_on calls fuel v i is s d.after m.after o here d.returns h m.returns
                  ∙ r.returns;
              counted = r.counted;
              there = r.there;
              kept = Keeps-trans s.world.bodies d.after.world.bodies r.after.world.bodies d.kept (
                  Keeps-trans d.after.world.bodies m.after.world.bodies r.after.world.bodies
                    m.follows.keeps r.kept);
            }
      ]

  -- The loop has the outcome that is told.
  abbrev pub Tells : Option (Bool × Option R × Iter F K R) → Bool × Option R × View F → Type 0
  Tells o t = (s' : Iter F K R) × (o ≡ some (t.0, t.1, s')) × (view s'.world ≡ t.2)

  pub last_loop-Tells :
      (calls : Calls F K R) (acts : Acts F R) (users : ℕ → ℕ) (fuel : ℕ) (v : Option R)
      (s : Iter F K R) (is js : List ℕ)
      → Implements calls acts
      → Respects calls
      → ((j : ℕ) → users j + 2 < unsigned_mod)
      → Standing users s
      → s.cache.result ≡ none
      → s.iter ≡ is
      → length is < fuel
      → next_live s.world.alive s.world.bodies js ≡ is
      → Tells (last_loop calls fuel v s) (call_each acts js v (view s.world))
  last_loop-Tells calls acts users zero v s is js imp respects room st empty here enough live =
      absurd (ground arith)
  last_loop-Tells calls acts users (suc fuel) v s [] js imp respects room st empty here enough
        live =
      subst (Tells (last_loop calls (suc fuel) v s))
        (ap (λ l. call_each acts l v (view s.world)) (sym live)
          ∙ call_each-next_live acts js v s.world)
        (unfold call_each in (s, loop_ends calls fuel v s here, refl))
  last_loop-Tells calls acts users (suc fuel) v s (i ∷ is) js imp respects room st empty here enough
        live =
      let d = dereference-Called calls users i is s respects room st here empty in
      let o = (calls d.function s.world).0 in
      let w = (calls d.function s.world).1 in
      let told : call_each acts (i ∷ is) v (view s.world) ≡ call_each acts js v (view s.world) =
        ap (λ l. call_each acts l v (view s.world)) (sym live)
        ∙ call_each-next_live acts js v s.world in
      let seen : view s.world i ≡ some d.function =
        live_function s.world.alive (s.world.bodies i) d.function
          (subst (IsHeadLive s.world.alive s.world.bodies) live
            (next_live-IsHeadLive s.world.alive s.world.bodies js))
          d.function_here in
      let now : view d.after.world ≡ after_view i o (view w) = fun_ext d.sees in
      subst (Tells (last_loop calls (suc fuel) v s))
        (sym (call_each-run acts i is v (view s.world) d.function seen) ∙ told)
        (subst
          (λ x. Tells (last_loop calls (suc fuel) v s) (
            if stops x.0
            then (true, v, after_view i x.0 x.1)
            else call_each acts is (next_value x.0 v) (after_view i x.0 x.1)))
          {x = (o, view w)} {y = acts d.function (view s.world)}
          (ap (λ t. (t, view w)) (imp.outcome d.function s.world)
            ∙ ap (λ t. ((acts d.function (view s.world)).0, t)) (imp.effect d.function s.world))
          (elim (Bool-cases (stops o)) [
            | inl h ↦ rw h (d.after, loop_stops calls fuel v i is s d.after o here d.returns h, now)
            | inr h ↦
                let m =
                  increment-Found users i is d.after room d.searching (d.iter_left ∙ here)
                    (d.callable_left ∙ st.callable_here ∙ here) d.stored in
                let shorter = length-next_live d.after.world.alive d.after.world.bodies is in
                let again =
                  last_loop-Tells calls acts users fuel (next_value o v) m.after
                    (next_live d.after.world.alive d.after.world.bodies is) is imp respects room
                    m.standing m.result_left m.found (ground arith)
                    (ap (λ a. next_live a m.after.world.bodies is) m.follows.alive_left
                      ∙ next_live-Follows d.after.world.alive is d.after.world m.after.world
                          m.follows) in
                rw h (
                  subst
                    (λ t. Tells t (call_each acts is (next_value o v) (after_view i o (view w))))
                    (sym (
                      loop_goes_on calls fuel v i is s d.after m.after o here d.returns h
                        m.returns))
                    (subst
                      (λ t.
                        Tells (last_loop calls fuel (next_value o v) m.after)
                          (call_each acts is (next_value o v) t))
                      (view-Follows d.after.world m.after.world m.follows ∙ now) again))
          ]))
