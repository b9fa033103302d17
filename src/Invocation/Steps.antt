-- ===== src/Invocation/Steps.antt =====
-- Where the iterator stops: at the first slot of the rest of the list that can be called.
use signals.Base.{
  ℕ, ◌+◌, ◌%◌, ◌<◌, ◌≡◌, refl, sym, ap, subst, ◌∙◌, true, not, Option, none, some, List, [], ◌∷◌,
  ◌++◌, ◌==◌, if◌then◌else◌, arith, inl, inr, Bool-cases, length,
}
use signals.Buffer.{unsigned_mod}
use signals.Connection.{ConnectionBody, nolock_nograb_connected}
use signals.Connection.Body.{grab-Grabs}
use signals.Connection.Handle.{put_body, AllCounted}
use signals.Invocation.{
  World, Iter, first_of_rest, is_blocked, grab_next, next_callable, set_callable_iter,
}
use signals.Invocation.Live.{
  is_some, StoredAll, StoredAll-Follows, next_live, next_live-Follows, grabbed-is_blocked,
  grabbed-callee, put_at_self, callable-connected, Exists-Follows,
}
use signals.Invocation.Callee.{callee, Follows, Follows-trans, put-callee, put-Keeps}
use signals.Invocation.Counting.{in_use, Exists, Ready, InUse, set_active_slot-Takes, put-Counted}

length_zero : (is : List ℕ) → (length is == 0) ≡ true → is ≡ []
length_zero [] h = refl
length_zero (i ∷ is) h = absurd (ground arith)

module _ {F K : Type 0} where
  -- Before a search: the last slot is still in use.
  pub record Searching (users : ℕ → ℕ) (w : World F K) (active : Option ℕ) (callable : List ℕ)
      : Type 0 where
    pub counted : AllCounted (λ j. users j + in_use active j) w.bodies
    pub there : Exists active w.bodies
    pub here : active ≡ first_of_rest callable

module _ {F K R : Type 0} where
  -- One round of the loop, up to its test.
  record Grabbed (users : ℕ → ℕ) (i : ℕ) (s : Iter F K R) (o : Option (Iter F K R)) : Type 0 where
    pub after : Iter F K R
    pub returns : o ≡ some after
    pub counted : AllCounted users after.world.bodies
    pub follows : Follows s.world.alive s.world after.world
    pub blocked :
        is_blocked (after.world.bodies i) ≡ not (is_some (callee s.world.alive (s.world.bodies i)))
    pub ready :
        is_some (callee s.world.alive (s.world.bodies i)) ≡ true → Ready (some i) after.world.bodies
    pub iter_left : after.iter ≡ s.iter
    pub callable_left : after.callable_iter ≡ s.callable_iter
    pub active_left : after.cache.active_slot ≡ s.cache.active_slot
    pub result_left : after.cache.result ≡ s.cache.result

  grab_next-Grabbed :
      (users : ℕ → ℕ) (i : ℕ) (s : Iter F K R) (b : ConnectionBody F K)
      → AllCounted users s.world.bodies
      → s.world.bodies i ≡ some b
      → Grabbed users i s (grab_next i s)
  unfolding grab_next nolock_nograb_connected
  grab_next-Grabbed users i s b all e =
      let c = all i b e in
      let g = grab-Grabs (users i) s.world.alive b c in
      let same = put_at_self i g.left.body s.world.bodies in
      let on = g.left.body.connected in
      let k = s.cache.connected_slot_count in
      let d = s.cache.disconnected_slot_count in
      record {
        after = record s {
          world = record s.world { bodies = put_body i g.left.body s.world.bodies };
          cache = record s.cache {
            tracked_ptrs = g.locked;
            released = s.cache.released ++ g.left.garbage;
            connected_slot_count = if on then (k + 1) % unsigned_mod else k;
            disconnected_slot_count = if on then d else (d + 1) % unsigned_mod;
          };
        };
        returns = rw e (rw g.returns refl);
        counted = put-Counted users i g.left.body s.world.bodies (λ j x h q. all j x q) g.keeps;
        follows = record {
          keeps = λ j x q. put-Keeps i j b g.left.body x s.world.bodies e g.key_left q;
          callees = λ j.
              put-callee s.world.alive i j b g.left.body s.world.bodies e
                (grabbed-callee s.world.alive b g.left.body g.flag g.kept);
          alive_left = refl;
        };
        blocked =
            ap is_blocked same
            ∙ grabbed-is_blocked (users i) s.world.alive b g.left.body c g.flag g.blockers_left
            ∙ ap (λ t. not (is_some (callee s.world.alive t))) (sym e);
        ready = λ h. (
          g.left.body,
          same,
          g.flag
              ∙ callable-connected s.world.alive b
                  (subst (λ t. is_some (callee s.world.alive t) ≡ true) e h),
        );
        iter_left = refl;
        callable_left = refl;
        active_left = refl;
        result_left = refl;
      }

  -- The iterator stands at the slot that it has taken into use, and has not called it yet.
  pub record Standing (users : ℕ → ℕ) (s : Iter F K R) : Type 0 where
    pub counted : AllCounted (λ j. users j + in_use (first_of_rest s.iter) j) s.world.bodies
    pub held : InUse (first_of_rest s.iter) s.world.bodies
    pub stored : StoredAll s.iter s.world.bodies
    pub callable_here : s.callable_iter ≡ s.iter
    pub active_here : s.cache.active_slot ≡ first_of_rest s.iter

  -- The search has stopped at the target, with nothing else changed.
  pub record Found (users : ℕ → ℕ) (target : List ℕ) (w : World F K) (result : Option R)
      (o : Option (Iter F K R)) : Type 0 where
    pub after : Iter F K R
    pub returns : o ≡ some after
    pub standing : Standing users after
    pub found : after.iter ≡ target
    pub result_left : after.cache.result ≡ result
    pub follows : Follows w.alive w after.world

  set_callable_iter-Found :
      (users : ℕ → ℕ) (is : List ℕ) (s : Iter F K R)
      → ((j : ℕ) → users j + 2 < unsigned_mod)
      → Searching users s.world s.cache.active_slot s.callable_iter
      → s.iter ≡ is
      → Ready (first_of_rest is) s.world.bodies
      → StoredAll is s.world.bodies
      → Found users is s.world s.cache.result (set_callable_iter is s)
  unfolding set_callable_iter
  set_callable_iter-Found users is s room w here r st =
      let t =
        set_active_slot-Takes users (first_of_rest is) (record s { callable_iter = is }) room
          w.counted w.there r in
      let e : t.after.iter ≡ is = t.iter_left ∙ here in
      let f = t.follows s.world.alive in
      record {
        after = t.after;
        returns = t.returns;
        standing = record {
          counted = rw e t.counted;
          held = rw e t.held;
          stored = rw e (StoredAll-Follows s.world.alive is s.world t.after.world f st);
          callable_here = t.callable_left ∙ sym e;
          active_here = rw e t.active;
        };
        found = e;
        result_left = t.result_left;
        follows = f;
      }

  pub next_callable-Found :
      (users : ℕ → ℕ) (is : List ℕ) (s : Iter F K R)
      → ((j : ℕ) → users j + 2 < unsigned_mod)
      → Searching users s.world s.cache.active_slot s.callable_iter
      → StoredAll is s.world.bodies
      → Found users
          (next_live s.world.alive s.world.bodies is)
          s.world
          s.cache.result
          (next_callable is s)
  unfolding next_callable next_live
  next_callable-Found users [] s room w st = elim (Bool-cases (length s.callable_iter == 0)) [
    | inr more ↦
        rw more (set_callable_iter-Found users [] (record s { iter = [] }) room w refl tt tt)
    | inl done ↦
        let none_active : s.cache.active_slot ≡ none =
          w.here ∙ ap first_of_rest (length_zero s.callable_iter done) in
        rw done (record {
          after = record s { iter = [] };
          returns = refl;
          standing = record {
            counted =
                subst (λ a. AllCounted (λ j. users j + in_use a j) s.world.bodies) none_active
                  w.counted;
            held = tt;
            stored = tt;
            callable_here = length_zero s.callable_iter done;
            active_here = none_active;
          };
          found = refl;
          result_left = refl;
          follows = record {
            keeps = λ j b e. (b, e, refl);
            callees = λ j. refl;
            alive_left = refl;
          };
        })
  ]
  next_callable-Found users (i ∷ is) s room w (p, st) =
      let alive = s.world.alive in
      let g =
        grab_next-Grabbed (λ j. users j + in_use s.cache.active_slot j) i
          (record s { iter = i ∷ is }) p.0 w.counted p.1 in
      let w' : Searching users g.after.world g.after.cache.active_slot g.after.callable_iter =
        record {
          counted = rw g.active_left g.counted;
          there =
              rw g.active_left
                (Exists-Follows alive s.cache.active_slot s.world g.after.world g.follows w.there);
          here = g.active_left ∙ w.here ∙ ap first_of_rest (sym g.callable_left);
        } in
      elim (Bool-cases (is_some (callee alive (s.world.bodies i)))) [
        | inl live ↦
            let r =
              set_callable_iter-Found users (i ∷ is) g.after room w' g.iter_left (g.ready live)
                (StoredAll-Follows alive (i ∷ is) s.world g.after.world g.follows (p, st)) in
            record {
              after = r.after;
              returns = rw g.returns (rw g.blocked (rw live r.returns));
              standing = r.standing;
              found = rw live r.found;
              result_left = r.result_left ∙ g.result_left;
              follows =
                  Follows-trans alive s.world g.after.world r.after.world g.follows
                    (rw g.follows.alive_left at r.follows);
            }
        | inr dead ↦
            let r =
              next_callable-Found users is g.after room w'
                (StoredAll-Follows alive is s.world g.after.world g.follows st) in
            record {
              after = r.after;
              returns = rw g.returns (rw g.blocked (rw dead r.returns));
              standing = r.standing;
              found = rw dead (
                  r.found
                  ∙ ap (λ a. next_live a g.after.world.bodies is) g.follows.alive_left
                  ∙ next_live-Follows alive is s.world g.after.world g.follows);
              result_left = r.result_left ∙ g.result_left;
              follows =
                  Follows-trans alive s.world g.after.world r.after.world g.follows
                    (rw g.follows.alive_left at r.follows);
            }
      ]
