-- ===== src/Invocation/Called.antt =====
-- The call of the slot that the iterator stands at, and what a slot function may do to the world.
use signals.Base.{
  ℕ, ◌+◌, ◌<◌, ◌≡◌, refl, sym, ap, subst, ◌∙◌, Option, none, some, List, [], ◌∷◌, ◌++◌, ◌==◌,
  if◌then◌else◌, arith, inl, inr, Bool-cases, Option-cases,
}
use signals.Buffer.{unsigned_mod}
use signals.Connection.{ConnectionBody, Held, hold, nolock_disconnect}
use signals.Connection.Body.{nolock_disconnect-Releases}
use signals.Connection.Handle.{put_body, AllCounted}
use signals.Invocation.{
  World, Iter, Outcome, returned, slot_expired, other_exception, first_of_rest, on_body,
}
use signals.Invocation.Combiner.{Calls, after_call, invoke, dereference_at, dereference}
use signals.Invocation.Callee.{callee, slot_function_of, Keeps, Keeps-trans, put-Keeps}
use signals.Invocation.Counting.{in_use, Exists, InUse, put-Counted}
use signals.Invocation.Live.{StoredAll}
use signals.Invocation.Steps.{Standing, Searching}

-- The function that a call would run, of each body.
abbrev pub View : Type 0 → Type 0
View F = ℕ → Option F

module _ {F K : Type 0} where
  abbrev pub view : World F K → View F
  view w j = callee w.alive (w.bodies j)

module _ {F K : Type 0} where
  StoredAll-kept :
      (is : List ℕ) (w w' : World F K)
      → Keeps w.bodies w'.bodies
      → StoredAll is w.bodies
      → StoredAll is w'.bodies
  StoredAll-kept [] w w' k st = tt
  StoredAll-kept (i ∷ is) w w' k (p, st) =
      ((let q = k i p.0 p.1 in (q.0, q.1)), StoredAll-kept is w w' k st)

module _ {F : Type 0} where
  -- A slot that throws expired_slot is disconnected.
  abbrev pub after_view : {R : Type 0} → ℕ → Outcome R → View F → View F
  after_view i (returned r) v = v
  after_view i slot_expired v = λ j. if i == j then none else v j
  after_view i other_exception v = v

module _ {F K R : Type 0} where
  -- Slot functions that keep every body and the counting of the bodies.
  pub record Respects (calls : Calls F K R) : Type 0 where
    pub counts :
        (users : ℕ → ℕ) (f : F) (w : World F K)
        → ((j : ℕ) → users j + 1 < unsigned_mod)
        → AllCounted users w.bodies
        → AllCounted users (calls f w).1.bodies
    pub bodies_kept : (f : F) (w : World F K) → Keeps w.bodies (calls f w).1.bodies

  -- What the call leaves: the iterator has not moved.
  pub record Called (users : ℕ → ℕ) (i : ℕ) (is : List ℕ) (s : Iter F K R) (calls : Calls F K R)
      (o : Option (Outcome R × Iter F K R)) : Type 0 where
    pub function : F
    pub function_here : slot_function_of (s.world.bodies i) ≡ some function
    pub after : Iter F K R
    pub returns : o ≡ some ((calls function s.world).0, after)
    pub searching : Searching users after.world after.cache.active_slot after.callable_iter
    pub stored : StoredAll is after.world.bodies
    pub iter_left : after.iter ≡ s.iter
    pub callable_left : after.callable_iter ≡ s.callable_iter
    pub kept : Keeps s.world.bodies after.world.bodies
    pub sees :
        (j : ℕ)
        → view after.world j
          ≡ after_view i (calls function s.world).0 (view (calls function s.world).1) j

module _ {F K R : Type 0} where
  -- The slot has been called, and the exception has not been looked at.
  record Back (users : ℕ → ℕ) (i : ℕ) (is : List ℕ) (s : Iter F K R) : Type 0 where
    pub counted : AllCounted (λ j. users j + in_use (some i) j) s.world.bodies
    pub there : Exists (some i) s.world.bodies
    pub active : s.cache.active_slot ≡ some i
    pub callable : s.callable_iter ≡ i ∷ is
    pub stored : StoredAll is s.world.bodies

  Back-Searching :
      (users : ℕ → ℕ) (i : ℕ) (is : List ℕ) (s : Iter F K R)
      → Back users i is s
      → Searching users s.world s.cache.active_slot s.callable_iter
  Back-Searching users i is s b = record {
    counted = rw b.active b.counted;
    there = rw b.active b.there;
    here = b.active ∙ ap first_of_rest (sym b.callable);
  }

  on_body_lem :
      (f : Held F K → Option (Held F K)) (i : ℕ) (s : Iter F K R) (b : ConnectionBody F K)
      (h : Held F K)
      → s.world.bodies i ≡ some b
      → f (hold b) ≡ some h
      → on_body f i s
        ≡ some (record s {
          world = record s.world { bodies = put_body i h.body s.world.bodies };
          cache = record s.cache { released = s.cache.released ++ h.garbage };
        })
  unfolding on_body
  on_body_lem f i s b h e r = rw e (rw r refl)

  -- What follows the call.
  record Handled (users : ℕ → ℕ) (i : ℕ) (is : List ℕ) (s : Iter F K R) (out : Outcome R)
      (o : Option (Outcome R × Iter F K R)) : Type 0 where
    pub after : Iter F K R
    pub returns : o ≡ some (out, after)
    pub back : Back users i is after
    pub iter_left : after.iter ≡ s.iter
    pub callable_left : after.callable_iter ≡ s.callable_iter
    pub kept : Keeps s.world.bodies after.world.bodies
    pub sees : (j : ℕ) → view after.world j ≡ after_view i out (view s.world) j

  after_call-Handled :
      (calls : Calls F K R) (users : ℕ → ℕ) (i : ℕ) (is : List ℕ) (out : Outcome R) (s : Iter F K R)
      → Back users i is s
      → Handled users i is s out (after_call calls i out s)
  unfolding after_call
  after_call-Handled calls users i is (returned r) s b = record {
    after = record s { cache = record s.cache { result = some r } };
    returns = refl;
    back = record {
      counted = b.counted;
      there = b.there;
      active = b.active;
      callable = b.callable;
      stored = b.stored;
    };
    iter_left = refl;
    callable_left = refl;
    kept = λ j b e. (b, e, refl);
    sees = λ j. refl;
  }
  after_call-Handled calls users i is other_exception s b = record {
    after = s;
    returns = refl;
    back = b;
    iter_left = refl;
    callable_left = refl;
    kept = λ j b e. (b, e, refl);
    sees = λ j. refl;
  }
  after_call-Handled calls users i is slot_expired s b =
      let c = b.counted i b.there.0 b.there.1 in
      let d = nolock_disconnect-Releases (users i + in_use (some i) i) (hold b.there.0) c in
      let w' : World F K = record s.world { bodies = put_body i d.0.left.body s.world.bodies } in
      let kept : Keeps s.world.bodies w'.bodies =
        λ j x q. put-Keeps i j b.there.0 d.0.left.body x s.world.bodies b.there.1 d.0.key_left q in
      record {
        after = record s {
          world = w';
          cache = record s.cache { released = s.cache.released ++ d.0.left.garbage };
        };
        returns =
            rw (on_body_lem nolock_disconnect i s b.there.0 d.0.left b.there.1 d.0.returns) refl;
        back = record {
          counted =
              put-Counted (λ j. users j + in_use (some i) j) i d.0.left.body s.world.bodies
                (λ j x h q. b.counted j x q) d.0.keeps;
          there = (let q = kept i b.there.0 b.there.1 in (q.0, q.1));
          active = b.active;
          callable = b.callable;
          stored = StoredAll-kept is s.world w' kept b.stored;
        };
        iter_left = refl;
        callable_left = refl;
        kept = kept;
        sees = λ j. elim (Bool-cases (i == j)) [ inl h ↦ rw h (rw d.1 refl) | inr h ↦ rw h refl ];
      }

  abbrev called_in : World F K → Iter F K R → Iter F K R
  called_in w s = record s { world = w }

  invoke-Called :
      (calls : Calls F K R) (users : ℕ → ℕ) (i : ℕ) (is : List ℕ) (s : Iter F K R)
      → Respects calls
      → ((j : ℕ) → users j + 2 < unsigned_mod)
      → Standing users s
      → s.iter ≡ i ∷ is
      → Called users i is s calls (invoke calls i s)
  unfolding invoke
  invoke-Called calls users i is s respects room st here =
      let held : InUse (some i) s.world.bodies =
        subst (λ l. InUse (first_of_rest l) s.world.bodies) here st.held in
      elim (Option-cases held.0.slot) [
        | inl gone ↦ absurd (held.3 gone)
        | inr (slot, e) ↦
            let f = slot.slot_function in
            let w' = (calls f s.world).1 in
            let all : AllCounted (λ j. users j + in_use (some i) j) s.world.bodies =
              subst (λ l. AllCounted (λ j. users j + in_use (first_of_rest l) j) s.world.bodies)
                here st.counted in
            let stored : StoredAll (i ∷ is) w'.bodies =
              StoredAll-kept (i ∷ is) s.world w' (respects.bodies_kept f s.world)
                (subst (λ l. StoredAll l s.world.bodies) here st.stored) in
            let h =
              after_call-Handled calls users i is (calls f s.world).0 (called_in w' s) (record {
                counted =
                    respects.counts (λ j. users j + in_use (some i) j) f s.world
                      (λ j. (let r = room j in ground arith)) all;
                there = stored.0;
                active = st.active_here ∙ ap first_of_rest here;
                callable = st.callable_here ∙ here;
                stored = stored.1;
              }) in
            record {
              function = f;
              function_here = rw held.1 (rw e refl);
              after = h.after;
              returns = rw held.1 (rw e h.returns);
              searching = Back-Searching users i is h.after h.back;
              stored = h.back.stored;
              iter_left = h.iter_left;
              callable_left = h.callable_left;
              kept =
                  Keeps-trans s.world.bodies w'.bodies h.after.world.bodies
                    (respects.bodies_kept f s.world) h.kept;
              sees = h.sees;
            }
      ]

  -- An iterator that has not called its slot yet calls it.
  pub dereference-Called :
      (calls : Calls F K R) (users : ℕ → ℕ) (i : ℕ) (is : List ℕ) (s : Iter F K R)
      → Respects calls
      → ((j : ℕ) → users j + 2 < unsigned_mod)
      → Standing users s
      → s.iter ≡ i ∷ is
      → s.cache.result ≡ none
      → Called users i is s calls (dereference calls s)
  unfolding dereference dereference_at
  dereference-Called calls users i is s respects room st here empty =
      subst (λ o. Called users i is s calls (dereference_at calls o (first_of_rest s.iter) s))
        (sym empty)
        (subst (λ l. Called users i is s calls (dereference_at calls none (first_of_rest l) s))
          (sym here) (invoke-Called calls users i is s respects room st here))
