-- ===== src/Signal/Counted.antt =====
-- num_slots and empty count the live slots of the list.
use signals.Base.{
  ℕ, ◌+◌, ◌%◌, ◌<◌, ◌≤◌, ◌≡◌, refl, ap, subst, ◌∙◌, Bool, true, false, not, ◌&&◌, Option, some,
  List, [], ◌∷◌, ◌==◌, if◌then◌else◌, arith, inl, inr, Bool-cases, length,
}
use signals.Buffer.{size_mod}
use signals.Groups.{GroupKey}
use signals.Groups.Containers.{Node}
use signals.Connection.{ConnectionBody}
use signals.Connection.Body.{connected_body_lem, slot_expired}
use signals.Connection.Handle.{Store, put_body, AllCounted}
use signals.Signal.{SignalImpl, current_list}
use signals.Signal.Disconnect.{put_held}
use signals.Signal.Query.{ask, count_each, num_slots, none_connected, is_empty}
use signals.Signal.Stored.{is_live, Stored, put-AllCounted, put-Stored}

abbrev pub tally : (ℕ → Bool) → List (Node ℕ) → ℕ
tally f [] = 0
tally f (n ∷ ns) = (if f n.value then 1 else 0) + tally f ns

tally-same : (f g : ℕ → Bool) (ns : List (Node ℕ)) → ((j : ℕ) → f j ≡ g j) → tally f ns ≡ tally g ns
tally-same f g [] h = refl
tally-same f g (n ∷ ns) h =
    rw (h n.value) (ap (λ t. (if g n.value then 1 else 0) + t) (tally-same f g ns h))

tally-length : (f : ℕ → Bool) (ns : List (Node ℕ)) → tally f ns ≤ length ns
tally-length f [] = omega arith
tally-length f (n ∷ ns) = let h = tally-length f ns in ground arith

middle_false : (a c : Bool) → (a && false && c) ≡ (a && false)
middle_false true c = refl
middle_false false c = refl

next_count :
    (live : Bool) (count t u : ℕ)
    → count + 1 < size_mod
    → t ≡ u
    → ((if live then (count + 1) % size_mod else count) + t)
      ≡ (count + ((if live then 1 else 0) + u))
next_count true count t u room h = ground arith
next_count false count t u room h = ground arith

zero_test : (t u : ℕ) → t ≡ u → (t == 0) ≡ (0 + u == 0)
zero_test t u h = ground arith

zero_plus : (t : ℕ) → 0 + t ≡ t
zero_plus t = omega arith

live_put :
    {F K : Type 0} (alive : ℕ → Bool) (i j : ℕ) (b b' : ConnectionBody F K) (store : Store F K)
    → store i ≡ some b
    → b'.connected ≡ (b.connected && not (slot_expired alive b.slot))
    → (slot_expired alive b.slot ≡ false → b' ≡ b)
    → is_live alive (put_body i b' store j) ≡ is_live alive (store j)
live_put alive i j b b' store e flag kept = elim (Bool-cases (i == j)) [
  | inr h ↦ rw h refl
  | inl h ↦
      let p : i ≡ j = ground arith in
      let q : store j ≡ some b = subst (λ k. store k ≡ some b) p e in
      elim (Bool-cases (slot_expired alive b.slot)) [
        | inr x ↦ rw h (rw q (ap (λ t. is_live alive (some t)) (kept x)))
        | inl x ↦
            rw h
              (rw q (rw flag (rw x (middle_false b.connected (not (slot_expired alive b'.slot))))))
      ]
]

module _ {F Group C : Type 0} (alive : ℕ → Bool) where
  abbrev pub lives : SignalImpl F Group C → ℕ → Bool
  lives s j = is_live alive (s.bodies j)

  -- A query's step or its whole: it answers, and every body is as live as before, and counted.
  pub record Answers {A : Type 0} (users : ℕ → ℕ) (s : SignalImpl F Group C) (a : A)
      (o : Option (SignalImpl F Group C × A)) : Type 0 where
    pub after : SignalImpl F Group C
    pub returns : o ≡ some (after, a)
    pub counted : AllCounted users after.bodies
    pub live : (j : ℕ) → lives after j ≡ lives s j
    pub stored : (ns : List (Node ℕ)) → Stored ns s.bodies → Stored ns after.bodies

  ask-Answers :
      (users : ℕ → ℕ) (i : ℕ) (s : SignalImpl F Group C) (b : ConnectionBody F (GroupKey Group))
      → AllCounted users s.bodies
      → s.bodies i ≡ some b
      → Answers users s (lives s i) (ask alive i s)
  unfolding ask
  ask-Answers users i s b all e =
      let d = connected_body_lem (users i) alive b (all i b e) in
      record {
        after = put_held i d.0 s;
        returns = rw e (rw d.1 refl);
        counted = put-AllCounted users i d.0.body s.bodies all d.2;
        live = λ j. live_put alive i j b d.0.body s.bodies e d.3 d.4;
        stored = λ ns. put-Stored ns i d.0.body s.bodies;
      }

  -- The count goes up by the number of live bodies among the nodes.
  pub count_each-Answers :
      (users : ℕ → ℕ) (ns : List (Node ℕ)) (count : ℕ) (s : SignalImpl F Group C)
      → AllCounted users s.bodies
      → Stored ns s.bodies
      → count + length ns < size_mod
      → Answers users s (count + tally (lives s) ns) (count_each alive ns count s)
  unfolding count_each
  count_each-Answers users [] count s all stored room = record {
    after = s;
    returns = ground arith;
    counted = all;
    live = λ j. refl;
    stored = λ ns h. h;
  }
  count_each-Answers users (n ∷ ns) count s all stored room =
      let b = stored n.value (ground arith) in
      let a = ask-Answers users n.value s b.0 all b.1 in
      let next = if lives s n.value then (count + 1) % size_mod else count in
      let r =
        count_each-Answers users ns next a.after a.counted
          (a.stored ns (λ j h. stored j (ground arith))) (ground arith) in
      let same = tally-same (lives a.after) (lives s) ns a.live in
      record {
        after = r.after;
        returns = rw a.returns (
            r.returns
            ∙ ap (λ m. some (r.after, m))
                (next_count (lives s n.value) count (tally (lives a.after) ns) (tally (lives s) ns)
                  (ground arith) same));
        counted = r.counted;
        live = λ j. r.live j ∙ a.live j;
        stored = λ ms h. r.stored ms (a.stored ms h);
      }

  -- empty stops at the first live body, and answers whether there is none.
  pub none_connected-Answers :
      (users : ℕ → ℕ) (ns : List (Node ℕ)) (s : SignalImpl F Group C)
      → AllCounted users s.bodies
      → Stored ns s.bodies
      → Answers users s (tally (lives s) ns == 0) (none_connected alive ns s)
  unfolding none_connected
  none_connected-Answers users [] s all stored = record {
    after = s;
    returns = refl;
    counted = all;
    live = λ j. refl;
    stored = λ ns h. h;
  }
  none_connected-Answers users (n ∷ ns) s all stored =
      let b = stored n.value (ground arith) in
      let a = ask-Answers users n.value s b.0 all b.1 in
      let r =
        none_connected-Answers users ns a.after a.counted
          (a.stored ns (λ j h. stored j (ground arith))) in
      let same = tally-same (lives a.after) (lives s) ns a.live in
      elim (Bool-cases (lives s n.value)) [
        | inl e ↦ record {
          after = a.after;
          returns = rw a.returns (rw e (ground arith));
          counted = a.counted;
          live = a.live;
          stored = a.stored;
        }
        | inr e ↦ record {
          after = r.after;
          returns = rw a.returns (
              rw e (
                r.returns
                ∙ ap (λ m. some (r.after, m))
                    (zero_test (tally (lives a.after) ns) (tally (lives s) ns) same)));
          counted = r.counted;
          live = λ j. r.live j ∙ a.live j;
          stored = λ ms h. r.stored ms (a.stored ms h);
        }
      ]

  -- Where all bodies are counted, those of the signal's list exist and the list is shorter than
  -- 2^64, num_slots returns the number of the list's nodes whose body is connected and not
  -- expired, empty returns whether that number is 0, both pass every assertion, and no body
  -- becomes more or less live or loses its counting.
  pub num_slots-empty :
      (users : ℕ → ℕ) (s : SignalImpl F Group C)
      → AllCounted users s.bodies
      → Stored (current_list s).list s.bodies
      → length (current_list s).list < size_mod
      → Answers users s (tally (lives s) (current_list s).list) (num_slots alive s)
        × Answers users s (tally (lives s) (current_list s).list == 0) (is_empty alive s)
  unfolding num_slots is_empty
  num_slots-empty users s all stored room = (
    subst (λ m. Answers users s m (count_each alive (current_list s).list 0 s))
        (zero_plus (tally (lives s) (current_list s).list))
        (count_each-Answers users (current_list s).list 0 s all stored (omega arith)),
    none_connected-Answers users (current_list s).list s all stored,
  )
