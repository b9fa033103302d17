-- ===== src/Signal/Picked.antt =====
-- disconnect( slot ): the slots that the argument matches, and no others.
use signals.Base.{
  ℕ, ◌≡◌, refl, sym, subst, ◌∙◌, Bool, true, false, not, ◌&&◌, ◌||◌, Option, none, some, List, [],
  ◌∷◌, ◌==◌, if◌then◌else◌, arith, inl, inr, Bool-cases, Option-cases,
}
use signals.Buffer.{◌>>=◌}
use signals.Slot.{Slot}
use signals.Groups.{GroupKey}
use signals.Groups.Containers.{Node}
use signals.Connection.{ConnectionBody, Held, hold, nolock_disconnect, nolock_nograb_connected}
use signals.Connection.Body.{IsCounted, nolock_disconnect-Releases}
use signals.Connection.Handle.{Store, put_body, AllCounted}
use signals.Signal.{SignalImpl, current_list}
use signals.Signal.Disconnect.{
  Contains, matches, put_held, disconnect_matching, disconnect_matching_each, do_disconnect,
}
use signals.Signal.Stored.{member, is_connected, Stored, put-AllCounted, put-Stored}

-- Whether there is a target, and it contains disconnect's argument.
abbrev pub answers_yes : Option Bool → Bool
answers_yes none = false
answers_yes (some b) = b

-- Whether disconnect's argument matches the slot of a body: itself, as an extended slot or as a signal.
abbrev pub matches_slot : {F : Type 0} → Contains F → Option (Slot F) → Bool
matches_slot c none = false
matches_slot c (some s) =
    c.contains s.slot_function
    || (answers_yes (c.bound_extended_contains s.slot_function)
        || answers_yes (c.weak_signal_contains s.slot_function))

abbrev pub matches_body : {F K : Type 0} → Contains F → Option (ConnectionBody F K) → Bool
matches_body c none = false
matches_body c (some b) = matches_slot c b.slot

and_not-false : (a l : Bool) → (a && not (l && false)) ≡ (a && true)
and_not-false a true = refl
and_not-false a false = refl

false_between : (a c : Bool) → ((a && false) && c) ≡ (a && false)
false_between true c = refl
false_between false c = refl

picks_true : (a m : Bool) → m ≡ true → (a && not m) ≡ false
picks_true true m h = rw h refl
picks_true false m h = refl

picks_false : (a m : Bool) → m ≡ false → a ≡ (a && not m)
picks_false true m h = rw h refl
picks_false false m h = refl

matches_any :
    {F : Type 0} (c : Contains F) (f : F)
    → matches c f ≡ (
        c.contains f
        || (answers_yes (c.bound_extended_contains f) || answers_yes (c.weak_signal_contains f)))
matches_any c f = ground arith

matched :
    {F : Type 0} (c : Contains F) {o : Option (Slot F)} {s : Slot F} {v : Bool}
    → o ≡ some s
    → matches c s.slot_function ≡ v
    → matches_slot c o ≡ v
matched c {s = s} there m = rw there (sym (matches_any c s.slot_function) ∙ m)

pick_next :
    {F K : Type 0} (c : Contains F) (i j : ℕ) (later : Bool) (b b' : ConnectionBody F K)
    (store : Store F K)
    → store i ≡ some b
    → b'.connected ≡ (b.connected && not (matches_slot c b.slot))
    → (matches_slot c b.slot ≡ false → b' ≡ b)
    → (is_connected (put_body i b' store j)
        && not (later && matches_body c (put_body i b' store j)))
      ≡ (is_connected (store j) && not ((i == j || later) && matches_body c (store j)))
pick_next c i j later b b' store e flag kept = elim (Bool-cases (i == j)) [
  | inr h ↦ rw h refl
  | inl h ↦
      let p : i ≡ j = ground arith in
      let q : store j ≡ some b = subst (λ k. store k ≡ some b) p e in
      elim (Bool-cases (matches_slot c b.slot)) [
        | inr x ↦ rw (h, q) (rw (kept x) (rw x (and_not-false b.connected later)))
        | inl x ↦
            rw (h, q)
              (rw flag (rw x (false_between b.connected (not (later && matches_slot c b'.slot)))))
      ]
]

module _ {F Group : Type 0} where
  abbrev picked :
      Contains F
      → Bool
      → Option (Slot F)
      → Held F (GroupKey Group)
      → Option (Held F (GroupKey Group))
  picked c on o h =
      let found = (do
        slot ← o
        if matches c slot.slot_function then nolock_disconnect h else some h) in
      if not on then some h else found

  picked-on :
      (c : Contains F) (on : Bool) (o : Option (Slot F)) (s : Slot F) (h : Held F (GroupKey Group))
      → on ≡ true
      → o ≡ some s
      → picked c on o h ≡ (if matches c s.slot_function then nolock_disconnect h else some h)
  picked-on c on o s h x y = rw x (rw y refl)

  picked-off :
      (c : Contains F) (on : Bool) (o : Option (Slot F)) (h : Held F (GroupKey Group))
      → on ≡ false
      → picked c on o h ≡ some h
  picked-off c on o h x = rw x refl

  disconnect_matching-picked :
      (c : Contains F) (h : Held F (GroupKey Group))
      → disconnect_matching c h ≡ picked c h.body.connected h.body.slot h
  unfolding disconnect_matching nolock_nograb_connected
  disconnect_matching-picked c h = refl

  disconnect_matching_lem :
      (users : ℕ) (c : Contains F) (b : ConnectionBody F (GroupKey Group))
      → IsCounted users b
      → (h : Held F (GroupKey Group)) × (disconnect_matching c (hold b) ≡ some h)
        × IsCounted users h.body
        × (h.body.connected ≡ (b.connected && not (matches_slot c b.slot)))
        × (matches_slot c b.slot ≡ false → h.body ≡ b)
  disconnect_matching_lem users c b n = elim (Bool-cases b.connected) [
    | inr off ↦ (
      hold b,
      disconnect_matching-picked c (hold b) ∙ picked-off c b.connected b.slot (hold b) off,
      n,
      rw off refl,
      λ _. refl,
    )
    | inl on ↦ elim (Option-cases b.slot) [
      | inl gone ↦ absurd (ground (arith, n.counted, n.present.0 gone))
      | inr (s, there) ↦
          let step =
            disconnect_matching-picked c (hold b)
            ∙ picked-on c b.connected b.slot s (hold b) on there in
          let d = nolock_disconnect-Releases users (hold b) n in
          elim (Bool-cases (matches c s.slot_function)) [
            | inl m ↦ (
              d.0.left,
              step ∙ rw m d.0.returns,
              d.0.keeps,
              d.1 ∙ sym (picks_true b.connected (matches_slot c b.slot) (matched c there m)),
              λ x. absurd (ground (arith, x, matched c there m)),
            )
            | inr m ↦ (
              hold b,
              step ∙ rw m refl,
              n,
              picks_false b.connected (matches_slot c b.slot) (matched c there m),
              λ _. refl,
            )
          ]
    ]
  ]

module _ {F Group C : Type 0} where
  -- Exactly the bodies of the nodes whose slots match have been disconnected.
  pub record Picks (users : ℕ → ℕ) (c : Contains F) (ns : List (Node ℕ)) (s : SignalImpl F Group C)
      (o : Option (SignalImpl F Group C)) : Type 0 where
    pub after : SignalImpl F Group C
    pub returns : o ≡ some after
    pub counted : AllCounted users after.bodies
    pub cut :
        (j : ℕ)
        → is_connected (after.bodies j)
          ≡ (is_connected (s.bodies j) && not (member j ns && matches_body c (s.bodies j)))
    pub lists_left : after.lists ≡ s.lists
    pub state_left : after.shared_state ≡ s.shared_state

  disconnect_matching_each-Picks :
      (users : ℕ → ℕ) (c : Contains F) (ns : List (Node ℕ)) (s : SignalImpl F Group C)
      → AllCounted users s.bodies
      → Stored ns s.bodies
      → Picks users c ns s (disconnect_matching_each c ns s)
  unfolding disconnect_matching_each
  disconnect_matching_each-Picks users c [] s all stored = record {
    after = s;
    returns = refl;
    counted = all;
    cut = λ j. ground arith;
    lists_left = refl;
    state_left = refl;
  }
  disconnect_matching_each-Picks users c (n ∷ ns) s all stored =
      let b = stored n.value (ground arith) in
      let d = disconnect_matching_lem (users n.value) c b.0 (all n.value b.0 b.1) in
      let r =
        disconnect_matching_each-Picks users c ns (put_held n.value d.0 s)
          (put-AllCounted users n.value d.0.body s.bodies all d.2)
          (put-Stored ns n.value d.0.body s.bodies (λ j h. stored j (ground arith))) in
      record {
        after = r.after;
        returns = rw b.1 (rw d.1 r.returns);
        counted = r.counted;
        cut = λ j. r.cut j ∙ pick_next c n.value j (member j ns) b.0 d.0.body s.bodies b.1 d.3 d.4;
        lists_left = r.lists_left;
        state_left = r.state_left;
      }

  -- Where all bodies are counted and those of the signal's list exist, disconnect( slot ) passes
  -- every assertion; afterwards a body is connected exactly if it was before and is not one of the
  -- list's whose slot the argument matches, itself, as an extended slot or as a signal; all bodies
  -- are counted for the same invocations, and the lists and the shared state are as before.
  pub do_disconnect-Picks :
      (users : ℕ → ℕ) (c : Contains F) (s : SignalImpl F Group C)
      → AllCounted users s.bodies
      → Stored (current_list s).list s.bodies
      → Picks users c (current_list s).list s (do_disconnect c s)
  unfolding do_disconnect
  do_disconnect-Picks users c s all stored =
      disconnect_matching_each-Picks users c (current_list s).list s all stored
