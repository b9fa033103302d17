-- ===== src/Signal/Disconnected.antt =====
-- Disconnecting all slots, or those of a group.
use signals.Base.{
  ℕ, ◌≡◌, refl, ◌∙◌, Bool, false, not, ◌&&◌, ◌||◌, Option, some, List, [], ◌∷◌, ◌==◌, arith, inl,
  inr, Bool-cases,
}
use signals.Groups.Containers.{Node}
use signals.Connection.{ConnectionBody, hold, disconnect_body}
use signals.Connection.Body.{nolock_disconnect-Releases}
use signals.Connection.Handle.{Store, put_body, AllCounted}
use signals.Signal.{SignalImpl, current_list}
use signals.Signal.Disconnect.{put_held, disconnect_each, disconnect_all_slots}
use signals.Signal.Stored.{member, and_false, is_connected, Stored, put-AllCounted, put-Stored}

cut_next :
    {F K : Type 0} (i j : ℕ) (later : Bool) (b : ConnectionBody F K) (store : Store F K)
    → b.connected ≡ false
    → (is_connected (put_body i b store j) && not later)
      ≡ (is_connected (store j) && not (i == j || later))
cut_next i j later b store h = elim (Bool-cases (i == j)) [
  | inl e ↦ rw e (rw h (and_false (is_connected (store j))))
  | inr e ↦ rw e refl
]

module _ {F Group C : Type 0} where
  -- Exactly the bodies of the nodes have been disconnected; all bodies are counted as before.
  pub record Cuts (users : ℕ → ℕ) (ns : List (Node ℕ)) (s : SignalImpl F Group C)
      (o : Option (SignalImpl F Group C)) : Type 0 where
    pub after : SignalImpl F Group C
    pub returns : o ≡ some after
    pub counted : AllCounted users after.bodies
    pub cut :
        (j : ℕ) → is_connected (after.bodies j) ≡ (is_connected (s.bodies j) && not (member j ns))
    pub lists_left : after.lists ≡ s.lists
    pub state_left : after.shared_state ≡ s.shared_state

  pub disconnect_each-Cuts :
      (users : ℕ → ℕ) (ns : List (Node ℕ)) (s : SignalImpl F Group C)
      → AllCounted users s.bodies
      → Stored ns s.bodies
      → Cuts users ns s (disconnect_each ns s)
  unfolding disconnect_each
  disconnect_each-Cuts users [] s all stored = record {
    after = s;
    returns = refl;
    counted = all;
    cut = λ j. ground arith;
    lists_left = refl;
    state_left = refl;
  }
  disconnect_each-Cuts users (n ∷ ns) s all stored =
      let b = stored n.value (ground arith) in
      let d = nolock_disconnect-Releases (users n.value) (hold b.0) (all n.value b.0 b.1) in
      let s' = put_held n.value d.0.left s in
      let r =
        disconnect_each-Cuts users ns s'
          (put-AllCounted users n.value d.0.left.body s.bodies all d.0.keeps)
          (put-Stored ns n.value d.0.left.body s.bodies (λ j h. stored j (ground arith))) in
      record {
        after = r.after;
        returns = unfold disconnect_body in (rw b.1 (rw d.0.returns r.returns));
        counted = r.counted;
        cut = λ j. r.cut j ∙ cut_next n.value j (member j ns) d.0.left.body s.bodies d.1;
        lists_left = r.lists_left;
        state_left = r.state_left;
      }

  -- Where all bodies are counted and those of the signal's list exist, disconnect_all_slots passes
  -- every assertion; afterwards a body is connected exactly if it was before and is not in the
  -- list, all bodies are counted for the same invocations, and the lists and the shared state are
  -- as before.
  pub disconnect_all_slots-Cuts :
      (users : ℕ → ℕ) (s : SignalImpl F Group C)
      → AllCounted users s.bodies
      → Stored (current_list s).list s.bodies
      → Cuts users (current_list s).list s (disconnect_all_slots s)
  unfolding disconnect_all_slots
  disconnect_all_slots-Cuts users s all stored =
      disconnect_each-Cuts users (current_list s).list s all stored
