-- ===== src/Invocation/Abstract.antt =====
-- A call of a signal told without iterators: the slots of the list run one after the other, as long
-- as they can be called when their turn comes.
use signals.Base.{
  fun_ext, ℕ, ◌≡◌, refl, ap, ◌∙◌, Bool, true, false, Option, none, some, if◌then◌else◌, List, [],
  ◌∷◌, inl, inr, Option-cases,
}
use signals.Invocation.{World, Outcome, returned, slot_expired, other_exception}
use signals.Invocation.Combiner.{Calls, next_value, stops}
use signals.Invocation.Callee.{callee, Follows}
use signals.Invocation.Called.{View, view, after_view}
use signals.Invocation.Live.{next_live}

-- Slot functions told by what they return and by what can be called after them.
abbrev pub Acts : Type 0 → Type 0 → Type 0
Acts F R = F → View F → Outcome R × View F

module _ {F R : Type 0} where
  -- The turn of one slot, and what follows it.
  unfoldable turn :
      Acts F R
      → ℕ
      → (Option R → View F → Bool × Option R × View F)
      → Option R
      → View F
      → Option F
      → Bool × Option R × View F
  turn acts i rest v w none = rest v w
  turn acts i rest v w (some f) =
      let w' = after_view i (acts f w).0 (acts f w).1 in
      elim (acts f w).0 [
        | returned r ↦ rest (some r) w'
        | slot_expired ↦ rest v w'
        | other_exception ↦ (true, v, w')
      ]

  -- The last value and whether an exception ended the call, and what can be called afterwards.
  unfoldable pub call_each : Acts F R → List ℕ → Option R → View F → Bool × Option R × View F
  unfolding turn
  call_each acts [] v w = (false, v, w)
  call_each acts (i ∷ is) v w = turn acts i (λ v' w'. call_each acts is v' w') v w (w i)

  call_each-skip :
      (acts : Acts F R) (i : ℕ) (is : List ℕ) (v : Option R) (w : View F)
      → w i ≡ none
      → call_each acts (i ∷ is) v w ≡ call_each acts is v w
  unfolding call_each
  call_each-skip acts i is v w e = ap (turn acts i (λ v' w'. call_each acts is v' w') v w) e

  -- The loop's flag and value are what the outcome says.
  turned :
      (o : Outcome R) (w : View F) (rest : Option R → View F → Bool × Option R × View F)
      (v : Option R)
      → elim o [
        | returned r ↦ rest (some r) w
        | slot_expired ↦ rest v w
        | other_exception ↦ (true, v, w)
      ]
        ≡ (if stops o then (true, v, w) else rest (next_value o v) w)
  turned (returned r) w rest v = refl
  turned slot_expired w rest v = refl
  turned other_exception w rest v = refl

  pub call_each-run :
      (acts : Acts F R) (i : ℕ) (is : List ℕ) (v : Option R) (w : View F) (f : F)
      → w i ≡ some f
      → call_each acts (i ∷ is) v w ≡ (
          if stops (acts f w).0
          then (true, v, after_view i (acts f w).0 (acts f w).1)
          else call_each acts is
              (next_value (acts f w).0 v)
              (after_view i (acts f w).0 (acts f w).1))
  unfolding call_each
  call_each-run acts i is v w f e =
      ap (turn acts i (λ v' w'. call_each acts is v' w') v w) e
      ∙ turned (acts f w).0 (after_view i (acts f w).0 (acts f w).1)
          (λ v' w'. call_each acts is v' w') v

module _ {F K R : Type 0} where
  -- The slot functions do to a world what their telling says.
  pub record Implements (calls : Calls F K R) (acts : Acts F R) : Type 0 where
    pub outcome : (f : F) (w : World F K) → (calls f w).0 ≡ (acts f (view w)).0
    pub effect : (f : F) (w : World F K) → view (calls f w).1 ≡ (acts f (view w)).1

module _ {F K : Type 0} where
  pub view-Follows : (w w' : World F K) → Follows w.alive w w' → view w' ≡ view w
  view-Follows w w' f = fun_ext (λ j. ap (λ a. callee a (w'.bodies j)) f.alive_left ∙ f.callees j)

  -- The slots that cannot be called make no difference.
  pub call_each-next_live :
      {R : Type 0} (acts : Acts F R) (is : List ℕ) (v : Option R) (w : World F K)
      → call_each acts (next_live w.alive w.bodies is) v (view w) ≡ call_each acts is v (view w)
  unfolding next_live
  call_each-next_live acts [] v w = refl
  call_each-next_live acts (i ∷ is) v w = elim (Option-cases (callee w.alive (w.bodies i))) [
    | inl e ↦ rw (call_each-skip acts i is v (view w) e) (rw e (call_each-next_live acts is v w))
    | inr (f, e) ↦ rw e refl
  ]
