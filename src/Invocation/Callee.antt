-- ===== src/Invocation/Callee.antt =====
-- Which slot of a body a call would run, and the steps of the iterator that leave this as it is.
use signals.Base.{
  ℕ, ◌≡◌, refl, ap, ◌∙◌, Bool, true, false, not, ◌&&◌, Option, none, some, ◌==◌, ltb, if◌then◌else◌,
  arith, inl, inr, Bool-cases, subst, sym,
}
use signals.Slot.{Slot}
use signals.Connection.{ConnectionBody}
use signals.Connection.Body.{slot_expired}
use signals.Connection.Handle.{Store, put_body}
use signals.Invocation.{World}

abbrev pub function_of : {F : Type 0} → Option (Slot F) → Option F
function_of none = none
function_of (some s) = some s.slot_function

module _ {F K : Type 0} where
  -- The slot is connected, has not expired and is not blocked.
  abbrev pub is_callable : (ℕ → Bool) → Option (ConnectionBody F K) → Bool
  is_callable alive none = false
  is_callable alive (some b) =
      b.connected && (not (slot_expired alive b.slot) && not (ltb 0 b.blockers))

  abbrev pub slot_function_of : Option (ConnectionBody F K) → Option F
  slot_function_of none = none
  slot_function_of (some b) = function_of b.slot

  -- The function that a call runs.
  abbrev pub callee : (ℕ → Bool) → Option (ConnectionBody F K) → Option F
  callee alive o = if is_callable alive o then slot_function_of o else none

  pub callee_same :
      (alive : ℕ → Bool) (b b' : ConnectionBody F K)
      → b'.connected ≡ b.connected
      → b'.blockers ≡ b.blockers
      → (b.connected ≡ true → b'.slot ≡ b.slot)
      → callee alive (some b') ≡ callee alive (some b)
  callee_same alive b b' on blocks slot = elim (Bool-cases b.connected) [
    | inl e ↦ rw (on, blocks, slot e) refl
    | inr e ↦ rw (on, e) refl
  ]

  pub put-callee :
      (alive : ℕ → Bool) (i j : ℕ) (b b' : ConnectionBody F K) (store : Store F K)
      → store i ≡ some b
      → callee alive (some b') ≡ callee alive (some b)
      → callee alive (put_body i b' store j) ≡ callee alive (store j)
  put-callee alive i j b b' store e same = elim (Bool-cases (i == j)) [
    | inr h ↦ rw h refl
    | inl h ↦
        let p : i ≡ j = ground arith in
        let q : store j ≡ some b = subst (λ k. store k ≡ some b) p e in
        rw h (same ∙ ap (callee alive) (sym q))
  ]

  -- The body has a successor with its key.
  abbrev pub Kept : ConnectionBody F K → Option (ConnectionBody F K) → Type 0
  Kept b o = (b' : ConnectionBody F K) × (o ≡ some b') × (b'.group_key ≡ b.group_key)

  pub put-Keeps :
      (i j : ℕ) (a b c : ConnectionBody F K) (store : Store F K)
      → store i ≡ some a
      → b.group_key ≡ a.group_key
      → store j ≡ some c
      → Kept c (put_body i b store j)
  put-Keeps i j a b c store here key e = elim (Bool-cases (i == j)) [
    | inl h ↦
        let p : i ≡ j = ground arith in
        let same : a ≡ c = ground arith in (b, rw h refl, key ∙ ap (λ t. t.group_key) same)
    | inr h ↦ (c, rw h e, refl)
  ]

  -- No body is lost, and none changes its key.
  abbrev pub Keeps : Store F K → Store F K → Type 0
  Keeps store store' = (j : ℕ) (b : ConnectionBody F K) → store j ≡ some b → Kept b (store' j)

  pub Keeps-trans : (r s t : Store F K) → Keeps r s → Keeps s t → Keeps r t
  Keeps-trans r s t k l j b e = let p = k j b e in let q = l j p.0 p.1 in (q.0, q.1, q.2 ∙ p.2)

module _ {F K : Type 0} where
  -- No body is lost, and each has the same function to run.
  pub record Follows (alive : ℕ → Bool) (w w' : World F K) : Type 0 where
    pub keeps : Keeps w.bodies w'.bodies
    pub callees : (j : ℕ) → callee alive (w'.bodies j) ≡ callee alive (w.bodies j)
    pub alive_left : w'.alive ≡ w.alive

  pub Follows-trans :
      (alive : ℕ → Bool) (u v w : World F K)
      → Follows alive u v
      → Follows alive v w
      → Follows alive u w
  Follows-trans alive u v w f g = record {
    keeps = Keeps-trans u.bodies v.bodies w.bodies f.keeps g.keeps;
    callees = λ j. g.callees j ∙ f.callees j;
    alive_left = g.alive_left ∙ f.alive_left;
  }
