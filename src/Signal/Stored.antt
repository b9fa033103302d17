-- ===== src/Signal/Stored.antt =====
-- The bodies of a signal's list, and what a call on one of them does to the store.
use signals.Base.{
  ℕ, ◌≡◌, refl, sym, subst, ◌∙◌, Bool, true, false, not, ◌&&◌, ◌||◌, Option, none, some, List, [],
  ◌∷◌, ◌==◌, arith, inl, inr, Bool-cases,
}
use signals.Groups.Containers.{Node}
use signals.Connection.{ConnectionBody}
use signals.Connection.Body.{IsCounted, slot_expired}
use signals.Connection.Handle.{Store, put_body, AllCounted}

abbrev pub member : ℕ → List (Node ℕ) → Bool
member j [] = false
member j (n ∷ ns) = n.value == j || member j ns

pub and_false : (b : Bool) → false ≡ (b && false)
and_false true = refl
and_false false = refl

module _ {F K : Type 0} where
  abbrev pub is_connected : Option (ConnectionBody F K) → Bool
  is_connected none = false
  is_connected (some b) = b.connected

  -- Connected, with a slot that has not expired.
  abbrev pub is_live : (ℕ → Bool) → Option (ConnectionBody F K) → Bool
  is_live alive none = false
  is_live alive (some b) = b.connected && not (slot_expired alive b.slot)

  -- Every node's body is in the store.
  abbrev pub Stored : List (Node ℕ) → Store F K → Type 0
  Stored ns bodies = (j : ℕ) → member j ns ≡ true → (b : ConnectionBody F K) × (bodies j ≡ some b)

  pub put_same :
      (i : ℕ) (b : ConnectionBody F K) (store : Store F K) → put_body i b store i ≡ some b
  put_same i b store = ground arith

  pub put_other :
      (i j : ℕ) (b : ConnectionBody F K) (store : Store F K)
      → (i == j) ≡ false
      → put_body i b store j ≡ store j
  put_other i j b store h = rw h

  pub put-AllCounted :
      (users : ℕ → ℕ) (i : ℕ) (b : ConnectionBody F K) (store : Store F K)
      → AllCounted users store
      → IsCounted (users i) b
      → AllCounted users (put_body i b store)
  put-AllCounted users i b store all c j b' e = elim (Bool-cases (i == j)) [
    | inl h ↦
        let p : i ≡ j = ground arith in
        let q : b ≡ b' = ground arith in
        subst (λ k. IsCounted (users k) b') p (subst (IsCounted (users i)) q c)
    | inr h ↦ all j b' (sym (put_other i j b store h) ∙ e)
  ]

  pub put-Stored :
      (ns : List (Node ℕ)) (i : ℕ) (b : ConnectionBody F K) (store : Store F K)
      → Stored ns store
      → Stored ns (put_body i b store)
  put-Stored ns i b store all j h = elim (Bool-cases (i == j)) [
    | inl e ↦ (b, rw e)
    | inr e ↦ (let p = all j h in (p.0, put_other i j b store e ∙ p.1))
  ]
