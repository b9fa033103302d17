-- ===== src/Invocation/Live.antt =====
-- The slots of a list that can be called, and what grabbing their tracked objects does to that.
use signals.Base.{
  ℕ, ◌≡◌, refl, ap, Bool, true, false, not, ◌&&◌, Option, none, some, List, [], ◌∷◌, if◌then◌else◌,
  arith, inl, inr, Bool-cases, Option-cases,
}
use signals.Slot.{Slot}
use signals.Connection.{ConnectionBody, nolock_nograb_blocked}
use signals.Connection.Body.{IsCounted, slot_expired}
use signals.Connection.Handle.{Store, put_body}
use signals.Invocation.{World, is_blocked}
use signals.Invocation.Callee.{callee, slot_function_of, Follows}
use signals.Invocation.Counting.{Exists}

abbrev pub is_some : {A : Type 0} → Option A → Bool
is_some none = false
is_some (some a) = true

no_call :
    {A : Type 0} (a c : Bool) (o o' : Option A)
    → (if a && false && c then o else none) ≡ (if a && false then o' else none)
no_call true c o o' = refl
no_call false c o o' = refl

module _ {F K : Type 0} where
  -- Every body of the list is in the store.
  abbrev pub StoredAll : List ℕ → Store F K → Type 0
  StoredAll [] store = Unit {0}
  StoredAll (i ∷ is) store = ((b : ConnectionBody F K) × (store i ≡ some b)) × StoredAll is store

  pub StoredAll-Follows :
      (alive : ℕ → Bool) (is : List ℕ) (w w' : World F K)
      → Follows alive w w'
      → StoredAll is w.bodies
      → StoredAll is w'.bodies
  StoredAll-Follows alive [] w w' f st = tt
  StoredAll-Follows alive (i ∷ is) w w' f (p, st) =
      ((let k = f.keeps i p.0 p.1 in (k.0, k.1)), StoredAll-Follows alive is w w' f st)

  -- The rest of the list from the first slot on that can be called.
  unfoldable pub next_live : (ℕ → Bool) → Store F K → List ℕ → List ℕ
  next_live alive store [] = []
  next_live alive store (i ∷ is) =
      if is_some (callee alive (store i)) then i ∷ is else next_live alive store is

  pub next_live-Follows :
      (alive : ℕ → Bool) (is : List ℕ) (w w' : World F K)
      → Follows alive w w'
      → next_live alive w'.bodies is ≡ next_live alive w.bodies is
  unfolding next_live
  next_live-Follows alive [] w w' f = refl
  next_live-Follows alive (i ∷ is) w w' f = rw (f.callees i, next_live-Follows alive is w w' f) refl

  pub StoredAll-next_live :
      (alive : ℕ → Bool) (is : List ℕ) (store : Store F K)
      → StoredAll is store
      → StoredAll (next_live alive store is) store
  unfolding next_live
  StoredAll-next_live alive [] store st = tt
  StoredAll-next_live alive (i ∷ is) store (p, st) =
      elim (Bool-cases (is_some (callee alive (store i)))) [
        | inl e ↦ rw e (p, st)
        | inr e ↦ rw e (StoredAll-next_live alive is store st)
      ]

  slot_present :
      (users : ℕ) (b : ConnectionBody F K)
      → IsCounted users b
      → b.connected ≡ true
      → (s : Slot F) × (b.slot ≡ some s)
  slot_present users b c on = elim (Option-cases b.slot) [
    | inl e ↦ absurd (ground (arith, c.counted, c.present.0 e))
    | inr p ↦ p
  ]

  -- After the tracked objects have been grabbed, the body is blocked exactly if there is nothing to
  -- call.
  pub grabbed-is_blocked :
      (users : ℕ) (alive : ℕ → Bool) (b h : ConnectionBody F K)
      → IsCounted users b
      → h.connected ≡ (b.connected && not (slot_expired alive b.slot))
      → h.blockers ≡ b.blockers
      → is_blocked (some h) ≡ not (is_some (callee alive (some b)))
  unfolding nolock_nograb_blocked
  grabbed-is_blocked users alive b h c flag blocks = elim (Bool-cases b.connected) [
    | inr off ↦ rw (flag, off) refl
    | inl on ↦ let p = slot_present users b c on in rw (flag, on, blocks, p.1) (ground arith)
  ]

  pub grabbed-callee :
      (alive : ℕ → Bool) (b h : ConnectionBody F K)
      → h.connected ≡ (b.connected && not (slot_expired alive b.slot))
      → (slot_expired alive b.slot ≡ false → h ≡ b)
      → callee alive (some h) ≡ callee alive (some b)
  grabbed-callee alive b h flag kept = elim (Bool-cases (slot_expired alive b.slot)) [
    | inr e ↦ ap (λ t. callee alive (some t)) (kept e)
    | inl e ↦
        rw (flag, e) (no_call b.connected _ (slot_function_of (some h)) (slot_function_of (some b)))
  ]

  pub put_at_self :
      (i : ℕ) (b : ConnectionBody F K) (store : Store F K) → put_body i b store i ≡ some b
  put_at_self i b store = ground arith

  pub callable-connected :
      (alive : ℕ → Bool) (b : ConnectionBody F K)
      → is_some (callee alive (some b)) ≡ true
      → (b.connected && not (slot_expired alive b.slot)) ≡ true
  callable-connected alive b h = elim (Bool-cases b.connected) [
    | inr e ↦ absurd (ground arith)
    | inl e ↦ elim (Bool-cases (slot_expired alive b.slot)) [
      | inl x ↦ absurd (ground arith)
      | inr x ↦ rw (e, x) refl
    ]
  ]

  pub Exists-Follows :
      (alive : ℕ → Bool) (o : Option ℕ) (w w' : World F K)
      → Follows alive w w'
      → Exists o w.bodies
      → Exists o w'.bodies
  Exists-Follows alive none w w' f x = tt
  Exists-Follows alive (some i) w w' f x = let k = f.keeps i x.0 x.1 in (k.0, k.1)
