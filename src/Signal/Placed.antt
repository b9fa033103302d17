-- ===== src/Signal/Placed.antt =====
-- A slot that is connected gets a place in its group; the other slots keep theirs.
use signals.Base.{ℕ, ◌≡◌, Bool, false, ◌⊎◌, some, List, [], ◌∷◌, ◌++◌, arith, inl, inr, Bool-cases}
use signals.Groups.{GroupKey, group_key_less}
use signals.Groups.Containers.{Node}
use signals.Groups.Segments.{
  Segment, flat, nodes_of, Models, StrictWeakOrder, append_to, prepend_to,
}
use signals.Groups.Erase.{Present}
use signals.Groups.Refine.{push_back-Models, push_front-Models}
use signals.Connection.{ConnectionBody}
use signals.Connection.Handle.{Store}
use signals.Signal.{ConnectionList}
use signals.Signal.Connect.{ConnectPosition, at_back, at_front, push_at}
use signals.Signal.Keyed.{Keyed, Belongs, AllBelong}

module _ {V : Type 0} where
  Present-left : (i : ℕ) (xs ys : List (Node V)) → Present i xs → Present i (xs ++ ys)
  Present-left i [] ys p = absurd p
  Present-left i (x ∷ xs) ys (inl e) = inl e
  Present-left i (x ∷ xs) ys (inr p) = inr (Present-left i xs ys p)

  Present-right : (i : ℕ) (xs ys : List (Node V)) → Present i ys → Present i (xs ++ ys)
  Present-right i [] ys p = p
  Present-right i (x ∷ xs) ys p = inr (Present-right i xs ys p)

  Present-split :
      (i : ℕ) (xs ys : List (Node V)) → Present i (xs ++ ys) → Present i xs ⊎ Present i ys
  Present-split i [] ys p = inr p
  Present-split i (x ∷ xs) ys (inl e) = inl (inl e)
  Present-split i (x ∷ xs) ys (inr p) = elim (Present-split i xs ys p) [
    | inl q ↦ inl (inr q)
    | inr q ↦ inr q
  ]

module _ {K V : Type 0} (less : K → K → Bool) where
  Present-append_to :
      (i : ℕ) (key : K) (n : Node V) (segs : List (Segment K V))
      → Present i (flat segs)
      → Present i (flat (append_to less key n segs))
  unfolding append_to
  Present-append_to i key n [] p = absurd p
  Present-append_to i key n (t ∷ segs) p = elim (Bool-cases (less t.key key)) [
    | inl later ↦ rw later (elim (Present-split i (nodes_of t) (flat segs) p) [
      | inl q ↦ Present-left i (nodes_of t) (flat (append_to less key n segs)) q
      | inr q ↦
          Present-right i (nodes_of t) (flat (append_to less key n segs))
            (Present-append_to i key n segs q)
    ])
    | inr stop ↦ elim (Bool-cases (less key t.key)) [
      | inl before ↦ rw (stop, before) (inr p)
      | inr same ↦
          rw (stop, same)
            (elim (Present-split i (nodes_of t) (flat segs) p) [
              | inl q ↦
                  Present-left i (nodes_of t ++ n ∷ []) (flat segs)
                    (Present-left i (nodes_of t) (n ∷ []) q)
              | inr q ↦ Present-right i (nodes_of t ++ n ∷ []) (flat segs) q
            ])
    ]
  ]

  Present-prepend_to :
      (i : ℕ) (key : K) (n : Node V) (segs : List (Segment K V))
      → Present i (flat segs)
      → Present i (flat (prepend_to less key n segs))
  unfolding prepend_to
  Present-prepend_to i key n [] p = absurd p
  Present-prepend_to i key n (t ∷ segs) p = elim (Bool-cases (less t.key key)) [
    | inl later ↦ rw later (elim (Present-split i (nodes_of t) (flat segs) p) [
      | inl q ↦ Present-left i (nodes_of t) (flat (prepend_to less key n segs)) q
      | inr q ↦
          Present-right i (nodes_of t) (flat (prepend_to less key n segs))
            (Present-prepend_to i key n segs q)
    ])
    | inr stop ↦ elim (Bool-cases (less key t.key)) [
      | inl before ↦ rw (stop, before) (inr p)
      | inr same ↦ rw (stop, same) (inr p)
    ]
  ]

  -- Where a new slot goes.
  abbrev pub place : ConnectPosition → K → Node V → List (Segment K V) → List (Segment K V)
  place at_back key n segs = append_to less key n segs
  place at_front key n segs = prepend_to less key n segs

  pub Present-place :
      (position : ConnectPosition) (i : ℕ) (key : K) (n : Node V) (segs : List (Segment K V))
      → Present i (flat segs)
      → Present i (flat (place position key n segs))
  Present-place at_back i key n segs p = Present-append_to i key n segs p
  Present-place at_front i key n segs p = Present-prepend_to i key n segs p

module _ {Group : Type 0} (cmp : Group → Group → Bool) (o : StrictWeakOrder cmp) where
  pub push_at-Models :
      (position : ConnectPosition) (key : GroupKey Group) (value : ℕ) (g : ConnectionList Group)
      (segs : List (Segment (GroupKey Group) ℕ))
      → Models (group_key_less cmp) g segs
      → Models
          (group_key_less cmp)
          (push_at cmp position key value g)
          (place (group_key_less cmp) position key (record { id = g.next_id; value = value }) segs)
  unfolding push_at
  push_at-Models at_back key value g segs m = push_back-Models cmp o g segs key value m
  push_at-Models at_front key value g segs m = push_front-Models cmp o g segs key value m

module _ {Group : Type 0} (cmp : Group → Group → Bool)
    (o : StrictWeakOrder (group_key_less cmp)) where
  equivalent :
      (a b c : GroupKey Group)
      → group_key_less cmp a b ≡ false
      → group_key_less cmp b a ≡ false
      → group_key_less cmp b c ≡ false
      → group_key_less cmp a c ≡ false
  equivalent a b c h k l = ground (arith, o.splits a c b)

  equivalent_back :
      (a b c : GroupKey Group)
      → group_key_less cmp a b ≡ false
      → group_key_less cmp b a ≡ false
      → group_key_less cmp c b ≡ false
      → group_key_less cmp c a ≡ false
  equivalent_back a b c h k l = ground (arith, o.splits c a b)

module _ {F Group : Type 0} (cmp : Group → Group → Bool)
    (o : StrictWeakOrder (group_key_less cmp)) where
  abbrev pub Owns : GroupKey Group → Store F (GroupKey Group) → Node ℕ → Type 0
  Owns key store n =
      (b : ConnectionBody F (GroupKey Group)) × (store n.value ≡ some b) × (b.group_key ≡ key)

  own_group :
      (key : GroupKey Group) (store : Store F (GroupKey Group)) (n : Node ℕ)
      → Owns key store n
      → Belongs cmp key store n
  own_group key store n (b, e, same) =
      (b, e, rw same (o.irreflexive key), rw same (o.irreflexive key))

  AllBelong-append :
      (key : GroupKey Group) (store : Store F (GroupKey Group)) (xs ys : List (Node ℕ))
      → AllBelong cmp key store xs
      → AllBelong cmp key store ys
      → AllBelong cmp key store (xs ++ ys)
  AllBelong-append key store [] ys a b = b
  AllBelong-append key store (x ∷ xs) ys a b = (a.0, AllBelong-append key store xs ys a.1 b)

  AllBelong-equivalent :
      (key k : GroupKey Group) (store : Store F (GroupKey Group)) (xs : List (Node ℕ))
      → group_key_less cmp key k ≡ false
      → group_key_less cmp k key ≡ false
      → AllBelong cmp k store xs
      → AllBelong cmp key store xs
  AllBelong-equivalent key k store [] h j a = tt
  AllBelong-equivalent key k store (x ∷ xs) h j ((b, e, above, below), a) = (
    (
      b,
      e,
      equivalent cmp o key k b.group_key h j above,
      equivalent_back cmp o key k b.group_key h j below,
    ),
    AllBelong-equivalent key k store xs h j a,
  )

  Keyed-append_to :
      (key : GroupKey Group) (n : Node ℕ) (segs : List (Segment (GroupKey Group) ℕ))
      (store : Store F (GroupKey Group))
      → Belongs cmp key store n
      → Keyed cmp segs store
      → Keyed cmp (append_to (group_key_less cmp) key n segs) store
  unfolding append_to
  Keyed-append_to key n [] store b k = ((b, tt), tt)
  Keyed-append_to key n (t ∷ segs) store b k = elim (Bool-cases (group_key_less cmp t.key key)) [
    | inl later ↦ rw later (k.0, Keyed-append_to key n segs store b k.1)
    | inr stop ↦ elim (Bool-cases (group_key_less cmp key t.key)) [
      | inl before ↦ rw (stop, before) ((b, tt), k)
      | inr same ↦
          rw (stop, same)
            (
              (
                k.0.0,
                AllBelong-append t.key store t.rest (n ∷ []) k.0.1
                    (AllBelong-equivalent t.key key store (n ∷ []) stop same (b, tt)),
              ),
              k.1,
            )
    ]
  ]

  Keyed-prepend_to :
      (key : GroupKey Group) (n : Node ℕ) (segs : List (Segment (GroupKey Group) ℕ))
      (store : Store F (GroupKey Group))
      → Belongs cmp key store n
      → Keyed cmp segs store
      → Keyed cmp (prepend_to (group_key_less cmp) key n segs) store
  unfolding prepend_to
  Keyed-prepend_to key n [] store b k = ((b, tt), tt)
  Keyed-prepend_to key n (t ∷ segs) store b k = elim (Bool-cases (group_key_less cmp t.key key)) [
    | inl later ↦ rw later (k.0, Keyed-prepend_to key n segs store b k.1)
    | inr stop ↦ elim (Bool-cases (group_key_less cmp key t.key)) [
      | inl before ↦ rw (stop, before) ((b, tt), k)
      | inr same ↦
          rw (stop, same)
            ((b, AllBelong-equivalent key t.key store (nodes_of t) same stop k.0), k.1)
    ]
  ]

  pub Keyed-place :
      (position : ConnectPosition) (key : GroupKey Group) (n : Node ℕ)
      (segs : List (Segment (GroupKey Group) ℕ)) (store : Store F (GroupKey Group))
      → Owns key store n
      → Keyed cmp segs store
      → Keyed cmp (place (group_key_less cmp) position key n segs) store
  Keyed-place at_back key n segs store w k =
      Keyed-append_to key n segs store (own_group key store n w) k
  Keyed-place at_front key n segs store w k =
      Keyed-prepend_to key n segs store (own_group key store n w) k
