-- ===== src/Signal/Keyed.antt =====
-- The bodies of a signal's list are in the store, each with the key of the group that its node stands
-- in.
use signals.Base.{
  ℕ, suc, ◌+◌, ◌≡◌, refl, sym, ap, subst, ◌∙◌, Bool, true, false, some, List, [], ◌∷◌, ◌++◌, ◌==◌,
  length, arith, inl, inr, Bool-cases,
}
use signals.Groups.{GroupKey, group_key_less}
use signals.Groups.Containers.{Node, erase_node}
use signals.Groups.Segments.{Segment, flat, nodes_of, Above, Sorted, StrictWeakOrder}
use signals.Groups.Erase.{Present, without_node, drop_first, InGroup}
use signals.Groups.Duplicate.{copy_nodes}
use signals.Groups.Copied.{renumber}
use signals.Connection.{ConnectionBody}
use signals.Connection.Handle.{Store, put_body}

module _ {F Group : Type 0} (cmp : Group → Group → Bool) where
  -- The body is there, and its key is equivalent to the group's.
  abbrev pub Belongs : GroupKey Group → Store F (GroupKey Group) → Node ℕ → Type 0
  Belongs key store n =
      (b : ConnectionBody F (GroupKey Group)) × (store n.value ≡ some b)
      × (group_key_less cmp key b.group_key ≡ false)
      × (group_key_less cmp b.group_key key ≡ false)

  abbrev pub AllBelong : GroupKey Group → Store F (GroupKey Group) → List (Node ℕ) → Type 0
  AllBelong key store [] = Unit {0}
  AllBelong key store (n ∷ ns) = Belongs key store n × AllBelong key store ns

  abbrev pub Keyed : List (Segment (GroupKey Group) ℕ) → Store F (GroupKey Group) → Type 0
  Keyed [] store = Unit {0}
  Keyed (t ∷ segs) store = AllBelong t.key store (nodes_of t) × Keyed segs store

  -- The body is there, and its key is that of the group in which the node stands.
  abbrev pub KeyedNode :
      List (Segment (GroupKey Group) ℕ) → Store F (GroupKey Group) → Node ℕ → Type 0
  KeyedNode segs store n =
      (b : ConnectionBody F (GroupKey Group)) × (store n.value ≡ some b)
      × InGroup (group_key_less cmp) b.group_key n.id segs

  abbrev AllKeyed :
      List (Segment (GroupKey Group) ℕ) → Store F (GroupKey Group) → List (Node ℕ) → Type 0
  AllKeyed segs store [] = Unit {0}
  AllKeyed segs store (n ∷ ns) = KeyedNode segs store n × AllKeyed segs store ns

  AllKeyed-append :
      (segs : List (Segment (GroupKey Group) ℕ)) (store : Store F (GroupKey Group))
      (xs ys : List (Node ℕ))
      → AllKeyed segs store xs
      → AllKeyed segs store ys
      → AllKeyed segs store (xs ++ ys)
  AllKeyed-append segs store [] ys k l = l
  AllKeyed-append segs store (x ∷ xs) ys k l = (k.0, AllKeyed-append segs store xs ys k.1 l)

  AllKeyed-right :
      (segs : List (Segment (GroupKey Group) ℕ)) (store : Store F (GroupKey Group))
      (xs ys : List (Node ℕ))
      → AllKeyed segs store (xs ++ ys)
      → AllKeyed segs store ys
  AllKeyed-right segs store [] ys k = k
  AllKeyed-right segs store (x ∷ xs) ys k = AllKeyed-right segs store xs ys k.1

module _ {F Group : Type 0} (cmp : Group → Group → Bool)
    (o : StrictWeakOrder (group_key_less cmp)) where
  in_first :
      (t : Segment (GroupKey Group) ℕ) (segs : List (Segment (GroupKey Group) ℕ))
      (store : Store F (GroupKey Group)) (xs : List (Node ℕ))
      → ((n : Node ℕ) → Present n.id xs → Present n.id (nodes_of t))
      → AllBelong cmp t.key store xs
      → AllKeyed cmp (t ∷ segs) store xs
  in_first t segs store [] within k = tt
  in_first t segs store (x ∷ xs) within ((b, e, above, below), k) = (
    (b, e, inr (above, below, within x (inl (ground arith)))),
    in_first t segs store xs (λ n p. within n (inr p)) k,
  )

  abbrev AllGreater : GroupKey Group → Store F (GroupKey Group) → List (Node ℕ) → Type 0
  AllGreater key store [] = Unit {0}
  AllGreater key store (n ∷ ns) =
      ((b : ConnectionBody F (GroupKey Group))
        → store n.value ≡ some b
        → group_key_less cmp key b.group_key ≡ true)
      × AllGreater key store ns

  -- The nodes of the later groups have greater keys.
  greater-append :
      (key k : GroupKey Group) (store : Store F (GroupKey Group)) (xs ys : List (Node ℕ))
      → group_key_less cmp key k ≡ true
      → AllBelong cmp k store xs
      → AllGreater key store ys
      → AllGreater key store (xs ++ ys)
  greater-append key k store [] ys h a g = g
  greater-append key k store (x ∷ xs) ys h ((b, e, above, below), a) g = (
    (λ c q.
        let same : b ≡ c = ground arith in
        subst (λ t. group_key_less cmp key t.group_key ≡ true) same
          (ground (arith, o.splits key k b.group_key h))),
    greater-append key k store xs ys h a g,
  )

  all_greater :
      (key : GroupKey Group) (segs : List (Segment (GroupKey Group) ℕ))
      (store : Store F (GroupKey Group))
      → Above (group_key_less cmp) key segs
      → Sorted (group_key_less cmp) segs
      → Keyed cmp segs store
      → AllGreater key store (flat segs)
  all_greater key [] store a s k = tt
  all_greater key (t ∷ segs) store a s k =
      greater-append key t.key store (nodes_of t) (flat segs) a k.0
        (all_greater key segs store (above_later key t segs a s.0) s.1 k.1)
    where
      above_later :
          (key : GroupKey Group) (t : Segment (GroupKey Group) ℕ)
          (segs : List (Segment (GroupKey Group) ℕ))
          → group_key_less cmp key t.key ≡ true
          → Above (group_key_less cmp) t.key segs
          → Above (group_key_less cmp) key segs
      above_later key t [] a b = tt
      above_later key t (u ∷ segs) a b = o.transitive key t.key u.key a b

  in_later :
      (t : Segment (GroupKey Group) ℕ) (segs : List (Segment (GroupKey Group) ℕ))
      (store : Store F (GroupKey Group)) (xs : List (Node ℕ))
      → AllGreater t.key store xs
      → AllKeyed cmp segs store xs
      → AllKeyed cmp (t ∷ segs) store xs
  in_later t segs store [] g k = tt
  in_later t segs store (x ∷ xs) g ((b, e, i), k) =
      ((b, e, inl (g.0 b e, i)), in_later t segs store xs g.1 k)

  all_keyed :
      (segs : List (Segment (GroupKey Group) ℕ)) (store : Store F (GroupKey Group))
      → Sorted (group_key_less cmp) segs
      → Keyed cmp segs store
      → AllKeyed cmp segs store (flat segs)
  all_keyed [] store s k = tt
  all_keyed (t ∷ segs) store s k =
      AllKeyed-append cmp (t ∷ segs) store (nodes_of t) (flat segs)
        (in_first t segs store (nodes_of t) (λ n p. p) k.0)
        (in_later t segs store (flat segs) (all_greater t.key segs store s.0 s.1 k.1)
          (all_keyed segs store s.1 k.1))

  pub keyed_node :
      (segs : List (Segment (GroupKey Group) ℕ)) (store : Store F (GroupKey Group))
      (pre : List (Node ℕ)) (n : Node ℕ) (ns : List (Node ℕ))
      → Sorted (group_key_less cmp) segs
      → Keyed cmp segs store
      → flat segs ≡ pre ++ n ∷ ns
      → KeyedNode cmp segs store n
  keyed_node segs store pre n ns s k e =
      (AllKeyed-right cmp segs store pre (n ∷ ns)
        (subst (AllKeyed cmp segs store) e (all_keyed segs store s k))).0

module _ {F Group : Type 0} (cmp : Group → Group → Bool) where
  AllBelong-kept :
      (key : GroupKey Group) (store store' : Store F (GroupKey Group)) (xs : List (Node ℕ))
      → ((j : ℕ) (b : ConnectionBody F (GroupKey Group))
          → store j ≡ some b
          → (b' : ConnectionBody F (GroupKey Group)) × (store' j ≡ some b')
            × (b'.group_key ≡ b.group_key))
      → AllBelong cmp key store xs
      → AllBelong cmp key store' xs
  AllBelong-kept key store store' [] kept a = tt
  AllBelong-kept key store store' (x ∷ xs) kept ((b, e, above, below), a) =
      let k = kept x.value b e in
      (
        (
          k.0,
          k.1,
          subst (λ t. group_key_less cmp key t ≡ false) (sym k.2) above,
          subst (λ t. group_key_less cmp t key ≡ false) (sym k.2) below,
        ),
        AllBelong-kept key store store' xs kept a,
      )

  -- Where every body keeps its key, so does every node.
  pub Keyed-kept :
      (segs : List (Segment (GroupKey Group) ℕ)) (store store' : Store F (GroupKey Group))
      → ((j : ℕ) (b : ConnectionBody F (GroupKey Group))
          → store j ≡ some b
          → (b' : ConnectionBody F (GroupKey Group)) × (store' j ≡ some b')
            × (b'.group_key ≡ b.group_key))
      → Keyed cmp segs store
      → Keyed cmp segs store'
  Keyed-kept [] store store' kept k = tt
  Keyed-kept (t ∷ segs) store store' kept k = (
    AllBelong-kept t.key store store' (nodes_of t) kept k.0,
    Keyed-kept segs store store' kept k.1,
  )

  pub put-Keyed :
      (segs : List (Segment (GroupKey Group) ℕ)) (store : Store F (GroupKey Group)) (i : ℕ)
      (b b' : ConnectionBody F (GroupKey Group))
      → store i ≡ some b
      → b'.group_key ≡ b.group_key
      → Keyed cmp segs store
      → Keyed cmp segs (put_body i b' store)
  put-Keyed segs store i b b' e same k =
      Keyed-kept segs store (put_body i b' store)
        (λ j c q. elim (Bool-cases (i == j)) [
          | inl h ↦
              let where_i : i ≡ j = ground arith in
              let p : b ≡ c = ground arith in (b', rw h refl, same ∙ ap (λ t. t.group_key) p)
          | inr h ↦ (c, rw h q, refl)
        ])
        k

  AllBelong-erase_node :
      (key : GroupKey Group) (store : Store F (GroupKey Group)) (it : ℕ) (xs : List (Node ℕ))
      → AllBelong cmp key store xs
      → AllBelong cmp key store (erase_node it xs)
  unfolding erase_node
  AllBelong-erase_node key store it [] a = tt
  AllBelong-erase_node key store it (x ∷ xs) a = elim (Bool-cases (it == x.id)) [
    | inl e ↦ rw e a.1
    | inr e ↦ rw e (a.0, AllBelong-erase_node key store it xs a.1)
  ]

  Keyed-drop_first :
      (key : GroupKey Group) (segs : List (Segment (GroupKey Group) ℕ))
      (store : Store F (GroupKey Group)) (xs : List (Node ℕ))
      → AllBelong cmp key store xs
      → Keyed cmp segs store
      → Keyed cmp (drop_first (group_key_less cmp) key xs segs) store
  Keyed-drop_first key segs store [] a k = k
  Keyed-drop_first key segs store (x ∷ xs) a k = (a, k)

  pub Keyed-without_node :
      (key : GroupKey Group) (it : ℕ) (segs : List (Segment (GroupKey Group) ℕ))
      (store : Store F (GroupKey Group))
      → Keyed cmp segs store
      → Keyed cmp (without_node (group_key_less cmp) key it segs) store
  unfolding without_node
  Keyed-without_node key it [] store k = tt
  Keyed-without_node key it (t ∷ segs) store k = elim (Bool-cases (group_key_less cmp t.key key)) [
    | inl later ↦ rw later (k.0, Keyed-without_node key it segs store k.1)
    | inr stop ↦ elim (Bool-cases (it == t.first.id)) [
      | inl first ↦ rw (stop, first) (Keyed-drop_first t.key segs store t.rest k.0.1 k.1)
      | inr inner ↦
          rw (stop, inner) ((k.0.0, AllBelong-erase_node t.key store it t.rest k.0.1), k.1)
    ]
  ]

  AllBelong-copy_nodes :
      (key : GroupKey Group) (store : Store F (GroupKey Group)) (m : ℕ) (xs : List (Node ℕ))
      → AllBelong cmp key store xs
      → AllBelong cmp key store (copy_nodes m xs)
  unfolding copy_nodes
  AllBelong-copy_nodes key store m [] a = tt
  AllBelong-copy_nodes key store m (x ∷ xs) a = (a.0, AllBelong-copy_nodes key store (suc m) xs a.1)

  pub Keyed-renumber :
      (m : ℕ) (segs : List (Segment (GroupKey Group) ℕ)) (store : Store F (GroupKey Group))
      → Keyed cmp segs store
      → Keyed cmp (renumber m segs) store
  unfolding renumber
  Keyed-renumber m [] store k = tt
  Keyed-renumber m (t ∷ segs) store k = (
    (k.0.0, AllBelong-copy_nodes t.key store (suc m) t.rest k.0.1),
    Keyed-renumber (m + length (nodes_of t)) segs store k.1,
  )
