-- ===== src/Groups/Unique.antt =====
-- Nodes are told apart by their identities: what list operations do to lists of distinct nodes.
use signals.Base.{
  ℕ, suc, ◌≡◌, ◌<◌, refl, ap, false, List, [], ◌∷◌, ◌++◌, Option, none, some, ◌==◌, arith,
}
use signals.Groups.Containers.{Node, insert_before}
use signals.Groups.Segments.{Absent, Unique, Below}

module _ {V : Type 0} where
  pub Absent-append :
      (i : ℕ) (xs ys : List (Node V)) → Absent i xs → Absent i ys → Absent i (xs ++ ys)
  Absent-append i [] ys a b = b
  Absent-append i (x ∷ xs) ys a b = (a.0, Absent-append i xs ys a.1 b)

  pub Absent-left : (i : ℕ) (xs ys : List (Node V)) → Absent i (xs ++ ys) → Absent i xs
  Absent-left i [] ys a = tt
  Absent-left i (x ∷ xs) ys a = (a.0, Absent-left i xs ys a.1)

  pub Absent-right : (i : ℕ) (xs ys : List (Node V)) → Absent i (xs ++ ys) → Absent i ys
  Absent-right i [] ys a = a
  Absent-right i (x ∷ xs) ys a = Absent-right i xs ys a.1

  pub Unique_right : (xs ys : List (Node V)) → Unique (xs ++ ys) → Unique ys
  Unique_right [] ys u = u
  Unique_right (x ∷ xs) ys u = Unique_right xs ys u.1

  -- A node behind a prefix is not in the prefix.
  pub Unique-Absent : (xs ys : List (Node V)) (y : Node V) → Unique (xs ++ y ∷ ys) → Absent y.id xs
  Unique-Absent [] ys y u = tt
  Unique-Absent (x ∷ xs) ys y u =
      let h = (Absent-right x.id xs (y ∷ ys) u.0).0 in (ground arith, Unique-Absent xs ys y u.1)

  pub Below-Absent : (n : ℕ) (xs : List (Node V)) → Below n xs → Absent n xs
  Below-Absent n [] b = tt
  Below-Absent n (x ∷ xs) b = (ground arith, Below-Absent n xs b.1)

  pub Below-suc : (n : ℕ) (xs : List (Node V)) → Below n xs → Below (suc n) xs
  Below-suc n [] b = tt
  Below-suc n (x ∷ xs) b = (omega arith, Below-suc n xs b.1)

  abbrev pub AbsentAt : Option ℕ → List (Node V) → Type 0
  AbsentAt none xs = Unit {0}
  AbsentAt (some i) xs = Absent i xs

  pub insert_before-append :
      (it : Option ℕ) (n : Node V) (xs ys : List (Node V))
      → AbsentAt it xs
      → insert_before it n (xs ++ ys) ≡ xs ++ insert_before it n ys
  unfolding insert_before
  insert_before-append it n [] ys a = refl
  insert_before-append none n (x ∷ xs) ys a = ap (◌∷◌ x) (insert_before-append none n xs ys tt)
  insert_before-append (some i) n (x ∷ xs) ys a =
      ground (arith, insert_before-append (some i) n xs ys a.1)

  pub Absent-insert_before :
      (i : ℕ) (it : Option ℕ) (n : Node V) (xs : List (Node V))
      → (i == n.id) ≡ false
      → Absent i xs
      → Absent i (insert_before it n xs)
  unfolding insert_before
  Absent-insert_before i it n [] h a = (h, tt)
  Absent-insert_before i it n (x ∷ xs) h a = ground (arith, Absent-insert_before i it n xs h a.1)

  pub Unique-insert_before :
      (it : Option ℕ) (n : Node V) (xs : List (Node V))
      → Absent n.id xs
      → Unique xs
      → Unique (insert_before it n xs)
  unfolding insert_before
  Unique-insert_before it n [] a u = (tt, tt)
  Unique-insert_before it n (x ∷ xs) a u = ground (
    arith,
    Unique-insert_before it n xs a.1 u.1,
    Absent-insert_before x.id it n xs (ground arith) u.0,
  )

  pub Below-insert_before :
      (m : ℕ) (it : Option ℕ) (n : Node V) (xs : List (Node V))
      → n.id < m
      → Below m xs
      → Below m (insert_before it n xs)
  unfolding insert_before
  Below-insert_before m it n [] h b = (h, tt)
  Below-insert_before m it n (x ∷ xs) h b = ground (arith, Below-insert_before m it n xs h b.1)
