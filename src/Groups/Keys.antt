-- ===== src/Groups/Keys.antt =====
-- What push_back and push_front do to the map of group keys.
use signals.Base.{
  ℕ, ◌≡◌, refl, ap, Bool, true, false, List, [], ◌∷◌, if◌then◌else◌, arith, get_elem?, inl, inr,
  Bool-cases,
}
use signals.Groups.{entry_equivalent, insert_absent}
use signals.Groups.Containers.{Node, Entry, lower_bound, upper_bound, erase_at, map_insert}
use signals.Groups.Segments.{Segment, index, Above, Sorted, append_to, prepend_to, StrictWeakOrder}

pub asym :
    {K : Type 0} {less : K → K → Bool}
    → StrictWeakOrder less
    → (a b : K) → less a b ≡ true
    → less b a ≡ false
asym o a b h = ground (arith, o.irreflexive a, o.transitive a b a h)

-- The map after an entry that a key's position lies behind.
module _ {K : Type 0} (less : K → K → Bool) where
  insert_absent-skip :
      (key : K) (it : ℕ) (e : Entry K) (m : List (Entry K))
      → less e.key key ≡ true
      → insert_absent less key it (e ∷ m) ≡ e ∷ insert_absent less key it m
  unfolding insert_absent lower_bound map_insert
  insert_absent-skip key it e m h = ground arith

  -- push_front's change of the map: the group's entry is replaced.
  abbrev pub replaced : K → ℕ → List (Entry K) → List (Entry K)
  replaced key it m = insert_absent less key it (
      if entry_equivalent less key (get_elem? m (lower_bound less key m))
      then erase_at (lower_bound less key m) m
      else m)

  replaced-skip :
      (key : K) (it : ℕ) (e : Entry K) (m : List (Entry K))
      → less e.key key ≡ true
      → replaced key it (e ∷ m) ≡ e ∷ replaced key it m
  unfolding lower_bound erase_at
  replaced-skip key it e m h =
      elim (Bool-cases (entry_equivalent less key (get_elem? m (lower_bound less key m)))) [
        | inl same ↦ rw (h, same) (insert_absent-skip key it e _ h)
        | inr other ↦ rw (h, other) (insert_absent-skip key it e m h)
      ]

module _ {K V : Type 0} (less : K → K → Bool) (o : StrictWeakOrder less) where
  -- The entry at the upper bound is of a greater key.
  pub upper-not_equivalent :
      (key : K) (segs : List (Segment K V))
      → entry_equivalent less key (get_elem? (index segs) (upper_bound less key (index segs)))
        ≡ false
  unfolding upper_bound entry_equivalent
  upper-not_equivalent key [] = refl
  upper-not_equivalent key (t ∷ segs) = ground (arith, upper-not_equivalent key segs)

  abbrev pub entry_of : Segment K V → Entry K
  entry_of t = record { key = t.key; item = t.first.id }

  pub index-append_to :
      (key : K) (n : Node V) (segs : List (Segment K V))
      → insert_absent less key n.id (index segs) ≡ index (append_to less key n segs)
  unfolding append_to
  index-append_to key n [] = unfold insert_absent lower_bound map_insert in refl
  index-append_to key n (t ∷ segs) = elim (Bool-cases (less t.key key)) [
    | inl later ↦
        rw (later, insert_absent-skip less key n.id (entry_of t) (index segs) later)
          (ap (◌∷◌ (entry_of t)) (index-append_to key n segs))
    | inr stop ↦ unfold insert_absent lower_bound map_insert in ground arith
  ]

  Above-append_to :
      (k key : K) (n : Node V) (segs : List (Segment K V))
      → less k key ≡ true
      → Above less k segs
      → Above less k (append_to less key n segs)
  unfolding append_to
  Above-append_to k key n [] h a = h
  Above-append_to k key n (t ∷ segs) h a = ground arith

  pub Sorted-append_to :
      (key : K) (n : Node V) (segs : List (Segment K V))
      → Sorted less segs
      → Sorted less (append_to less key n segs)
  unfolding append_to
  Sorted-append_to key n [] s = (tt, tt)
  Sorted-append_to key n (t ∷ segs) s = elim (Bool-cases (less t.key key)) [
    | inl later ↦
        rw later (Above-append_to t.key key n segs later s.0, Sorted-append_to key n segs s.1)
    | inr stop ↦ elim (Bool-cases (less key t.key)) [
      | inl before ↦ rw (stop, before) (before, s)
      | inr same ↦ rw (stop, same) s
    ]
  ]

  -- Above a key lies what is above an equivalent one.
  pub Above-equivalent :
      (key : K) (s : Segment K V) (segs : List (Segment K V))
      → less s.key key ≡ false
      → less key s.key ≡ false
      → Above less s.key segs
      → Above less key segs
  Above-equivalent key s [] h k a = tt
  Above-equivalent key s (t ∷ segs) h k a = o.splits s.key t.key key a h

  insert_absent-Above :
      (key : K) (it : ℕ) (segs : List (Segment K V))
      → Above less key segs
      → insert_absent less key it (index segs) ≡ record { key = key; item = it } ∷ index segs
  unfolding insert_absent lower_bound map_insert
  insert_absent-Above key it [] a = refl
  insert_absent-Above key it (t ∷ segs) a = ground (arith, asym o key t.key a)

  pub index-prepend_to :
      (key : K) (n : Node V) (segs : List (Segment K V))
      → Sorted less segs
      → replaced less key n.id (index segs) ≡ index (prepend_to less key n segs)
  unfolding prepend_to
  index-prepend_to key n [] s = unfold insert_absent lower_bound map_insert in refl
  index-prepend_to key n (t ∷ segs) s = elim (Bool-cases (less t.key key)) [
    | inl later ↦
        rw (later, replaced-skip less key n.id (entry_of t) (index segs) later)
          (ap (◌∷◌ (entry_of t)) (index-prepend_to key n segs s.1))
    | inr stop ↦ elim (Bool-cases (less key t.key)) [
      | inl before ↦ unfold insert_absent lower_bound map_insert in ground arith
      | inr same ↦
          unfold lower_bound entry_equivalent erase_at in
          simp (stop, same)
            (insert_absent-Above key n.id segs (Above-equivalent key t segs stop same s.0))
    ]
  ]

  Above-prepend_to :
      (k key : K) (n : Node V) (segs : List (Segment K V))
      → less k key ≡ true
      → Above less k segs
      → Above less k (prepend_to less key n segs)
  unfolding prepend_to
  Above-prepend_to k key n [] h a = h
  Above-prepend_to k key n (t ∷ segs) h a = ground arith

  pub Sorted-prepend_to :
      (key : K) (n : Node V) (segs : List (Segment K V))
      → Sorted less segs
      → Sorted less (prepend_to less key n segs)
  unfolding prepend_to
  Sorted-prepend_to key n [] s = (tt, tt)
  Sorted-prepend_to key n (t ∷ segs) s = elim (Bool-cases (less t.key key)) [
    | inl later ↦
        rw later (Above-prepend_to t.key key n segs later s.0, Sorted-prepend_to key n segs s.1)
    | inr stop ↦ elim (Bool-cases (less key t.key)) [
      | inl before ↦ rw (stop, before) (before, s)
      | inr same ↦ rw (stop, same) (Above-equivalent key t segs stop same s.0, s.1)
    ]
  ]
