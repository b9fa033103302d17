-- ===== src/Signal/Consistent.antt =====
-- What a signal keeps between its operations: a grouped list, whose nodes' bodies are in the store,
-- counted, and with the key of the group that they stand in.
use signals.Base.{ℕ, Bool, Option, none, some, List}
use signals.Groups.{GroupKey, group_key_less}
use signals.Groups.Containers.{Node}
use signals.Groups.Segments.{Segment, Models}
use signals.Groups.Erase.{Present}
use signals.Connection.Handle.{AllCounted}
use signals.Signal.{SignalImpl, current_list}
use signals.Signal.Keyed.{Keyed}

-- The clean-up's iterator is at a node of the list, or at its end.
abbrev pub CursorIn : Option ℕ → List (Node ℕ) → Type 0
CursorIn none xs = Unit {0}
CursorIn (some it) xs = Present it xs

module _ {F Group C : Type 0} (cmp : Group → Group → Bool) where
  -- The invariant, with the groups that the list represents.
  pub record Consistent (users : ℕ → ℕ) (segs : List (Segment (GroupKey Group) ℕ))
      (s : SignalImpl F Group C) : Type 0 where
    pub models : Models (group_key_less cmp) (current_list s) segs
    pub counted : AllCounted users s.bodies
    pub keyed : Keyed cmp segs s.bodies
