-- ===== src/Signal/Sweep.antt =====
-- What the loop of a clean-up is to leave of a list, and its rounds.
use signals.Base.{
  ℕ, suc, ◌≡◌, refl, ap, ◌∙◌, Bool, true, false, ◌||◌, Option, some, List, [], ◌∷◌, ◌++◌, ◌==◌, ltb,
  if◌then◌else◌,
}
use signals.Buffer.{◌>>=◌}
use signals.Groups.{GroupKey, group_key_less, erase}
use signals.Groups.Containers.{Node}
use signals.Groups.Segments.{Segment}
use signals.Connection.{Held, nolock_nograb_connected}
use signals.Signal.{SignalImpl, current_list, set_current_list}
use signals.Signal.Cleanup.{check_body, cleanup_loop}
use signals.Signal.Unmoved.{stays, Unmoved}
use signals.Signal.Consistent.{Consistent, CursorIn}

-- The first `count` nodes without those that do not stay, and the others; 0 stands for all.
unfoldable pub sweep : (ℕ → Bool) → ℕ → ℕ → List (Node ℕ) → List (Node ℕ)
sweep stays count i [] = []
sweep stays count i (n ∷ ns) =
    if count == 0 || ltb i count
    then (if stays n.value then n ∷ sweep stays count (suc i) ns else sweep stays count (suc i) ns)
    else n ∷ ns

pub sweep_stop :
    (stays : ℕ → Bool) (count i : ℕ) (n : Node ℕ) (ns : List (Node ℕ))
    → (count == 0 || ltb i count) ≡ false
    → sweep stays count i (n ∷ ns) ≡ n ∷ ns
unfolding sweep
sweep_stop stays count i n ns h = rw h refl

pub sweep_keep :
    (stays : ℕ → Bool) (count i : ℕ) (n : Node ℕ) (ns : List (Node ℕ))
    → (count == 0 || ltb i count) ≡ true
    → stays n.value ≡ true
    → sweep stays count i (n ∷ ns) ≡ n ∷ sweep stays count (suc i) ns
unfolding sweep
sweep_keep stays count i n ns h on = rw (h, on) refl

pub sweep_drop :
    (stays : ℕ → Bool) (count i : ℕ) (n : Node ℕ) (ns : List (Node ℕ))
    → (count == 0 || ltb i count) ≡ true
    → stays n.value ≡ false
    → sweep stays count i (n ∷ ns) ≡ sweep stays count (suc i) ns
unfolding sweep
sweep_drop stays count i n ns h off = rw (h, off) refl

module _ {F Group C : Type 0} (cmp : Group → Group → Bool) (alive : ℕ → Bool) where
  -- What the loop leaves.
  pub record Sweeps (users : ℕ → ℕ) (grab : Bool) (count i : ℕ) (pre ns : List (Node ℕ))
      (s : SignalImpl F Group C) (o : Option (SignalImpl F Group C × Option ℕ)) : Type 0 where
    pub after : SignalImpl F Group C
    pub cursor : Option ℕ
    pub returns : o ≡ some (after, cursor)
    pub segs : List (Segment (GroupKey Group) ℕ)
    pub consistent : Consistent cmp users segs after
    pub swept : (current_list after).list ≡ pre ++ sweep (stays grab alive s.bodies) count i ns
    pub cursor_in : CursorIn cursor (current_list after).list
    pub unmoved : Unmoved grab alive s after
    pub lists_left :
        (a : ℕ) → (s.shared_state.connection_bodies == a) ≡ false → after.lists a ≡ s.lists a

  abbrev visit :
      Bool
      → ℕ
      → ℕ
      → Node ℕ
      → List (Node ℕ)
      → SignalImpl F Group C × Held F (GroupKey Group)
      → Bool
      → Option (SignalImpl F Group C × Option ℕ)
  visit grab count i n ns c on = elim on [
    | true ↦ cleanup_loop cmp alive grab count (suc i) ns c.0
    | false ↦ do
      e ← erase (group_key_less cmp) (current_list c.0) c.1.body.group_key n.id
      cleanup_loop cmp alive grab count (suc i) ns (set_current_list e.0 c.0)
  ]

  abbrev test :
      Bool
      → ℕ
      → ℕ
      → Node ℕ
      → List (Node ℕ)
      → SignalImpl F Group C
      → Bool
      → Option (SignalImpl F Group C × Option ℕ)
  test grab count i n ns s more = elim more [
    | false ↦ some (s, some n.id)
    | true ↦ do
      c ← check_body cmp alive grab n.value s
      visit grab count i n ns c c.1.body.connected
  ]

  pub loop_stop :
      (grab : Bool) (count i : ℕ) (n : Node ℕ) (ns : List (Node ℕ)) (s : SignalImpl F Group C)
      → (count == 0 || ltb i count) ≡ false
      → cleanup_loop cmp alive grab count i (n ∷ ns) s ≡ some (s, some n.id)
  unfolding cleanup_loop nolock_nograb_connected
  loop_stop grab count i n ns s h = ap (test grab count i n ns s) h

  loop_enters :
      (grab : Bool) (count i : ℕ) (n : Node ℕ) (ns : List (Node ℕ)) (s : SignalImpl F Group C)
      → (count == 0 || ltb i count) ≡ true
      → cleanup_loop cmp alive grab count i (n ∷ ns) s ≡ (
          check_body cmp alive grab n.value s >>= λ c. visit grab count i n ns c c.1.body.connected)
  unfolding cleanup_loop nolock_nograb_connected
  loop_enters grab count i n ns s more = ap (test grab count i n ns s) more

  pub loop_visit :
      (grab : Bool) (count i : ℕ) (n : Node ℕ) (ns : List (Node ℕ)) (s s' : SignalImpl F Group C)
      (h : Held F (GroupKey Group)) (on : Bool)
      → (count == 0 || ltb i count) ≡ true
      → check_body cmp alive grab n.value s ≡ some (s', h)
      → h.body.connected ≡ on
      → cleanup_loop cmp alive grab count i (n ∷ ns) s ≡ visit grab count i n ns (s', h) on
  loop_visit grab count i n ns s s' h on more k flag =
      loop_enters grab count i n ns s more
      ∙ ap (λ t. t >>= λ c. visit grab count i n ns c c.1.body.connected) k
      ∙ ap (visit grab count i n ns (s', h)) flag
