-- ===== src/Signal/Visited.antt =====
-- One step of the clean-up: a slot is checked, and erased from the list if it is not connected.
use signals.Base.{
  fun_ext, ℕ, ◌≡◌, refl, sym, ap, subst, ◌∙◌, Bool, true, false, not, ◌&&◌, Option, some, List, [],
  ◌∷◌, ◌++◌, ◌==◌, if◌then◌else◌, arith, inl, inr, Bool-cases,
}
use signals.Groups.{GroupKey, group_key_less, erase}
use signals.Groups.Containers.{Node, erase_node, node_after}
use signals.Groups.Segments.{Segment, flat, Unique, StrictWeakOrder}
use signals.Groups.Order.{group_key_less-StrictWeakOrder}
use signals.Groups.Unique.{Unique-Absent}
use signals.Groups.Erase.{Present, InGroup, without_node, flat-without_node, erase_node-behind}
use signals.Groups.Refine.{erase-Models}
use signals.Connection.{ConnectionBody, Held, hold, disconnect_expired_slot}
use signals.Connection.Body.{
  IsCounted, slot_expired, disconnect_expired_slot-settle, nolock_disconnect-Releases,
}
use signals.Connection.Handle.{Store, put_body}
use signals.Signal.{SignalImpl, ConnectionList, current_list, set_current_list}
use signals.Signal.Cleanup.{check_body}
use signals.Signal.Stored.{is_connected, is_live, put-AllCounted}
use signals.Invocation.Callee.{put-Keeps}
use signals.Signal.Unmoved.{stays, Unmoved}
use signals.Signal.Consistent.{Consistent}
use signals.Signal.Keyed.{KeyedNode, Keyed-without_node, put-Keyed}

module _ {F K : Type 0} where
  -- What check_body does to a counted body.
  record Checked (users : ℕ) (grab : Bool) (alive : ℕ → Bool) (b : ConnectionBody F K)
      (o : Option (Held F K)) : Type 0 where
    pub left : Held F K
    pub returns : o ≡ some left
    pub keeps : IsCounted users left.body
    pub key_left : left.body.group_key ≡ b.group_key
    pub flag :
        left.body.connected
        ≡ (if grab then b.connected && not (slot_expired alive b.slot) else b.connected)
    pub live_left : is_live alive (some left.body) ≡ is_live alive (some b)
    pub unchanged : grab ≡ false → left.body ≡ b

  check-Checked :
      (users : ℕ) (grab : Bool) (alive : ℕ → Bool) (b : ConnectionBody F K)
      → IsCounted users b
      → Checked users grab alive b
          (if grab then disconnect_expired_slot alive (hold b) else some (hold b))
  check-Checked users false alive b c = record {
    left = hold b;
    returns = refl;
    keeps = c;
    key_left = refl;
    flag = refl;
    live_left = refl;
    unchanged = λ _. refl;
  }
  check-Checked users true alive b c =
      let d = nolock_disconnect-Releases users (hold b) c in
      let e = disconnect_expired_slot-settle alive (hold b) in
      elim (Bool-cases (slot_expired alive b.slot)) [
        | inl x ↦ record {
          left = d.0.left;
          returns = e ∙ rw x d.0.returns;
          keeps = d.0.keeps;
          key_left = d.0.key_left;
          flag = rw x (ground (arith, d.1));
          live_left = ground (arith, d.1);
          unchanged = λ h. absurd (ground arith);
        }
        | inr x ↦ record {
          left = hold b;
          returns = e ∙ rw x refl;
          keeps = c;
          key_left = refl;
          flag = ground arith;
          live_left = refl;
          unchanged = λ h. refl;
        }
      ]

  Checked-stays :
      (users : ℕ) (grab : Bool) (alive : ℕ → Bool) (b : ConnectionBody F K) (store : Store F K)
      (i j : ℕ) (o : Option (Held F K)) (c : Checked users grab alive b o)
      → store i ≡ some b
      → stays grab alive (put_body i c.left.body store) j ≡ stays grab alive store j
  Checked-stays users grab alive b store i j o c e = elim (Bool-cases (i == j)) [
    | inr h ↦ rw h refl
    | inl h ↦
        let here : some b ≡ store j = sym e ∙ ap store {x = i} {y = j} (ground arith) in
        rw h (elim (Bool-cases grab) [
          | inl g ↦ rw g (c.live_left ∙ ap (is_live alive) here)
          | inr g ↦ rw g (ap (λ t. t.connected) (c.unchanged g) ∙ ap is_connected here)
        ])
  ]

pub erase_self :
    (pre : List (Node ℕ)) (n : Node ℕ) (ns : List (Node ℕ))
    → Unique (pre ++ n ∷ ns)
    → erase_node n.id (pre ++ n ∷ ns) ≡ pre ++ ns
erase_self pre n ns u =
    erase_node-behind n.id pre (n ∷ ns) (Unique-Absent pre ns n u)
    ∙ ap (λ t. pre ++ t) (unfold erase_node in ground arith)

pub Present-middle :
    (pre : List (Node ℕ)) (n : Node ℕ) (ns : List (Node ℕ)) → Present n.id (pre ++ n ∷ ns)
Present-middle [] n ns = inl (ground arith)
Present-middle (x ∷ pre) n ns = inr (Present-middle pre n ns)

module _ {F Group C : Type 0} where
  pub record Visited (cmp : Group → Group → Bool) (alive : ℕ → Bool) (users : ℕ → ℕ) (grab : Bool)
      (n : Node ℕ) (segs : List (Segment (GroupKey Group) ℕ)) (s : SignalImpl F Group C)
      (o : Option (SignalImpl F Group C × Held F (GroupKey Group))) : Type 0 where
    pub after : SignalImpl F Group C
    pub held : Held F (GroupKey Group)
    pub returns : o ≡ some (after, held)
    pub consistent : Consistent cmp users segs after
    pub in_group : InGroup (group_key_less cmp) held.body.group_key n.id segs
    pub flag : held.body.connected ≡ stays grab alive s.bodies n.value
    pub lists_left : after.lists ≡ s.lists
    pub unmoved : Unmoved grab alive s after

  pub check_body-Visited :
      (cmp : Group → Group → Bool) (alive : ℕ → Bool) (users : ℕ → ℕ) (grab : Bool) (n : Node ℕ)
      (segs : List (Segment (GroupKey Group) ℕ)) (s : SignalImpl F Group C)
      → Consistent cmp users segs s
      → KeyedNode cmp segs s.bodies n
      → Visited cmp alive users grab n segs s (check_body cmp alive grab n.value s)
  unfolding check_body
  check_body-Visited cmp alive users grab n segs s c (b, e, g) =
      let k = check-Checked (users n.value) grab alive b (c.counted n.value b e) in
      let s' : SignalImpl F Group C = record s {
        bodies = put_body n.value k.left.body s.bodies;
        garbage = s.garbage ++ k.left.garbage;
      } in
      record {
        after = s';
        held = k.left;
        returns = rw e (rw k.returns refl);
        consistent = record {
          models = c.models;
          counted = put-AllCounted users n.value k.left.body s.bodies c.counted k.keeps;
          keyed = put-Keyed cmp segs s.bodies n.value b k.left.body e k.key_left c.keyed;
        };
        in_group = rw k.key_left g;
        flag = k.flag ∙ ap (λ t. if grab then is_live alive t else is_connected t) (sym e);
        lists_left = refl;
        unmoved = record {
          stays_left =
              fun_ext (λ j. Checked-stays (users n.value) grab alive b s.bodies n.value j _ k e);
          state_left = refl;
          readers_left = refl;
          addresses_left = refl;
          next_body_left = refl;
          kept = λ j x q. put-Keeps n.value j b k.left.body x s.bodies e k.key_left q;
          absent_left = λ j h. elim (Bool-cases (n.value == j)) [
            | inl q ↦ absurd (ground arith)
            | inr q ↦ rw q h
          ];
        };
      }

same_address : (i : ℕ) → (i == i) ≡ true
same_address i = ground arith

module _ {F Group C : Type 0} where
  pub set_current_list-same :
      (l : ConnectionList Group) (s : SignalImpl F Group C)
      → current_list (set_current_list l s) ≡ l
  set_current_list-same l s = rw (same_address s.shared_state.connection_bodies) refl

  pub set_current_list-other :
      (l : ConnectionList Group) (s : SignalImpl F Group C) (a : ℕ)
      → (s.shared_state.connection_bodies == a) ≡ false
      → (set_current_list l s).lists a ≡ s.lists a
  set_current_list-other l s a h = rw h refl

  -- A slot has been erased from the list.
  pub record Erased (cmp : Group → Group → Bool) (users : ℕ → ℕ) (key : GroupKey Group)
      (pre : List (Node ℕ)) (n : Node ℕ) (ns : List (Node ℕ)) (s : SignalImpl F Group C)
      : Type 0 where
    pub left : ConnectionList Group
    pub next : Option ℕ
    pub returns : erase (group_key_less cmp) (current_list s) key n.id ≡ some (left, next)
    pub segs : List (Segment (GroupKey Group) ℕ)
    pub consistent : Consistent cmp users segs (set_current_list left s)
    pub list_left : (current_list (set_current_list left s)).list ≡ pre ++ ns

  pub erase-Erased :
      (cmp : Group → Group → Bool) (o : StrictWeakOrder cmp) (users : ℕ → ℕ)
      (segs : List (Segment (GroupKey Group) ℕ)) (key : GroupKey Group) (pre : List (Node ℕ))
      (n : Node ℕ) (ns : List (Node ℕ)) (s : SignalImpl F Group C)
      → Consistent cmp users segs s
      → InGroup (group_key_less cmp) key n.id segs
      → (current_list s).list ≡ pre ++ n ∷ ns
      → Erased cmp users key pre n ns s
  erase-Erased cmp o users segs key pre n ns s c g split =
      let less = group_key_less cmp in
      let k = group_key_less-StrictWeakOrder cmp o in
      let m = erase-Models less k (current_list s) segs key n.id c.models g in
      let u : Unique (flat segs) = rw c.models.list_flat at c.models.unique in
      let same = set_current_list-same m.0 s in
      let erased : m.0.list ≡ erase_node n.id (current_list s).list =
        m.2.list_flat
        ∙ sym (flat-without_node less key n.id segs u g)
        ∙ ap (erase_node n.id) (sym c.models.list_flat) in
      record {
        left = m.0;
        next = node_after n.id (current_list s).list;
        returns = m.1;
        segs = without_node less key n.id segs;
        consistent = record {
          models = rw same m.2;
          counted = c.counted;
          keyed = Keyed-without_node cmp key n.id segs s.bodies c.keyed;
        };
        list_left =
            ap (λ l. l.list) same
            ∙ erased
            ∙ ap (erase_node n.id) split
            ∙ erase_self pre n ns (subst Unique split c.models.unique);
      }
