-- ===== src/Connection/Body.antt =====
-- The reference count of a connection body: a slot lives until it is disconnected and out of use.
use signals.Base.{
  ℕ, ◌+◌, ◌-◌, ◌<◌, ◌≡◌, ◌↔◌, refl, ap, Bool, true, false, not, ◌&&◌, Option, none, some, List, [],
  ◌∷◌, ◌++◌, ◌==◌, if◌then◌else◌, arith, inl, inr, Bool-cases, Option-cases,
}
use signals.Buffer.{◌>>=◌, unsigned_mod}
use signals.Slot.{Slot, Tracked, Locked, expired_tracked, expired_weak_ptr, lock_weak_ptr}
use signals.Connection.{
  ConnectionBody, Held, hold, make_body, inc_slot_refcount, dec_slot_refcount, nolock_disconnect,
  disconnect_expired_slot, grab_each, grab_slot, nolock_grab_tracked_objects, connected_body,
}

abbrev pub one_if : Bool → ℕ
one_if true = 1
one_if false = 0

-- `users` invocations have the slot in use. The slot is there as long as the count is not 0.
pub record IsCounted {F K : Type 0} (users : ℕ) (b : ConnectionBody F K) : Type 0 where
  pub counted : b.slot_refcount ≡ one_if b.connected + users
  pub bounded : b.slot_refcount < unsigned_mod
  pub present : (b.slot ≡ none) ↔ (b.slot_refcount ≡ 0)

abbrev pub slot_expired : {F : Type 0} → (ℕ → Bool) → Option (Slot F) → Bool
slot_expired alive none = false
slot_expired alive (some s) = expired_tracked alive s.tracked_objects

module _ {F K : Type 0} where
  pub make_body-IsCounted : (s : Slot F) (k : K) → IsCounted 0 (make_body s k)
  unfolding make_body
  make_body-IsCounted s k = ground arith

  -- On a counted body that is connected or in use, with fewer than 2^32 - 1 references,
  -- inc_slot_refcount passes its assertion, counts one invocation more, and keeps the slot, the
  -- connected flag and the garbage.
  pub inc-IsCounted :
      (users : ℕ) (h : Held F K)
      → IsCounted users h.body
      → 0 < h.body.slot_refcount
      → h.body.slot_refcount + 1 < unsigned_mod
      → (h' : Held F K) × (inc_slot_refcount h ≡ some h')
        × IsCounted (users + 1) h'.body
        × (h'.body.slot ≡ h.body.slot)
        × (h'.garbage ≡ h.garbage)
        × (h'.body.connected ≡ h.body.connected)
        × (h'.body.blockers ≡ h.body.blockers)
        × (h'.body.group_key ≡ h.body.group_key)
  unfolding inc_slot_refcount
  inc-IsCounted users h c used room = (
    record h { body = record h.body { slot_refcount = h.body.slot_refcount + 1 } },
    ground arith,
    ground arith,
    refl,
    refl,
    refl,
    refl,
    refl,
  )

  -- What a call leaves: `last` says whether it took the last reference away, in which case the slot
  -- goes to the garbage.
  pub record Releases (users : ℕ) (last : Bool) (h : Held F K) (o : Option (Held F K))
      : Type 0 where
    pub left : Held F K
    pub returns : o ≡ some left
    pub keeps : IsCounted users left.body
    pub trash : left.garbage ≡ (if last then h.garbage ++ h.body.slot ∷ [] else h.garbage)
    pub slot_left : left.body.slot ≡ (if last then none else h.body.slot)
    pub key_left : left.body.group_key ≡ h.body.group_key
    pub blockers_left : left.body.blockers ≡ h.body.blockers

  abbrev counted_down : Held F K → Held F K
  counted_down h = record h { body = record h.body { slot_refcount = h.body.slot_refcount - 1 } }

  abbrev run_out : Held F K → Held F K
  run_out h = record {
    body = record h.body { slot_refcount = 0; slot = none };
    garbage = h.garbage ++ h.body.slot ∷ [];
  }

  -- On a body that is counted with one invocation more, dec_slot_refcount passes its assertion,
  -- keeps the counting and the connected flag, and releases the slot exactly if the body is
  -- disconnected and no other invocation uses it.
  pub dec-Releases :
      (users : ℕ) (h : Held F K)
      → IsCounted (users + 1) h.body
      → (r : Releases users (not h.body.connected && users == 0) h (dec_slot_refcount h))
        × (r.left.body.connected ≡ h.body.connected)
  unfolding dec_slot_refcount
  dec-Releases users h c = elim (Bool-cases (h.body.slot_refcount - 1 == 0)) [
    | inl e ↦ (
      record {
        left = run_out h;
        returns = ground arith;
        keeps = ground arith;
        trash = ground arith;
        slot_left = ground arith;
        key_left = refl;
        blockers_left = refl;
      },
      refl,
    )
    | inr e ↦ (
      record {
        left = counted_down h;
        returns = ground arith;
        keeps = ground arith;
        trash = ground arith;
        slot_left = ground arith;
        key_left = refl;
        blockers_left = refl;
      },
      refl,
    )
  ]

  -- On a counted body, nolock_disconnect passes its assertion, clears the connected flag, keeps
  -- the counting, and releases the slot exactly if the body was connected and no invocation uses
  -- it; a second call changes nothing.
  pub nolock_disconnect-Releases :
      (users : ℕ) (h : Held F K)
      → IsCounted users h.body
      → (r : Releases users (h.body.connected && users == 0) h (nolock_disconnect h))
        × (r.left.body.connected ≡ false)
        × (nolock_disconnect r.left ≡ some r.left)
  nolock_disconnect-Releases users h c = elim (Bool-cases h.body.connected) [
    | inl e ↦
        let g = record h { body = record h.body { connected = false } } in
        let d =
          dec-Releases users g
            (record { counted = ground arith; bounded = c.bounded; present = c.present }) in
        (
          record {
            left = d.0.left;
            returns = unfold nolock_disconnect in ground (arith, d.0.returns);
            keeps = d.0.keeps;
            trash = ground (arith, d.0.trash);
            slot_left = ground (arith, d.0.slot_left);
            key_left = d.0.key_left;
            blockers_left = d.0.blockers_left;
          },
          d.1,
          unfold nolock_disconnect in ground (arith, d.1),
        )
    | inr e ↦ (
      record {
        left = h;
        returns = unfold nolock_disconnect in ground arith;
        keeps = c;
        trash = ground arith;
        slot_left = ground arith;
        key_left = refl;
        blockers_left = refl;
      },
      e,
      unfold nolock_disconnect in ground arith,
    )
  ]

  -- What grabbing the tracked objects does to the body: an expired slot is disconnected.
  abbrev pub settle : (ℕ → Bool) → Held F K → Option (Held F K)
  settle alive h = if slot_expired alive h.body.slot then nolock_disconnect h else some h

  grab_each_lem :
      (alive : ℕ → Bool) (h : Held F K) (xs : List Tracked) (out : List Locked)
      → (r : List Locked) × (grab_each alive h xs out ≡ (
          (if expired_tracked alive xs then nolock_disconnect h else some h) >>= λ h'.
          some (h', r)))
  unfolding grab_each expired_tracked
  grab_each_lem alive h [] out = (out, refl)
  grab_each_lem alive h (x ∷ xs) out = elim (Bool-cases (expired_weak_ptr alive x)) [
    | inl e ↦ (out, rw e)
    | inr e ↦ rw e (grab_each_lem alive h xs (out ++ lock_weak_ptr alive x ∷ []))
  ]

  grab_slot-settle :
      (alive : ℕ → Bool) (h : Held F K) (o : Option (Slot F))
      → (r : List Locked) × (grab_slot alive h o
          ≡ ((if slot_expired alive o then nolock_disconnect h else some h) >>= λ h'. some (h', r)))
  unfolding grab_slot
  grab_slot-settle alive h none = ([], refl)
  grab_slot-settle alive h (some s) = grab_each_lem alive h s.tracked_objects []

  pub grab-settle :
      (alive : ℕ → Bool) (h : Held F K)
      → (r : List Locked) × (nolock_grab_tracked_objects alive h
          ≡ (settle alive h >>= λ h'. some (h', r)))
  unfolding nolock_grab_tracked_objects
  grab-settle alive h = grab_slot-settle alive h h.body.slot

  pub disconnect_expired_slot-settle :
      (alive : ℕ → Bool) (h : Held F K) → disconnect_expired_slot alive h ≡ settle alive h
  unfolding disconnect_expired_slot
  disconnect_expired_slot-settle alive h = elim (Option-cases h.body.slot) [
    | inl e ↦ rw e
    | inr (s, e) ↦ rw e
  ]

  -- What nolock_grab_tracked_objects leaves of a counted body.
  pub record Grabs (users : ℕ) (alive : ℕ → Bool) (b : ConnectionBody F K)
      (o : Option (Held F K × List Locked)) : Type 0 where
    pub left : Held F K
    pub locked : List Locked
    pub returns : o ≡ some (left, locked)
    pub keeps : IsCounted users left.body
    pub flag : left.body.connected ≡ (b.connected && not (slot_expired alive b.slot))
    pub kept : slot_expired alive b.slot ≡ false → left.body ≡ b
    pub blockers_left : left.body.blockers ≡ b.blockers
    pub key_left : left.body.group_key ≡ b.group_key

  pub grab-Grabs :
      (users : ℕ) (alive : ℕ → Bool) (b : ConnectionBody F K)
      → IsCounted users b
      → Grabs users alive b (nolock_grab_tracked_objects alive (hold b))
  grab-Grabs users alive b c =
      let g = grab-settle alive (hold b) in
      let d = nolock_disconnect-Releases users (hold b) c in
      elim (Bool-cases (slot_expired alive b.slot)) [
        | inl e ↦ record {
          left = d.0.left;
          locked = g.0;
          returns = ground (arith, g.1, d.0.returns);
          keeps = d.0.keeps;
          flag = ground (arith, d.1);
          kept = λ h. absurd (ground arith);
          blockers_left = d.0.blockers_left;
          key_left = d.0.key_left;
        }
        | inr e ↦ record {
          left = hold b;
          locked = g.0;
          returns = ground (arith, g.1);
          keeps = c;
          flag = ground arith;
          kept = λ h. refl;
          blockers_left = refl;
          key_left = refl;
        }
      ]

  -- On a counted body, connected() passes every assertion, returns whether the body is connected
  -- and its slot has not expired, leaves the flag at that value and the body counted, and leaves a
  -- body whose slot has not expired as it was.
  pub connected_body_lem :
      (users : ℕ) (alive : ℕ → Bool) (b : ConnectionBody F K)
      → IsCounted users b
      → (h : Held F K) × (connected_body alive b
          ≡ some (h, b.connected && not (slot_expired alive b.slot)))
        × IsCounted users h.body
        × (h.body.connected ≡ (b.connected && not (slot_expired alive b.slot)))
        × (slot_expired alive b.slot ≡ false → h.body ≡ b)
  unfolding connected_body
  connected_body_lem users alive b c =
      let g = grab-Grabs users alive b c in
      (g.left, rw g.returns (ap (λ t. some (g.left, t)) g.flag), g.keeps, g.flag, g.kept)
