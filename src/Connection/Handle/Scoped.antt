-- ===== src/Connection/Handle/Scoped.antt =====
-- connection.hpp: a scoped_connection owns its connection: the one it is given to, by assignment or by a
-- move, disconnects the slot, and the one it was taken from does not.
use signals.Base.{
  ℕ, ◌≡◌, refl, sym, subst, ◌∙◌, true, false, Option, none, some, List, [], ◌==◌, arith, inl, inr,
  Bool-cases,
}
use signals.Slot.{Slot}
use signals.Connection.{ConnectionBody}
use signals.Connection.Body.{IsCounted}
use signals.Connection.Handle.{
  Connection, Store, AllCounted, same_address, disconnect, disconnect_locked, disconnect_lem,
  move_connection, release, scoped_assign, scoped_move_assign, destroy_scoped,
}

module _ {F K : Type 0} where
  -- A handle has been disconnected.
  pub record Cut (users : ℕ → ℕ) (c : Connection) (store : Store F K)
      (o : Option (Store F K × List (Option (Slot F)))) : Type 0 where
    pub after : Store F K
    pub trash : List (Option (Slot F))
    pub returns : o ≡ some (after, trash)
    pub counted : AllCounted users after
    pub others_left : (j : ℕ) → same_address c.weak (some j) ≡ false → after j ≡ store j
    pub disconnected :
        (j : ℕ) (b : ConnectionBody F K)
        → same_address c.weak (some j) ≡ true
        → after j ≡ some b
        → b.connected ≡ false

  disconnect-Cut :
      (users : ℕ → ℕ) (w : Option ℕ) (store : Store F K)
      → AllCounted users store
      → Cut users (record { weak = w }) store (disconnect (record { weak = w }) store)
  unfolding disconnect disconnect_locked
  disconnect-Cut users none store all = record {
    after = store;
    trash = [];
    returns = refl;
    counted = all;
    others_left = λ j h. refl;
    disconnected = λ j b h e. absurd (ground arith);
  }
  disconnect-Cut users (some i) store all =
      let d = disconnect_lem users i store all in
      record {
        after = d.0;
        trash = d.1;
        returns = d.2;
        counted = λ j b e. elim (Bool-cases (i == j)) [
          | inl h ↦
              (let same : i ≡ j = ground arith in
                subst (λ t. IsCounted (users t) b) same
                  (d.4 b (subst (λ t. d.0 t ≡ some b) (sym same) e)).1)
          | inr h ↦ all j b (sym (d.3 j h) ∙ e)
        ];
        others_left = d.3;
        disconnected = λ j b h e.
            (let same : i ≡ j = ground arith in
              (d.4 b (subst (λ t. d.0 t ≡ some b) (sym same) e)).0);
      }

  -- A scoped connection was given a connection, by a move or by an assignment: its old one is cut, and
  -- its end cuts the new one, unless it is released; the end of the moved source does nothing.
  pub record Guards (users : ℕ → ℕ) (lhs other : Connection) (store : Store F K)
      (o : Option (Connection × Connection × Store F K × List (Option (Slot F)))) : Type 0 where
    pub old : Cut users lhs store (disconnect lhs store)
    pub source : Connection
    pub returns : o ≡ some (other, source, old.after, old.trash)
    pub source_done : destroy_scoped source old.after ≡ some (old.after, [])
    pub assigned : scoped_assign lhs other store ≡ some (other, old.after, old.trash)
    pub released :
        ((release other).0.weak ≡ other.weak)
        × (destroy_scoped (release other).1 old.after ≡ some (old.after, []))
    pub target_done : Cut users other old.after (destroy_scoped other old.after)

  -- Where all bodies are counted, giving a scoped_connection another connection, by a move or by
  -- an assignment, disconnects the body that it had, if it is there, changes no other body, and
  -- keeps all bodies counted. The destruction of the moved source then does nothing, and that of
  -- the target disconnects the body that was given, if it is there, and changes no other; once the
  -- target is released, its destruction does nothing, and the released connection has the body.
  pub scoped_move_assign-Guards :
      (users : ℕ → ℕ) (lhs other : Connection) (store : Store F K)
      → AllCounted users store
      → Guards users lhs other store (scoped_move_assign lhs other store)
  unfolding scoped_move_assign scoped_assign release destroy_scoped move_connection disconnect
      disconnect_locked
  scoped_move_assign-Guards users lhs other store all =
      let d = disconnect-Cut users lhs.weak store all in
      record {
        old = d;
        source = record { weak = none };
        returns = rw d.returns refl;
        source_done = refl;
        assigned = rw d.returns refl;
        released = (refl, refl);
        target_done = disconnect-Cut users other.weak d.after d.counted;
      }
