-- ===== src/Signal/Unmoved.antt =====
-- What a clean-up leaves as it was, besides the list that it works on.
use signals.Base.{ℕ, ◌≡◌, refl, ◌∙◌, Bool, none, if◌then◌else◌}
use signals.Invocation.Callee.{Keeps, Keeps-trans}
use signals.Connection.Handle.{Store}
use signals.Signal.{SignalImpl}
use signals.Signal.Stored.{is_connected, is_live}

module _ {F K : Type 0} where
  -- Whether the clean-up keeps a body's slot.
  abbrev pub stays : Bool → (ℕ → Bool) → Store F K → ℕ → Bool
  stays grab alive store j = if grab then is_live alive (store j) else is_connected (store j)

module _ {F Group C : Type 0} (grab : Bool) (alive : ℕ → Bool) where
  pub record Unmoved (s s' : SignalImpl F Group C) : Type 0 where
    pub stays_left : stays grab alive s'.bodies ≡ stays grab alive s.bodies
    pub state_left : s'.shared_state ≡ s.shared_state
    pub readers_left : s'.readers ≡ s.readers
    pub addresses_left : s'.next_address ≡ s.next_address
    pub next_body_left : s'.next_body ≡ s.next_body
    pub absent_left : (j : ℕ) → s.bodies j ≡ none → s'.bodies j ≡ none
    pub kept : Keeps s.bodies s'.bodies

  pub Unmoved-refl : (s : SignalImpl F Group C) → Unmoved s s
  Unmoved-refl s = record {
    stays_left = refl;
    state_left = refl;
    readers_left = refl;
    addresses_left = refl;
    next_body_left = refl;
    absent_left = λ j h. h;
    kept = λ j b e. (b, e, refl);
  }

  pub Unmoved-trans : (s t u : SignalImpl F Group C) → Unmoved s t → Unmoved t u → Unmoved s u
  Unmoved-trans s t u p q = record {
    stays_left = q.stays_left ∙ p.stays_left;
    state_left = q.state_left ∙ p.state_left;
    readers_left = q.readers_left ∙ p.readers_left;
    addresses_left = q.addresses_left ∙ p.addresses_left;
    next_body_left = q.next_body_left ∙ p.next_body_left;
    absent_left = λ j h. q.absent_left j (p.absent_left j h);
    kept = Keeps-trans s.bodies t.bodies u.bodies p.kept q.kept;
  }
