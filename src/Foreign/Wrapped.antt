-- ===== src/Foreign/Wrapped.antt =====
-- The adapters of detail/foreign_ptr.hpp beside the pointers that they hold: variables of both kinds,
-- and what a program does with them.
use signals.Base.{
  ℕ, ◌≡◌, refl, ap, ◌∙◌, Bool, true, false, Option, some, List, [], ◌∷◌, ◌==◌, arith, inl, inr,
  Bool-cases,
}
use signals.Buffer.{◌>>=◌}
use signals.Signal.{put}
use signals.Foreign.{
  ForeignVoidSharedPtr, ForeignVoidWeakPtr, wrap_shared, copy_shared, swap_shared, assign_shared,
  wrap_weak, copy_weak, swap_weak, assign_weak, lock_foreign, expired_foreign,
}

-- What a program does with its variables.
pub data Use : Type 0 where
  assigns_weak : ℕ → ℕ → Use
  swaps_weak : ℕ → ℕ → Use
  assigns_shared : ℕ → ℕ → Use
  swaps_shared : ℕ → ℕ → Use
  -- The variable of the first number is made of a lock at a time.
  locks : ℕ → ℕ → ℕ → Use

-- The variables of a program, be they adapters or the pointers themselves.
pub record Variables (W S : Type 0) : Type 0 where
  pub weaks : ℕ → W
  pub shareds : ℕ → S

module _ {W S : Type 0} where
  abbrev set_weak : ℕ → W → Variables W S → Variables W S
  set_weak i w v = record v { weaks = put i w v.weaks }

  abbrev set_shared : ℕ → S → Variables W S → Variables W S
  set_shared i s v = record v { shareds = put i s v.shareds }

module _ {Wp Sp : Type 0} (lock_of : ℕ → Wp → Sp) (expired_of : ℕ → Wp → Bool) where
  abbrev Adapters : Type 0
  Adapters = Variables (ForeignVoidWeakPtr Wp) (ForeignVoidSharedPtr Sp)

  unfoldable pub use_adapters : Use → Adapters → Option Adapters
  unfolding assign_weak swap_weak assign_shared swap_shared lock_foreign
  use_adapters (assigns_weak i j) v = do
    w ← assign_weak (i == j) (v.weaks i) (v.weaks j)
    some (set_weak i w v)
  use_adapters (swaps_weak i j) v =
      let r = swap_weak (v.weaks i) (v.weaks j) in some (set_weak i r.0 (set_weak j r.1 v))
  use_adapters (assigns_shared i j) v = do
    s ← assign_shared (i == j) (v.shareds i) (v.shareds j)
    some (set_shared i s v)
  use_adapters (swaps_shared i j) v =
      let r = swap_shared (v.shareds i) (v.shareds j) in
      some (set_shared i r.0 (set_shared j r.1 v))
  use_adapters (locks i j t) v = do
    s ← lock_foreign lock_of expired_of t (v.weaks j)
    some (set_shared i s v)

  unfoldable pub run_adapters : List Use → Adapters → Option Adapters
  run_adapters [] v = some v
  run_adapters (u ∷ us) v = use_adapters u v >>= λ w. run_adapters us w

  -- The same, on the pointers.
  unfoldable pub use_plain : Use → Variables Wp Sp → Variables Wp Sp
  use_plain (assigns_weak i j) v = set_weak i (v.weaks j) v
  use_plain (swaps_weak i j) v = set_weak i (v.weaks j) (set_weak j (v.weaks i) v)
  use_plain (assigns_shared i j) v = set_shared i (v.shareds j) v
  use_plain (swaps_shared i j) v = set_shared i (v.shareds j) (set_shared j (v.shareds i) v)
  use_plain (locks i j t) v = set_shared i (lock_of t (v.weaks j)) v

  unfoldable pub run_plain : List Use → Variables Wp Sp → Variables Wp Sp
  run_plain [] v = v
  run_plain (u ∷ us) v = run_plain us (use_plain u v)

  pub record Wraps (v : Adapters) (p : Variables Wp Sp) : Type 0 where
    pub weak_wrapped : (i : ℕ) → v.weaks i ≡ wrap_weak (p.weaks i)
    pub shared_wrapped : (i : ℕ) → v.shareds i ≡ wrap_shared (p.shareds i)

  -- Adapters that hold the pointers that the plain run has, and answer as these do.
  pub record Follows (p : Variables Wp Sp) (o : Option Adapters) : Type 0 where
    pub after : Adapters
    pub runs : o ≡ some after
    pub holds : Wraps after p
    pub locks_same :
        (i t : ℕ)
        → lock_foreign lock_of expired_of t (after.weaks i)
          ≡ some (wrap_shared (lock_of t (p.weaks i)))
    pub expired_same :
        (i t : ℕ)
        → expired_foreign lock_of expired_of t (after.weaks i) ≡ some (expired_of t (p.weaks i))

  put_wraps :
      {A B : Type 0} (w : A → B) (i : ℕ) (b : B) (a : A) (f : ℕ → B) (g : ℕ → A)
      → b ≡ w a
      → ((j : ℕ) → f j ≡ w (g j))
      → (j : ℕ) → put i b f j ≡ w (put i a g j)
  put_wraps w i b a f g e h j = elim (Bool-cases (i == j)) [ inl t ↦ rw t e | inr t ↦ rw t (h j) ]

  -- One use passes and keeps the pointers.
  record Passes (p : Variables Wp Sp) (o : Option Adapters) : Type 0 where
    next : Adapters
    passes : o ≡ some next
    wraps : Wraps next p

  assign_weak_lem :
      (self : Bool) (this other : ForeignVoidWeakPtr Wp) (p q : Wp)
      → this ≡ wrap_weak p
      → other ≡ wrap_weak q
      → (self ≡ true → p ≡ q)
      → assign_weak self this other ≡ some (wrap_weak q)
  unfolding assign_weak copy_weak swap_weak wrap_weak
  assign_weak_lem true this other p q e f same = rw e (ap (λ x. some (wrap_weak x)) (same refl))
  assign_weak_lem false this other p q e f same = rw f refl

  assign_shared_lem :
      (self : Bool) (this other : ForeignVoidSharedPtr Sp) (p q : Sp)
      → this ≡ wrap_shared p
      → other ≡ wrap_shared q
      → (self ≡ true → p ≡ q)
      → assign_shared self this other ≡ some (wrap_shared q)
  unfolding assign_shared copy_shared swap_shared wrap_shared
  assign_shared_lem true this other p q e f same = rw e (ap (λ x. some (wrap_shared x)) (same refl))
  assign_shared_lem false this other p q e f same = rw f refl

  use-Passes :
      (u : Use) (v : Adapters) (p : Variables Wp Sp)
      → Wraps v p
      → Passes (use_plain u p) (use_adapters u v)
  unfolding use_plain use_adapters swap_weak swap_shared lock_foreign wrap_weak
  use-Passes (assigns_weak i j) v p w = record {
    next = set_weak i (wrap_weak (p.weaks j)) v;
    passes =
        ap (λ o. o >>= λ x. some (set_weak i x v))
          (assign_weak_lem (i == j) (v.weaks i) (v.weaks j) (p.weaks i) (p.weaks j)
            (w.weak_wrapped i) (w.weak_wrapped j) (λ e. ap p.weaks (ground arith)));
    wraps = record {
      weak_wrapped = put_wraps wrap_weak i _ (p.weaks j) v.weaks p.weaks refl w.weak_wrapped;
      shared_wrapped = w.shared_wrapped;
    };
  }
  use-Passes (swaps_weak i j) v p w = record {
    next = set_weak i (v.weaks j) (set_weak j (v.weaks i) v);
    passes = refl;
    wraps = record {
      weak_wrapped = put_wraps wrap_weak i (v.weaks j) (p.weaks j) _ _ (w.weak_wrapped j) (
          put_wraps wrap_weak j (v.weaks i) (p.weaks i) v.weaks p.weaks (w.weak_wrapped i)
            w.weak_wrapped);
      shared_wrapped = w.shared_wrapped;
    };
  }
  use-Passes (assigns_shared i j) v p w = record {
    next = set_shared i (wrap_shared (p.shareds j)) v;
    passes =
        ap (λ o. o >>= λ x. some (set_shared i x v))
          (assign_shared_lem (i == j) (v.shareds i) (v.shareds j) (p.shareds i) (p.shareds j)
            (w.shared_wrapped i) (w.shared_wrapped j) (λ e. ap p.shareds (ground arith)));
    wraps = record {
      weak_wrapped = w.weak_wrapped;
      shared_wrapped =
          put_wraps wrap_shared i _ (p.shareds j) v.shareds p.shareds refl w.shared_wrapped;
    };
  }
  use-Passes (swaps_shared i j) v p w = record {
    next = set_shared i (v.shareds j) (set_shared j (v.shareds i) v);
    passes = refl;
    wraps = record {
      weak_wrapped = w.weak_wrapped;
      shared_wrapped =
          put_wraps wrap_shared i (v.shareds j) (p.shareds j) _ _ (w.shared_wrapped j) (
            put_wraps wrap_shared j (v.shareds i) (p.shareds i) v.shareds p.shareds
              (w.shared_wrapped i) w.shared_wrapped);
    };
  }
  use-Passes (locks i j t) v p w = record {
    next = set_shared i (wrap_shared (lock_of t (p.weaks j))) v;
    passes = rw (w.weak_wrapped j) refl;
    wraps = record {
      weak_wrapped = w.weak_wrapped;
      shared_wrapped =
          put_wraps wrap_shared i _ (lock_of t (p.weaks j)) v.shareds p.shareds refl
            w.shared_wrapped;
    };
  }

  run-Passes :
      (us : List Use) (v : Adapters) (p : Variables Wp Sp)
      → Wraps v p
      → Passes (run_plain us p) (run_adapters us v)
  unfolding run_plain run_adapters
  run-Passes [] v p w = record { next = v; passes = refl; wraps = w }
  run-Passes (u ∷ us) v p w =
      let s = use-Passes u v p w in
      let r = run-Passes us s.next (use_plain u p) s.wraps in
      record {
        next = r.next;
        passes = ap (λ o. o >>= λ x. run_adapters us x) s.passes ∙ r.passes;
        wraps = r.wraps;
      }

  -- Variables with foreign_void_weak_ptr and foreign_void_shared_ptr adapters around the pointers
  -- of other variables follow these through any sequence of assignments, self-assignments, swaps
  -- and locks: no step goes through a null pointer, the adapters afterwards hold what the pointers
  -- have become, and their lock and expired answer, at any time, as those of the pointers do.
  pub run_adapters-Follows :
      (us : List Use) (v : Adapters) (p : Variables Wp Sp)
      → Wraps v p
      → Follows (run_plain us p) (run_adapters us v)
  unfolding lock_foreign expired_foreign wrap_weak
  run_adapters-Follows us v p w =
      let r = run-Passes us v p w in
      record {
        after = r.next;
        runs = r.passes;
        holds = r.wraps;
        locks_same = λ i t. rw (r.wraps.weak_wrapped i) refl;
        expired_same = λ i t. rw (r.wraps.weak_wrapped i) refl;
      }
