-- ===== src/Invocation/Counting.antt =====
-- The slot that an iterator is about to call is in use: it outlives a disconnection.
use signals.Base.{
  Bool, ℕ, ◌+◌, ◌<◌, ◌≡◌, ◌≢◌, refl, sym, subst, ◌∙◌, true, false, Option, none, some, ◌++◌, ◌==◌,
  if◌then◌else◌, arith, inl, inr, Bool-cases,
}
use signals.Buffer.{unsigned_mod}
use signals.Connection.{ConnectionBody, Held, hold, disconnect_body}
use signals.Connection.Body.{IsCounted, inc-IsCounted, dec-Releases, nolock_disconnect-Releases}
use signals.Connection.Handle.{Store, put_body, AllCounted}
use signals.Invocation.{Iter, on_body, drop_active, take_active, set_active_slot}
use signals.Invocation.Callee.{callee, Follows, Follows-trans, put-callee, put-Keeps, callee_same}

-- How often the cache itself uses a body.
abbrev pub in_use : Option ℕ → ℕ → ℕ
in_use none j = 0
in_use (some i) j = if i == j then 1 else 0

in_use_self : (n i : ℕ) → n + (if i == i then 1 else 0) ≡ n + 1
in_use_self n i = ground arith

in_use_other : (n i j : ℕ) → (i == j) ≡ false → n + (if i == j then 1 else 0) ≡ n
in_use_other n i j h = ground arith

not_in_use : (n : ℕ) → n + 0 ≡ n
not_in_use n = omega arith

module _ {F K : Type 0} where
  pub put-Counted :
      (g : ℕ → ℕ) (i : ℕ) (b : ConnectionBody F K) (store : Store F K)
      → ((j : ℕ) (c : ConnectionBody F K) → (i == j) ≡ false → store j ≡ some c → IsCounted (g j) c)
      → IsCounted (g i) b
      → AllCounted g (put_body i b store)
  put-Counted g i b store others c j d e = elim (Bool-cases (i == j)) [
    | inl h ↦
        let p : i ≡ j = ground arith in
        let q : b ≡ d = ground arith in
        subst (λ k. IsCounted (g k) d) p (subst (IsCounted (g i)) q c)
    | inr h ↦ others j d h (ground arith)
  ]

  -- The body is in the store and connected.
  abbrev pub Ready : Option ℕ → Store F K → Type 0
  Ready none store = Unit {0}
  Ready (some i) store = (b : ConnectionBody F K) × (store i ≡ some b) × (b.connected ≡ true)

  put-Ready :
      (a : Option ℕ) (i : ℕ) (b b' : ConnectionBody F K) (store : Store F K)
      → store i ≡ some b
      → b'.connected ≡ b.connected
      → Ready a store
      → Ready a (put_body i b' store)
  put-Ready none i b b' store e flag r = tt
  put-Ready (some j) i b b' store e flag (c, q, on) = elim (Bool-cases (i == j)) [
    | inl h ↦
        let p : i ≡ j = ground arith in
        let same : c ≡ b = ground arith in
        (b', rw h refl, flag ∙ subst (λ t. t.connected ≡ true) same on)
    | inr h ↦ (c, rw h q, on)
  ]

  -- The body is in the store.
  abbrev pub Exists : Option ℕ → Store F K → Type 0
  Exists none store = Unit {0}
  Exists (some i) store = (b : ConnectionBody F K) × (store i ≡ some b)

  -- The body is connected, and disconnecting it now leaves its slot where it is.
  abbrev pub InUse : Option ℕ → Store F K → Type 0
  InUse none store = Unit {0}
  InUse (some i) store =
      (b : ConnectionBody F K) × (store i ≡ some b)
      × (b.connected ≡ true)
      × (b.slot ≢ none)
      × ((h : Held F K) × (disconnect_body b ≡ some h) × (h.body.slot ≡ b.slot))

  counted-InUse :
      (users i : ℕ) (b : ConnectionBody F K) (store : Store F K)
      → IsCounted (users + 1) b
      → b.connected ≡ true
      → InUse (some i) (put_body i b store)
  unfolding disconnect_body
  counted-InUse users i b store c on =
      let d = nolock_disconnect-Releases (users + 1) (hold b) c in
      (
        b,
        (ground arith),
        on,
        (λ e. ground (arith, c.counted, c.present.0 e)),
        (d.0.left, d.0.returns, ground (arith, d.0.slot_left)),
      )

module _ {F K R : Type 0} where
  abbrev worked : ℕ → Held F K → Iter F K R → Iter F K R
  worked i h s = record s {
    world = record s.world { bodies = put_body i h.body s.world.bodies };
    cache = record s.cache { released = s.cache.released ++ h.garbage };
  }

  Follows-refl : (alive : ℕ → Bool) (s : Iter F K R) → Follows alive s.world s.world
  Follows-refl alive s = record {
    keeps = λ j b e. (b, e, refl);
    callees = λ j. refl;
    alive_left = refl;
  }

  worked-Follows :
      (alive : ℕ → Bool) (i : ℕ) (h : Held F K) (b : ConnectionBody F K) (s : Iter F K R)
      → s.world.bodies i ≡ some b
      → h.body.group_key ≡ b.group_key
      → callee alive (some h.body) ≡ callee alive (some b)
      → Follows alive s.world (worked i h s).world
  worked-Follows alive i h b s e key same = record {
    keeps = λ j c q. put-Keeps i j b h.body c s.world.bodies e key q;
    callees = λ j. put-callee alive i j b h.body s.world.bodies e same;
    alive_left = refl;
  }

  pub drop_active-Counted :
      (users : ℕ → ℕ) (o a : Option ℕ) (s : Iter F K R)
      → AllCounted (λ j. users j + in_use o j) s.world.bodies
      → Exists o s.world.bodies
      → Ready a s.world.bodies
      → (s' : Iter F K R) × (drop_active o s ≡ some s')
        × AllCounted users s'.world.bodies
        × Ready a s'.world.bodies
        × (s'.iter ≡ s.iter)
        × (s'.callable_iter ≡ s.callable_iter)
        × (s'.cache.result ≡ s.cache.result)
        × ((alive : ℕ → Bool) → Follows alive s.world s'.world)
  unfolding drop_active on_body
  drop_active-Counted users none a s all x r = (
    s,
    refl,
    (λ j b e. subst (λ n. IsCounted n b) (not_in_use (users j)) (all j b e)),
    r,
    refl,
    refl,
    refl,
    (λ alive. Follows-refl alive s),
  )
  drop_active-Counted users (some i) a s all (b, e) r =
      let d =
        dec-Releases (users i) (hold b)
          (subst (λ n. IsCounted n b) (in_use_self (users i) i) (all i b e)) in
      (
        worked i d.0.left s,
        rw e (rw d.0.returns refl),
        put-Counted users i d.0.left.body s.world.bodies
            (λ j c h q. subst (λ n. IsCounted n c) (in_use_other (users j) i j h) (all j c q))
            d.0.keeps,
        put-Ready a i b d.0.left.body s.world.bodies e d.1 r,
        refl,
        refl,
        refl,
        (λ alive. worked-Follows alive i d.0.left b s e d.0.key_left (
            callee_same alive b d.0.left.body d.1 d.0.blockers_left
              (λ on. ground (arith, d.0.slot_left)))),
      )

  take_active-Counted :
      (users : ℕ → ℕ) (a : Option ℕ) (s : Iter F K R)
      → ((j : ℕ) → users j + 2 < unsigned_mod)
      → AllCounted users s.world.bodies
      → Ready a s.world.bodies
      → (s' : Iter F K R) × (take_active a s ≡ some s')
        × AllCounted (λ j. users j + in_use a j) s'.world.bodies
        × InUse a s'.world.bodies
        × (s'.cache.active_slot ≡ s.cache.active_slot)
        × (s'.iter ≡ s.iter)
        × (s'.callable_iter ≡ s.callable_iter)
        × (s'.cache.result ≡ s.cache.result)
        × ((alive : ℕ → Bool) → Follows alive s.world s'.world)
  unfolding take_active on_body
  take_active-Counted users none s room all r = (
    s,
    refl,
    (λ j b e. subst (λ n. IsCounted n b) (sym (not_in_use (users j))) (all j b e)),
    tt,
    refl,
    refl,
    refl,
    refl,
    (λ alive. Follows-refl alive s),
  )
  take_active-Counted users (some i) s room all (b, e, on) =
      let c = all i b e in
      let wide = room i in
      let d = inc-IsCounted (users i) (hold b) c (ground arith) (ground arith) in
      (
        worked i d.0 s,
        rw e (rw d.1 refl),
        put-Counted (λ j. users j + in_use (some i) j) i d.0.body s.world.bodies
            (λ j x h q. subst (λ n. IsCounted n x) (sym (in_use_other (users j) i j h)) (all j x q))
            (subst (λ n. IsCounted n d.0.body) (sym (in_use_self (users i) i)) d.2),
        counted-InUse (users i) i d.0.body s.world.bodies d.2 (d.5 ∙ on),
        refl,
        refl,
        refl,
        refl,
        (λ alive.
            worked-Follows alive i d.0 b s e d.7 (callee_same alive b d.0.body d.5 d.6 (λ _. d.3))),
      )

  -- What set_active_slot leaves: the use has been handed over.
  pub record Takes (users : ℕ → ℕ) (a : Option ℕ) (s : Iter F K R) (o : Option (Iter F K R))
      : Type 0 where
    pub after : Iter F K R
    pub returns : o ≡ some after
    pub counted : AllCounted (λ j. users j + in_use a j) after.world.bodies
    pub held : InUse a after.world.bodies
    pub active : after.cache.active_slot ≡ a
    pub iter_left : after.iter ≡ s.iter
    pub callable_left : after.callable_iter ≡ s.callable_iter
    pub result_left : after.cache.result ≡ s.cache.result
    pub follows : (alive : ℕ → Bool) → Follows alive s.world after.world

  -- Where the bodies are counted with the cache's use of its active slot, the active body exists,
  -- the new slot's body is connected and every count has room for two more uses, set_active_slot
  -- passes every assertion and hands the use over: the bodies are counted with the use of the new
  -- slot, whose disconnection would leave the slot where it is; the iterator has not moved, and
  -- what can be called is as before.
  pub set_active_slot-Takes :
      (users : ℕ → ℕ) (a : Option ℕ) (s : Iter F K R)
      → ((j : ℕ) → users j + 2 < unsigned_mod)
      → AllCounted (λ j. users j + in_use s.cache.active_slot j) s.world.bodies
      → Exists s.cache.active_slot s.world.bodies
      → Ready a s.world.bodies
      → Takes users a s (set_active_slot a s)
  unfolding set_active_slot
  set_active_slot-Takes users a s room all x r =
      let d = drop_active-Counted users s.cache.active_slot a s all x r in
      let s₁ : Iter F K R = record d.0 { cache = record d.0.cache { active_slot = a } } in
      let t = take_active-Counted users a s₁ room d.2 d.3 in
      record {
        after = t.0;
        returns = rw d.1 t.1;
        counted = t.2;
        held = t.3;
        active = t.4;
        iter_left = t.5 ∙ d.4;
        callable_left = t.6 ∙ d.5;
        result_left = t.7 ∙ d.6;
        follows = λ alive. Follows-trans alive s.world s₁.world t.0.world (d.7 alive) (t.8 alive);
      }
