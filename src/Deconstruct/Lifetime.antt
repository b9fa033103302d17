-- ===== src/Deconstruct/Lifetime.antt =====
-- The life of an object that a factory has made: what user code runs, how often and in which order.
use signals.Base.{
  ◌≡◌, refl, sym, ap, ◌∙◌, Bool, true, false, Option, none, some, List, [], ◌∷◌, ◌++◌, map,
  append_assoc, append-nil, if◌then◌else◌, inl, inr, Bool-cases,
}
use signals.Deconstruct.{
  Event, construct, postconstruct, predestruct, destruct, DeconstructDeleter,
  PostconstructorInvoker, destroy, call_deleter, destroy_deleter, end_shared_ptr, deconstruct,
  postconstruct_with, make_deleter, copy_deleter, set_initialized,
}

-- The calls up to the first that does not throw.
abbrev pub until_success : {A : Type 0} → (A → Bool) → List A → List A
until_success throws [] = []
until_success throws (a ∷ more) = if throws a then a ∷ until_success throws more else a ∷ []

abbrev invoker : DeconstructDeleter → Bool → PostconstructorInvoker
invoker d done = record { deleter = d; postconstructed = done }

module _ {A : Type 0} where
  -- postconstruct is called with one argument after the other, whatever it throws.
  unfoldable pub postconstruct_all :
      (A → Bool)
      → List A
      → PostconstructorInvoker × List (Event A)
      → PostconstructorInvoker × List (Event A)
  unfolding postconstruct_with
  postconstruct_all throws [] s = s
  postconstruct_all throws (a ∷ more) s =
      let r = postconstruct_with throws a s in postconstruct_all throws more (r.1, r.2)

  unfoldable lived :
      (A → Bool) → List A → Option PostconstructorInvoker → List (Event A) → List (Event A)
  unfolding postconstruct_all end_shared_ptr
  lived throws calls none log = log
  lived throws calls (some p) log =
      let r = postconstruct_all throws calls (p, log) in end_shared_ptr r.0.deleter r.1

  -- An object is made, postconstructed as often as asked, and at last its shared_ptr ends.
  unfoldable pub whole_life : (A → Bool) → (A → Bool) → A → List A → List (Event A)
  unfolding deconstruct lived
  whole_life constructor_throws throws a calls =
      let d = deconstruct constructor_throws a [] in lived throws calls d.0 d.1

  done_already :
      (throws : A → Bool) (calls : List A) (d : DeconstructDeleter) (log : List (Event A))
      → postconstruct_all throws calls (invoker d true, log) ≡ (invoker d true, log)
  unfolding postconstruct_all postconstruct_with
  done_already throws [] d log = refl
  done_already throws (a ∷ more) d log = done_already throws more d log

  call_throws :
      (throws : A → Bool) (a : A) (d : DeconstructDeleter) (log : List (Event A))
      → throws a ≡ true
      → postconstruct_with throws a (invoker d false, log)
        ≡ (true, invoker d false, log ++ postconstruct a ∷ [])
  unfolding postconstruct_with
  call_throws throws a d log e = rw e refl

  call_returns :
      (throws : A → Bool) (a : A) (d : DeconstructDeleter) (log : List (Event A))
      → throws a ≡ false
      → postconstruct_with throws a (invoker d false, log)
        ≡ (false, invoker d true, log ++ postconstruct a ∷ [])
  unfolding postconstruct_with
  call_returns throws a d log e = rw e refl

  -- The calls so far have been logged, and the deleter is the same.
  abbrev Logs :
      DeconstructDeleter → List (Event A) → PostconstructorInvoker × List (Event A) → Type 0
  Logs d log s = (s.1 ≡ log) × (s.0.deleter ≡ d)

  postconstruct_all-Logs :
      (throws : A → Bool) (calls : List A) (d : DeconstructDeleter) (log : List (Event A))
      → Logs d
          (log ++ map postconstruct (until_success throws calls))
          (postconstruct_all throws calls (invoker d false, log))
  unfolding postconstruct_all
  postconstruct_all-Logs throws [] d log = (sym (append-nil log), refl)
  postconstruct_all-Logs throws (a ∷ more) d log =
      let log' = log ++ postconstruct a ∷ [] in
      let next = λ (r : Bool × PostconstructorInvoker × List (Event A)).
        postconstruct_all throws more (r.1, r.2) in
      elim (Bool-cases (throws a)) [
        | inl e ↦
            let r = postconstruct_all-Logs throws more d log' in
            let s = ap next (call_throws throws a d log e) in
            (
              ap (λ t. t.1) s
                  ∙ r.0
                  ∙ append_assoc log (postconstruct a ∷ []) _
                  ∙ ap (λ t. log ++ map postconstruct t) (sym (tried throws a more e)),
              ap (λ t. t.0.deleter) s ∙ r.1,
            )
        | inr e ↦
            let s = ap next (call_returns throws a d log e) ∙ done_already throws more d log' in
            (
              ap (λ t. t.1) s
                  ∙ ap (λ t. log ++ map postconstruct t) (sym (succeeded throws a more e)),
              ap (λ t. t.0.deleter) s,
            )
      ]
    where
      tried :
          (throws : A → Bool) (a : A) (more : List A)
          → throws a ≡ true
          → until_success throws (a ∷ more) ≡ a ∷ until_success throws more
      tried throws a more e = rw e refl

      succeeded :
          (throws : A → Bool) (a : A) (more : List A)
          → throws a ≡ false
          → until_success throws (a ∷ more) ≡ a ∷ []
      succeeded throws a more e = rw e refl

  end_shared_ptr-once :
      (d : DeconstructDeleter) (log : List (Event A))
      → d.initialized ≡ true
      → end_shared_ptr d log ≡ log ++ predestruct ∷ destruct ∷ []
  unfolding end_shared_ptr call_deleter destroy_deleter destroy
  end_shared_ptr-once d log h = rw h refl

  -- The user code that a whole life of an object of deconstruct runs, however often and with
  -- whatever arguments postconstruct is called: the constructor; if that throws nothing else, and
  -- otherwise the postconstructor until it does not throw and never again, then the predestructor
  -- and the destructor, each once.
  pub whole_life_lem :
      (constructor_throws throws : A → Bool) (a : A) (calls : List A)
      → whole_life constructor_throws throws a calls
        ≡ construct a
          ∷ (if constructor_throws a
              then []
              else map postconstruct (until_success throws calls) ++ predestruct ∷ destruct ∷ [])
  unfolding whole_life deconstruct lived
  whole_life_lem constructor_throws throws a calls = elim (Bool-cases (constructor_throws a)) [
    | inl e ↦ rw e (unfold copy_deleter end_shared_ptr call_deleter destroy_deleter destroy in refl)
    | inr e ↦
        let d = set_initialized (copy_deleter make_deleter) in
        let r = postconstruct_all-Logs throws calls d (construct a ∷ []) in
        rw e (
          ap
            (λ t.
              end_shared_ptr t
                (postconstruct_all throws calls (invoker d false, construct a ∷ [])).1)
            r.1
          ∙ end_shared_ptr-once d _ (unfold set_initialized in refl)
          ∙ ap (λ t. t ++ predestruct ∷ destruct ∷ []) r.0)
  ]
