-- ===== src/Tests/Foreigns.antt =====
-- Variables of detail/foreign_ptr.hpp around pointers that are numbers: a weak pointer's lock is its
-- number and the time.
use signals.Base.{ℕ, ◌≡◌, refl, ◌+◌, ltb, none, [], ◌∷◌}
use signals.Foreign.{wrap_weak, wrap_shared, copy_weak, default_weak}
use signals.Foreign.Wrapped.{
  Variables, assigns_weak, swaps_weak, assigns_shared, swaps_shared, locks, Use, run_adapters,
  run_plain, Follows, run_adapters-Follows,
}
use signals.Base.{List}

abbrev numbers : Variables ℕ ℕ
numbers = record { weaks = λ i. i + 10; shareds = λ i. i + 20 }

abbrev lock_sum : ℕ → ℕ → ℕ
lock_sum t p = t + p

abbrev uses : List Use
uses =
    assigns_weak 1 1
    ∷ swaps_weak 1 2
    ∷ locks 3 1 5
    ∷ assigns_shared 4 3
    ∷ assigns_weak 0 2
    ∷ swaps_shared 4 0
    ∷ []

default_copies : copy_weak {Wp = ℕ} default_weak ≡ none
unfolding copy_weak default_weak
default_copies = refl

run_adapters-Follows_example : Follows lock_sum ltb (run_plain lock_sum ltb uses numbers) (
    run_adapters lock_sum ltb uses
      (record { weaks = λ i. wrap_weak (i + 10); shareds = λ i. wrap_shared (i + 20) }))
run_adapters-Follows_example =
    run_adapters-Follows lock_sum ltb uses
      (record { weaks = λ i. wrap_weak (i + 10); shareds = λ i. wrap_shared (i + 20) }) numbers
      (record { weak_wrapped = λ i. refl; shared_wrapped = λ i. refl })
