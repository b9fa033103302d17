-- ===== src/Foreign.antt =====
-- detail/foreign_ptr.hpp: the adapters that hold a shared or weak pointer of another library behind
-- virtual functions. `Wp` and `Sp` stand for those pointers; `lock_of` and `expired_of` are their
-- functions at a time, since owners come and go. `none` is a call through a null pointer.
pub mod Wrapped
use signals.Base.{ℕ, Bool, Option, none, some, List, [], ◌∷◌, ◌==◌, if◌then◌else◌}
use signals.Buffer.{◌>>=◌}
use signals.Signal.{put}

pub record ForeignVoidSharedPtr (Sp : Type 0) : Type 0 where
  pub shared_impl : Option Sp

pub record ForeignVoidWeakPtr (Wp : Type 0) : Type 0 where
  pub weak_impl : Option Wp

module _ {Sp : Type 0} where
  -- foreign_void_shared_ptr()
  unfoldable pub default_shared : ForeignVoidSharedPtr Sp
  default_shared = record { shared_impl = none }

  -- foreign_void_shared_ptr( fsp )
  unfoldable pub wrap_shared : Sp → ForeignVoidSharedPtr Sp
  wrap_shared fsp = record { shared_impl = some fsp }

  -- The copy constructor: _p->clone()
  unfoldable pub copy_shared : ForeignVoidSharedPtr Sp → Option (ForeignVoidSharedPtr Sp)
  copy_shared other = other.shared_impl >>= λ p. some (record { shared_impl = some p })

  unfoldable pub swap_shared :
      ForeignVoidSharedPtr Sp
      → ForeignVoidSharedPtr Sp
      → ForeignVoidSharedPtr Sp × ForeignVoidSharedPtr Sp
  swap_shared this other =
      (record { shared_impl = other.shared_impl }, record { shared_impl = this.shared_impl })

  -- operator=; `self` says whether both sides are one object.
  unfoldable pub assign_shared :
      Bool → ForeignVoidSharedPtr Sp → ForeignVoidSharedPtr Sp → Option (ForeignVoidSharedPtr Sp)
  unfolding copy_shared swap_shared
  assign_shared self this other =
      if self then some this else (copy_shared other >>= λ c. some (swap_shared c this).1)

module _ {Wp : Type 0} where
  -- foreign_void_weak_ptr()
  unfoldable pub default_weak : ForeignVoidWeakPtr Wp
  default_weak = record { weak_impl = none }

  -- foreign_void_weak_ptr( fwp )
  unfoldable pub wrap_weak : Wp → ForeignVoidWeakPtr Wp
  wrap_weak fwp = record { weak_impl = some fwp }

  -- The copy constructor: _p->clone()
  unfoldable pub copy_weak : ForeignVoidWeakPtr Wp → Option (ForeignVoidWeakPtr Wp)
  copy_weak other = other.weak_impl >>= λ p. some (record { weak_impl = some p })

  unfoldable pub swap_weak :
      ForeignVoidWeakPtr Wp → ForeignVoidWeakPtr Wp → ForeignVoidWeakPtr Wp × ForeignVoidWeakPtr Wp
  swap_weak this other =
      (record { weak_impl = other.weak_impl }, record { weak_impl = this.weak_impl })

  -- operator=; `self` says whether both sides are one object.
  unfoldable pub assign_weak :
      Bool → ForeignVoidWeakPtr Wp → ForeignVoidWeakPtr Wp → Option (ForeignVoidWeakPtr Wp)
  unfolding copy_weak swap_weak
  assign_weak self this other =
      if self then some this else (copy_weak other >>= λ c. some (swap_weak c this).1)

module _ {Wp Sp : Type 0} (lock_of : ℕ → Wp → Sp) (expired_of : ℕ → Wp → Bool) where
  unfoldable pub lock_foreign : ℕ → ForeignVoidWeakPtr Wp → Option (ForeignVoidSharedPtr Sp)
  unfolding wrap_shared
  lock_foreign t w = w.weak_impl >>= λ p. some (wrap_shared (lock_of t p))

  unfoldable pub expired_foreign : ℕ → ForeignVoidWeakPtr Wp → Option Bool
  expired_foreign t w = w.weak_impl >>= λ p. some (expired_of t p)
