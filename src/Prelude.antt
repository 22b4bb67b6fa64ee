-- ===== src/Prelude.antt =====
-- The names that the other modules share: the libraries', passed on, and those of the children.
mod Tests
mod Lists
mod Int
pub use Tests.*
pub use Lists.{
  length-append, take-length, length-set, get_elem?-set_self, get_elem?_beyond, get_elem?-set_ne,
  elem-append, elem-remove_self, elem-remove_ne, elem-remove, remove_absent, length-remove-le,
  remove-distinct, snoc-distinct, Each-remove, Each-of_elem, pigeonhole,
}
unfoldable pub use Lists.{length, take, get_elem?, set, replicate, elem, remove, distinct, Each}
pub use Int.{ℤ, pos, negsuc, invalid, is_negative, leb_ℤ, eqb_ℤ-eq, eqb_ℤ_refl, eqb_ℤ_ne}
unfoldable pub use Int.{eqb_ℤ}
pub use Prim.Native.Nat.{ℕ, zero, suc, ◌+◌, ◌-◌, ◌*◌, ◌/◌, ◌%◌, ◌^◌, ◌≤◌, ◌<◌}
pub use mathlib.Core.Path.{◌≡◌, refl, sym, ap, ◌∙◌, fun_ext}
pub use mathlib.Core.Logic.{◌≢◌, ◌↔◌, ◌⊎◌, inl, inr}
pub use mathlib.Core.Bool.{Bool, true, false, not, ◌&&◌, ◌||◌}
pub use mathlib.Core.Option.{Option, none, some}
pub use mathlib.Core.List.{List, [], ◌∷◌, ◌++◌, map, append_assoc}
pub use native.Mathlib.Omega.{arith}
