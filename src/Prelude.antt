-- ===== src/Prelude.antt =====
-- The names that the modules share: the libraries', passed on, and those of the children.
mod Tests
mod Lists
mod Text
mod Rounding
mod Chars
mod Bytes
mod Patterns
mod Decimal
pub mod Int
pub mod Shuffles
pub mod Yields
pub use Tests.*
pub use Lists.*
pub use Text.*
unfoldable pub use Text.{lookup, insert, update}
unfoldable pub use Chars.{
  is_blank, byte_count, is_part, is_sha256_digest, split_colon, starts_with, count_colons,
  has_space, is_stripped, has_control, is_suffix, without_slashes, strip, is_true, is_false,
}
pub use Chars.{char_count}
unfoldable pub use Bytes.{codes, plain_letters, byte_prefix}
pub use Bytes.{byte_count-byte_prefix, codes-byte_prefix}
unfoldable pub use Patterns.{is_identifier, is_reference, decimal_units}
unfoldable pub use Decimal.{decimal, join_nul}
pub use Rounding.*
unfoldable pub use Rounding.{round_half_even}
pub use Prim.Native.Nat.{
  ℕ, zero, suc, ◌+◌, ◌-◌, ◌*◌, ◌/◌, ◌%◌, ◌^◌, ◌≤◌, ◌<◌, min, max, compare, Ordering,
}
pub use Prim.Native.String.{String}
pub use mathlib.Core.Path.{◌≡◌, refl, sym, ap, ap₂, ◌∙◌, subst}
pub use mathlib.Core.Logic.{◌≢◌, ◌↔◌, ◌⊎◌, inl, inr}
pub use mathlib.Core.Bool.{Bool, true, false, not, ◌&&◌, ◌||◌}
pub use mathlib.Core.Option.{Option, none, some}
pub use mathlib.Core.List.{List, [], ◌∷◌, ◌++◌, map}
pub use native.Mathlib.Omega.{arith}
