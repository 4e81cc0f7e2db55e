-- ===== src/Base.antt =====
-- Names that every module shares: the library's, passed on, and those of the children.
mod Tests
mod Lists
mod Words
mod Maps
mod Text
mod Decimal
pub mod Results
mod Sorted
pub use Tests.*
pub use Lists.*
pub use Words.*
unfoldable pub use Maps.{lookup, insert, remove, retain}
pub use Maps.{
  Key, string_key, str_before, Map, filter_some, beq_refl, lookup-insert, lookup-insert_self,
  lookup-remove, lookup-retain, Distinct, insert-Distinct, remove-Distinct, retain-Distinct,
  length-insert, length-remove-le, length-remove-lt, AllKeys, insert-AllKeys,
}
unfoldable pub use Text.{
  lower_at, lower_char, lower, trim, split_once, rsplit_once, split, lines, contains,
}
pub use Text.{
  in_range, is_ascii_digit, is_ascii_lowercase, is_ascii_uppercase, is_ascii_alphanumeric,
  is_ascii_hexdigit, is_whitespace, is_char, byte_len, is_empty, all_chars, any_char,
  starts_with_char, ends_with_char, without_last, trim_start, trim_end, onto_first, lines_of, join,
  concat, lower_twice, contains-append, split_once-append,
}
unfoldable pub use Sorted.{place_sorted, sort_by, dedup}
pub use Sorted.{
  nat_key, pair_key, All-entries, Set, has, put, entries, keep-sort_by, sort_by-All,
  length-keep_mono,
}
unfoldable pub use Decimal.{digits, decimal, number_from, parse_unsigned}
pub use Decimal.{digit_char, at_most, parse_unsigned-decimal, decimal_free, parse_unsigned-le}
pub use Prim.Native.Nat.{ℕ, zero, suc, ◌+◌, ◌-◌, ◌*◌, ◌/◌, ◌%◌, ◌^◌, ◌≤◌, ◌<◌, min, max}
pub use Prim.Native.String.{String, len, ◌++◌ as append}
pub use Prim.Native.Char.{Char, code}
pub use mathlib.Core.Path.{◌≡◌, refl, sym, ap, ◌∙◌, subst}
pub use mathlib.Core.Logic.{◌≢◌, ◌↔◌, ◌⊎◌, inl, inr}
pub use mathlib.Core.Bool.{Bool, true, false, not, ◌&&◌, ◌||◌}
pub use mathlib.Core.Option.{Option, none, some}
pub use mathlib.Core.List.{List, [], ◌∷◌, ◌++◌, map}
pub use native.Mathlib.Omega.{arith}
pub use text.Mathlib.Text.{◌==◌ as str_eq}
pub use text.Mathlib.TextEquality.{eq_iff}
unfoldable pub use native.Mathlib.Decide.{dec_lt, dec_le, ℕ_discrete}
