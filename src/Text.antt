-- ===== src/Text.antt =====
-- What the program takes from Go's `strings` and `strconv`, over bytes.
mod Decimal
mod Index
unfoldable pub use Decimal.{parse_int, parse_digits, format_int, is_digit}
pub use Decimal.{parse_int-format_int, has_byte-format_int, max_int64}
unfoldable pub use Index.{has_byte, index_byte, last_index_byte, split_on}
pub use Index.{last_index_byte-split, cons_first}
