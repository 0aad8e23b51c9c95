-- ===== src/Value.antt =====
-- Python values as the JSON columns and the call arguments hold them.
-- A finite float is an integer count of 2 ^ -1074, of which every finite double is a multiple; an
-- int is brought to the same unit where the two are compared. Arithmetic on these counts is exact.
mod Access
mod Equality
pub use Access.*
unfoldable pub use Equality.{value_eq, dict_eq}
mod Numbers
unfoldable pub use Numbers.{one, quanta_of_int, float_limit, is_finite, amount}
