-- ===== src/Text.antt =====
-- Go strings as byte lists, and the functions of Go's `strings` and `strconv` packages that the
-- program calls. Case and white space are those of ASCII text.
mod Search
mod Case
mod Space
mod Decimal
unfoldable pub use Search.*
unfoldable pub use Case.*
unfoldable pub use Space.*
unfoldable pub use Decimal.*
