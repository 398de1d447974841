-- ===== src/Py.antt =====
-- The part of Python that the scripts use: exceptions, numbers, texts and the values of `json`.
mod Raise
mod Integer
mod Numeric
pub mod Text
pub mod Rounding
mod Values
unfoldable pub use Raise.*
unfoldable pub use Integer.*
unfoldable pub use Numeric.*
unfoldable pub use Rounding.*
unfoldable pub use Text.*
unfoldable pub use Values.*
