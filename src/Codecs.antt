-- ===== src/Codecs.antt =====
-- lc-lib/codecs: what the codecs share. A codec turns the lines of a harvester into events, which
-- it hands to its callback; here an operation returns the events of its callbacks, in order.
pub mod Patterns
pub mod Plain
pub mod Filter
pub mod Multiline
mod Tests
use log_courier.Common.{ℕ, List}

-- A text is the list of its bytes.
abbrev pub Text : Type 0
Text = List ℕ

-- The arguments of `CallbackFunc`.
pub record Emitted : Type 0 where
  pub start_offset : ℕ
  pub end_offset : ℕ
  pub text : Text
