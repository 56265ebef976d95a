-- ===== src/Core.antt =====
-- lc-lib/core: the descriptor of a log event.
use log_courier.Common.{ℕ, List}

-- core/event.go. A stream is a pointer of the prospector's; here its identity, and `nil_stream`
-- stands for the nil pointer that the code gives standard input. `payload` is the encoded event.
pub record EventDescriptor : Type 0 where
  pub stream : ℕ
  pub offset : ℕ
  pub payload : List ℕ

abbrev pub nil_stream : ℕ
nil_stream = 0
