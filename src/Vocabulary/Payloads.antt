-- ===== src/Vocabulary/Payloads.antt =====
-- The typed bodies of runstate/vocabulary/payloads.py. A `parse` is `Cls(**body)`: the keys, then the
-- fields in the order of `__post_init__`. A numeral of Python is a number of `F`.
pub mod Lifecycle
pub mod Supervisor
pub mod Wire
pub mod Valid
pub mod Bodies
pub mod Exits
pub mod RoundTrip
