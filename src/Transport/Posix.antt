-- ===== src/Transport/Posix.antt =====
-- Answers of POSIX calls that the TCP and the RTU transport both read.

-- What `poll` answers: below 0, 0, or above.
pub data Polled : Type 0 where
  poll_failed : Polled
  poll_expired : Polled
  poll_ready : Polled
