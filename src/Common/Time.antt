-- ===== src/Common/Time.antt =====
-- `syscall.Timeval`. The times of the program are not negative.
use Prim.Native.Nat.{ℕ}

pub record Timeval : Type 0 where
  pub sec : ℕ
  pub usec : ℕ

abbrev pub zero_time : Timeval
zero_time = record { sec = 0; usec = 0 }
