-- ===== src/Syscall/Time.antt =====
-- `syscall_handle_gettime` of src/kernel/trap/syscall_time.c, which has a copy of `udiv64_32_full` of
-- src/lib/commonlibs.c. What `rtc_now_ns` returns is an argument.
use aqua_core.Prelude.{ℕ, ◌+◌, ◌*◌, ◌/◌, ◌%◌, ◌^◌, ◌<◌, ◌≡◌, arith, ℤ, pos, u32}
use aqua_core.Commonlibs.Time.{u64, udiv64_32_full}
use aqua_core.Commonlibs.Time.Divide.{udiv64_32_full_lem}

-- `struct time_spec`.
pub record TimeSpec : Type 0 where
  pub sec_lo : ℕ
  pub sec_hi : ℕ
  pub nsec : ℕ

abbrev pub write_user_time_info : ℕ → ℕ → TimeSpec
write_user_time_info sec nsec = record {
  sec_lo = sec % u32;
  sec_hi = sec / 2 ^ 32 % u32;
  nsec = nsec;
}

-- What is stored at the pointer, if it is not NULL.
unfoldable pub syscall_handle_gettime : ℕ → ℤ × TimeSpec
syscall_handle_gettime now_ns =
    let (sec, nsec) = udiv64_32_full now_ns 1000000000 in (pos 0, write_user_time_info sec nsec)

-- The fields are words, and stand for the time.
pub record IsTime (now_ns : ℕ) (t : TimeSpec) : Type 0 where
  pub sec_lo : t.sec_lo < 2 ^ 32
  pub sec_hi : t.sec_hi < 2 ^ 32
  pub nsec : t.nsec < 1000000000
  pub sum : (t.sec_hi * 2 ^ 32 + t.sec_lo) * 1000000000 + t.nsec ≡ now_ns

-- For every 64-bit number of nanoseconds, `syscall_handle_gettime` stores the whole seconds in two
-- words, and the nanoseconds that are left, fewer than a second: nothing is lost.
pub syscall_handle_gettime-IsTime :
    (now_ns : ℕ) → now_ns < u64 → IsTime now_ns (syscall_handle_gettime now_ns).1
unfolding syscall_handle_gettime
syscall_handle_gettime-IsTime now_ns lt =
    let r = udiv64_32_full now_ns 1000000000 in
    let d = udiv64_32_full_lem now_ns 1000000000 lt (omega arith) (omega arith) in
    record {
      sec_lo = omega arith;
      sec_hi = omega arith;
      nsec = d.small;
      sum = omega (arith, d.sum, d.small);
    }
