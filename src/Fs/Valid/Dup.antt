-- ===== src/Fs/Valid/Dup.antt =====
-- `fs_dup2` of src/kernel/fs/fs.c keeps the state well-formed.
use aqua_core.Prelude.{
  ℕ, ◌<◌, ◌≡◌, ◌≢◌, refl, true, false, arith, ◌==◌, Bool-cases, inl, inr, ℤ, some, Option-cases,
  index_below, index_below-lt,
}
use aqua_core.Fs.Nodefs.{FdTable, procs_max, fd_max}
use aqua_core.Fs.Vfs.{Fs, set_fd}
use aqua_core.Fs.Api.{closed_fd, fs_close, close_used, fs_dup2}
use aqua_core.Fs.Valid.{IsValid}
use aqua_core.Fs.Valid.Change.{IsValid-fds, AllOpen-set_fd}

-- Closing one descriptor leaves another one used.
used-closed :
    (fds : FdTable) (p o n : ℕ)
    → o ≢ n
    → (fds p o).used ≡ true
    → (set_fd fds p n closed_fd p o).used ≡ true
used-closed fds p o n ne u = ground arith

module _ {D : Type 0} where
  -- A copy of a used descriptor is as open as the original.
  IsValid-copied :
      (st : Fs D) (p o n : ℕ)
      → p < procs_max
      → o < fd_max
      → (st.fd_table p o).used ≡ true
      → IsValid st
      → IsValid (record st {
        fd_table = set_fd st.fd_table p n (record (st.fd_table p o) { used = true });
      })
  IsValid-copied st p o n hp ho u v =
      let f = v.fd p o hp ho u in
      IsValid-fds st v _ (
        AllOpen-set_fd st v p n _ (λ used. record {
          mount = f.mount;
          at_mount = f.at_mount;
          mount_bounded = f.mount_bounded;
          mount_used = f.mount_used;
          node = f.node;
          at_node = f.at_node;
          file = f.file;
          offset = f.offset;
        }))

  close_used-used :
      (st : Fs D) (pid new_fd : ℤ) (p n : ℕ)
      → index_below procs_max pid ≡ some p
      → index_below fd_max new_fd ≡ some n
      → (st.fd_table p n).used ≡ true
      → close_used st pid new_fd p n
        ≡ (some tt, record st { fd_table = set_fd st.fd_table p n closed_fd })
  unfolding close_used fs_close
  close_used-used st pid new_fd p n e f u = rw (e, fs_close, f, u) refl

  close_used-unused :
      (st : Fs D) (pid new_fd : ℤ) (p n : ℕ)
      → (st.fd_table p n).used ≡ false
      → close_used st pid new_fd p n ≡ (some tt, st)
  unfolding close_used
  close_used-unused st pid new_fd p n u = rw u refl

  pub fs_dup2-IsValid :
      (st : Fs D) (pid old_fd new_fd : ℤ) → IsValid st → IsValid (fs_dup2 st pid old_fd new_fd).1
  unfolding fs_dup2
  fs_dup2-IsValid st pid old_fd new_fd v = elim (Option-cases (index_below procs_max pid)) [
    | inl e ↦ rw (e, fs_dup2) v
    | inr (p, e) ↦ elim (Option-cases (index_below fd_max old_fd)) [
      | inl f ↦ rw (e, fs_dup2, f) v
      | inr (o, f) ↦ elim (Option-cases (index_below fd_max new_fd)) [
        | inl g ↦ rw (e, fs_dup2, f, g) v
        | inr (n, g) ↦ elim (Bool-cases (st.fd_table p o).used) [
          | inr u ↦ rw (e, fs_dup2, f, g, u) v
          | inl u ↦ elim (Bool-cases (o == n)) [
            | inl s ↦ rw (e, fs_dup2, f, g, u, s) v
            | inr s ↦
                let hp = index_below-lt procs_max pid e in
                let ho = index_below-lt fd_max old_fd f in
                elim (Bool-cases (st.fd_table p n).used) [
                  | inl w ↦
                      rw (e, fs_dup2, f, g, u, s, close_used-used st pid new_fd p n e g w)
                        (IsValid-copied (record st { fd_table = set_fd st.fd_table p n closed_fd })
                          p o n hp ho (used-closed st.fd_table p o n (λ h. ground arith) u)
                          (IsValid-fds st v _ (AllOpen-set_fd st v p n closed_fd (λ h. cc))))
                  | inr w ↦
                      rw (e, fs_dup2, f, g, u, s, close_used-unused st pid new_fd p n w)
                        (IsValid-copied st p o n hp ho u v)
                ]
          ]
        ]
      ]
    ]
  ]
