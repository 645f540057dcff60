-- ===== src/User/Sh/Pipeline/Table.antt =====
-- `spawn_command` of sh.rs on the kernel's descriptor tables: the laws that Stdio takes, proved of
-- Fd.Table.
use crabv.Base.{
  ℕ, ◌+◌, ◌-◌, ◌*◌, ◌^◌, ◌≤◌, ◌<◌, ◌≡◌, refl, ap, ◌∙◌, Bool, Option, none, some, List, [], ◌∷◌,
  arith, ok, err, length, get_or, get_or-set, Option-cases, inl, inr,
}
use mathlib.Core.Path.{fun_ext}
use crabv.Fd.Error.{FdResult}
use crabv.Fd.PipeTable.{PipeTable, usize_max}
use crabv.Fd.Table as Table
use crabv.Fd.Table.{FdTable, FileDescriptor, max_fds, put_fd, clone_table}
use crabv.Fd.Table.Count.{weight, count}
use crabv.Fd.Table.Balance.{IsBalanced, index_of_open, close-IsBalanced, close-none, close-some}
use crabv.Fd.Table.Copy.{weight-le-one, clone_table-IsBalanced, dup2-IsBalanced}
use crabv.Syscall.Errno.{fd_errno}
use crabv.User.{CallResult, Calls}
use crabv.User.Sh.Pipeline.Stdio.{put, Descriptors}

-- The descriptors of the shell, and the pipe table.
abbrev pub Tables : Type 0
Tables = FdTable × PipeTable

abbrev pub entries : Tables → ℕ → Option FileDescriptor
entries s k = get_or s.0.fds k none

abbrev dup2_result : ℕ → FdResult (Unit {0}) → CallResult ℕ
dup2_result fd (ok _) = ok fd
dup2_result fd (err e) = err (2 ^ 64 - fd_errno e)

-- The shell on the kernel's tables, whose standard error is the console: `dup2` and `close` are those
-- of `FdTable`, and a spawn copies the table. `start` is what becomes of the program, and `rest` has
-- the calls that `spawn_command` does not make. Who is woken is left out.
abbrev pub table_calls :
    Calls Tables → (List ℕ → List (List ℕ) → FdTable → CallResult ℕ) → Calls Tables
table_calls rest start = record rest {
  write = λ fd bytes s. (ok (length bytes), s);
  close = λ fd s. let (r, t, pt, woken) = Table.close s.0 s.1 fd in (t, pt);
  dup2 = λ a b s. let (r, t, pt, woken) = Table.dup2 s.0 s.1 a b in (dup2_result b r, (t, pt));
  spawn = λ path argv s. let (copy, pt) = clone_table s.0 s.1 in (start path argv copy, (s.0, pt));
}

-- A balanced system, with room below saturation for `n` copies of the table.
Room : ℕ → Tables → Type 0
Room n s =
    (others : ℕ → Bool → ℕ) × IsBalanced others s.0 s.1
    × ((id : ℕ) (e : Bool) → others id e + 17 * (n + 1) ≤ usize_max)

weight-le : (id : ℕ) (e : Bool) (x : Option FileDescriptor) → weight id e x ≤ 1
weight-le id e none = omega arith
weight-le id e (some fd) = weight-le-one id e fd

count-le-length :
    (id : ℕ) (e : Bool) (fds : List (Option FileDescriptor)) → count id e fds ≤ length fds
count-le-length id e [] = omega arith
count-le-length id e (x ∷ fds) = omega (arith, weight-le id e x, count-le-length id e fds)

close-entries :
    (s : Tables) (fd : ℕ)
    → length s.0.fds ≡ max_fds
    → (j : ℕ) → get_or (Table.close s.0 s.1 fd).1.fds j none ≡ put (entries s) fd none j
close-entries (t, pt) fd sized j = elim (Option-cases (get_or t.fds fd none)) [
  | inl free ↦ rw (close-none t pt fd free) (ground (arith, free))
  | inr (x, open_fd) ↦
      let h : fd < max_fds = index_of_open t fd sized open_fd in
      rw (close-some t pt fd h open_fd)
        (ground (arith, get_or-set t.fds fd j none none (omega (arith, sized))))
]

table_calls-Descriptors :
    (rest : Calls Tables) (start : List ℕ → List (List ℕ) → FdTable → CallResult ℕ)
    → Descriptors FileDescriptor (table_calls rest start)
unfolding Room
table_calls-Descriptors rest start = record {
  Valid = Room;
  fds = entries;
  dup2_some = λ n s a b f (others, bal, room) open_fd small.
      let (r, bal', same) =
        dup2-IsBalanced {others = others} s.0 s.1 a b bal
          (λ id e.
            omega (arith, bal.counts id e, room id e, count-le-length id e s.0.fds, bal.sized))
          small open_fd in
      (ap (dup2_result b) r, fun_ext (λ j. same j ∙ ground arith), (others, bal', room));
  close_one = λ n s fd (others, bal, room). (
    fun_ext (close-entries s fd bal.sized),
    (others, (close-IsBalanced {others = others} s.0 s.1 fd bal).0, room),
  );
  write_none = λ n s fd bytes v. (refl, v);
  spawn_none = λ n s path argv (others, bal, room).
      let (same, bal') = clone_table-IsBalanced {others = others} s.0 s.1 bal (λ id e.
        omega (arith, bal.counts id e, room id e, count-le-length id e s.0.fds, bal.sized)) in
      (
        refl,
        (
          λ id e. count id e (clone_table s.0 s.1).0.fds + others id e,
          bal',
          λ id e. rw same (omega (arith, room id e, count-le-length id e s.0.fds, bal.sized)),
        ),
      );
}
