-- ===== src/Child.antt =====
-- The first process of a container (engine.c): `child_main`, which `clone` starts in namespaces of
-- its own, from its copy of the supervisor's descriptors to the `execl` of its command.
pub mod Descriptors
mod Tests
use os_jackfruit.Prelude.{
  ℕ, Bool, true, false, not, ◌&&◌, List, [], ◌∷◌, ◌++◌, Option, none, some, ℤ, pos, negsuc, eq_ℤ,
  CString, codes, if◌then◌else◌, ◌==◌,
}
use os_jackfruit.Protocol.{Request, safe_strcpy, max_id_len, max_path_len, max_cmd_len}

-- `child_arg_t`
pub record ChildArg : Type 0 where
  pub id : CString
  pub rootfs : CString
  pub command : CString
  pub nice_value : ℤ
  pub write_fd : ℤ

-- What `start_container_internal` fills in for a request.
unfoldable pub child_arg_of : Request → ℤ → ChildArg
child_arg_of req write_fd = record {
  id = safe_strcpy [] (some req.id) max_id_len;
  rootfs = safe_strcpy [] (some req.rootfs) max_path_len;
  command = safe_strcpy [] (some req.command) max_cmd_len;
  nice_value = req.nice_value;
  write_fd = write_fd;
}

-- What a descriptor refers to; the number of a pipe tells the pipes apart.
pub data File : Type 0 where
  pipe_read pipe_write : ℕ → File
  dev_null : File
  inherited : ℕ → File

-- A descriptor table; `none` is a descriptor that is not open.
abbrev pub Descriptors : Type 0
Descriptors = ℕ → Option File

abbrev set_fd : Descriptors → ℕ → Option File → Descriptors
set_fd fds fd file other = if fd == other then file else fds other

-- dup2: it fails, and changes nothing, if the first descriptor is not open.
abbrev pub dup2 : ℕ → ℕ → Descriptors → Descriptors
dup2 from to fds = elim (fds from) [ none ↦ fds | some file ↦ set_fd fds to (some file) ]

abbrev pub close_fd : ℕ → Descriptors → Descriptors
close_fd fd fds = set_fd fds fd none

-- open, which gives the number `fd`
abbrev pub open_fd : ℕ → File → Descriptors → Descriptors
open_fd fd file fds = set_fd fds fd (some file)

-- What the process does that the rest of the system sees, in order. Its `mkdir` of /proc and its
-- error messages are left out.
pub data ChildEvent : Type 0 where
  hostname_set : CString → ChildEvent
  root_made_private : ChildEvent
  root_changed : CString → ChildEvent
  directory_changed : ChildEvent
  proc_mounted : ChildEvent
  priority_set : ℤ → ChildEvent
  printed : CString → ChildEvent

-- How it goes on: the shell runs the command, or the process exits.
pub data Ending : Type 0 where
  executes : CString → Ending
  exits : ℕ → Ending

-- What the system answers; `dev_null_fd` is what `open` returns for /dev/null.
pub record ChildAnswers : Type 0 where
  pub dev_null_fd : Option ℕ
  pub sethostname_ok : Bool
  pub make_private_ok : Bool
  pub chroot_ok : Bool
  pub chdir_ok : Bool
  pub mount_proc_ok : Bool
  pub setpriority_ok : Bool
  pub exec_ok : Bool

-- Standard output and error go to the pipe.
unfoldable pub redirect_output : ℤ → Descriptors → Descriptors
redirect_output (negsuc n) fds = fds
redirect_output (pos fd) fds = close_fd fd (dup2 fd 2 (dup2 fd 1 fds))

-- Standard input comes from /dev/null.
unfoldable pub redirect_input : Option ℕ → Descriptors → Descriptors
redirect_input none fds = fds
redirect_input (some fd) fds = close_fd fd (dup2 fd 0 (open_fd fd dev_null fds))

abbrev emit : Bool → ChildEvent → List ChildEvent
emit ok event = if ok then event ∷ [] else []

-- What the process leaves to the program that it executes, or when it exits.
pub record ChildResult : Type 0 where
  pub descriptors : Descriptors
  pub events : List ChildEvent
  pub ending : Ending

-- After the change of root and directory.
unfoldable pub enter_root : ChildAnswers → ChildArg → List ChildEvent × Ending
enter_root a child = (
  emit a.mount_proc_ok proc_mounted
      ++ (emit (not (eq_ℤ child.nice_value (pos 0)) && a.setpriority_ok)
            (priority_set child.nice_value)
          ++ (printed
                (codes "Container " ++ (child.id ++ codes " started inside isolated rootfs\n"))
              ∷ [])),
  if a.exec_ok then executes child.command else exits 127,
)

-- Before the change of root.
unfoldable pub early : ChildAnswers → ChildArg → List ChildEvent
early a child =
    emit a.sethostname_ok (hostname_set child.id) ++ emit a.make_private_ok root_made_private

unfoldable pub child_main : ChildAnswers → ChildArg → Descriptors → ChildResult
unfolding redirect_output redirect_input enter_root early
child_main a child fds =
    let ready = redirect_input a.dev_null_fd (redirect_output child.write_fd fds) in
    let (inside, ending) = enter_root a child in
    if not a.chroot_ok
    then record { descriptors = ready; events = early a child; ending = exits 1 }
    else if not a.chdir_ok
    then record {
      descriptors = ready;
      events = early a child ++ root_changed child.rootfs ∷ [];
      ending = exits 1;
    }
    else record {
      descriptors = ready;
      events = early a child ++ (root_changed child.rootfs ∷ directory_changed ∷ inside);
      ending = ending;
    }
