-- ===== src/Child/Descriptors.antt =====
-- What the first process of a container hands to the program that it executes.
use os_jackfruit.Prelude.{
  ℕ, ◌<◌, ◌≡◌, ◌≢◌, ◌||◌, List, ◌∷◌, ◌++◌, none, some, ℤ, pos, CString, if◌then◌else◌, ◌==◌, ==_iff,
  take_all, arith,
}
use os_jackfruit.Protocol.{Request, Fits, safe_strcpy}
use os_jackfruit.Child.{
  enter_root, early, ChildArg, ChildAnswers, ChildEvent, executes, root_changed, directory_changed,
  pipe_read, pipe_write, dev_null, Descriptors, child_main, child_arg_of, redirect_output,
  redirect_input,
}

child_arg-strings :
    (req : Request) (write_fd : ℤ)
    → Fits req
    → ((child_arg_of req write_fd).command ≡ req.command)
      × ((child_arg_of req write_fd).rootfs ≡ req.rootfs)
unfolding child_arg_of safe_strcpy
child_arg-strings req write_fd f = (
  take_all 255 req.command (omega (arith, f.command_fits)),
  take_all 255 req.rootfs (omega (arith, f.rootfs_fits)),
)

-- A child whose request's strings fit executes nothing but the command of the request, and only
-- after it has changed its root to the root file system of the request and its directory into it.
pub executes_inside_root :
    (a : ChildAnswers) (req : Request) (write_fd : ℤ) (fds : Descriptors) (command : CString)
    → Fits req
    → (child_main a (child_arg_of req write_fd) fds).ending ≡ executes command
    → (command ≡ req.command)
      × (before : List ChildEvent) × (after : List ChildEvent) × ((child_main a
            (child_arg_of req write_fd)
            fds).events
          ≡ before ++ (root_changed req.rootfs ∷ directory_changed ∷ after))
unfolding child_main
executes_inside_root a req write_fd fds command f runs =
    let child = child_arg_of req write_fd in
    let strings = child_arg-strings req write_fd f in
    (ground arith, early a child, (enter_root a child).0, rw (← strings.1) (ground arith))

-- The descriptors that the first process of a container hands on, or has when it exits, if the
-- write end of its pipe and its descriptor for /dev/null are not among the standard ones: its
-- input is /dev/null, its output and its errors go to the pipe, both descriptors are closed
-- again, and every other descriptor of the supervisor is still open in it.
pub child_descriptors :
    (a : ChildAnswers) (child : ChildArg) (fds : Descriptors) (w n p fd : ℕ)
    → child.write_fd ≡ pos w
    → fds w ≡ some (pipe_write p)
    → a.dev_null_fd ≡ some n
    → 2 < w
    → 2 < n
    → (child_main a child fds).descriptors fd ≡ (
        if fd == 0
        then some dev_null
        else if fd == 1 || fd == 2
        then some (pipe_write p)
        else if fd == w || fd == n
        then none
        else fds fd)
unfolding child_main redirect_output redirect_input
child_descriptors a child fds w n p fd is_w open_w is_n big_w big_n = ground arith

-- So a container keeps the read end of its own pipe open, and those of all other pipes that the
-- supervisor has open when it is made.
pub keeps_pipe_ends :
    (a : ChildAnswers) (child : ChildArg) (fds : Descriptors) (w n p q fd : ℕ)
    → child.write_fd ≡ pos w
    → fds w ≡ some (pipe_write p)
    → a.dev_null_fd ≡ some n
    → 2 < w
    → 2 < n
    → 2 < fd
    → fd ≢ n
    → fds fd ≡ some (pipe_read q)
    → (child_main a child fds).descriptors fd ≡ some (pipe_read q)
keeps_pipe_ends a child fds w n p q fd is_w open_w is_n big_w big_n big new at = ground (
  arith,
  child_descriptors a child fds w n p fd is_w open_w is_n big_w big_n,
  ==_iff fd w,
  ==_iff fd n,
)
