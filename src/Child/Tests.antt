-- ===== src/Child/Tests.antt =====
-- The first process of the container `alpha`.
use os_jackfruit.Prelude.{
  ◌≡◌, true, List, ◌∷◌, ◌++◌, none, some, pos, codes, if◌then◌else◌, ◌==◌, arith, refl,
}
use os_jackfruit.Child.{
  ChildAnswers, ChildEvent, executes, root_changed, directory_changed, pipe_read, pipe_write,
  inherited, Descriptors, child_main, child_arg_of,
}
use os_jackfruit.Child.Descriptors.{executes_inside_root, child_descriptors}
use os_jackfruit.Protocol.{safe_strcpy}
use os_jackfruit.Samples.{alpha_request, alpha_request-Fits}

abbrev answers : ChildAnswers
answers = record {
  dev_null_fd = some 9;
  sethostname_ok = true;
  make_private_ok = true;
  chroot_ok = true;
  chdir_ok = true;
  mount_proc_ok = true;
  setpriority_ok = true;
  exec_ok = true;
}

-- The supervisor has its terminal, its socket, the read ends of two pipes and one write end.
abbrev supervisor_fds : Descriptors
supervisor_fds fd =
    if fd == 5
    then some (pipe_read 0)
    else if fd == 7
    then some (pipe_read 1)
    else if fd == 8
    then some (pipe_write 1)
    else if fd == 9
    then none
    else some (inherited fd)

runs_shell :
    (child_main answers (child_arg_of alpha_request (pos 8)) supervisor_fds).ending
    ≡ executes (codes "/bin/sh")
unfolding child_main child_arg_of safe_strcpy
runs_shell = refl

executes_inside_root_example :
    (codes "/bin/sh" ≡ alpha_request.command)
    × (before : List ChildEvent) × (after : List ChildEvent) × ((child_main answers
          (child_arg_of alpha_request (pos 8))
          supervisor_fds).events
        ≡ before ++ (root_changed alpha_request.rootfs ∷ directory_changed ∷ after))
executes_inside_root_example =
    executes_inside_root answers alpha_request (pos 8) supervisor_fds (codes "/bin/sh")
      alpha_request-Fits runs_shell

-- The container still has the read end of its own pipe.
child_descriptors_example :
    (child_main answers (child_arg_of alpha_request (pos 8)) supervisor_fds).descriptors 7
    ≡ some (pipe_read 1)
unfolding child_arg_of
child_descriptors_example =
    child_descriptors answers (child_arg_of alpha_request (pos 8)) supervisor_fds 8 9 1 7 refl refl
      refl (omega arith) (omega arith)
