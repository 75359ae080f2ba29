-- ===== src/Starter/Stubs.antt =====
-- What boilerplate/engine.c and boilerplate/monitor.c leave to be done: the functions that return a
-- constant, the few complete ones that no command reaches, and the timer of the module.
use os_jackfruit.Prelude.{
  ap, ◌∙◌, sym, str_eq, if◌then◌else◌, ℕ, ◌+◌, ◌*◌, ◌≡◌, Bool, true, false, ℤ, pos, minus_one,
  CString, codes, refl,
}
use os_jackfruit.Starter.Options.{ControlRequest}

-- `container_state_t`, and `default` stands for any other number.
pub data ContainerState : Type 0 where
  container_starting container_running container_stopped container_killed container_exited :
      ContainerState
  default : ContainerState

unfoldable pub state_to_string : ContainerState → CString
state_to_string container_starting = codes "starting"
state_to_string container_running = codes "running"
state_to_string container_stopped = codes "stopped"
state_to_string container_killed = codes "killed"
state_to_string container_exited = codes "exited"
state_to_string default = codes "unknown"

-- The texts tell the states apart.
abbrev read_state : CString → ContainerState
read_state text =
    if str_eq text (codes "starting")
    then container_starting
    else if str_eq text (codes "running")
    then container_running
    else if str_eq text (codes "stopped")
    then container_stopped
    else if str_eq text (codes "killed")
    then container_killed
    else if str_eq text (codes "exited")
    then container_exited
    else default

pub state_to_string-injective :
    (s t : ContainerState) → state_to_string s ≡ state_to_string t → s ≡ t
unfolding state_to_string str_eq
state_to_string-injective s t e = sym (reads s) ∙ ap read_state e ∙ reads t
  where
    reads : (u : ContainerState) → read_state (state_to_string u) ≡ u
    reads container_starting = refl
    reads container_running = refl
    reads container_stopped = refl
    reads container_killed = refl
    reads container_exited = refl
    reads default = refl

-- `bounded_buffer_t` without its items and its primitives.
pub record BoundedBuffer : Type 0 where
  pub head : ℕ
  pub tail : ℕ
  pub count : ℕ
  pub shutting_down : Bool

-- The memory that bounded_buffer_init clears.
abbrev pub cleared : BoundedBuffer
cleared = record { head = 0; tail = 0; count = 0; shutting_down = false }

-- It also wakes every thread that waits on the buffer.
unfoldable pub bounded_buffer_begin_shutdown : BoundedBuffer → BoundedBuffer
bounded_buffer_begin_shutdown b = record b { shutting_down = true }

-- A push and a pop take nothing and give nothing.
unfoldable pub bounded_buffer_push : BoundedBuffer → BoundedBuffer × ℤ
bounded_buffer_push b = (b, minus_one)

unfoldable pub bounded_buffer_pop : BoundedBuffer → BoundedBuffer × ℤ
bounded_buffer_pop b = (b, minus_one)

-- The code that the first process of a container would return.
unfoldable pub child_fn : ℤ
child_fn = pos 1

-- A request goes nowhere, and counts as sent.
unfoldable pub send_control_request : ControlRequest → ℤ
send_control_request req = pos 0

-- When the timer of the module fires it sets its next time, one second later.
abbrev pub check_interval_sec : ℕ
check_interval_sec = 1

unfoldable pub timer_callback : ℕ → ℕ → ℕ
timer_callback hz jiffies = jiffies + check_interval_sec * hz
