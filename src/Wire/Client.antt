-- ===== src/Wire/Client.antt =====
-- The client's side of a request: `connect_to_supervisor` and `send_request_to_supervisor` of
-- engine.c, over what the socket calls return.
use os_jackfruit.Prelude.{
  ℕ, ◌≡◌, ◌≤◌, ◌⊎◌, Bool, true, false, not, List, [], Option, none, some, ℤ, pos, minus_one, eq_ℤ,
  is_negative, if◌then◌else◌, length, arith,
}
use os_jackfruit.Wire.{SendResult, RecvResult, send_all, recv_all}
use os_jackfruit.Wire.Transfer.{
  Sends, sends, Flows, stream, send_all_complete, recv_all_complete, recv_all_sound,
}

-- Whether `socket` and `connect` succeed.
pub record ConnectAnswers : Type 0 where
  pub socket_ok : Bool
  pub connect_ok : Bool

-- The return code, 0 standing for the descriptor, and whether a socket is left open.
unfoldable pub connect_to_supervisor : ConnectAnswers → ℤ × Bool
connect_to_supervisor a =
    if not a.socket_ok
    then (minus_one, false)
    else if not a.connect_ok
    then (minus_one, false)
    else (pos 0, true)

-- What a request comes to: the return code, the bytes of the response that were received, and
-- whether a socket is left open.
pub record Exchange : Type 0 where
  pub code : ℤ
  pub received : List ℕ
  pub left_open : Bool

-- From the first byte of the response on.
unfoldable pub receive_response : List RecvResult → ℕ → Option Exchange
receive_response recvs size = elim (recv_all recvs size) [
  | none ↦ none
  | some (code, out) ↦ some record {
    code = if eq_ℤ code (pos 0) then pos 0 else pos 1;
    received = out;
    left_open = false;
  }
]

-- `none`: the thread is still sending or receiving.
unfoldable pub send_request_to_supervisor :
    ConnectAnswers → List SendResult → List RecvResult → List ℕ → ℕ → Option Exchange
unfolding connect_to_supervisor receive_response
send_request_to_supervisor a to from request size =
    let (fd, opened) = connect_to_supervisor a in
    if is_negative fd
    then some record { code = pos 1; received = []; left_open = opened }
    else elim (send_all to request) [
      | none ↦ none
      | some (code, out) ↦
          if not (eq_ℤ code (pos 0))
          then some record { code = pos 1; received = []; left_open = false }
          else receive_response from size
    ]

-- A request over a connection that neither fails nor stalls, whichever way the stream cuts it up,
-- returns 0 with exactly the bytes of the response that came back.
pub request_complete :
    (a : ConnectAnswers) (to : List SendResult) (from : List RecvResult) (request : List ℕ)
    (size : ℕ)
    → a.socket_ok ≡ true
    → a.connect_ok ≡ true
    → Sends to
    → length request ≤ sends to
    → Flows from
    → length (stream from) ≡ size
    → send_request_to_supervisor a to from request size
      ≡ some (record { code = pos 0; received = stream from; left_open = false })
unfolding send_request_to_supervisor
request_complete a to from request size s c ok enough flows all =
    ground (arith, send_all_complete to request ok enough, recv_all_complete from size flows all)

-- However a request ends, its socket is closed, and the code is 1, or it is 0 and a response of
-- full size was received.
pub request_ends :
    (a : ConnectAnswers) (to : List SendResult) (from : List RecvResult) (request : List ℕ)
    (size : ℕ) (x : Exchange)
    → send_request_to_supervisor a to from request size ≡ some x
    → (x.left_open ≡ false) × ((x.code ≡ pos 1) ⊎ ((x.code ≡ pos 0) × (length x.received ≡ size)))
unfolding send_request_to_supervisor
request_ends a to from request size x h = ground (arith, recv_all_sound from size x.received)
