-- ===== src/Wire/Tests.antt =====
-- A short message, cut up and interrupted.
use os_jackfruit.Prelude.{ℕ, List, [], ◌∷◌, true, false, some, pos, refl, ◌≡◌, ◌⊎◌, arith, length}
use os_jackfruit.Wire.{recv_all, send_all, SendResult, RecvResult, sent, chunk, closed}
use os_jackfruit.Wire.Client.{
  ConnectAnswers, Exchange, connect_to_supervisor, receive_response, send_request_to_supervisor,
  request_complete, request_ends,
}

abbrev message : List ℕ
message = 1 ∷ 2 ∷ 3 ∷ []

abbrev sends_it : List SendResult
sends_it = sent 2 ∷ SendResult.interrupted ∷ sent 1 ∷ sent 1 ∷ []

abbrev receives_it : List RecvResult
receives_it = chunk (1 ∷ []) ∷ RecvResult.interrupted ∷ chunk (2 ∷ 3 ∷ []) ∷ []

abbrev connects : ConnectAnswers
connects = record { socket_ok = true; connect_ok = true }

request_complete_example :
    send_request_to_supervisor connects sends_it receives_it message 3
    ≡ some (record { code = pos 0; received = message; left_open = false })
request_complete_example =
    request_complete connects sends_it receives_it message 3 refl refl
      (omega arith, (omega arith, (omega arith, tt))) (omega arith) ((λ e. cc), ((λ e. cc), tt))
      (omega arith)

-- The supervisor goes away in the middle of its response.
abbrev cut_short : Exchange
cut_short = record { code = pos 1; received = 1 ∷ []; left_open = false }

request_ends_example :
    (cut_short.left_open ≡ false)
    × ((cut_short.code ≡ pos 1) ⊎ ((cut_short.code ≡ pos 0) × (length cut_short.received ≡ 3)))
unfolding send_request_to_supervisor connect_to_supervisor receive_response send_all recv_all
request_ends_example =
    request_ends connects sends_it (chunk (1 ∷ []) ∷ closed ∷ []) message 3 cut_short refl

no_supervisor :
    send_request_to_supervisor
      (record connects { connect_ok = false })
      sends_it
      receives_it
      message
      3
    ≡ some (record { code = pos 1; received = []; left_open = false })
unfolding send_request_to_supervisor connect_to_supervisor
no_supervisor = refl
