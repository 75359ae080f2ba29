-- ===== src/Wire.antt =====
-- `send_all` and `recv_all` of engine.c, over what the calls of `send` and `recv` return.
pub mod Transfer
pub mod Client
mod Tests
use os_jackfruit.Prelude.{
  ℕ, zero, suc, ◌-◌, List, [], ◌∷◌, ◌++◌, Option, none, some, ℤ, pos, minus_one, length, take, drop,
}

-- What one `send` comes to: a number of bytes taken, EINTR or another error.
pub data SendResult : Type 0 where
  sent : ℕ → SendResult
  interrupted failed : SendResult

-- The return code with the bytes that the peer was sent; `none`: the results ran out while the
-- thread was still sending.
unfoldable pub send_all : List SendResult → List ℕ → Option (ℤ × List ℕ)
send_all results [] = some (pos 0, [])
send_all [] (b ∷ buf) = none
send_all (sent n ∷ results) (b ∷ buf) = elim (send_all results (drop n (b ∷ buf))) [
  | none ↦ none
  | some (code, out) ↦ some (code, take n (b ∷ buf) ++ out)
]
send_all (interrupted ∷ results) (b ∷ buf) = send_all results (b ∷ buf)
send_all (failed ∷ results) (b ∷ buf) = some (minus_one, [])

-- What one `recv` comes to: a chunk, the end of the stream, EINTR or another error.
pub data RecvResult : Type 0 where
  chunk : List ℕ → RecvResult
  closed interrupted failed : RecvResult

-- The return code with the bytes written to the buffer, for `len` bytes wanted; `recv` gives at
-- most what is asked for, and an empty chunk is the end of the stream.
unfoldable pub recv_all : List RecvResult → ℕ → Option (ℤ × List ℕ)
recv_all results zero = some (pos 0, [])
recv_all [] (suc len) = none
recv_all (chunk [] ∷ results) (suc len) = some (minus_one, [])
recv_all (chunk (b ∷ bs) ∷ results) (suc len) =
    let got = take (suc len) (b ∷ bs) in
    elim (recv_all results (suc len - length got)) [
      | none ↦ none
      | some (code, out) ↦ some (code, got ++ out)
    ]
recv_all (closed ∷ results) (suc len) = some (minus_one, [])
recv_all (interrupted ∷ results) (suc len) = recv_all results (suc len)
recv_all (failed ∷ results) (suc len) = some (minus_one, [])
