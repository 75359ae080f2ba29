-- ===== src/Wire/Transfer.antt =====
-- A request or a response arrives as it was sent, however the stream cuts it up.
use os_jackfruit.Prelude.{
  ℕ, zero, suc, ◌-◌, ◌≤◌, ◌≡◌, ◌≢◌, List, [], ◌∷◌, ◌++◌, some, pos, length, take, drop,
  take-append-drop, length-drop, length-take, take_all, length-append, arith, refl, sym, ap, ◌∙◌,
  inl, inr, Option-cases,
}
use os_jackfruit.Wire.{SendResult, sent, RecvResult, chunk, closed, send_all, recv_all}

-- Results without an error in which each `send` takes at least a byte; interruptions may occur.
abbrev pub Sends : List SendResult → Type 0
Sends [] = Unit {0}
Sends (sent n ∷ results) = (n ≢ 0) × Sends results
Sends (SendResult.interrupted ∷ results) = Sends results
Sends (SendResult.failed ∷ results) = ⊥

-- How many of the results take bytes.
abbrev pub sends : List SendResult → ℕ
sends [] = 0
sends (sent n ∷ results) = suc (sends results)
sends (SendResult.interrupted ∷ results) = sends results
sends (SendResult.failed ∷ results) = sends results

-- A sender whose calls each take a byte or more or are interrupted, and of which at least as many
-- take bytes as the buffer is long, returns 0 having sent exactly the buffer.
pub send_all_complete :
    (results : List SendResult) (buf : List ℕ)
    → Sends results
    → length buf ≤ sends results
    → send_all results buf ≡ some (pos 0, buf)
unfolding send_all
send_all_complete results [] ok enough = refl
send_all_complete [] (b ∷ buf) ok enough = absurd (omega arith)
send_all_complete (sent n ∷ results) (b ∷ buf) ok enough =
    let rest =
      send_all_complete results (drop n (b ∷ buf)) ok.1 (omega (arith, length-drop n (b ∷ buf))) in
    rw (rest, send_all) (ap (λ x. some (pos 0, x)) (take-append-drop n (b ∷ buf)))
send_all_complete (SendResult.interrupted ∷ results) (b ∷ buf) ok enough =
    send_all_complete results (b ∷ buf) ok enough
send_all_complete (SendResult.failed ∷ results) (b ∷ buf) ok enough = absurd ok

-- When `send_all` returns 0, the peer was sent exactly the buffer.
send_all_sound :
    (results : List SendResult) (buf out : List ℕ)
    → send_all results buf ≡ some (pos 0, out)
    → out ≡ buf
unfolding send_all
send_all_sound results [] out h = ground arith
send_all_sound [] (b ∷ buf) out h = cc
send_all_sound (sent n ∷ results) (b ∷ buf) out h =
    elim (Option-cases (send_all results (drop n (b ∷ buf)))) [
      | inl stuck ↦ absurd (ground arith)
      | inr ((code, rest), e) ↦
          let ok : code ≡ pos 0 = ground arith in
          let tail : rest ≡ drop n (b ∷ buf) =
            send_all_sound results (drop n (b ∷ buf)) rest (e ∙ ap (λ z. some (z, rest)) ok) in
          ground (arith, take-append-drop n (b ∷ buf))
    ]
send_all_sound (SendResult.interrupted ∷ results) (b ∷ buf) out h =
    send_all_sound results (b ∷ buf) out h
send_all_sound (SendResult.failed ∷ results) (b ∷ buf) out h = ground arith

-- The bytes of the chunks.
abbrev pub stream : List RecvResult → List ℕ
stream [] = []
stream (chunk bs ∷ results) = bs ++ stream results
stream (r ∷ results) = stream results

-- Chunks that are not empty, and interruptions.
abbrev pub Flows : List RecvResult → Type 0
Flows [] = Unit {0}
Flows (chunk bs ∷ results) = (bs ≢ []) × Flows results
Flows (RecvResult.interrupted ∷ results) = Flows results
Flows (closed ∷ results) = ⊥
Flows (RecvResult.failed ∷ results) = ⊥

length-zero : (xs : List ℕ) → length xs ≡ 0 → xs ≡ []
length-zero [] h = refl
length-zero (x ∷ xs) h = absurd (omega arith)

-- A receiver of a stream of exactly the length that it wants returns 0 with the bytes of the
-- stream, in order, however they are cut into chunks and wherever it is interrupted.
pub recv_all_complete :
    (results : List RecvResult) (len : ℕ)
    → Flows results
    → length (stream results) ≡ len
    → recv_all results len ≡ some (pos 0, stream results)
unfolding recv_all
recv_all_complete results zero ok all =
    ap (λ xs. some (pos 0, xs)) (sym (length-zero (stream results) all))
recv_all_complete [] (suc len) ok all = absurd (omega arith)
recv_all_complete (chunk [] ∷ results) (suc len) ok all = absurd (ok.0 refl)
recv_all_complete (chunk (b ∷ bs) ∷ results) (suc len) ok all =
    let whole : take (suc len) (b ∷ bs) ≡ b ∷ bs =
      take_all (suc len) (b ∷ bs) (omega (arith, length-append (b ∷ bs) (stream results))) in
    let rest =
      recv_all_complete results (suc len - length (b ∷ bs)) ok.1
        (omega (arith, length-append (b ∷ bs) (stream results))) in
    ground arith
recv_all_complete (closed ∷ results) (suc len) ok all = absurd ok
recv_all_complete (RecvResult.interrupted ∷ results) (suc len) ok all =
    recv_all_complete results (suc len) ok all
recv_all_complete (RecvResult.failed ∷ results) (suc len) ok all = absurd ok

-- When `recv_all` returns 0, it has written as many bytes as were asked for.
pub recv_all_sound :
    (results : List RecvResult) (len : ℕ) (out : List ℕ)
    → recv_all results len ≡ some (pos 0, out)
    → length out ≡ len
unfolding recv_all
recv_all_sound results zero out h = ground arith
recv_all_sound [] (suc len) out h = cc
recv_all_sound (chunk [] ∷ results) (suc len) out h = ground arith
recv_all_sound (chunk (b ∷ bs) ∷ results) (suc len) out h =
    let got = take (suc len) (b ∷ bs) in
    elim (Option-cases (recv_all results (suc len - length got))) [
      | inl stuck ↦ absurd (ground arith)
      | inr ((code, rest), e) ↦
          let ok : code ≡ pos 0 = ground arith in
          let tail : length rest ≡ suc len - length got =
            recv_all_sound results (suc len - length got) rest (e ∙ ap (λ z. some (z, rest)) ok) in
          ground (arith, length-append got rest, length-take (suc len) (b ∷ bs))
    ]
recv_all_sound (closed ∷ results) (suc len) out h = ground arith
recv_all_sound (RecvResult.interrupted ∷ results) (suc len) out h =
    recv_all_sound results (suc len) out h
recv_all_sound (RecvResult.failed ∷ results) (suc len) out h = ground arith
