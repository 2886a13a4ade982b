-- ===== src/Packet/Frame.antt =====
-- The layout of a packet, independently of the code that writes it: a preheader, the message and,
-- where the transport has them, the exclusive or and the sum of all that stands before.
use libtta.Base.{
  ℕ, ◌+◌, ◌≤◌, ◌<◌, ◌≡◌, refl, List, [], ◌∷◌, ◌++◌, length, length-append, length-drop, drop, arith,
  u8,
}
use native.Mathlib.Decide.{dec_lt}
use libtta.Base.Run.{ok, fault, then_run, pure, ◌>>=◌}
use libtta.Base.Buffer.{
  store, overwrite, store-overwrite, copy_bytes-overwrite, store-fault, copy_bytes-fault,
}
use libtta.Checksum.{sum_add}
use libtta.Checksum.Laws.{xor_bytes, total, sum_xor-append, sum_add-append}
use libtta.Context.{State}
use libtta.Message.{Ttamsg, hd_size}
use libtta.Packet.{append_data}

-- The two sums behind `body`.
abbrev pub with_xor : List ℕ → List ℕ
with_xor body = body ++ xor_bytes 0 body ∷ []

abbrev pub with_sums : List ℕ → List ℕ
with_sums body = with_xor body ++ u8 (total (with_xor body)) ∷ []

pub length-with_sums : (body : List ℕ) → length (with_sums body) ≡ length body + 2
length-with_sums body = omega (
  arith,
  length-append (with_xor body) (u8 (total (with_xor body)) ∷ []),
  length-append body (xor_bytes 0 body ∷ []),
)

module _ {D W : Type 0} where
  -- Behind a header of `hdlen` bytes `append_data` writes the data and the two sums.
  pub append_data-with_sums :
      (buf front bytes : List ℕ) (ttamsg : Ttamsg) (hdlen c : ℕ) (st : State D W)
      → length front ≡ hdlen
      → drop hd_size ttamsg.buf ≡ bytes
      → hdlen + length bytes + 2 ≤ length buf
      → append_data hdlen c ttamsg (length bytes) (overwrite buf front) st
        ≡ ok ((hdlen + length bytes + c, overwrite buf (with_sums (front ++ bytes))), st)
  unfolding append_data
  append_data-with_sums buf front bytes ttamsg hdlen c st e d fits =
      let body = front ++ bytes in
      let le : length body ≡ hdlen + length bytes = omega (arith, length-append front bytes) in
      let le' : length (with_xor body) ≡ hdlen + length bytes + 1 =
        omega (arith, length-append body (xor_bytes 0 body ∷ [])) in
      rw
        (
          d,
          copy_bytes-overwrite bytes buf front hdlen st e (omega arith),
          sum_xor-append (hdlen + length bytes) body (drop (length body) buf) st le,
          store-overwrite buf body (hdlen + length bytes) (xor_bytes 0 body) st le (omega arith),
          sum_add-append (hdlen + length bytes + 1) (with_xor body)
              (drop (length (with_xor body)) buf) st le',
          store-overwrite buf (with_xor body) (hdlen + length bytes + 1)
              (u8 (total (with_xor body))) st le' (omega arith),
        )
        refl

  -- Where the packet is longer than the buffer, `append_data` writes past it.
  pub append_data-fault :
      (buf front bytes : List ℕ) (ttamsg : Ttamsg) (hdlen c : ℕ) (st : State D W)
      → length front ≡ hdlen
      → drop hd_size ttamsg.buf ≡ bytes
      → hdlen ≤ length buf
      → length buf < hdlen + length bytes + 2
      → append_data hdlen c ttamsg (length bytes) (overwrite buf front) st ≡ fault
  unfolding append_data
  append_data-fault buf front bytes ttamsg hdlen c st e d hd short =
      elim (dec_lt (length buf) (hdlen + length bytes)) [
        | yes over ↦ rw (d, copy_bytes-fault bytes buf front hdlen st e hd over)
        | no fits ↦
            rw
              (
                d,
                copy_bytes-overwrite bytes buf front hdlen st e (omega arith),
                sum_xor-append (hdlen + length bytes) body (drop (length body) buf) st le,
              )
              (sums (hdlen + length bytes) le (omega arith) (omega arith))
      ]
    where
      body : List ℕ
      body = front ++ bytes

      le : length body ≡ hdlen + length bytes
      le = omega (arith, length-append front bytes)

      sums :
          (n : ℕ)
          → length body ≡ n
          → n ≤ length buf
          → length buf < n + 2
          → then_run {B = ℕ × List ℕ} (store (overwrite buf body) n (xor_bytes 0 body) st) (λ pkt2.
            sum_add pkt2 (n + 1) >>= λ add. store pkt2 (n + 1) add >>= λ pkt3. pure (n + c, pkt3))
            ≡ fault
      sums n e' le' short' = elim (dec_lt n (length buf)) [
        | yes room ↦ rw (
          store-overwrite buf body n (xor_bytes 0 body) st e' room,
          sum_add-append (n + 1) (with_xor body) (drop (length (with_xor body)) buf) st
              (omega (arith, length-append body (xor_bytes 0 body ∷ []))),
          store-fault (overwrite buf (with_xor body)) (n + 1) (u8 (total (with_xor body))) st (
              omega (
                arith,
                length-append (with_xor body) (drop (length (with_xor body)) buf),
                length-append body (xor_bytes 0 body ∷ []),
                length-drop (length (with_xor body)) buf,
              )),
        )
        | no full ↦ rw (
            store-fault (overwrite buf body) n (xor_bytes 0 body) st (
              omega (
                arith,
                length-append body (drop (length body) buf),
                length-drop (length body) buf,
              )))
      ]
