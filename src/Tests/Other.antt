-- ===== src/Tests/Other.antt =====
-- Messages, strings, bits, and the packets of the other transports.
use libtta.Base.{
  ℕ, ◌+◌, ◌*◌, ◌/◌, ◌%◌, ◌∙◌, ◌<◌, ◌≡◌, refl, pos, Bool, true, false, none, some, List, [], ◌∷◌,
  replicate, take, drop, ltb, arith,
}
use libtta.Base.Run.{ok, fault, then_run}
use libtta.Context.{State, embbadrfid}
use libtta.Strlcpy.{strlcpy}
use libtta.Strlcpy.Laws.{strlcpy_lem}
use libtta.Data.{
  set_bits_from_byte, get_byte_from_bits, set_float, get_float, set_float_dcba, get_float_dcba,
}
use libtta.Data.Laws.{set_bits_from_byte-get_byte_from_bits, set_float-get_float}
use libtta.Rf.Radio.{Rf}
use libtta.Rf.Packet as RfPacket
use libtta.Rf.Packet.Laws.{pre_check_confirmation-with_id}
use libtta.Cc1120.Setup.{set_ch}
use libtta.Cc1120.Setup.Laws.{set_ch-fault}
use libtta.Tests.Fixture.{chip, radio, with_data}

abbrev two : List ℕ
two = 10 ∷ 20 ∷ []

strlcpy_lem_example :
    strlcpy (replicate 4 9) (65 ∷ 66 ∷ 67 ∷ 0 ∷ 5 ∷ []) 3 tt ≡ ok ((3, 65 ∷ 66 ∷ 0 ∷ 9 ∷ []), tt)
strlcpy_lem_example =
    strlcpy_lem (replicate 4 9) (65 ∷ 66 ∷ 67 ∷ []) (5 ∷ []) 3 tt
      (
        (λ e. absurd (omega (arith, e))),
        ((λ e. absurd (omega (arith, e))), ((λ e. absurd (omega (arith, e))), tt)),
      )
      (omega arith) (omega arith)

set_bits_from_byte-get_byte_from_bits_example :
    (dest' : List ℕ) × (set_bits_from_byte (replicate 10 0) 1 0xA5 tt ≡ ok (dest', tt))
    × (take 1 dest' ≡ take 1 (replicate 10 0))
    × (drop 9 dest' ≡ drop 9 (replicate 10 0))
    × (get_byte_from_bits false dest' 1 8 tt ≡ ok (some 0xA5, tt))
set_bits_from_byte-get_byte_from_bits_example =
    set_bits_from_byte-get_byte_from_bits false 1 0xA5 (replicate 10 0) tt (omega arith)
      (omega arith)

abbrev on_air : State Rf (List ℕ)
on_air = with_data radio []

pre_check_confirmation-with_id_example :
    RfPacket.pre_check_confirmation [] (1 ∷ 2 ∷ 3 ∷ 5 ∷ []) 4 on_air
    ≡ ok (none, record on_air { errno = embbadrfid })
pre_check_confirmation-with_id_example =
    pre_check_confirmation-with_id 1 2 3 4 1 2 3 5 [] [] 4 on_air

set_ch-fault_example : set_ch chip 1 (pos 3) (pos 21) on_air ≡ fault
set_ch-fault_example = set_ch-fault chip 1 (pos 3) (pos 21) on_air (omega arith)

-- Two floats, 0 and 1, with their bits, and the order of the bytes turned round.
abbrev float_bits : Bool → ℕ
float_bits false = 0
float_bits true = 0x3F800000

abbrev bits_float : ℕ → Bool
bits_float n = ltb 0 n

abbrev swap : ℕ → ℕ
swap n = n % 256 * 16777216 + n / 256 % 256 * 65536 + n / 65536 % 256 * 256 + n / 16777216 % 256

float_bits-lt : (f : Bool) → float_bits f < 4294967296
float_bits-lt true = omega arith
float_bits-lt false = omega arith

bits_float-float_bits : (f : Bool) → bits_float (float_bits f) ≡ f
bits_float-float_bits true = refl
bits_float-float_bits false = refl

swap-lt : (n : ℕ) → n < 4294967296 → swap n < 4294967296
swap-lt n h = omega arith

digits :
    (a b c d : ℕ)
    → a < 256
    → b < 256
    → c < 256
    → d < 256
    → swap (a * 16777216 + b * 65536 + c * 256 + d) ≡ d * 16777216 + c * 65536 + b * 256 + a
digits a b c d ha hb hc hd =
    let n = a * 16777216 + b * 65536 + c * 256 + d in
    let e0 : n % 256 ≡ d = omega arith in
    let e1 : n / 256 % 256 ≡ c = omega arith in
    let e2 : n / 65536 % 256 ≡ b = omega arith in
    let e3 : n / 16777216 % 256 ≡ a = omega arith in rw (e0, e1, e2, e3) refl

swap-swap : (n : ℕ) → n < 4294967296 → swap (swap n) ≡ n
swap-swap n h =
    digits (n % 256) (n / 256 % 256) (n / 65536 % 256) (n / 16777216 % 256) (omega arith)
      (omega arith) (omega arith) (omega arith)
    ∙ omega arith

set_float-get_float_example :
    (then_run
        (set_float float_bits bits_float swap true (1 ∷ 2 ∷ []) tt)
        (get_float float_bits bits_float swap)
      ≡ ok (true, tt))
    × (then_run
          (set_float_dcba float_bits bits_float swap true (1 ∷ 2 ∷ []) tt)
          (get_float_dcba float_bits bits_float swap)
        ≡ ok (true, tt))
set_float-get_float_example =
    set_float-get_float float_bits bits_float swap float_bits-lt bits_float-float_bits swap-lt
      swap-swap true 1 2 [] tt
