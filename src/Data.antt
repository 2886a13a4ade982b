-- ===== src/Data.antt =====
-- Bits, bytes and floats in tables (src/tta_data.c, and the macros of src/tta.h). An index is a
-- number that is not negative.
pub mod Laws
use libtta.Base.{
  ℕ, zero, suc, ◌+◌, ◌*◌, ◌/◌, ◌%◌, ◌^◌, bit_and, bit_or, ◌==◌, ltb, Bool, true, false,
  if◌then◌else◌, u8, u16, Option, none, some, List,
}
use libtta.Base.Run.{M, pure, ◌>>=◌}
use libtta.Base.Buffer.{store, load}

-- `value & (1 << i) ? 1 : 0`
abbrev pub bit : ℕ → ℕ → ℕ
bit value i = if bit_and value (2 ^ i) == 0 then 0 else 1

-- The loop from bit `i` on, with `left` rounds.
unfoldable pub bits_loop : {S : Type 0} → ℕ → ℕ → ℕ → ℕ → List ℕ → M S (List ℕ)
bits_loop zero i idx value dest = pure dest
bits_loop (suc left) i idx value dest =
    store dest (idx + i) (bit value i) >>= λ dest'. bits_loop left (i + 1) idx value dest'

unfoldable pub set_bits_from_byte : {S : Type 0} → List ℕ → ℕ → ℕ → M S (List ℕ)
unfolding bits_loop
set_bits_from_byte dest idx value = bits_loop 8 0 idx value dest

-- The loop at `i = idx + k`, with `left` rounds.
unfoldable pub bytes_loop : {S : Type 0} → ℕ → ℕ → ℕ → ℕ → List ℕ → List ℕ → M S (List ℕ)
bytes_loop zero k shift idx tab_byte dest = pure dest
bytes_loop (suc left) k shift idx tab_byte dest = load tab_byte (k / 8) >>= λ b.
    store dest (idx + k) (bit b shift) >>= λ dest'.
    bytes_loop left (k + 1) ((shift + 1) % 8) idx tab_byte dest'

unfoldable pub set_bits_from_bytes : {S : Type 0} → List ℕ → ℕ → ℕ → List ℕ → M S (List ℕ)
unfolding bytes_loop
set_bits_from_bytes dest idx nb_bits tab_byte = bytes_loop nb_bits 0 0 idx tab_byte dest

-- The loop from bit `i` on; `value` is a `uint8_t`.
unfoldable pub byte_loop : {S : Type 0} → ℕ → ℕ → ℕ → ℕ → List ℕ → M S ℕ
byte_loop zero i idx value src = pure value
byte_loop (suc left) i idx value src =
    load src (idx + i) >>= λ b. byte_loop left (i + 1) idx (u8 (bit_or value (b * 2 ^ i))) src

-- `none` is the assertion that stops the program: `ndebug` is that it was compiled without.
unfoldable pub get_byte_from_bits : {S : Type 0} → Bool → List ℕ → ℕ → ℕ → M S (Option ℕ)
unfolding byte_loop
get_byte_from_bits ndebug src idx nb_bits =
    if ltb 8 nb_bits
    then (if ndebug then (byte_loop 8 0 idx 0 src >>= λ v. pure (some v)) else pure none)
    else (byte_loop nb_bits 0 idx 0 src >>= λ v. pure (some v))

-- A float is stored in two words. `to_bits` and `from_bits` are the copies between a float and its
-- 32 bits, and `bswap_32` is the compiler's.
module _ {F : Type 0} (to_bits : F → ℕ) (from_bits : ℕ → F) (bswap_32 : ℕ → ℕ) where
  unfoldable pub get_float : {S : Type 0} → List ℕ → M S F
  get_float src = load src 1 >>= λ hi. load src 0 >>= λ lo. pure (from_bits (hi * 2 ^ 16 + lo))

  unfoldable pub get_float_dcba : {S : Type 0} → List ℕ → M S F
  get_float_dcba src =
      load src 1 >>= λ hi. load src 0 >>= λ lo. pure (from_bits (bswap_32 (hi * 2 ^ 16 + lo)))

  unfoldable pub set_float : {S : Type 0} → F → List ℕ → M S (List ℕ)
  set_float f dest =
      store dest 0 (u16 (to_bits f)) >>= λ dest0. store dest0 1 (u16 (to_bits f / 2 ^ 16))

  unfoldable pub set_float_dcba : {S : Type 0} → F → List ℕ → M S (List ℕ)
  set_float_dcba f dest = store dest 0 (u16 (bswap_32 (to_bits f))) >>= λ dest0.
      store dest0 1 (u16 (bswap_32 (to_bits f) / 2 ^ 16))
