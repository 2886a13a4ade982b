-- ===== src/Data/Laws.antt =====
-- What is put into a table of bits or words is read back.
use libtta.Base.{
  all_below, all_below_lem, ℕ, zero, suc, ◌+◌, ◌*◌, ◌/◌, ◌%◌, ◌^◌, ◌≤◌, ◌<◌, ◌≡◌, refl, sym, ◌∙◌,
  ap, bit_or, ◌==◌, ==_iff, Bool, true, u8, some, List, [], ◌∷◌, ◌++◌, length, length-append,
  length-take, take, drop, take-append, drop-append, take-append-drop, append-nil, append_assoc,
  get_elem?-append, get_elem?-last, arith,
}
use libtta.Base.Run.{ok, then_run}
use libtta.Base.Buffer.{store, stored, overwrite, store-overwrite}
use libtta.Data.{
  bit, bits_loop, set_bits_from_byte, bytes_loop, set_bits_from_bytes, byte_loop,
  get_byte_from_bits, get_float, get_float_dcba, set_float, set_float_dcba,
}

-- `left` bits of a value from bit `i` on, and the value that such bits are read as.
spread : ℕ → ℕ → ℕ → List ℕ
spread zero i v = []
spread (suc left) i v = bit v i ∷ spread left (i + 1) v

packed : ℕ → ℕ → List ℕ → ℕ
packed i v [] = v
packed i v (b ∷ bs) = packed (i + 1) (u8 (bit_or v (b * 2 ^ i))) bs

packed_table : all_below 256 (λ v. packed 0 0 (spread 8 0 v) == v) ≡ true
unfolding all_below packed spread
packed_table = refl

packed-spread : (v : ℕ) → v < 256 → packed 0 0 (spread 8 0 v) ≡ v
packed-spread v h =
    (==_iff _ v).0 (all_below_lem 256 (λ v. packed 0 0 (spread 8 0 v) == v) v packed_table h)

length-spread : (left i v : ℕ) → length (spread left i v) ≡ left
unfolding spread
length-spread zero i v = refl
length-spread (suc left) i v = omega (arith, length-spread left (i + 1) v)

bits_loop-spread :
    {S : Type 0} (left i idx v : ℕ) (buf front : List ℕ) (s : S)
    → length front ≡ idx + i
    → idx + i + left ≤ length buf
    → bits_loop left i idx v (overwrite buf front) s
      ≡ ok (overwrite buf (front ++ spread left i v), s)
unfolding bits_loop spread
bits_loop-spread zero i idx v buf front s e h = rw append-nil
bits_loop-spread (suc left) i idx v buf front s e h =
    rw (store-overwrite buf front (idx + i) (bit v i) s e (omega arith)) (
      bits_loop-spread left (i + 1) idx v buf (front ++ bit v i ∷ []) s
        (omega (arith, length-append front (bit v i ∷ []))) (omega arith)
      ∙ ap (λ l. ok (overwrite buf l, s))
          (append_assoc front (bit v i ∷ []) (spread left (i + 1) v)))

byte_loop-packed :
    {S : Type 0} (left i idx v : ℕ) (front bits rest : List ℕ) (s : S)
    → length front ≡ idx + i
    → length bits ≡ left
    → byte_loop left i idx v (front ++ (bits ++ rest)) s ≡ ok (packed i v bits, s)
unfolding byte_loop packed
byte_loop-packed zero i idx v front [] rest s e h = refl
byte_loop-packed zero i idx v front (b ∷ bits) rest s e h = absurd (omega arith)
byte_loop-packed (suc left) i idx v front [] rest s e h = absurd (omega arith)
byte_loop-packed (suc left) i idx v front (b ∷ bits) rest s e h =
    let shift = append_assoc front (b ∷ []) (bits ++ rest) in
    rw⁻¹ shift (
      rw
        (
          get_elem?-append (idx + i) (front ++ b ∷ []) (bits ++ rest)
              (omega (arith, length-append front (b ∷ []))),
          get_elem?-last (idx + i) front b e,
        )
        (byte_loop-packed left (i + 1) idx (u8 (bit_or v (b * 2 ^ i))) (front ++ b ∷ []) bits rest s
          (omega (arith, length-append front (b ∷ []))) (omega arith)))

-- A value below 256 whose bits are put into a table that has room for them is read back from there,
-- with and without assertions, and the rest of the table is as it was.
pub set_bits_from_byte-get_byte_from_bits :
    {S : Type 0} (ndebug : Bool) (idx value : ℕ) (dest : List ℕ) (s : S)
    → value < 256
    → idx + 8 ≤ length dest
    → (dest' : List ℕ) × (set_bits_from_byte dest idx value s ≡ ok (dest', s))
      × (take idx dest' ≡ take idx dest)
      × (drop (idx + 8) dest' ≡ drop (idx + 8) dest)
      × (get_byte_from_bits ndebug dest' idx 8 s ≡ ok (some value, s))
unfolding set_bits_from_byte get_byte_from_bits
set_bits_from_byte-get_byte_from_bits ndebug idx value dest s small room =
    let front = take idx dest in
    let bits = spread 8 0 value in
    let rest = drop (length (front ++ bits)) dest in
    let l : length front ≡ idx = omega (arith, length-take idx dest) in
    let l8 : length (front ++ bits) ≡ idx + 8 =
      omega (arith, length-append front bits, length-spread 8 0 value) in
    let whole : overwrite dest front ≡ dest =
      ap (λ n. front ++ drop n dest) l ∙ take-append-drop idx dest in
    let assoc : overwrite dest (front ++ bits) ≡ front ++ (bits ++ rest) =
      append_assoc front bits rest in
    (
      overwrite dest (front ++ bits),
      ap (λ d. bits_loop 8 0 idx value d s) (sym whole)
          ∙ bits_loop-spread 8 0 idx value dest front s (omega arith) (omega arith),
      ap (take idx) assoc ∙ take-append idx front (bits ++ rest) l,
      drop-append (idx + 8) (front ++ bits) rest l8 ∙ ap (λ n. drop n dest) l8,
      rw
          (
            assoc,
            byte_loop-packed 8 0 idx 0 front bits rest s (omega arith) (length-spread 8 0 value),
            packed-spread value small,
          )
          refl,
    )

-- Setting eight bits from a table of bytes is setting the bits of its first byte.
pub set_bits_from_bytes-set_bits_from_byte :
    {S : Type 0} (idx value : ℕ) (dest rest : List ℕ) (s : S)
    → set_bits_from_bytes dest idx 8 (value ∷ rest) s ≡ set_bits_from_byte dest idx value s
unfolding set_bits_from_bytes set_bits_from_byte bits_loop bytes_loop
set_bits_from_bytes-set_bits_from_byte idx value dest rest s = refl

module _ {F : Type 0} (to_bits : F → ℕ) (from_bits : ℕ → F) (bswap_32 : ℕ → ℕ)
    (bits-lt : (f : F) → to_bits f < 2 ^ 32) (from-to : (f : F) → from_bits (to_bits f) ≡ f)
    (bswap-lt : (n : ℕ) → n < 2 ^ 32 → bswap_32 n < 2 ^ 32)
    (bswap-bswap : (n : ℕ) → n < 2 ^ 32 → bswap_32 (bswap_32 n) ≡ n) where
  -- A float that is stored in two words, in either order of its bytes, is read back, if
  -- floats have 32 bits that give them back, and swapping the bytes twice changes nothing.
  pub set_float-get_float :
      {S : Type 0} (f : F) (a b : ℕ) (rest : List ℕ) (s : S)
      → (then_run
            (set_float to_bits from_bits bswap_32 f (a ∷ b ∷ rest) s)
            (get_float to_bits from_bits bswap_32)
          ≡ ok (f, s))
        × (then_run
              (set_float_dcba to_bits from_bits bswap_32 f (a ∷ b ∷ rest) s)
              (get_float_dcba to_bits from_bits bswap_32)
            ≡ ok (f, s))
  unfolding set_float set_float_dcba get_float get_float_dcba store stored
  set_float-get_float f a b rest s = (
    rw (joined (to_bits f) (bits-lt f), from-to f) refl,
    rw
        (
          joined (bswap_32 (to_bits f)) (bswap-lt (to_bits f) (bits-lt f)),
          bswap-bswap (to_bits f) (bits-lt f),
          from-to f,
        )
        refl,
  )
    where
      joined : (n : ℕ) → n < 2 ^ 32 → n / 65536 % 65536 * 65536 + n % 65536 ≡ n
      joined n h = omega arith
