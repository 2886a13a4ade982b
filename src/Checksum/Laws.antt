-- ===== src/Checksum/Laws.antt =====
-- What `sum_xor` and `sum_add` compute, and what they detect.
use libtta.Base.{
  ℕ, zero, suc, ◌+◌, ◌<◌, bit_xor, List, [], ◌∷◌, ◌++◌, u8, length, take, drop, length-take,
  take-append-drop, subst, ◌≤◌, ◌≡◌, ◌≢◌, refl, arith,
}
use libtta.Base.Run.{ok}
use libtta.Checksum.{sum_xor_from, sum_xor, sum_add_from, sum_add}

-- The exclusive or, and the sum modulo 256, of all bytes of a list, added to `acc`.
abbrev pub xor_bytes : ℕ → List ℕ → ℕ
xor_bytes acc [] = acc
xor_bytes acc (b ∷ bs) = xor_bytes (u8 (bit_xor acc b)) bs

abbrev pub total : List ℕ → ℕ
total [] = 0
total (b ∷ bs) = b + total bs

sum_xor_from-append :
    {S : Type 0} (acc : ℕ) (n : ℕ) (xs ys : List ℕ) (s : S)
    → length xs ≡ n
    → sum_xor_from acc (xs ++ ys) n s ≡ ok (xor_bytes acc xs, s)
unfolding sum_xor_from
sum_xor_from-append acc zero [] ys s e = refl
sum_xor_from-append acc (suc n) [] ys s e = absurd (omega arith)
sum_xor_from-append acc zero (x ∷ xs) ys s e = absurd (omega arith)
sum_xor_from-append acc (suc n) (x ∷ xs) ys s e =
    sum_xor_from-append (u8 (bit_xor acc x)) n xs ys s (omega arith)

sum_add_from-append :
    {S : Type 0} (acc : ℕ) (n : ℕ) (xs ys : List ℕ) (s : S)
    → length xs ≡ n
    → acc < 256
    → sum_add_from acc (xs ++ ys) n s ≡ ok (u8 (acc + total xs), s)
unfolding sum_add_from
sum_add_from-append acc zero [] ys s e h = ground arith
sum_add_from-append acc (suc n) [] ys s e h = absurd (omega arith)
sum_add_from-append acc zero (x ∷ xs) ys s e h = absurd (omega arith)
sum_add_from-append acc (suc n) (x ∷ xs) ys s e h =
    ground (arith, sum_add_from-append (u8 (acc + x)) n xs ys s)

-- Over the front of a buffer `sum_xor` is the exclusive or of its bytes.
pub sum_xor-append :
    {S : Type 0} (n : ℕ) (xs ys : List ℕ) (s : S)
    → length xs ≡ n
    → sum_xor (xs ++ ys) n s ≡ ok (xor_bytes 0 xs, s)
unfolding sum_xor
sum_xor-append n xs ys s e = sum_xor_from-append 0 n xs ys s e

-- Over the front of a buffer `sum_add` is the sum of its bytes modulo 256.
pub sum_add-append :
    {S : Type 0} (n : ℕ) (xs ys : List ℕ) (s : S)
    → length xs ≡ n
    → sum_add (xs ++ ys) n s ≡ ok (u8 (total xs), s)
unfolding sum_add
sum_add-append n xs ys s e = ground (arith, sum_add_from-append 0 n xs ys s e)

pub total-append : (xs ys : List ℕ) → total (xs ++ ys) ≡ total xs + total ys
total-append [] ys = omega arith
total-append (x ∷ xs) ys = omega (arith, total-append xs ys)

-- Two packets that differ in one byte have different sums.
pub total_change :
    (xs ys : List ℕ) (a b : ℕ)
    → a < 256
    → b < 256
    → a ≢ b
    → u8 (total (xs ++ a ∷ ys)) ≢ u8 (total (xs ++ b ∷ ys))
total_change xs ys a b ha hb ne e =
    ne (omega (arith, total-append xs (a ∷ ys), total-append xs (b ∷ ys)))

-- The sums of the first `n` bytes of any buffer that has them.
pub sum_xor-take :
    {S : Type 0} (n : ℕ) (buf : List ℕ) (s : S)
    → n ≤ length buf
    → sum_xor buf n s ≡ ok (xor_bytes 0 (take n buf), s)
sum_xor-take n buf s h =
    subst (λ l. sum_xor l n s ≡ ok (xor_bytes 0 (take n buf), s)) (take-append-drop n buf)
      (sum_xor-append n (take n buf) (drop n buf) s (omega (arith, length-take n buf)))

pub sum_add-take :
    {S : Type 0} (n : ℕ) (buf : List ℕ) (s : S)
    → n ≤ length buf
    → sum_add buf n s ≡ ok (u8 (total (take n buf)), s)
sum_add-take n buf s h =
    subst (λ l. sum_add l n s ≡ ok (u8 (total (take n buf)), s)) (take-append-drop n buf)
      (sum_add-append n (take n buf) (drop n buf) s (omega (arith, length-take n buf)))
