-- ===== src/Base/Buffer.antt =====
-- Arrays of bytes that are written and read by index; an access out of bounds is a fault.
use Prim.Native.Nat.{ℕ, zero, suc, ◌+◌, ◌≤◌, ◌<◌}
use mathlib.Core.Path.{◌≡◌, refl, ap, ◌∙◌, subst}
use mathlib.Core.List.{List, [], ◌∷◌, ◌++◌, append-nil, append_assoc}
use mathlib.Core.Option.{Option, none, some}
use native.Mathlib.Omega.{arith}
use native.Mathlib.Decide.{dec_lt}
use libtta.Base.Run.{M, then_run-ext, ok, fault, pure, or_fault, ◌>>=◌}
use libtta.Base.Lists.{
  length, take, drop, get_elem?, length-append, length-take, length-drop, take-append-drop,
}

-- `buf[i] = v`.
unfoldable pub stored : List ℕ → ℕ → ℕ → Option (List ℕ)
stored [] i v = none
stored (x ∷ xs) zero v = some (v ∷ xs)
stored (x ∷ xs) (suc i) v = elim (stored xs i v) [ none ↦ none | some ys ↦ some (x ∷ ys) ]

unfoldable pub store : {S : Type 0} → List ℕ → ℕ → ℕ → M S (List ℕ)
unfolding stored
store buf i v = or_fault (stored buf i v)

-- `buf[i]`.
abbrev pub load : {S : Type 0} → List ℕ → ℕ → M S ℕ
load buf i = or_fault (get_elem? buf i)

-- `for (i = 0; i < n; i++) dst[at + i] = src[i]`, which is also what `memcpy` does.
unfoldable pub copy_bytes : {S : Type 0} → List ℕ → ℕ → List ℕ → ℕ → M S (List ℕ)
copy_bytes dst at src zero = pure dst
copy_bytes dst at [] (suc n) = λ s. fault
copy_bytes dst at (x ∷ src) (suc n) = store dst at x >>= λ dst'. copy_bytes dst' (at + 1) src n

-- The first `n` bytes that a pointer leads to, for `memcpy` into a fresh block of `n` bytes.
unfoldable pub read_bytes : {S : Type 0} → List ℕ → ℕ → M S (List ℕ)
read_bytes src zero = pure []
read_bytes [] (suc n) = λ s. fault
read_bytes (x ∷ src) (suc n) = read_bytes src n >>= λ rest. pure (x ∷ rest)

-- A buffer whose front has been written with `front`.
abbrev pub overwrite : List ℕ → List ℕ → List ℕ
overwrite buf front = front ++ drop (length front) buf

stored-append :
    (xs : List ℕ) (y v : ℕ) (ys : List ℕ)
    → stored (xs ++ y ∷ ys) (length xs) v ≡ some (xs ++ v ∷ ys)
unfolding stored
stored-append [] y v ys = refl
stored-append (x ∷ xs) y v ys = rw (stored-append xs y v ys)

drop-cons : (n : ℕ) (buf : List ℕ) → n < length buf → (y : ℕ) × (drop n buf ≡ y ∷ drop (suc n) buf)
drop-cons n [] h = absurd (omega arith)
drop-cons zero (x ∷ xs) h = (x, refl)
drop-cons (suc n) (x ∷ xs) h = drop-cons n xs (omega arith)

-- Writing one more byte behind the front extends the front.
pub store-overwrite :
    {S : Type 0} (buf front : List ℕ) (n v : ℕ) (s : S)
    → length front ≡ n
    → n < length buf
    → store (overwrite buf front) n v s ≡ ok (overwrite buf (front ++ v ∷ []), s)
unfolding store
store-overwrite buf front n v s e h =
    let (y, d) = drop-cons n buf h in
    let e' : length (front ++ v ∷ []) ≡ suc n = omega (arith, length-append front (v ∷ [])) in
    rw (e, e', d, ← e)
      (rw (stored-append front y v (drop (suc (length front)) buf), append_assoc) refl)

pub copy_bytes-overwrite :
    {S : Type 0} (src buf front : List ℕ) (at : ℕ) (s : S)
    → length front ≡ at
    → at + length src ≤ length buf
    → copy_bytes (overwrite buf front) at src (length src) s ≡ ok (overwrite buf (front ++ src), s)
unfolding copy_bytes
copy_bytes-overwrite [] buf front at s e h = rw append-nil
copy_bytes-overwrite (x ∷ src) buf front at s e h =
    rw (store-overwrite buf front at x s e (omega arith)) (
      copy_bytes-overwrite src buf (front ++ x ∷ []) (at + 1) s
        (omega (arith, length-append front (x ∷ []))) (omega arith)
      ∙ ap (λ l. ok (overwrite buf l, s)) (append_assoc front (x ∷ []) src))

pub read_bytes-append :
    {S : Type 0} (n : ℕ) (xs ys : List ℕ) (s : S)
    → length xs ≡ n
    → read_bytes (xs ++ ys) n s ≡ ok (xs, s)
unfolding read_bytes
read_bytes-append zero [] ys s e = refl
read_bytes-append (suc n) [] ys s e = absurd (omega arith)
read_bytes-append zero (x ∷ xs) ys s e = absurd (omega arith)
read_bytes-append (suc n) (x ∷ xs) ys s e = rw (read_bytes-append n xs ys s (omega arith))

pub read_bytes-take :
    {S : Type 0} (n : ℕ) (xs : List ℕ) (st : S)
    → n ≤ length xs
    → read_bytes xs n st ≡ ok (take n xs, st)
read_bytes-take n xs st h =
    subst (λ l. read_bytes l n st ≡ ok (take n xs, st)) (take-append-drop n xs)
      (read_bytes-append n (take n xs) (drop n xs) st (omega (arith, length-take n xs)))

-- A write at or past the end of the buffer is a fault.
pub store-fault :
    {S : Type 0} (buf : List ℕ) (i v : ℕ) (s : S) → length buf ≤ i → store buf i v s ≡ fault
unfolding store stored
store-fault [] i v s h = refl
store-fault (x ∷ buf) zero v s h = absurd (omega arith)
store-fault (x ∷ buf) (suc i) v s h = rw (stored_none buf i v (omega arith))
  where
    stored_none : (buf : List ℕ) (i v : ℕ) → length buf ≤ i → stored buf i v ≡ none
    stored_none [] i v h = refl
    stored_none (x ∷ buf) zero v h = absurd (omega arith)
    stored_none (x ∷ buf) (suc i) v h = rw (stored_none buf i v (omega arith))

-- A copy that does not fit is a fault.
pub copy_bytes-fault :
    {S : Type 0} (src buf front : List ℕ) (at : ℕ) (s : S)
    → length front ≡ at
    → at ≤ length buf
    → length buf < at + length src
    → copy_bytes (overwrite buf front) at src (length src) s ≡ fault
unfolding copy_bytes
copy_bytes-fault [] buf front at s e le h = absurd (omega arith)
copy_bytes-fault (x ∷ src) buf front at s e le h = elim (dec_lt at (length buf)) [
  | yes room ↦ rw (store-overwrite buf front at x s e room) (
      copy_bytes-fault src buf (front ++ x ∷ []) (at + 1) s
        (omega (arith, length-append front (x ∷ []))) (omega arith) (omega arith))
  | no full ↦ rw (
      store-fault (overwrite buf front) at x s (
        omega
          (arith, length-append front (drop (length front) buf), length-drop (length front) buf)))
]

pub copy_bytes-append :
    {S : Type 0} (n : ℕ) (xs rest dst : List ℕ) (at : ℕ) (s : S)
    → length xs ≡ n
    → copy_bytes dst at (xs ++ rest) n s ≡ copy_bytes dst at xs n s
unfolding copy_bytes
copy_bytes-append zero xs rest dst at s e = refl
copy_bytes-append (suc n) [] rest dst at s e = absurd (omega arith)
copy_bytes-append (suc n) (x ∷ xs) rest dst at s e =
    then_run-ext (store dst at x s) _ _
      (λ dst' t. copy_bytes-append n xs rest dst' (at + 1) t (omega arith))
