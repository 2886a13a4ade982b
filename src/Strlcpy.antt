-- ===== src/Strlcpy.antt =====
-- `strlcpy` of src/tta.c. A C string is the bytes of an array up to its first zero.
pub mod Laws
use libtta.Base.{
  ℕ, zero, suc, ◌+◌, ◌-◌, ◌==◌, if◌then◌else◌, Bool, true, false, List, [], ◌∷◌, drop,
}
use libtta.Base.Run.{M, fault, pure, ◌>>=◌}
use libtta.Base.Buffer.{store, load}

-- `while (*s++);` from the rest of the array: by how much `s` moves.
unfoldable pub skip_string : {S : Type 0} → List ℕ → M S ℕ
skip_string [] = λ st. fault
skip_string (c ∷ s) = elim (c == 0) [ true ↦ pure 1 | false ↦ skip_string s >>= λ k. pure (k + 1) ]

-- The `do … while (--n != 0)` loop with `n` rounds left, at index `i` of both arrays; `s` is the
-- rest of the source. It returns the destination, how far `s` moved, and whether `n` became 0.
unfoldable pub copy_string : {S : Type 0} → ℕ → List ℕ → ℕ → List ℕ → M S (List ℕ × (ℕ × Bool))
copy_string zero dest i s = pure (dest, (i, true))
copy_string (suc n) dest i [] = λ st. fault
copy_string (suc n) dest i (c ∷ s) = store dest i c >>= λ dest'. elim (c == 0) [
  | true ↦ pure (dest', (i + 1, false))
  | false ↦ copy_string n dest' (i + 1) s
]

-- What follows the first loop.
unfoldable pub terminate : {S : Type 0} → ℕ → List ℕ → List ℕ × (ℕ × Bool) → M S (ℕ × List ℕ)
unfolding skip_string
terminate dest_size src (dest, (i, true)) =
    (if dest_size == 0 then pure dest else store dest i 0) >>= λ dest'.
    skip_string (drop i src) >>= λ k. pure (i + k - 1, dest')
terminate dest_size src (dest, (i, false)) = pure (i - 1, dest)

-- The length of the source and the destination.
unfoldable pub strlcpy : {S : Type 0} → List ℕ → List ℕ → ℕ → M S (ℕ × List ℕ)
unfolding copy_string terminate
strlcpy dest src dest_size = copy_string (dest_size - 1) dest 0 src >>= terminate dest_size src
