-- ===== src/Strlcpy/Laws.antt =====
-- What `strlcpy` promises: the length of the source, and as much of it as fits, with a zero behind.
use libtta.Base.{
  ℕ, zero, suc, ◌+◌, ◌-◌, ◌≤◌, ◌<◌, ◌≡◌, ◌≢◌, refl, ◌∙◌, ap, ◌==◌, Bool, true, false, List, [], ◌∷◌,
  ◌++◌, All, length, length-append, take, drop, length-take, length-drop, append-nil, append_assoc,
  arith,
}
use native.Mathlib.Decide.{dec_lt}
use libtta.Base.Run.{ok, Outcome}
use libtta.Base.Buffer.{store-overwrite, overwrite}
use libtta.Strlcpy.{skip_string, copy_string, strlcpy}

abbrev pub IsText : List ℕ → Type 0
IsText = All (λ c. c ≢ 0)

skip_string-text :
    {S : Type 0} (s rest : List ℕ) (st : S)
    → IsText s
    → skip_string (s ++ 0 ∷ rest) st ≡ ok (length s + 1, st)
unfolding skip_string
skip_string-text [] rest st h = refl
skip_string-text (c ∷ s) rest st h = ground (arith, skip_string-text s rest st h.1)

nonzero : (c : ℕ) → c ≢ 0 → (c == 0) ≡ false
nonzero c h = ground arith

same_end :
    {S : Type 0} (dest xs ys : List ℕ) (i j : ℕ) (b : Bool) (st : S)
    → xs ≡ ys
    → i ≡ j
    → ◌≡◌ {A = Outcome ((List ℕ × (ℕ × Bool)) × S)}
        (ok ((overwrite dest xs, (i, b)), st))
        (ok ((overwrite dest ys, (j, b)), st))
same_end dest xs ys i j b st p q = rw (p, q)

-- The source ends within the rounds: it is copied whole.
copy_string-short :
    {S : Type 0} (n : ℕ) (dest front s rest : List ℕ) (i : ℕ) (st : S)
    → IsText s
    → length s < n
    → length front ≡ i
    → i + n ≤ length dest
    → copy_string n (overwrite dest front) i (s ++ 0 ∷ rest) st
      ≡ ok ((overwrite dest (front ++ s ++ 0 ∷ []), (i + length s + 1, false)), st)
unfolding copy_string
copy_string-short zero dest front s rest i st h lt e fits = absurd (omega arith)
copy_string-short (suc n) dest front [] rest i st h lt e fits =
    rw (store-overwrite dest front i 0 st e (omega arith)) (
      same_end dest (front ++ 0 ∷ []) ((front ++ []) ++ 0 ∷ []) (i + 1) (i + 0 + 1) false st
        (rw append-nil) (omega arith))
copy_string-short (suc n) dest front (c ∷ s) rest i st h lt e fits =
    rw (store-overwrite dest front i c st e (omega arith)) (
      rw (nonzero c h.0) (
        copy_string-short n dest (front ++ c ∷ []) s rest (i + 1) st h.1 (omega arith)
          (omega (arith, length-append front (c ∷ []))) (omega arith)
        ∙ same_end dest (((front ++ c ∷ []) ++ s) ++ 0 ∷ []) ((front ++ c ∷ s) ++ 0 ∷ [])
            (i + 1 + length s + 1) (i + suc (length s) + 1) false st
            (ap (λ l. l ++ 0 ∷ []) (append_assoc front (c ∷ []) s)) (omega arith)))

-- The rounds end first: the front of the source is copied.
copy_string-long :
    {S : Type 0} (n : ℕ) (dest front s rest : List ℕ) (i : ℕ) (st : S)
    → IsText s
    → n ≤ length s
    → length front ≡ i
    → i + n ≤ length dest
    → copy_string n (overwrite dest front) i (s ++ 0 ∷ rest) st
      ≡ ok ((overwrite dest (front ++ take n s), (i + n, true)), st)
unfolding copy_string
copy_string-long zero dest front s rest i st h le e fits =
    same_end dest front (front ++ []) i (i + 0) true st (rw append-nil) (omega arith)
copy_string-long (suc n) dest front [] rest i st h le e fits = absurd (omega arith)
copy_string-long (suc n) dest front (c ∷ s) rest i st h le e fits =
    rw (store-overwrite dest front i c st e (omega arith)) (
      rw (nonzero c h.0) (
        copy_string-long n dest (front ++ c ∷ []) s rest (i + 1) st h.1 (omega arith)
          (omega (arith, length-append front (c ∷ []))) (omega arith)
        ∙ same_end dest ((front ++ c ∷ []) ++ take n s) (front ++ c ∷ take n s) (i + 1 + n)
            (i + suc n) true st (append_assoc front (c ∷ []) (take n s)) (omega arith)))

same_result :
    {S : Type 0} (dest xs ys : List ℕ) (i j : ℕ) (st : S)
    → xs ≡ ys
    → i ≡ j
    → ◌≡◌ {A = Outcome ((ℕ × List ℕ) × S)}
        (ok ((i, overwrite dest xs), st))
        (ok ((j, overwrite dest ys), st))
same_result dest xs ys i j st p q = rw (p, q)

take_all : (n : ℕ) (s : List ℕ) → length s ≤ n → take n s ≡ s
take_all zero [] h = refl
take_all (suc n) [] h = refl
take_all zero (c ∷ s) h = absurd (omega arith)
take_all (suc n) (c ∷ s) h = ap (λ r. c ∷ r) (take_all n s (omega arith))

-- What a destination of `size` bytes holds of the text `s`.
abbrev pub fitted : ℕ → List ℕ → List ℕ
fitted size s = take (size - 1) s ++ 0 ∷ []

drop_text :
    (n : ℕ) (s : List ℕ) (rest : List ℕ) → n ≤ length s → drop n (s ++ rest) ≡ drop n s ++ rest
drop_text zero s rest h = refl
drop_text (suc n) [] rest h = absurd (omega arith)
drop_text (suc n) (c ∷ s) rest h = drop_text n s rest (omega arith)

IsText-drop : (n : ℕ) (s : List ℕ) → IsText s → IsText (drop n s)
IsText-drop zero s h = h
IsText-drop (suc n) [] h = tt
IsText-drop (suc n) (c ∷ s) h = IsText-drop n s h.1

-- With a destination of at least one byte, and at least as long as it is said to be, `strlcpy` of a
-- text returns the length of the text. The destination starts with the first `dest_size - 1` bytes
-- of the text and a zero, and is otherwise as it was.
pub strlcpy_lem :
    {S : Type 0} (dest s rest : List ℕ) (dest_size : ℕ) (st : S)
    → IsText s
    → 0 < dest_size
    → dest_size ≤ length dest
    → strlcpy dest (s ++ 0 ∷ rest) dest_size st
      ≡ ok ((length s, overwrite dest (fitted dest_size s)), st)
unfolding strlcpy
strlcpy_lem dest s rest dest_size st h pos fits = elim (dec_lt (length s) (dest_size - 1)) [
  | yes short ↦
      rw (copy_string-short (dest_size - 1) dest [] s rest 0 st h short refl (omega arith)) (
        same_result dest (s ++ 0 ∷ []) (fitted dest_size s) (0 + length s + 1 - 1) (length s) st
          (rw (take_all (dest_size - 1) s (omega arith))) (omega arith))
  | no long ↦
      rw (copy_string-long (dest_size - 1) dest [] s rest 0 st h (omega arith) refl (omega arith)) (
        rw
          (
            nonzero dest_size (omega arith),
            store-overwrite dest (take (dest_size - 1) s) (0 + (dest_size - 1)) 0 st
                (omega (arith, length-take (dest_size - 1) s)) (omega arith),
            drop_text (0 + (dest_size - 1)) s (0 ∷ rest) (omega arith),
            skip_string-text (drop (0 + (dest_size - 1)) s) rest st
                (IsText-drop (0 + (dest_size - 1)) s h),
          )
          (same_result dest (fitted dest_size s) (fitted dest_size s)
            (0 + (dest_size - 1) + (length (drop (0 + (dest_size - 1)) s) + 1) - 1) (length s) st
            refl (omega (arith, length-drop (0 + (dest_size - 1)) s))))
]
