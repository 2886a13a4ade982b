-- ===== src/Base/Heap.antt =====
-- A heap of blocks of one kind. A pointer is a number, 0 is NULL.
use libtta.Base.{ℕ, zero, suc, ◌≡◌, refl, ap, Option, none, some, List, [], ◌∷◌, ◌++◌, length}
use libtta.Base.Run.{M, fault, ok, pure}

-- The blocks that were taken, oldest first; `none` is one that was given back.
abbrev pub Blocks : Type 0 → Type 0
Blocks B = List (Option B)

-- The block at a place of the heap.
abbrev pub found : {B : Type 0} → Blocks B → ℕ → Option B
found [] i = none
found (none ∷ h) zero = none
found (some b ∷ h) zero = some b
found (b ∷ h) (suc i) = found h i

abbrev pub replaced : {B : Type 0} → Blocks B → ℕ → Option B → Blocks B
replaced [] i c = []
replaced (b ∷ h) zero c = c ∷ h
replaced (b ∷ h) (suc i) c = b ∷ replaced h i c

abbrev pub alloc : {B : Type 0} → B → M (Blocks B) ℕ
alloc b h = ok (suc (length h), h ++ some b ∷ [])

abbrev pub write_block : {B : Type 0} → ℕ → B → M (Blocks B) (Unit {0})
write_block zero b = λ h. fault
write_block (suc i) b =
    λ h. elim (found h i) [ some _ ↦ ok (tt, replaced h i (some b)) | none ↦ fault ]

-- `free(NULL)` does nothing; a second `free` of a block is a fault.
abbrev pub free : {B : Type 0} → ℕ → M (Blocks B) (Unit {0})
free zero = pure tt
free (suc i) = λ h. elim (found h i) [ some _ ↦ ok (tt, replaced h i none) | none ↦ fault ]

pub found_at :
    {B : Type 0} (h : Blocks B) (b : B) (t : Blocks B) → found (h ++ some b ∷ t) (length h) ≡ some b
found_at [] b t = refl
found_at (none ∷ h) b t = found_at h b t
found_at (some x ∷ h) b t = found_at h b t

pub found_next :
    {B : Type 0} (h : Blocks B) (x : Option B) (b : B) (t : Blocks B)
    → found (h ++ (x ∷ some b ∷ t)) (suc (length h)) ≡ some b
found_next [] x b t = refl
found_next (none ∷ h) x b t = found_next h x b t
found_next (some y ∷ h) x b t = found_next h x b t

pub replaced_at :
    {B : Type 0} (h : Blocks B) (x c : Option B) (t : Blocks B)
    → replaced (h ++ x ∷ t) (length h) c ≡ h ++ c ∷ t
replaced_at [] x c t = refl
replaced_at (y ∷ h) x c t = ap (λ l. y ∷ l) (replaced_at h x c t)

pub replaced_next :
    {B : Type 0} (h : Blocks B) (x y c : Option B) (t : Blocks B)
    → replaced (h ++ (x ∷ y ∷ t)) (suc (length h)) c ≡ h ++ (x ∷ c ∷ t)
replaced_next [] x y c t = refl
replaced_next (z ∷ h) x y c t = ap (λ l. z ∷ l) (replaced_next h x y c t)
