-- ===== src/Context/Heap.antt =====
-- Who owns the memory of a context: `tta_free` of src/tta.c, and the two blocks that `tta_new_tcp`,
-- `tta_new_rs485` and `tta_new_rf` take before they look at their arguments. Rs485/Modes/Heap has
-- what `tta_new_rs485` does with them.
pub mod Laws
use libtta.Base.{ℕ, zero, suc, Option, none, some}
use libtta.Base.Run.{M, Outcome, fault, ok, stuck, pure, ◌>>=◌, ◌>>◌}
use libtta.Base.Heap.{Blocks, found, alloc, write_block, free}
use libtta.Context.{Errno, Tta}

-- The block `tta_t`, with the pointer to the private data of its transport.
pub record Handle : Type 0 where
  pub ctx : Tta
  pub backend_data : ℕ

pub data Block (D : Type 0) : Type 0 where
  tta : Handle → Block D
  private : D → Block D

abbrev pub load_handle : {D : Type 0} → ℕ → M (Blocks (Block D)) Handle
load_handle zero = λ h. fault
load_handle (suc i) = λ h. elim (found h i) [ some (tta x) ↦ ok (x, h) | _ ↦ fault ]

unfoldable pub tta_free : {D : Type 0} → ℕ → M (Blocks (Block D)) (Unit {0})
tta_free zero = pure tt
tta_free (suc i) = do x ← load_handle (suc i); free x.backend_data; free (suc i)

-- The two blocks, and the pointer from the one to the other. `raw` and `raw_data` are what the
-- fresh blocks hold.
unfoldable pub take_blocks : {D : Type 0} → Tta → D → M (Blocks (Block D)) (ℕ × ℕ)
take_blocks raw raw_data = do
  p ← alloc (tta (record { ctx = raw; backend_data = 0 }))
  q ← alloc (private raw_data)
  write_block p (tta (record { ctx = raw; backend_data = q }))
  pure (p, q)

-- The heap and `errno`.
abbrev pub Memory : Type 0 → Type 0
Memory D = Blocks (Block D) × Errno

abbrev pub with_errno :
    {D A : Type 0} → Errno → Outcome (A × Blocks (Block D)) → Outcome (A × Memory D)
with_errno e (ok (a, h)) = ok (a, (h, e))
with_errno e fault = fault
with_errno e stuck = stuck

abbrev with_heap : {D A : Type 0} → Blocks (Block D) → Outcome (A × Errno) → Outcome (A × Memory D)
with_heap h (ok (a, e)) = ok (a, (h, e))
with_heap h fault = fault
with_heap h stuck = stuck

abbrev pub on_heap : {D A : Type 0} → M (Blocks (Block D)) A → M (Memory D) A
on_heap m (h, e) = with_errno e (m h)

abbrev pub on_errno : {D A : Type 0} → M Errno A → M (Memory D) A
on_errno m (h, e) = with_heap h (m e)
