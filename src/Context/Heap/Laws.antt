-- ===== src/Context/Heap/Laws.antt =====
-- The two blocks of a context: they are taken, written, and given back.
use libtta.Base.{
  suc, ◌≡◌, refl, Option, none, some, [], ◌∷◌, ◌++◌, append_assoc, length, length-append, arith,
}
use libtta.Base.Run.{ok, then_run}
use libtta.Base.Heap.{Blocks, write_block, free, found_at, found_next, replaced_at, replaced_next}
use libtta.Context.{Tta}
use libtta.Context.Heap.{Block, tta, private, load_handle, tta_free, take_blocks}

-- A context in two blocks behind those of `h`.
abbrev pub owned : {D : Type 0} → Blocks (Block D) → Tta → D → Blocks (Block D)
owned h ctx d =
    h
    ++ (some (tta (record { ctx = ctx; backend_data = suc (suc (length h)) }))
        ∷ some (private d)
        ∷ [])

pub free_lem :
    {D : Type 0} (h : Blocks (Block D)) (ctx : Tta) (d : D)
    → tta_free (suc (length h)) (owned h ctx d) ≡ ok (tt, h ++ (none ∷ none ∷ []))
unfolding tta_free
free_lem h ctx d =
    let x = tta (record { ctx = ctx; backend_data = suc (suc (length h)) }) in
    rw
      (
        load_handle,
        found_at h x (some (private d) ∷ []),
        then_run,
        free,
        found_next h (some x) (private d) [],
        replaced_next h (some x) (some (private d)) none [],
        then_run,
        free,
        found_at h x (none ∷ []),
        replaced_next h (some x) (some (private d)) none [],
        replaced_at h (some x) none (none ∷ []),
      )
      refl

-- The private data is written.
pub write_private :
    {D : Type 0} (h : Blocks (Block D)) (x : Block D) (b : Block D) (y : Block D)
    → write_block (suc (suc (length h))) y (h ++ (some x ∷ some b ∷ []))
      ≡ ok (tt, h ++ (some x ∷ some y ∷ []))
write_private h x b y =
    rw (write_block, found_next h (some x) b [], replaced_next h (some x) (some b) (some y) []) refl

-- The two blocks that are taken first.
next :
    {D : Type 0} (h : Blocks (Block D)) (x : Block D) → length (h ++ some x ∷ []) ≡ suc (length h)
next {D} h x = omega (arith, length-append {0} {A = Option (Block D)} h (some x ∷ []))

pub take_lem :
    {D : Type 0} (raw : Tta) (raw_data : D) (h : Blocks (Block D))
    → take_blocks raw raw_data h ≡ ok ((suc (length h), suc (suc (length h))), owned h raw raw_data)
unfolding take_blocks
take_lem {D} raw raw_data h =
    let fresh = tta (record { ctx = raw; backend_data = 0 }) in
    rw
      (
        append_assoc h (some fresh ∷ []) (some (private raw_data) ∷ []),
        next h fresh,
        write_block,
        found_at h fresh (some (private raw_data) ∷ []),
        next h fresh,
        append_assoc h (some fresh ∷ []) (some (private raw_data) ∷ []),
        replaced_at h (some fresh)
            (some (tta (record { ctx = raw; backend_data = suc (suc (length h)) })))
            (some (private raw_data) ∷ []),
      )
      refl
