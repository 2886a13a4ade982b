-- ===== src/Rs485/Modes/Heap/Laws.antt =====
-- On the heap `tta_new_rs485` makes the same context, and leaks no block.
use libtta.Base.{
  ℕ, suc, ◌≤◌, ◌≡◌, refl, ℤ, u8, false, Bool-cases, inl, inr, none, some, List, [], ◌∷◌, ◌++◌,
  length, leb, ◌==◌, ◌||◌, arith,
}
use libtta.Base.Run.{ok}
use libtta.Context.{Errno, einval, Proto, Tta, init_common}
use libtta.Base.Buffer.{overwrite}
use libtta.Context.Heap.{Block, tta, private, tta_free, on_heap}
use libtta.Context.Heap.Laws.{owned, free_lem, take_lem, write_private}
use libtta.Base.Heap.{Blocks}
use libtta.Strlcpy.Laws.{IsText, fitted, strlcpy_lem}
use libtta.Rs485.Port.{Rs485, rts_none}
use libtta.Rs485.Modes.{Created, new_rs485, device_size}
use libtta.Rs485.Modes.Heap.{new_context}

-- The pointer to what is made, NULL for nothing.
abbrev pub pointer : Blocks (Block Rs485) → Created Rs485 → ℕ
pointer h none = 0
pointer h (some made) = suc (length h)

-- The heap: the two blocks given back, or with what is made in them.
abbrev pub holding : Blocks (Block Rs485) → Created Rs485 → Blocks (Block Rs485)
holding h none = h ++ (none ∷ none ∷ [])
holding h (some (ctx, d)) = owned h ctx d

module _ (raw : Tta) (raw_data : Rs485) (s rest : List ℕ) (baud : ℤ) (parity data_bit stop_bit : ℕ)
    (h : Blocks (Block Rs485)) (e : Errno) (text : IsText s)
    (room : device_size ≤ length raw_data.device) where
  -- Both versions, on each branch.
  abbrev Same : Type 0
  Same =
      (made : Created Rs485) × (e' : Errno) × (new_rs485 raw raw_data (s ++ 0 ∷ rest) baud parity
          data_bit stop_bit e
        ≡ ok (made, e'))
      × (new_context raw raw_data (s ++ 0 ∷ rest) baud parity data_bit stop_bit (h, e)
          ≡ ok (pointer h made, (holding h made, e')))

  new_context-Same : Same
  unfolding new_context new_rs485
  new_context-Same =
      let ctx = record (init_common raw) { proto = Proto.rs485 } in
      let name = overwrite raw_data.device (fitted device_size s) in
      let named = record raw_data { device = name } in
      let rated = record named { baud = baud } in
      let all = record rated {
        parity = parity;
        data_bit = u8 data_bit;
        stop_bit = u8 stop_bit;
        rts = rts_none;
        confirmation_to_ignore = false;
      } in
      let x : Block Rs485 = tta (record { ctx = ctx; backend_data = suc (suc (length h)) }) in
      let copied = strlcpy_lem raw_data.device s rest device_size e text (omega arith) room in
      let write1 = write_private h x (private raw_data) (private named) in
      let write2 = write_private h x (private named) (private rated) in
      let write3 = write_private h x (private rated) (private all) in
      elim (Bool-cases (length s == 0)) [
        | inl empty ↦ (
          none,
          einval,
          rw (copied, empty) refl,
          rw (take_lem ctx raw_data h, copied, write1, empty, free_lem h ctx named) refl,
        )
        | inr some_text ↦ elim (Bool-cases (leb device_size (length s))) [
          | inl long ↦ (
            none,
            einval,
            rw (copied, some_text, long) refl,
            rw (take_lem ctx raw_data h, copied, write1, some_text, long, free_lem h ctx named)
                refl,
          )
          | inr fits ↦ elim (Bool-cases ((parity == b'N' || parity == b'E') || parity == b'O')) [
            | inl known ↦ (
              some (ctx, all),
              e,
              rw (copied, some_text, fits, known) refl,
              rw (take_lem ctx raw_data h, copied, write1, some_text, fits, write2, known, write3)
                  refl,
            )
            | inr unknown ↦ (
              none,
              einval,
              rw (copied, some_text, fits, unknown) refl,
              rw
                  (
                    take_lem ctx raw_data h,
                    copied,
                    write1,
                    some_text,
                    fits,
                    write2,
                    unknown,
                    free_lem h ctx rated,
                  )
                  refl,
            )
          ]
        ]
      ]

freed :
    (h : Blocks (Block Rs485)) (made : Created Rs485) (e : Errno)
    → on_heap (tta_free (pointer h made)) (holding h made, e)
      ≡ ok (tt, (h ++ (none ∷ none ∷ []), e))
unfolding tta_free
freed h none e = refl
freed h (some (ctx, d)) e = rw (free_lem h ctx d) refl

-- Where `device` points to a text that ends, and the array for it has its 16 bytes: with its two
-- blocks on a heap, `tta_new_rs485` returns NULL exactly where an argument is refused, and has given
-- both blocks back then, on each of the three paths, with the same `errno`; otherwise it returns the
-- first block, and the two hold the context that is made. Either way the blocks that were there
-- before are as they were, and `tta_free` of what is returned leaves both blocks given back.
pub new_context-tta_free :
    (raw : Tta) (raw_data : Rs485) (s rest : List ℕ) (baud : ℤ) (parity data_bit stop_bit : ℕ)
    (h : Blocks (Block Rs485)) (e : Errno)
    → IsText s
    → device_size ≤ length raw_data.device
    → (made : Created Rs485) × (e' : Errno) × (new_rs485 raw raw_data
          (s ++ 0 ∷ rest)
          baud
          parity
          data_bit
          stop_bit
          e
        ≡ ok (made, e'))
      × (new_context raw raw_data (s ++ 0 ∷ rest) baud parity data_bit stop_bit (h, e)
          ≡ ok (pointer h made, (holding h made, e')))
      × (on_heap (tta_free (pointer h made)) (holding h made, e')
          ≡ ok (tt, (h ++ (none ∷ none ∷ []), e')))
new_context-tta_free raw raw_data s rest baud parity data_bit stop_bit h e text room =
    let (made, e', pure_run, heap_run) =
      new_context-Same raw raw_data s rest baud parity data_bit stop_bit h e text room in
    (made, e', pure_run, heap_run, freed h made e')
