-- ===== src/Rs485/Modes/Heap.antt =====
-- `tta_new_rs485` of src/tta_rs485.c once more, with the heap that it takes its two blocks from, and
-- that it gives them back to wherever it refuses an argument.
pub mod Laws
use libtta.Base.{ℕ, ℤ, u8, false, List, leb, ◌==◌, ◌||◌, if◌then◌else◌}
use libtta.Base.Run.{M, ok, pure, ◌>>=◌, ◌>>◌}
use libtta.Base.Heap.{write_block}
use libtta.Context.{einval, Tta, Proto, init_common}
use libtta.Context.Heap.{private, tta_free, take_blocks, Memory, on_heap, on_errno}
use libtta.Strlcpy.{strlcpy}
use libtta.Rs485.Port.{Rs485, rts_none}
use libtta.Rs485.Modes.{device_size}

abbrev pub set_einval : M (Memory Rs485) (Unit {0})
set_einval = on_errno (λ e. ok (tt, einval))

-- The block of the private data is written.
abbrev pub write_data : ℕ → Rs485 → M (Memory Rs485) (Unit {0})
write_data q d = on_heap (write_block q (private d))

-- The pointer to the context, or NULL.
unfoldable pub new_context : Tta → Rs485 → List ℕ → ℤ → ℕ → ℕ → ℕ → M (Memory Rs485) ℕ
unfolding init_common strlcpy take_blocks tta_free
new_context raw raw_data device baud parity data_bit stop_bit = do
  (ctx, q) ← on_heap (take_blocks (record (init_common raw) { proto = Proto.rs485 }) raw_data)
  (ret_size, name) ← on_errno (strlcpy raw_data.device device device_size)
  let named = record raw_data { device = name }
  write_data q named
  if ret_size == 0
      then (do on_heap (tta_free ctx); set_einval; pure 0)
      else if leb device_size ret_size
      then (do on_heap (tta_free ctx); set_einval; pure 0)
      else (do
        write_data q (record named { baud = baud })
        if (parity == b'N' || parity == b'E') || parity == b'O'
            then (do
              write_data q (record named {
                baud = baud;
                parity = parity;
                data_bit = u8 data_bit;
                stop_bit = u8 stop_bit;
                rts = rts_none;
                confirmation_to_ignore = false;
              })
              pure ctx)
            else (do on_heap (tta_free ctx); set_einval; pure 0))
