-- ===== src/Message/Heap.antt =====
-- Who owns the memory of a message: the functions of src/tta.c that take blocks from the heap and
-- give them back.
pub mod Laws
use libtta.Base.{
  ℕ, zero, suc, ◌+◌, ◌==◌, if◌then◌else◌, Option, none, some, List, [], ◌∷◌, ◌++◌, length,
}
use libtta.Base.Run.{M, fault, ok, pure, ◌>>=◌, ◌>>◌}
use libtta.Base.Buffer.{copy_bytes}
use libtta.Base.Heap.{Blocks, found, alloc, write_block, free}
use libtta.Message.{Ttamsg, hd_size, fill}

-- The block `ttamsg_t`, with the pointer to its data.
pub record Msg : Type 0 where
  pub tid : ℕ
  pub len : ℕ
  pub buf : ℕ

pub data Block : Type 0 where
  bytes : List ℕ → Block
  ttamsg : Msg → Block

abbrev pub Heap : Type 0
Heap = Blocks Block

-- A read through NULL, or of a block that is not there, is a fault.
abbrev pub load_msg : ℕ → M Heap Msg
load_msg zero = λ h. fault
load_msg (suc i) = λ h. elim (found h i) [ some (ttamsg m) ↦ ok (m, h) | _ ↦ fault ]

abbrev pub load_bytes : ℕ → M Heap (List ℕ)
load_bytes zero = λ h. fault
load_bytes (suc i) = λ h. elim (found h i) [ some (bytes l) ↦ ok (l, h) | _ ↦ fault ]

-- `malloc n` is what a fresh block of `n` bytes holds, and `raw` what the block for a message holds.
module _ (malloc : ℕ → List ℕ) (raw : Msg) where
  unfoldable pub ttamsg_new : ℕ → M Heap ℕ
  ttamsg_new len = do
    p ← alloc (ttamsg raw)
    buf ← alloc (bytes (malloc len))
    write_block p (ttamsg (record { tid = 0; len = len; buf = buf }))
    pure p

  unfoldable pub ttamsg_make : ℕ → ℕ → ℕ → List ℕ → ℕ → M Heap ℕ
  unfolding ttamsg_new
  ttamsg_make devid subid cmd src datalen = do
    p ← ttamsg_new (hd_size + datalen)
    msg ← load_msg p
    old ← load_bytes msg.buf
    new ← fill old devid subid cmd src datalen
    write_block msg.buf (bytes new)
    pure p

  unfoldable pub ttamsg_duplicate : ℕ → M Heap ℕ
  unfolding ttamsg_new
  ttamsg_duplicate org = do
    from ← load_msg org
    p ← ttamsg_new from.len
    msg ← load_msg p
    old ← load_bytes msg.buf
    src ← load_bytes from.buf
    new ← copy_bytes old 0 src from.len
    write_block msg.buf (bytes new)
    pure p

unfoldable pub ttamsg_free : ℕ → M Heap (Unit {0})
ttamsg_free p = do msg ← load_msg p; (if msg.buf == 0 then pure tt else free msg.buf); free p

-- What the functions of a transport read of a message on the heap.
abbrev pub view : ℕ → M Heap Ttamsg
view p = load_msg p >>= λ m.
    load_bytes m.buf >>= λ l. pure (record { tid = m.tid; len = m.len; buf = l })
