-- ===== src/Message.antt =====
-- The message `ttamsg_t`: a block that holds the header (device, sub-device, command and data
-- length) followed by the data (src/tta.h, src/tta.c).
pub mod Laws
pub mod Heap
use libtta.Base.{ℕ, ◌+◌, ◌%◌, ◌==◌, if◌then◌else◌, List}
use libtta.Base.Run.{M, pure, ◌>>=◌}
use libtta.Base.Buffer.{store, copy_bytes}

-- `hd` points to the start of `buf`, `data` behind its first four bytes.
pub record Ttamsg : Type 0 where
  pub tid : ℕ
  pub len : ℕ
  pub buf : List ℕ

-- sizeof(ttamsg_hd_t)
abbrev pub hd_size : ℕ
hd_size = 4

-- The header, and `if(datalen) memcpy(ttamsg->data, data, datalen)`.
unfoldable pub fill : {S : Type 0} → List ℕ → ℕ → ℕ → ℕ → List ℕ → ℕ → M S (List ℕ)
fill buf devid subid cmd bytes datalen = do
  buf0 ← store buf 0 devid
  buf1 ← store buf0 1 subid
  buf2 ← store buf1 2 cmd
  buf3 ← store buf2 3 datalen
  if datalen == 0 then pure buf3 else copy_bytes buf3 4 bytes datalen

module _ (malloc : ℕ → List ℕ) where
  unfoldable pub new : ℕ → Ttamsg
  new len = record { tid = 0; len = len; buf = malloc len }

  unfoldable pub make : {S : Type 0} → ℕ → ℕ → ℕ → List ℕ → ℕ → M S Ttamsg
  unfolding new
  make devid subid cmd bytes datalen = do
    let msg = new (hd_size + datalen)
    buf ← fill msg.buf devid subid cmd bytes datalen
    pure (record msg { buf = buf })

  unfoldable pub duplicate : {S : Type 0} → Ttamsg → M S Ttamsg
  unfolding new
  duplicate org = do
    let msg = new org.len
    buf ← copy_bytes msg.buf 0 org.buf org.len
    pure (record msg { buf = buf })
