-- ===== src/Errors.antt =====
-- The texts of the error codes (`tta_strerror` of src/tta.c). The text of any other code comes from
-- the system's `strerror`, a parameter.
pub mod Laws
use Prim.Native.String.{String}
use libtta.Base.{ℕ, ◌==◌, if◌then◌else◌, Option, none, some}
use libtta.Context.{Errno, emb}

-- The text of the code `TTA_ENOBASE + k`.
unfoldable pub text_of : ℕ → Option String
text_of k =
    if k == 1
    then some "Illegal function"
    else if k == 2
    then some "Illegal data address"
    else if k == 3
    then some "Illegal data value"
    else if k == 4
    then some "Slave device or server failure"
    else if k == 5
    then some "Acknowledge"
    else if k == 6
    then some "Slave device or server is busy"
    else if k == 7
    then some "Negative acknowledge"
    else if k == 8
    then some "Memory parity error"
    else if k == 10
    then some "Gateway path unavailable"
    else if k == 11
    then some "Target device failed to respond"
    else if k == 12
    then some "Invalid CRC"
    else if k == 13
    then some "Invalid data"
    else if k == 14
    then some "Invalid exception code"
    else if k == 16
    then some "Too many data"
    else if k == 17
    then some "Response not from requested slave"
    else none

unfoldable pub tta_strerror : (Errno → String) → Errno → String
tta_strerror strerror (emb k) = elim (text_of k) [ none ↦ strerror (emb k) | some text ↦ text ]
tta_strerror strerror e = strerror e
