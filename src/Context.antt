-- ===== src/Context.antt =====
-- The context `tta_t` and its accessors (src/tta_private.h, src/tta.c), `errno`, and the state that
-- every call works on.
pub mod Heap
pub mod Keeps
use libtta.Base.{ℕ, ℤ, minus_one, Bool, false, not, Option, none, bit_and, ◌==◌}
use libtta.Base.Run.{M, pure, modify}

-- The values of `errno` that the library sets or tests. `emb k` is `TTA_ENOBASE + k`; `other` is
-- any further code of the system.
pub data Errno : Type 0 where
  ebadf eio econnreset econnrefused epipe etimedout eintr einval enotsup einprogress : Errno
  emb : ℕ → Errno
  other : ℕ → Errno

abbrev pub embbadcrc : Errno
embbadcrc = emb 12

abbrev pub embbaddata : Errno
embbaddata = emb 13

abbrev pub embbadslave : Errno
embbadslave = emb 17

abbrev pub embbadrfid : Errno
embbadrfid = emb 18

pub record Timeval : Type 0 where
  pub tv_sec : ℕ
  pub tv_usec : ℕ

-- `tta_proto_t`.
pub data Proto : Type 0 where
  rs485 rf tcp : Proto

pub record Tta : Type 0 where
  pub slave : ℤ
  pub proto : Proto
  pub s : ℤ
  pub debug : Bool
  pub error_recovery : ℕ
  pub response_timeout : Timeval
  pub byte_timeout : Timeval

-- `ctx`, what `ctx->backend_data` points to, `errno`, and the world outside.
pub record State (D W : Type 0) : Type 0 where
  pub ctx : Tta
  pub backend_data : D
  pub errno : Errno
  pub world : W

-- A return code: `none` is -1, and `some n` is the number `n`.
abbrev pub Rc : Type 0
Rc = Option ℕ

abbrev pub set_errno : {D W : Type 0} → Errno → M (State D W) (Unit {0})
set_errno e = modify (λ st. record st { errno = e })

-- `errno = e; return -1;`
abbrev pub fail_with : {D W : Type 0} → Errno → M (State D W) Rc
fail_with e st = pure none (record st { errno = e })

-- The two flags of `tta_error_recovery_mode`.
abbrev pub recovers_link : Tta → Bool
recovers_link ctx = not (bit_and ctx.error_recovery 2 == 0)

abbrev pub recovers_protocol : Tta → Bool
recovers_protocol ctx = not (bit_and ctx.error_recovery 4 == 0)

unfoldable pub init_common : Tta → Tta
init_common ctx = record ctx {
  slave = minus_one;
  s = minus_one;
  debug = false;
  error_recovery = 0;
  response_timeout = record { tv_sec = 0; tv_usec = 500000 };
  byte_timeout = record { tv_sec = 0; tv_usec = 50000 };
}

unfoldable pub set_error_recovery : ℕ → Tta → Tta
set_error_recovery mode ctx = record ctx { error_recovery = mode }

unfoldable pub set_socket : ℤ → Tta → Tta
set_socket socket ctx = record ctx { s = socket }

unfoldable pub get_socket : Tta → ℤ
get_socket ctx = ctx.s

unfoldable pub get_response_timeout : Tta → Timeval
get_response_timeout ctx = ctx.response_timeout

unfoldable pub set_response_timeout : Timeval → Tta → Tta
set_response_timeout timeout ctx = record ctx { response_timeout = timeout }

unfoldable pub get_byte_timeout : Tta → Timeval
get_byte_timeout ctx = ctx.byte_timeout

unfoldable pub set_byte_timeout : Timeval → Tta → Tta
set_byte_timeout timeout ctx = record ctx { byte_timeout = timeout }

unfoldable pub set_debug : Bool → Tta → Tta
set_debug b ctx = record ctx { debug = b }
