-- ===== src/Rf/Radio.antt =====
-- The private data of the radio transport, its buffer of received bytes, and the clock.
pub mod Laws
use libtta.Base.{ℕ, ◌+◌, ℤ, Bool, true, false, ltb, ◌==◌, ◌&&◌, ◌||◌, if◌then◌else◌, List, drop, u8}
use libtta.Base.Run.{M, pure, gets, modify, ◌>>=◌, ◌>>◌}
use libtta.Base.Buffer.{store, copy_bytes, read_bytes}
use libtta.Context.{Timeval, State, Rc}
use libtta.Cc1120.Registers.{sftx, sfrx}
use libtta.Cc1120.Access.{Spi, strobe, fifo_write}
use libtta.Link.{System}
use libtta.Base.{Option, some}

-- `tta_rf_t`, with the static variables `rxfifo` (128 bytes) and `rxfifo_pos`: there is one radio.
pub record Rf : Type 0 where
  pub device : List ℕ
  pub ch : ℤ
  pub power : ℤ
  pub id : List ℕ
  pub confirmation_to_ignore : Bool
  pub rxfifo : List ℕ
  pub rxfifo_pos : ℕ

-- The size of `rxfifo` and of the local arrays `fifo`.
abbrev pub fifo_size : ℕ
fifo_size = 128

-- `now` is past `timeout`, as `_tta_rf_send` and `_tta_rf_receive` compare them.
unfoldable pub is_past : Timeval → Timeval → Bool
is_past now timeout =
    ltb timeout.tv_sec now.tv_sec
    || (now.tv_sec == timeout.tv_sec && ltb timeout.tv_usec now.tv_usec)

-- The time limit, field by field.
unfoldable pub add_time : Timeval → Timeval → Timeval
add_time a b = record { tv_sec = a.tv_sec + b.tv_sec; tv_usec = a.tv_usec + b.tv_usec }

module _ {W : Type 0} (spi : Spi W) where
  abbrev pub fd : M (State Rf W) ℤ
  fd = gets (λ st. st.ctx.s)

  -- `fifo` is an array on the stack.
  unfoldable pub write_rf : System W → ℤ → List ℕ → ℕ → M (State Rf W) Rc
  write_rf sys s buf sz = do
    fifo ← store (sys.malloc fifo_size) 0 (u8 sz)
    fifo' ← copy_bytes fifo 1 buf sz
    fifo_write spi s fifo' (sz + 1)
    pure (some sz)

  -- The bytes that are put into the caller's buffer.
  unfoldable pub read_rf : ℕ → M (State Rf W) (Option (List ℕ))
  read_rf sz = do
    rf ← gets (λ st. st.backend_data)
    bytes ← read_bytes (drop rf.rxfifo_pos rf.rxfifo) sz
    modify (λ st. record st {
      backend_data = record st.backend_data { rxfifo_pos = st.backend_data.rxfifo_pos + sz };
    })
    pure (some bytes)

  unfoldable pub flush_rf : ℤ → M (State Rf W) Rc
  flush_rf s = strobe spi s sftx >>= λ _. strobe spi s sfrx >>= λ _. pure (some 0)

  unfoldable pub flush : M (State Rf W) Rc
  unfolding flush_rf
  flush = fd >>= λ s. flush_rf s
