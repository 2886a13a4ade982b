-- ===== src/Core/Session.antt =====
-- What a program does with a context: calls of src/tta.c and of the transport, in any order, while
-- the world outside changes. What the functions of a transport keep holds in every state that such
-- a program reaches.
pub mod Laws
use libtta.Base.{ℕ, ℤ, ◌≡◌, subst, Bool, Option, none, some, List, bit_or, u8}
use libtta.Base.Run.{Outcome, ok, M, pure, then_run, ◌>>=◌}
use libtta.Context.{
  Errno, Timeval, Tta, State, Rc, set_error_recovery, set_socket, set_response_timeout,
  set_byte_timeout, set_debug,
}
use libtta.Context.Keeps.{Keeps, Left, keeps_rules, Keeps-cases}
use libtta.Message.{Ttamsg, make}
use libtta.Link.{System, Link, Backend}
use libtta.Core.Engine
use libtta.Core.Api
use libtta.Core.Api.{max_message_length}
use libtta.Core.Keeps.{LinkKeeps, sleep_and_flush-Keeps, send_pkt-Keeps, flush-Keeps}

-- The calls that reach the transport.
pub data Call : Type 0 where
  connect close flush : Call
  send request : Ttamsg → Call
  receive : Bool → Call
  reply : Ttamsg → List ℕ → ℕ → Call

-- The calls that only change the context.
pub data Setting : Type 0 where
  error_recovery : ℕ → Setting
  socket : ℤ → Setting
  response_timeout byte_timeout : Timeval → Setting
  debug : Bool → Setting

unfoldable pub set : Setting → Tta → Tta
unfolding set_error_recovery set_socket set_response_timeout set_byte_timeout set_debug
set (error_recovery mode) ctx = set_error_recovery mode ctx
set (socket s) ctx = set_socket s ctx
set (response_timeout t) ctx = set_response_timeout t ctx
set (byte_timeout t) ctx = set_byte_timeout t ctx
set (debug b) ctx = set_debug b ctx

module _ {D W : Type 0} (sys : System W) (rounds : ℕ) (b : Backend D W) where
  -- A call, whatever it returns.
  unfoldable pub run : Call → M (State D W) (Unit {0})
  run connect = Api.connect sys rounds b >>= λ _. pure tt
  run close = Api.close sys rounds b
  run flush = Engine.flush sys rounds b.link >>= λ _. pure tt
  run (send ttamsg) = Api.send sys rounds b ttamsg >>= λ _. pure tt
  run (request ttareq) = Api.request sys rounds b ttareq >>= λ _. pure tt
  run (receive fgtm) = Api.receive sys rounds b fgtm >>= λ _. pure tt
  run (reply ttareq bytes datalen) = Api.reply sys rounds b ttareq bytes datalen >>= λ _. pure tt

-- `Own` are the calls of the transport itself, which `own` runs.
module _ {D W : Type 0} (sys : System W) (rounds : ℕ) (b : Backend D W) (Own : Type 0)
    (own : Own → M (State D W) Rc) where
  -- A call that returns, or a change outside, which can change `errno` as well.
  pub data Step (st t : State D W) : Type 0 where
    called : (c : Call) → run sys rounds b c st ≡ ok (tt, t) → Step st t
    configured : (c : Own) (rc : Rc) → own c st ≡ ok (rc, t) → Step st t
    changed : (c : Setting) → t ≡ record st { ctx = set c st.ctx } → Step st t
    outside : (w : W) (e : Errno) → t ≡ record st { world = w; errno = e } → Step st t

  pub data Reach (st : State D W) : State D W → Type 0 where
    here : Reach st st
    next : {t u : State D W} → Reach st t → Step t u → Reach st u

-- The functions of the whole table keep `P`.
pub record BackendKeeps {D W : Type 0} (P : D → Type 0) (b : Backend D W) : Type 0 where
  pub link : LinkKeeps P b.link
  pub receive : (fgtm : Bool) → Keeps P (b.receive max_message_length fgtm)
  pub pre_check : (req rsp : List ℕ) (n : ℕ) → Keeps P (b.pre_check_confirmation req rsp n)
  pub conv_pkt2ttamsg : (pkt : List ℕ) (n : ℕ) → Keeps P (b.conv_pkt2ttamsg pkt n)
  pub conv_ttamsg2pkt : (msg : Ttamsg) (pkt : List ℕ) → Keeps P (b.conv_ttamsg2pkt msg pkt)
