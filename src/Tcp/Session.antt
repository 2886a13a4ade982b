-- ===== src/Tcp/Session.antt =====
-- What a program does with a TCP context: the calls of src/tta.c, and those of src/tta_tcp.c.
pub mod Laws
use libtta.Base.{ℕ, ℤ, List, ◌∷◌, ◌++◌}
use libtta.Base.Run.{M, pure, ◌>>=◌}
use libtta.Context.{State, Rc}
use libtta.Strlcpy.Laws.{IsText}
use libtta.Tcp.Socket.{Sockets, Tcp}
use libtta.Tcp.Device.{set_ip}
use libtta.Tcp.Server.{listen, accept}

-- The calls of the transport itself. An address is a text that ends.
pub data Own : Type 0 where
  address : (s rest : List ℕ) → IsText s → ℕ → Own
  listening : ℕ → Own
  accepting : ℤ → Own

module _ {W : Type 0} (os : Sockets W) where
  unfoldable pub own : Own → M (State Tcp W) Rc
  own (address s rest text port) = set_ip (s ++ 0 ∷ rest) port
  own (listening n) = listen os n
  own (accepting s) = accept os s >>= λ r. pure r.0
