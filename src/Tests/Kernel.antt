-- ===== src/Tests/Kernel.antt =====
-- A driver that takes each mode, and is asked for four of them and for a number that is none.
use libtta.Base.{ℕ, ◌≢◌, refl, sym, ap, Bool, false, ◌==◌, List, [], ◌∷◌}
use libtta.Context.{Errno, State, etimedout}
use libtta.Syscall.{done, failed}
use libtta.Rs485.Kernel.{Kernel, Moded}
use libtta.Rs485.Kernel.Laws.{KernelLaws}
use libtta.Tests.Fixture.{context, port}

-- The world is whether the driver is in the mode RS485.
abbrev driver : Kernel Bool
driver = record { ser_rs485_enabled = 1; tiocsrs485 = λ s flags w. (done 0, flags == 1) }

done≢failed : (n : ℕ) (e : Errno) → done n ≢ failed e
done≢failed n e h = cc

abbrev driver-KernelLaws : KernelLaws driver
driver-KernelLaws = record {
  enabled = λ w. w;
  flag = refl;
  taken = λ s flags n w w' e. ap (λ r. r.1) (sym e);
  refused = λ s flags x w w' e. absurd (done≢failed 0 x (ap (λ r. r.0) e));
}

abbrev by_hand : State Moded Bool
by_hand = record {
  ctx = context;
  backend_data = record { port = port; serial_mode = 0 };
  errno = etimedout;
  world = false;
}

abbrev asked : List ℕ
asked = 1 ∷ 0 ∷ 0 ∷ 7 ∷ 1 ∷ []
