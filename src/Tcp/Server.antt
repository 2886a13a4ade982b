-- ===== src/Tcp/Server.antt =====
-- The calls of a server: `tta_tcp_listen` and `tta_tcp_accept` (src/tta_tcp.c).
use libtta.Base.{ℕ, ℤ, pos, minus_one, none, some, u16}
use libtta.Base.Run.{M, pure, gets, modify, ◌>>=◌, ◌>>◌}
use libtta.Context.{State, Rc}
use libtta.Syscall.{call, act}
use libtta.Tcp.Socket.{Sockets, Tcp, close_and_fail}

module _ {W : Type 0} (os : Sockets W) where
  -- The descriptor of the new socket, or -1 with the socket closed.
  unfoldable pub listen : ℕ → M (State Tcp W) Rc
  listen nb_connection = call os.socket >>= λ rc. elim rc [
    | none ↦ pure none
    | some n ↦ call (os.set_reuseaddr (pos n)) >>= λ r1. elim r1 [
      | none ↦ close_and_fail os (pos n)
      | some _ ↦ gets (λ st. st.backend_data.port) >>= λ port.
          call (os.bind (pos n) (u16 port)) >>= λ r2. elim r2 [
            | none ↦ close_and_fail os (pos n)
            | some _ ↦ call (os.listen (pos n) nb_connection) >>= λ r3. elim r3 [
              | none ↦ close_and_fail os (pos n)
              | some _ ↦ pure (some n)
            ]
          ]
    ]
  ]

  -- The code and the new value of `*s`: the listening socket is given up after a failure.
  unfoldable pub accept : ℤ → M (State Tcp W) (Rc × ℤ)
  accept s = call (os.accept4 s) >>= λ rc. elim rc [
    | none ↦ (do
      modify (λ st. record st { ctx = record st.ctx { s = minus_one } })
      act (os.close_fd s)
      pure (none, pos 0))
    | some n ↦ (do modify (λ st. record st { ctx = record st.ctx { s = pos n } }); pure (some n, s))
  ]
