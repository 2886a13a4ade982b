-- ===== src/Tcp/Session/Laws.antt =====
-- In every state of a program with a TCP context the transaction number is a word, and the address
-- is a text that ends within its 16 bytes.
use libtta.Base.{
  ℕ, ◌+◌, ◌≤◌, ◌<◌, ◌≡◌, refl, ◌∙◌, ℤ, leb, ◌==◌, ◌||◌, Bool-cases, inl, inr, Option, none, some,
  List, [], ◌∷◌, ◌++◌, length, take, drop, get_elem?, get_elem?-append, get_elem?-last,
  length-append, length-take, length-drop, arith,
}
use libtta.Base.Run.{ok, Returns, Returns-elim, modify}
use libtta.Base.Buffer.{overwrite}
use libtta.Context.{Errno, Tta, State}
use libtta.Context.Keeps.{Keeps, Left, keeps_rules}
use libtta.Context.Keeps.Arrays.{array_rules}
use libtta.Link.{System}
use libtta.Message.{Ttamsg}
use libtta.Strlcpy.Laws.{IsText, fitted, strlcpy_lem}
use libtta.Core.Session.{Reach, BackendKeeps}
use libtta.Core.Session.Laws.{Reach-Keeps}
use libtta.Tcp.Socket.{Sockets, Tcp}
use libtta.Tcp.Packet.{next_tid, conv_ttamsg2pkt}
use libtta.Tcp.Device.Keeps.{
  set_fd-Keeps, pre_check_confirmation-Keeps, conv_pkt2ttamsg-Keeps, receive-Keeps, link-Keeps,
}
use libtta.Tcp.Device.{ip_size, backend, new_tcp, set_ip}
use libtta.Tcp.Server.{listen, accept}
use libtta.Tcp.Session.{Own, address, listening, accepting, own}

-- The address is a text of at most 15 bytes.
abbrev pub HasEnd : List ℕ → Type 0
HasEnd ip = (ip_size ≤ length ip) × ((i : ℕ) × (i < ip_size) × (get_elem? ip i ≡ some 0))

pub record IsReady (d : Tcp) : Type 0 where
  pub tid_word : d.tid < 65536
  pub ip_ends : HasEnd d.ip

next_tid-lt : (tid : ℕ) → next_tid tid < 65536
next_tid-lt tid = ground arith

fitted-HasEnd : (old s : List ℕ) → ip_size ≤ length old → HasEnd (overwrite old (fitted ip_size s))
fitted-HasEnd old s room =
    let front = fitted ip_size s in
    let size : length front ≡ length (take 15 s) + 1 =
      omega (arith, length-append (take 15 s) (0 ∷ [])) in
    let short : length (take 15 s) ≤ 15 = omega (arith, length-take 15 s) in
    (
      omega (
        arith,
        size,
        short,
        length-append front (drop (length front) old),
        length-drop (length front) old,
      ),
      (
        length (take 15 s),
        omega (arith, short),
        get_elem?-append (length (take 15 s)) front (drop (length front) old) (omega (arith, size))
            ∙ get_elem?-last (length (take 15 s)) (take 15 s) 0 refl,
      ),
    )

counted-Keeps :
    {W : Type 0}
    → Keeps {W = W} IsReady (
        modify (λ st. record st {
          backend_data = record st.backend_data { tid = next_tid st.backend_data.tid };
        }))
counted-Keeps = record {
  at = λ st h. record { tid_word = next_tid-lt st.backend_data.tid; ip_ends = h.ip_ends };
}

conv_ttamsg2pkt-Keeps :
    {W : Type 0} (msg : Ttamsg) (pkt : List ℕ) → Keeps {W = W} IsReady (conv_ttamsg2pkt msg pkt)
unfolding conv_ttamsg2pkt
conv_ttamsg2pkt-Keeps msg pkt = search (array_rules, counted-Keeps) depth 30

set_ip-Keeps :
    {W : Type 0} (s rest : List ℕ) (port : ℕ)
    → IsText s
    → Keeps {W = W} IsReady (set_ip (s ++ 0 ∷ rest) port)
unfolding set_ip
set_ip-Keeps s rest port text = record {
  at = λ st h.
      let ends = fitted-HasEnd st.backend_data.ip s h.ip_ends.0 in
      rw (strlcpy_lem st.backend_data.ip s rest ip_size st text (omega arith) h.ip_ends.0, Left)
        (elim (Bool-cases (length s == 0 || leb ip_size (length s))) [
          | inl out ↦ rw (out, Left) (record { tid_word = h.tid_word; ip_ends = ends })
          | inr fits ↦ rw (fits, Left) (record { tid_word = h.tid_word; ip_ends = ends })
        ]);
}

module _ {W : Type 0} (os : Sockets W) where
  listen-Keeps : (n : ℕ) → Keeps IsReady (listen os n)
  unfolding listen
  listen-Keeps n = search keeps_rules depth 30

  accept-Keeps : (s : ℤ) → Keeps IsReady (accept os s)
  unfolding accept
  accept-Keeps s = search (keeps_rules, set_fd-Keeps os IsReady) depth 12

  own-Keeps : (c : Own) → Keeps IsReady (own os c)
  unfolding own
  own-Keeps (address s rest text port) = set_ip-Keeps s rest port text
  own-Keeps (listening n) = listen-Keeps n
  own-Keeps (accepting s) = search (keeps_rules, accept-Keeps)

abbrev MadeReady : Option (Tta × Tcp) → Errno → Type 0
MadeReady none e = Unit
MadeReady (some (ctx, d)) e = IsReady d

new_tcp-IsReady :
    (raw : Tta) (raw_data : Tcp) (s rest : List ℕ) (port : ℕ) (e : Errno)
    → IsText s
    → ip_size ≤ length raw_data.ip
    → Returns (new_tcp raw raw_data (some (s ++ 0 ∷ rest)) port e) MadeReady
unfolding new_tcp
new_tcp-IsReady raw raw_data s rest port e text room =
    rw (strlcpy_lem raw_data.ip s rest ip_size e text (omega arith) room, Returns)
      (elim (Bool-cases (length s == 0 || leb ip_size (length s))) [
        | inl out ↦ rw (out, Returns) tt
        | inr fits ↦
            rw (fits, Returns)
              (record { tid_word = omega arith; ip_ends = fitted-HasEnd raw_data.ip s room })
      ])

module _ {W : Type 0} (os : Sockets W) (sys : System W) (rounds : ℕ) where
  backend-Keeps : BackendKeeps IsReady (backend os sys rounds)
  backend-Keeps = record {
    link = link-Keeps os IsReady sys rounds;
    receive = receive-Keeps os IsReady sys rounds 260;
    pre_check = pre_check_confirmation-Keeps IsReady;
    conv_pkt2ttamsg = conv_pkt2ttamsg-Keeps IsReady;
    conv_ttamsg2pkt = conv_ttamsg2pkt-Keeps;
  }

  -- Where `tta_new_tcp` has made a context of a text, and any calls have been made on it since,
  -- those of src/tta.c, `tta_tcp_set_ip` with other texts, `tta_tcp_listen` and `tta_tcp_accept`,
  -- while anything else changed outside: the transaction number is below 65536, and the array for
  -- the address holds a text that ends within its 16 bytes, also where a call was refused.
  pub Reach-IsReady :
      (raw : Tta) (raw_data : Tcp) (s rest : List ℕ) (port : ℕ) (e e' : Errno) (ctx : Tta) (d : Tcp)
      (w : W) (t : State Tcp W)
      → IsText s
      → ip_size ≤ length raw_data.ip
      → new_tcp raw raw_data (some (s ++ 0 ∷ rest)) port e ≡ ok (some (ctx, d), e')
      → Reach sys rounds
          (backend os sys rounds)
          Own
          (own os)
          (record { ctx = ctx; backend_data = d; errno = e'; world = w })
          t
      → IsReady t.backend_data
  Reach-IsReady raw raw_data s rest port e e' ctx d w t text room made reach =
      Reach-Keeps IsReady sys rounds (backend os sys rounds) backend-Keeps Own (own os)
        (own-Keeps os) reach
        (Returns-elim MadeReady _ (new_tcp-IsReady raw raw_data s rest port e text room) made)
