-- ===== src/Core/Session/Laws.antt =====
-- What the functions of the table keep, every call keeps, and every program with the context.
use libtta.Base.{ℕ, subst, Bool, List}
use libtta.Base.Run.{M}
use libtta.Context.{State, Rc}
use libtta.Context.Keeps.{Keeps, Left, keeps_rules, Keeps-test, Keeps-coded}
use libtta.Context.Keeps.Arrays.{make-Keeps}
use libtta.Message.{Ttamsg}
use libtta.Link.{System, Backend}
use libtta.Core.Engine.{sleep_and_flush}
use libtta.Core.Api
use libtta.Core.Api.{check_confirmation, max_message_length}
use libtta.Core.Keeps.{sleep_and_flush-Keeps, send_pkt-Keeps, flush-Keeps}
use libtta.Core.Session.{
  Call, connect, close, flush, send, request, receive, reply, run, Step, called, configured,
  changed, outside, Reach, here, next, BackendKeeps,
}

module _ {D W : Type 0} (P : D → Type 0) (sys : System W) (rounds : ℕ) (b : Backend D W)
    (kept : BackendKeeps P b) where
  sleep-Keeps : Keeps P (sleep_and_flush sys rounds b.link)
  sleep-Keeps = sleep_and_flush-Keeps P sys rounds b.link kept.link

  check_confirmation-Keeps :
      (req buf : List ℕ) (n : ℕ) → Keeps P (check_confirmation sys rounds b req buf n)
  unfolding check_confirmation
  check_confirmation-Keeps req buf n =
      search (keeps_rules, Keeps-test, kept.pre_check, sleep-Keeps) depth 10

  send-Keeps : (ttamsg : Ttamsg) → Keeps P (Api.send sys rounds b ttamsg)
  unfolding Api.send
  send-Keeps ttamsg =
      search (keeps_rules, kept.conv_ttamsg2pkt, send_pkt-Keeps P sys rounds b.link kept.link)

  pub receive-Keeps : (fgtm : Bool) → Keeps P (Api.receive sys rounds b fgtm)
  unfolding Api.receive
  receive-Keeps fgtm =
      search (keeps_rules, Keeps-coded, kept.receive, kept.conv_pkt2ttamsg) depth 10

  reply-Keeps :
      (ttareq : Ttamsg) (bytes : List ℕ) (n : ℕ) → Keeps P (Api.reply sys rounds b ttareq bytes n)
  unfolding Api.reply
  reply-Keeps ttareq bytes n = search (keeps_rules, make-Keeps, send-Keeps) depth 12

  request-Keeps : (ttareq : Ttamsg) → Keeps P (Api.request sys rounds b ttareq)
  unfolding Api.request
  request-Keeps ttareq =
      search
        (
          keeps_rules,
          Keeps-coded,
          kept.conv_ttamsg2pkt,
          kept.receive,
          kept.conv_pkt2ttamsg,
          check_confirmation-Keeps,
          send_pkt-Keeps P sys rounds b.link kept.link,
        )
        depth 20

  run-Keeps : (c : Call) → Keeps P (run sys rounds b c)
  unfolding run Api.connect Api.close
  run-Keeps connect = search (keeps_rules, kept.link.connect)
  run-Keeps close = kept.link.close
  run-Keeps flush = search (keeps_rules, flush-Keeps P sys rounds b.link kept.link)
  run-Keeps (send ttamsg) = search (keeps_rules, send-Keeps)
  run-Keeps (request ttareq) = search (keeps_rules, request-Keeps)
  run-Keeps (receive fgtm) = search (keeps_rules, receive-Keeps)
  run-Keeps (reply ttareq bytes n) = search (keeps_rules, reply-Keeps)

  module _ (Own : Type 0) (own : Own → M (State D W) Rc)
      (own_kept : (c : Own) → Keeps P (own c)) where
    Step-Keeps :
        {st t : State D W} → Step sys rounds b Own own st t → P st.backend_data → P t.backend_data
    Step-Keeps {st} (called c e) h = subst (Left P) e ((run-Keeps c).at st h)
    Step-Keeps {st} (configured c rc e) h = subst (Left P) e ((own_kept c).at st h)
    Step-Keeps (changed c e) h = rw e h
    Step-Keeps (outside w x e) h = rw e h

    -- What holds of the private data at first, and is kept by the functions of the transport, holds
    -- in every state that calls and changes outside lead to.
    pub Reach-Keeps :
        {st t : State D W} → Reach sys rounds b Own own st t → P st.backend_data → P t.backend_data
    Reach-Keeps here h = h
    Reach-Keeps (next r s) h = Step-Keeps s (Reach-Keeps r h)
