-- ===== src/Tests/Memory.antt =====
-- Messages on a heap, and texts of errors.
use libtta.Base.{pos, ℕ, ◌≡◌, none, some, [], ◌∷◌, replicate, length-replicate, arith}
use libtta.Base.Run.{ok, ◌>>=◌}
use libtta.Message.Heap.{Msg, Heap, bytes, ttamsg_make, ttamsg_free}
use libtta.Message.Heap.Laws.{ttamsg_make-ttamsg_free}
use libtta.Context.{Errno, Tta, eintr}
use libtta.Context.Heap.{tta_free, on_heap}
use libtta.Rs485.Modes.{Created, new_rs485}
use libtta.Rs485.Modes.Heap.{new_context}
use libtta.Rs485.Modes.Heap.Laws.{pointer, holding, new_context-tta_free}
use libtta.Rs485.Port.{Rs485}
use libtta.Tests.Fixture.{port, with_data}

abbrev garbage : Msg
garbage = record { tid = 77; len = 0; buf = 0 }

-- One block is there before.
abbrev before : Heap
before = some (bytes (1 ∷ [])) ∷ []

ttamsg_make-ttamsg_free_example :
    (ttamsg_make (λ n. replicate n 0) garbage 1 2 3 (10 ∷ 20 ∷ []) 2 >>= ttamsg_free) before
    ≡ ok (tt, some (bytes (1 ∷ [])) ∷ none ∷ none ∷ [])
ttamsg_make-ttamsg_free_example =
    ttamsg_make-ttamsg_free (λ n. replicate n 0) garbage (λ n. length-replicate {A = ℕ} n 0) 1 2 3
      (10 ∷ 20 ∷ []) before

-- What fresh blocks for a context of RS485 hold.
abbrev raw_ctx : Tta
raw_ctx = (with_data port []).ctx

abbrev raw_port : Rs485
raw_port = record port { device = replicate 16 7 }

-- The parity X is refused.
new_context-tta_free_example :
    (made : Created Rs485) × (e : Errno) × (new_rs485 raw_ctx raw_port
        (b'/' ∷ 0 ∷ [])
        (pos 9600)
        b'X'
        8
        1
        eintr
      ≡ ok (made, e))
    × (new_context raw_ctx raw_port (b'/' ∷ 0 ∷ []) (pos 9600) b'X' 8 1 ([], eintr)
        ≡ ok (pointer [] made, (holding [] made, e)))
    × (on_heap (tta_free (pointer [] made)) (holding [] made, e) ≡ ok (tt, (none ∷ none ∷ [], e)))
new_context-tta_free_example =
    new_context-tta_free raw_ctx raw_port (b'/' ∷ []) [] (pos 9600) b'X' 8 1 [] eintr (ground arith)
      (omega arith)
