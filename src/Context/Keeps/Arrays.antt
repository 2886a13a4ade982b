-- ===== src/Context/Keeps/Arrays.antt =====
-- Reads and writes of arrays, and all that is made of them, leave the state alone.
use libtta.Base.{
  ◌-◌, ◌==◌, ◌&&◌, if◌then◌else◌, some, get_elem?, ltb, Bool-cases, inl, inr, ℕ, zero, suc, ◌+◌, u8,
  bit_xor, List, [], ◌∷◌,
}
use libtta.Base.Run.{M, pure, when, ◌>>=◌}
use libtta.Base.Buffer.{load, store, copy_bytes, read_bytes}
use libtta.Context.{State, Rc, embbadcrc, recovers_protocol, fail_with}
use libtta.Context.Keeps.{
  Keeps, Left, Left-then, Keeps-bind, Keeps-when, Keeps-if, Keeps-or_fault, Keeps-pure,
  Keeps-fail_with, keeps_rules,
}
use libtta.Checksum.{sum_xor_from, sum_xor, sum_add_from, sum_add}
use libtta.Message.{Ttamsg, fill, make}
use libtta.Packet.{unwrap, append_data, reject, check_sums}

module _ {D W : Type 0} {P : D → Type 0} where
  pub store-Keeps : (buf : List ℕ) (i v : ℕ) → Keeps {W = W} P (store buf i v)
  unfolding store
  store-Keeps buf i v = search keeps_rules

  pub copy_bytes-Keeps :
      (dst : List ℕ) (i : ℕ) (src : List ℕ) (n : ℕ) → Keeps {W = W} P (copy_bytes dst i src n)
  unfolding copy_bytes
  copy_bytes-Keeps dst i src zero = search keeps_rules
  copy_bytes-Keeps dst i [] (suc n) = search keeps_rules
  copy_bytes-Keeps dst i (x ∷ src) (suc n) =
      search (keeps_rules, store-Keeps, λ (d : List ℕ). copy_bytes-Keeps d (i + 1) src n)

  pub read_bytes-Keeps : (src : List ℕ) (n : ℕ) → Keeps {W = W} P (read_bytes src n)
  unfolding read_bytes
  read_bytes-Keeps src zero = search keeps_rules
  read_bytes-Keeps [] (suc n) = search keeps_rules
  read_bytes-Keeps (x ∷ src) (suc n) = search (keeps_rules, read_bytes-Keeps src n)

  pub fill-Keeps :
      (buf : List ℕ) (devid subid cmd : ℕ) (src : List ℕ) (n : ℕ)
      → Keeps {W = W} P (fill buf devid subid cmd src n)
  unfolding fill
  fill-Keeps buf devid subid cmd src n =
      search (keeps_rules, store-Keeps, copy_bytes-Keeps) depth 12

  pub make-Keeps :
      (malloc : ℕ → List ℕ) (devid subid cmd : ℕ) (src : List ℕ) (n : ℕ)
      → Keeps {W = W} P (make malloc devid subid cmd src n)
  unfolding make
  make-Keeps malloc devid subid cmd src n = search (keeps_rules, fill-Keeps)

  pub unwrap-Keeps : (pre tid : ℕ) (pkt : List ℕ) → Keeps {W = W} P (unwrap pre tid pkt)
  unfolding unwrap
  unwrap-Keeps pre tid pkt = search (keeps_rules, read_bytes-Keeps) depth 10

  sum_xor_from-Keeps : (sum : ℕ) (buf : List ℕ) (n : ℕ) → Keeps {W = W} P (sum_xor_from sum buf n)
  unfolding sum_xor_from
  sum_xor_from-Keeps sum buf zero = search keeps_rules
  sum_xor_from-Keeps sum [] (suc n) = search keeps_rules
  sum_xor_from-Keeps sum (b ∷ buf) (suc n) = sum_xor_from-Keeps (u8 (bit_xor sum b)) buf n

  sum_add_from-Keeps : (sum : ℕ) (buf : List ℕ) (n : ℕ) → Keeps {W = W} P (sum_add_from sum buf n)
  unfolding sum_add_from
  sum_add_from-Keeps sum buf zero = search keeps_rules
  sum_add_from-Keeps sum [] (suc n) = search keeps_rules
  sum_add_from-Keeps sum (b ∷ buf) (suc n) = sum_add_from-Keeps (u8 (sum + b)) buf n

  sum_xor-Keeps : (buf : List ℕ) (n : ℕ) → Keeps {W = W} P (sum_xor buf n)
  unfolding sum_xor
  sum_xor-Keeps buf n = sum_xor_from-Keeps 0 buf n

  sum_add-Keeps : (buf : List ℕ) (n : ℕ) → Keeps {W = W} P (sum_add buf n)
  unfolding sum_add
  sum_add-Keeps buf n = sum_add_from-Keeps 0 buf n

  pub append_data-Keeps :
      (hdlen sums : ℕ) (ttamsg : Ttamsg) (datalen : ℕ) (pkt : List ℕ)
      → Keeps {W = W} P (append_data hdlen sums ttamsg datalen pkt)
  unfolding append_data
  append_data-Keeps hdlen sums ttamsg datalen pkt =
      search (keeps_rules, store-Keeps, copy_bytes-Keeps, sum_xor-Keeps, sum_add-Keeps) depth 12

  pub reject-Keeps : (flush : M (State D W) Rc) → Keeps P flush → Keeps P (reject flush)
  unfolding reject
  reject-Keeps flush kept = record {
    at = λ st h.
        Left-then P (when (recovers_protocol st.ctx) (flush >>= λ _. pure tt) st)
          (λ _. fail_with embbadcrc)
          ((Keeps-when (recovers_protocol st.ctx) (flush >>= λ _. pure tt)
              (Keeps-bind flush (λ _. pure tt) kept (λ _. Keeps-pure tt))).at
            st h)
          (λ _. Keeps-fail_with embbadcrc);
  }

  pub check_sums-Keeps :
      (flush : M (State D W) Rc) (pkt : List ℕ) (n : ℕ)
      → Keeps P flush
      → Keeps P (check_sums flush pkt n)
  unfolding check_sums
  check_sums-Keeps flush pkt n kept = record {
    at = λ st h. elim (Bool-cases (ltb n 2)) [
      | inl short ↦ rw (short, Left) tt
      | inr long ↦ rw (long, Left) (summed.at st h)
    ];
  }
    where
      summed : Keeps P (
          sum_xor pkt (n - 2) >>= λ x. sum_add pkt (n - 1) >>= λ a. load pkt (n - 2) >>= λ xr.
          load pkt (n - 1) >>= λ ar. if x == xr && a == ar then pure (some n) else reject flush)
      summed = Keeps-bind _ _ (sum_xor-Keeps pkt (n - 2)) λ x.
          Keeps-bind _ _ (sum_add-Keeps pkt (n - 1)) λ a.
            Keeps-bind _ _ (Keeps-or_fault (get_elem? pkt (n - 2))) λ xr.
              Keeps-bind _ _ (Keeps-or_fault (get_elem? pkt (n - 1))) λ ar.
                Keeps-if (x == xr && a == ar) _ _ (Keeps-pure (some n)) (reject-Keeps flush kept)

pub ruleset array_rules = (
  keeps_rules, store-Keeps, copy_bytes-Keeps, read_bytes-Keeps, make-Keeps, unwrap-Keeps,
  append_data-Keeps,
)
