-- ===== src/Packet/Check.antt =====
-- What the integrity check accepts, and what it detects.
use libtta.Base.{
  ℕ, zero, suc, ◌+◌, ◌-◌, ◌≤◌, ◌<◌, ◌≡◌, ◌≢◌, refl, sym, ◌∙◌, ap, subst, List, [], ◌∷◌, ◌++◌,
  length, length-append, take, take-append, get_elem?, get_elem?-append, get_elem?-some,
  get_elem?-last, last_split, append_assoc, none, some, Bool, true, false, ◌==◌, ==_self, ◌&&◌,
  if◌then◌else◌, ltb, u8, arith,
}
use libtta.Base.Run.{M, ok, Returns, Returns-then, Returns-when, Returns-if, Returns-weaken, pure}
use libtta.Context.{State, Rc, embbadcrc, recovers_protocol}
use libtta.Checksum.Laws.{xor_bytes, total, total_change, sum_xor-take, sum_add-take}
use libtta.Packet.{check_sums, reject}
use libtta.Packet.Frame.{with_xor, with_sums, length-with_sums}

abbrev pub IsNotZero : {S : Type 0} → Rc → S → Type 0
IsNotZero rc _ = rc ≢ some 0

module _ {D W : Type 0} (flush : M (State D W) Rc) where
  -- On a packet of `n` bytes, `n` at least two, the check compares the last byte but one with the
  -- exclusive or of all before it, and the last byte with the sum of all before it.
  pub check_sums_lem :
      (n : ℕ) (pkt : List ℕ) (x a : ℕ) (st : State D W)
      → length pkt ≡ n
      → 2 ≤ n
      → get_elem? pkt (n - 2) ≡ some x
      → get_elem? pkt (n - 1) ≡ some a
      → check_sums flush pkt n st
        ≡ (if xor_bytes 0 (take (n - 2) pkt) == x && u8 (total (take (n - 1) pkt)) == a
              then pure (some n)
              else reject flush)
            st
  unfolding check_sums
  check_sums_lem n pkt x a st e two ex ea =
      let long : ltb n 2 ≡ false = ground arith in
      rw
        (
          long,
          sum_xor-take (n - 2) pkt st (omega arith),
          sum_add-take (n - 1) pkt st (omega arith),
          ex,
          ea,
        )
        refl

  accepts :
      (n : ℕ) (pkt : List ℕ) (x a : ℕ) (st : State D W)
      → length pkt ≡ n
      → 2 ≤ n
      → get_elem? pkt (n - 2) ≡ some x
      → get_elem? pkt (n - 1) ≡ some a
      → xor_bytes 0 (take (n - 2) pkt) ≡ x
      → u8 (total (take (n - 1) pkt)) ≡ a
      → check_sums flush pkt n st ≡ ok (some n, st)
  accepts n pkt x a st e two ex ea px pa =
      check_sums_lem n pkt x a st e two ex ea ∙ rw (px, pa, ==_self x, ==_self a) refl

  reject-Returns :
      ((st : State D W) → Returns (flush st) (λ _ _. Unit))
      → (st : State D W) → Returns (reject flush st) (λ rc t. (rc ≡ none) × (t.errno ≡ embbadcrc))
  unfolding reject
  reject-Returns flushes st =
      Returns-then (λ _ _. Unit) (λ rc t. (rc ≡ none) × (t.errno ≡ embbadcrc)) _ _
        (Returns-when (λ _ _. Unit) (recovers_protocol st.ctx) _ st
          (Returns-then (λ _ _. Unit) (λ _ _. Unit) _ _ (flushes st) (λ _ t _. tt)) tt)
        (λ _ t _. (refl, refl))

  -- A packet whose last byte is not the sum of the others is refused.
  rejects :
      ((st : State D W) → Returns (flush st) (λ _ _. Unit))
      → (n : ℕ) (front : List ℕ) (a : ℕ) (st : State D W) → length front + 1 ≡ n
      → 2 ≤ n
      → u8 (total front) ≢ a
      → Returns
          (check_sums flush (front ++ a ∷ []) n st)
          (λ rc t. (rc ≡ none) × (t.errno ≡ embbadcrc))
  rejects flushes n front a st e two ne =
      let pkt = front ++ a ∷ [] in
      let len : length pkt ≡ n = omega (arith, length-append front (a ∷ [])) in
      let (x, ex) = get_elem?-some (n - 2) pkt (omega arith) in
      let ea = get_elem?-last (n - 1) front a (omega arith) in
      let t = take-append (n - 1) front (a ∷ []) (omega arith) in
      subst (λ o. Returns o (λ rc t. (rc ≡ none) × (t.errno ≡ embbadcrc)))
        (sym (check_sums_lem n pkt x a st len two ex ea))
        (rw (t, differs) (refused (xor_bytes 0 (take (n - 2) pkt) == x)))
    where
      differs : (u8 (total front) == a) ≡ false
      differs = ground arith

      refused :
          (b : Bool)
          → Returns
              ((if b && false then pure (some n) else reject flush) st)
              (λ rc t. (rc ≡ none) × (t.errno ≡ embbadcrc))
      refused true = reject-Returns flushes st
      refused false = reject-Returns flushes st

  -- A packet that carries its own sums is accepted, and nothing else happens.
  pub check_sums-with_sums :
      (n : ℕ) (body : List ℕ) (st : State D W)
      → length body + 2 ≡ n
      → check_sums flush (with_sums body) n st ≡ ok (some n, st)
  check_sums-with_sums n body st e =
      let x = xor_bytes 0 body in
      let a = u8 (total (with_xor body)) in
      let len' : length (with_xor body) ≡ n - 1 = omega (arith, length-append body (x ∷ [])) in
      accepts n (with_sums body) x a st (length-with_sums body ∙ e) (omega arith)
        (get_elem?-append (n - 2) (with_xor body) (a ∷ []) (omega arith)
          ∙ get_elem?-last (n - 2) body x (omega arith))
        (get_elem?-last (n - 1) (with_xor body) a len')
        (ap (xor_bytes 0) (
          ap (take (n - 2)) (append_assoc body (x ∷ []) (a ∷ []))
          ∙ take-append (n - 2) body (x ∷ a ∷ []) (omega arith)))
        (ap (λ l. u8 (total l)) (take-append (n - 1) (with_xor body) (a ∷ []) len'))

snoc-eq : (xs ys : List ℕ) (x y : ℕ) → xs ++ x ∷ [] ≡ ys ++ y ∷ [] → (xs ≡ ys) × (x ≡ y)
snoc-eq [] [] x y e = (refl, cc)
snoc-eq [] (b ∷ ys) x y e = absurd (omega (arith, ap length e, length-append ys (y ∷ [])))
snoc-eq (a ∷ xs) [] x y e = absurd (omega (arith, ap length e, length-append xs (x ∷ [])))
snoc-eq (a ∷ xs) (b ∷ ys) x y e = let (p, q) = snoc-eq xs ys x y (ap tail e) in (cc p, q)
  where
    tail : List ℕ → List ℕ
    tail [] = []
    tail (z ∷ zs) = zs

module _ {D W : Type 0} (flush : M (State D W) Rc)
    (flushes : (st : State D W) → Returns (flush st) (λ _ _. Unit)) where
  -- A packet in which one byte has been changed is refused with `EMBBADCRC`.
  pub check_sums-corrupted :
      (body xs ys : List ℕ) (a b : ℕ) (st : State D W)
      → with_sums body ≡ xs ++ a ∷ ys
      → a < 256
      → b < 256
      → a ≢ b
      → Returns
          (check_sums flush (xs ++ b ∷ ys) (length (xs ++ b ∷ ys)) st)
          (λ rc t. (rc ≡ none) × (t.errno ≡ embbadcrc))
  check_sums-corrupted body xs [] a b st e ha hb ne =
      let (p, q) = snoc-eq (with_xor body) xs (u8 (total (with_xor body))) a e in
      rejects flush flushes (length (xs ++ b ∷ [])) xs b st
        (omega (arith, length-append xs (b ∷ [])))
        (omega (
          arith,
          ap length p,
          length-append body (xor_bytes 0 body ∷ []),
          length-append xs (b ∷ []),
        ))
        (λ h. ne (sym q ∙ ap (λ l. u8 (total l)) p ∙ h))
  check_sums-corrupted body xs (c ∷ ys) a b st e ha hb ne =
      let (front, last, f) = last_split c ys in
      let ends =
        λ (z : ℕ). ap (λ l. xs ++ z ∷ l) f ∙ sym (append_assoc xs (z ∷ front) (last ∷ [])) in
      let (p, q) =
        snoc-eq (with_xor body) (xs ++ a ∷ front) (u8 (total (with_xor body))) last (e ∙ ends a) in
      subst
        (λ l.
          Returns (check_sums flush l (length l) st) (λ rc t. (rc ≡ none) × (t.errno ≡ embbadcrc)))
        (sym (ends b))
        (rejects flush flushes (length ((xs ++ b ∷ front) ++ last ∷ [])) (xs ++ b ∷ front) last st
          (omega (arith, length-append (xs ++ b ∷ front) (last ∷ [])))
          (omega (arith, length-append (xs ++ b ∷ front) (last ∷ []), length-append xs (b ∷ front)))
          (λ h. total_change xs front a b ha hb ne (ap (λ l. u8 (total l)) (sym p) ∙ q ∙ sym h)))

  -- On a packet that has room for the sums the check returns, and what it returns is not 0.
  pub check_sums-IsNotZero :
      (pkt : List ℕ) (st : State D W)
      → 2 ≤ length pkt
      → Returns (check_sums flush pkt (length pkt) st) IsNotZero
  check_sums-IsNotZero pkt st two =
      let (x, ex) = get_elem?-some (length pkt - 2) pkt (omega arith) in
      let (a, ea) = get_elem?-some (length pkt - 1) pkt (omega arith) in
      subst (λ o. Returns o IsNotZero)
        (sym (check_sums_lem flush (length pkt) pkt x a st refl two ex ea))
        (Returns-if {A = Rc} {S = State D W} IsNotZero
          (xor_bytes 0 (take (length pkt - 2) pkt) == x
            && u8 (total (take (length pkt - 1) pkt)) == a)
          (pure (some (length pkt))) (reject flush) st (accepted (length pkt) two)
          (Returns-weaken {A = Rc} {S = State D W} (λ rc t. (rc ≡ none) × (t.errno ≡ embbadcrc))
            IsNotZero (reject flush st) (reject-Returns flush flushes st)
            (λ rc t p e. none≢some 0 (sym p.0 ∙ e))))
    where
      none≢some : (n : ℕ) → none ≢ some n
      none≢some n e = cc

      accepted : (n : ℕ) → 2 ≤ n → some n ≢ some 0
      accepted zero le e = absurd (omega arith)
      accepted (suc n) le e = cc
