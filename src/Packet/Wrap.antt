-- ===== src/Packet/Wrap.antt =====
-- `unwrap` gives back the message that stands behind the preheader.
use libtta.Base.{
  ℕ, zero, suc, ◌+◌, ◌≡◌, refl, List, [], ◌∷◌, ◌++◌, get_elem?, length, drop-append, arith, take,
  drop, ◌<◌, ◌≤◌, ◌∙◌, some, length-take, length-drop,
}
use libtta.Base.Run.{ok, Returns}
use libtta.Base.Buffer.{read_bytes-append, read_bytes-take}
use libtta.Context.{State}
use libtta.Message.{hd_size}
use libtta.Message.Laws.{message, IsWhole}
use libtta.Packet.{unwrap}

get_elem?-behind :
    (p i : ℕ) (pre rest : List ℕ)
    → length pre ≡ p
    → get_elem? (pre ++ rest) (p + i) ≡ get_elem? rest i
get_elem?-behind p i [] rest e = ground arith
get_elem?-behind zero i (x ∷ pre) rest e = absurd (omega arith)
get_elem?-behind (suc p) i (x ∷ pre) rest e =
    let sum : suc p + i ≡ suc (p + i) = omega arith in
    rw sum (get_elem?-behind p i pre rest (omega arith))

module _ {D W : Type 0} where
  pub unwrap-message :
      (p tid devid subid cmd : ℕ) (pre bytes rest : List ℕ) (st : State D W)
      → length pre ≡ p
      → unwrap p tid (pre ++ (devid ∷ subid ∷ cmd ∷ length bytes ∷ (bytes ++ rest))) st
        ≡ ok (message tid devid subid cmd bytes, st)
  unfolding unwrap
  unwrap-message p tid devid subid cmd pre bytes rest st e =
      let body = devid ∷ subid ∷ cmd ∷ length bytes ∷ bytes in
      let e' : length body ≡ hd_size + length bytes = omega arith in
      rw
        (
          get_elem?-behind p 3 pre (body ++ rest) e,
          drop-append p pre (body ++ rest) e,
          read_bytes-append (hd_size + length bytes) body rest st e',
        )
        refl

get_elem?-drop : (p i : ℕ) (xs : List ℕ) → get_elem? (drop p xs) i ≡ get_elem? xs (p + i)
get_elem?-drop zero i xs = ground arith
get_elem?-drop (suc p) i [] = ground arith
get_elem?-drop (suc p) i (x ∷ xs) =
    let sum : suc p + i ≡ suc (p + i) = omega arith in rw sum (get_elem?-drop p i xs)

get_elem?-take : (n i : ℕ) (xs : List ℕ) → i < n → get_elem? (take n xs) i ≡ get_elem? xs i
get_elem?-take zero i xs h = absurd (omega arith)
get_elem?-take (suc n) i [] h = refl
get_elem?-take (suc n) zero (x ∷ xs) h = refl
get_elem?-take (suc n) (suc i) (x ∷ xs) h = get_elem?-take n i xs (omega arith)

module _ {D W : Type 0} where
  -- Whatever the bytes are, as long as there are as many as the header says.
  pub unwrap-IsWhole :
      (p tid n : ℕ) (pkt : List ℕ) (st : State D W)
      → get_elem? pkt (p + 3) ≡ some n
      → p + (hd_size + n) ≤ length pkt
      → Returns (unwrap p tid pkt st) (λ msg _. IsWhole msg)
  unfolding unwrap
  unwrap-IsWhole p tid n pkt st found room =
      let rest = drop p pkt in
      let long : hd_size + n ≤ length rest = omega (arith, length-drop p pkt) in
      rw (found, read_bytes-take (hd_size + n) rest st long, Returns)
        ((
          n,
          get_elem?-take (hd_size + n) 3 rest (omega arith) ∙ get_elem?-drop p 3 pkt ∙ found,
          refl,
          omega (arith, length-take (hd_size + n) rest),
        ))
