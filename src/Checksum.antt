-- ===== src/Checksum.antt =====
-- The two checksums of a packet, `sum_xor` and `sum_add`, which src/tta_rs485.c and src/tta_rf.c
-- both define.
pub mod Laws
use libtta.Base.{ℕ, zero, suc, ◌+◌, ◌%◌, bit_xor, List, [], ◌∷◌, u8}
use libtta.Base.Run.{M, fault, pure}

-- `while(len--) sum ^= *buf++;`
unfoldable pub sum_xor_from : {S : Type 0} → ℕ → List ℕ → ℕ → M S ℕ
sum_xor_from sum buf zero = pure sum
sum_xor_from sum [] (suc len) = λ s. fault
sum_xor_from sum (b ∷ buf) (suc len) = sum_xor_from (u8 (bit_xor sum b)) buf len

unfoldable pub sum_xor : {S : Type 0} → List ℕ → ℕ → M S ℕ
unfolding sum_xor_from
sum_xor buf len = sum_xor_from 0 buf len

-- `while(len--) sum += *buf++;`
unfoldable pub sum_add_from : {S : Type 0} → ℕ → List ℕ → ℕ → M S ℕ
sum_add_from sum buf zero = pure sum
sum_add_from sum [] (suc len) = λ s. fault
sum_add_from sum (b ∷ buf) (suc len) = sum_add_from (u8 (sum + b)) buf len

unfoldable pub sum_add : {S : Type 0} → List ℕ → ℕ → M S ℕ
unfolding sum_add_from
sum_add buf len = sum_add_from 0 buf len
