-- ===== src/Message/Laws.antt =====
-- What a message holds, and what `ttamsg_make` and `ttamsg_duplicate` build.
use libtta.Base.{
  ℕ, ◌+◌, ◌≡◌, refl, ap, List, [], ◌∷◌, get_elem?, some, length, drop_all, append-nil, arith, ◌==◌,
  if◌then◌else◌,
}
use libtta.Base.Run.{Outcome, pure, ok}
use libtta.Base.Buffer.{copy_bytes, overwrite, store-overwrite, copy_bytes-overwrite}
use libtta.Message.{Ttamsg, hd_size, fill, new, make, duplicate}

-- A message with this header and these data bytes.
abbrev pub message : ℕ → ℕ → ℕ → ℕ → List ℕ → Ttamsg
message tid devid subid cmd bytes = record {
  tid = tid;
  len = hd_size + length bytes;
  buf = devid ∷ subid ∷ cmd ∷ length bytes ∷ bytes;
}

-- The block is as long as the message says, and the fourth byte of its header counts the data.
abbrev pub IsWhole : Ttamsg → Type 0
IsWhole msg =
    (n : ℕ) × (get_elem? msg.buf 3 ≡ some n) × (msg.len ≡ hd_size + n) × (length msg.buf ≡ msg.len)

overwrite_whole : (buf xs : List ℕ) → length buf ≡ length xs → overwrite buf xs ≡ xs
overwrite_whole buf xs e = rw (drop_all (length xs) buf e) (append-nil xs)

built :
    {S : Type 0} (n : ℕ) (buf xs : List ℕ) (s : S)
    → length buf ≡ length xs
    → ◌≡◌ {A = Outcome (Ttamsg × S)}
        (ok (record { tid = 0; len = n; buf = overwrite buf xs }, s))
        (ok (record { tid = 0; len = n; buf = xs }, s))
built n buf xs s e = rw (overwrite_whole buf xs e)

-- `if(datalen) memcpy(…)` copies nothing either way when there is nothing to copy.
copy_if_any :
    {S : Type 0} (buf bytes : List ℕ) (at : ℕ) (s : S)
    → (if length bytes == 0 then pure buf else copy_bytes buf at bytes (length bytes)) s
      ≡ copy_bytes buf at bytes (length bytes) s
unfolding copy_bytes
copy_if_any buf [] at s = refl
copy_if_any buf (x ∷ bytes) at s = ground arith

-- The block of a message, whatever was in it before.
pub fill_lem :
    {S : Type 0} (buf : List ℕ) (devid subid cmd : ℕ) (bytes : List ℕ) (s : S)
    → length buf ≡ hd_size + length bytes
    → fill buf devid subid cmd bytes (length bytes) s
      ≡ ok (devid ∷ subid ∷ cmd ∷ length bytes ∷ bytes, s)
unfolding fill
fill_lem buf devid subid cmd bytes s room =
    let whole = devid ∷ subid ∷ cmd ∷ length bytes ∷ bytes in
    rw
      (
        store-overwrite buf [] 0 devid s refl (omega arith),
        store-overwrite buf (devid ∷ []) 1 subid s refl (omega arith),
        store-overwrite buf (devid ∷ subid ∷ []) 2 cmd s refl (omega arith),
        store-overwrite buf (devid ∷ subid ∷ cmd ∷ []) 3 (length bytes) s refl (omega arith),
        copy_if_any (overwrite buf (devid ∷ subid ∷ cmd ∷ length bytes ∷ [])) bytes 4 s,
        copy_bytes-overwrite bytes buf (devid ∷ subid ∷ cmd ∷ length bytes ∷ []) 4 s refl
            (omega arith),
      )
      (ap (λ l. ok (l, s)) (overwrite_whole buf whole (omega arith)))

module _ (malloc : ℕ → List ℕ) (sized : (n : ℕ) → length (malloc n) ≡ n) where
  -- `ttamsg_make` builds the message with the given header and data.
  pub make-message :
      {S : Type 0} (devid subid cmd : ℕ) (bytes : List ℕ) (s : S)
      → make malloc devid subid cmd bytes (length bytes) s ≡ ok (message 0 devid subid cmd bytes, s)
  unfolding make new
  make-message devid subid cmd bytes s =
      rw
        (fill_lem (malloc (hd_size + length bytes)) devid subid cmd bytes s
          (sized (hd_size + length bytes)))
        refl

  -- The duplicate of a message has the same header and data, if blocks have the size that was asked
  -- for; its transaction number is 0.
  pub duplicate-message :
      {S : Type 0} (tid devid subid cmd : ℕ) (bytes : List ℕ) (s : S)
      → duplicate malloc (message tid devid subid cmd bytes) s
        ≡ ok (message 0 devid subid cmd bytes, s)
  unfolding duplicate new
  duplicate-message tid devid subid cmd bytes s =
      let whole = devid ∷ subid ∷ cmd ∷ length bytes ∷ bytes in
      let room = sized (4 + length bytes) in
      let e : 4 + length bytes ≡ length whole = omega arith in
      rw
        (
          e,
          copy_bytes-overwrite whole (malloc (length whole)) [] 0 s refl
              (omega (arith, sized (length whole))),
        )
        (built (length whole) (malloc (length whole)) whole s (sized (length whole)))
