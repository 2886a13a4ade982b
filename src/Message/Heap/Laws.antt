-- ===== src/Message/Heap/Laws.antt =====
-- Messages are made in fresh blocks, and giving a message back gives all of its blocks back.
use libtta.Base.{
  ℕ, suc, ◌+◌, ◌≡◌, refl, Option, none, some, List, [], ◌∷◌, ◌++◌, append_assoc, length,
  length-append, arith, ◌==◌, false,
}
use libtta.Base.Run.{ok, then_run, ◌>>=◌}
use libtta.Base.Heap.{write_block, free, found_at, found_next, replaced_at, replaced_next}
use libtta.Message.{hd_size}
use libtta.Message.Laws.{fill_lem}
use libtta.Message.Heap.{
  Msg, Block, bytes, ttamsg, Heap, load_msg, load_bytes, ttamsg_new, ttamsg_make, ttamsg_free, view,
}

-- A message of `n` bytes in two blocks behind those of `h`.
abbrev pub owned : Heap → ℕ → List ℕ → Heap
owned h n l =
    h
    ++ (some (ttamsg (record { tid = 0; len = n; buf = suc (suc (length h)) }))
        ∷ some (bytes l)
        ∷ [])

module _ (malloc : ℕ → List ℕ) (raw : Msg) where
  -- Two blocks are taken.
  new_lem :
      (n : ℕ) (h : Heap) → ttamsg_new malloc raw n h ≡ ok (suc (length h), owned h n (malloc n))
  unfolding ttamsg_new
  new_lem n h =
      let next : length (h ++ some (ttamsg raw) ∷ []) ≡ suc (length h) =
        omega (arith, length-append {0} {A = Option Block} h (some (ttamsg raw) ∷ [])) in
      let flat = append_assoc h (some (ttamsg raw) ∷ []) (some (bytes (malloc n)) ∷ []) in
      rw
        (
          flat,
          write_block,
          found_at h (ttamsg raw) (some (bytes (malloc n)) ∷ []),
          next,
          flat,
          replaced_at h (some (ttamsg raw))
              (some (ttamsg (record { tid = 0; len = n; buf = suc (suc (length h)) })))
              (some (bytes (malloc n)) ∷ []),
        )
        refl

  module _ (sized : (n : ℕ) → length (malloc n) ≡ n) where
    pub make_lem :
        (devid subid cmd : ℕ) (src : List ℕ) (h : Heap)
        → ttamsg_make malloc raw devid subid cmd src (length src) h
          ≡ ok (
            suc (length h),
            owned h (hd_size + length src) (devid ∷ subid ∷ cmd ∷ length src ∷ src),
          )
    unfolding ttamsg_make
    make_lem devid subid cmd src h =
        let n : ℕ = hd_size + length src in
        let msg = ttamsg (record { tid = 0; len = n; buf = suc (suc (length h)) }) in
        rw
          (
            new_lem n h,
            then_run,
            load_msg,
            found_at h msg (some (bytes (malloc n)) ∷ []),
            then_run,
            load_bytes,
            found_next h (some msg) (bytes (malloc n)) [],
            then_run,
            fill_lem (malloc n) devid subid cmd src (owned h n (malloc n)) (sized n),
            then_run,
            write_block,
            found_next h (some msg) (bytes (malloc n)) [],
            replaced_next h (some msg) (some (bytes (malloc n)))
                (some (bytes (devid ∷ subid ∷ cmd ∷ length src ∷ src))) [],
          )
          refl

-- What is read of a message that has been made.
pub view_lem :
    (n : ℕ) (l : List ℕ) (h : Heap)
    → view (suc (length h)) (owned h n l) ≡ ok (record { tid = 0; len = n; buf = l }, owned h n l)
view_lem n l h =
    let msg = ttamsg (record { tid = 0; len = n; buf = suc (suc (length h)) }) in
    rw
      (
        view,
        load_msg,
        found_at h msg (some (bytes l) ∷ []),
        then_run,
        load_bytes,
        found_next h (some msg) (bytes l) [],
      )
      refl

-- What `ttamsg_new` took, `ttamsg_free` gives back.
pub free_lem :
    (n : ℕ) (l : List ℕ) (h : Heap)
    → ttamsg_free (suc (length h)) (owned h n l) ≡ ok (tt, h ++ (none ∷ none ∷ []))
unfolding ttamsg_free
free_lem n l h =
    let msg = ttamsg (record { tid = 0; len = n; buf = suc (suc (length h)) }) in
    let nonnull : (suc (suc (length h)) == 0) ≡ false = ground arith in
    rw
      (
        ttamsg_free,
        load_msg,
        found_at h msg (some (bytes l) ∷ []),
        then_run,
        nonnull,
        free,
        found_next h (some msg) (bytes l) [],
        replaced_next h (some msg) (some (bytes l)) none [],
        then_run,
        free,
        found_at h msg (none ∷ []),
        replaced_next h (some msg) (some (bytes l)) none [],
        replaced_at h (some msg) none (none ∷ []),
      )
      refl

-- Where blocks have the size that was asked for, and a message is made and then given back, every
-- block that was taken for it is given back, and the blocks that were there before are as they were.
pub ttamsg_make-ttamsg_free :
    (malloc : ℕ → List ℕ) (raw : Msg) (sized : (n : ℕ) → length (malloc n) ≡ n)
    (devid subid cmd : ℕ) (src : List ℕ) (h : Heap)
    → (ttamsg_make malloc raw devid subid cmd src (length src) >>= ttamsg_free) h
      ≡ ok (tt, h ++ (none ∷ none ∷ []))
ttamsg_make-ttamsg_free malloc raw sized devid subid cmd src h =
    rw (make_lem malloc raw sized devid subid cmd src h)
      (free_lem (hd_size + length src) (devid ∷ subid ∷ cmd ∷ length src ∷ src) h)
