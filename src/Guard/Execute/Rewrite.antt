-- ===== src/Guard/Execute/Rewrite.antt =====
-- An amount written into the data of an instruction.
use engine_mev.Base.{
  ℕ, zero, suc, ◌+◌, ◌<◌, ◌≤◌, ◌≡◌, refl, arith, true, [], ◌∷◌, ◌++◌, length, length-append, take,
  drop, leb,
}
use engine_mev.Base.Word.{u64_mod}
use engine_mev.Base.Bytes.{
  Bytes, to_le_bytes, from_le_bytes, length-to_le_bytes, le_round_trip, take-append, length-take,
  drop-append, drop-drop, length-drop,
}
use engine_mev.Guard.Execute.{rewrite_amount}

-- The eight bytes at the offset are those of the amount.
at_offset :
    (offset : ℕ) (bytes word rest : Bytes)
    → offset ≤ length bytes
    → take (length word) (drop offset (take offset bytes ++ (word ++ rest))) ≡ word
at_offset zero bytes word rest h = take-append word rest
at_offset (suc n) [] word rest h = absurd (omega (arith, h))
at_offset (suc n) (x ∷ xs) word rest h = at_offset n xs word rest (omega (arith, h))

rewritten :
    (offset amount : ℕ) (bytes : Bytes)
    → offset + 8 ≤ length bytes
    → length (take offset bytes ++ (to_le_bytes 8 amount ++ drop (offset + 8) bytes)) ≡ length bytes
rewritten offset amount bytes h = omega (
  arith,
  length-append (take offset bytes) (to_le_bytes 8 amount ++ drop (offset + 8) bytes),
  length-append (to_le_bytes 8 amount) (drop (offset + 8) bytes),
  length-to_le_bytes 8 amount,
  length-take offset bytes (omega (arith, h)),
  length-drop (offset + 8) bytes h,
)

read :
    (offset amount : ℕ) (bytes : Bytes)
    → amount < u64_mod
    → offset ≤ length bytes
    → from_le_bytes (
        take 8
          (drop offset (take offset bytes ++ (to_le_bytes 8 amount ++ drop (offset + 8) bytes))))
      ≡ amount
read offset amount bytes h fits =
    rw
      (rw (length-to_le_bytes 8 amount) at
        (at_offset offset bytes (to_le_bytes 8 amount) (drop (offset + 8) bytes) fits))
      (le_round_trip 8 amount h)

drop-append_word :
    (pre word rest : Bytes) → drop (length pre + length word) (pre ++ (word ++ rest)) ≡ rest
drop-append_word pre word rest =
    rw
      (drop-drop (length pre) (length word) (pre ++ (word ++ rest)), drop-append pre (word ++ rest))
      (drop-append word rest)

-- The word that follows a prefix is replaced by the amount.
pub rewrite_amount_word :
    (pre rest : Bytes) (a x : ℕ)
    → rewrite_amount (length pre) x (pre ++ (to_le_bytes 8 a ++ rest))
      ≡ pre ++ (to_le_bytes 8 x ++ rest)
unfolding rewrite_amount
rewrite_amount_word pre rest a x =
    let word = to_le_bytes 8 a in
    let fits : leb (length pre + 8) (length (pre ++ (word ++ rest))) ≡ true =
      ground (
        arith,
        length-append pre (word ++ rest),
        length-append word rest,
        length-to_le_bytes 8 a,
      ) in
    let after : drop (length pre + 8) (pre ++ (word ++ rest)) ≡ rest =
      rw (length-to_le_bytes 8 a) at (drop-append_word pre word rest) in
    rw (fits, take-append pre (word ++ rest), after) refl

-- Where the word fits into the data, the rewritten data has the same length, and a reader of the
-- eight bytes at the offset reads the amount, for every 64-bit amount.
pub rewrite_amount-read :
    (offset amount : ℕ) (bytes : Bytes)
    → amount < u64_mod
    → offset + 8 ≤ length bytes
    → (length (rewrite_amount offset amount bytes) ≡ length bytes)
      × (from_le_bytes (take 8 (drop offset (rewrite_amount offset amount bytes))) ≡ amount)
unfolding rewrite_amount
rewrite_amount-read offset amount bytes h fits =
    let e : leb (offset + 8) (length bytes) ≡ true = ground arith in
    (
      rw (e) (rewritten offset amount bytes fits),
      rw (e) (read offset amount bytes h (omega (arith, fits))),
    )
