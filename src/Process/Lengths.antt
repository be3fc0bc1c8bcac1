-- ===== src/Process/Lengths.antt =====
-- How long the pieces of the replication buffer are.
use crimson_cache.Base.{
  length-take, ℕ, zero, suc, ◌+◌, ◌≤◌, ◌≡◌, [], ◌∷◌, arith, ◌==◌, length, inl, inr, Bool-cases,
}
use crimson_cache.CString.{Bytes}
use crimson_cache.Tokenizer.{backwards}
use crimson_cache.Process.Follow.{
  Incoming, available, closed, failed, would_block, recv, split_lines,
}
use crimson_cache.Process.Chunks.{is_end, split_at_end, split_within, split_at_nul}

length-backwards : (start rest : Bytes) → length (backwards start rest) ≡ length start + length rest
length-backwards [] rest = omega arith
length-backwards (c ∷ start) rest = omega (arith, length-backwards start (c ∷ rest))

-- What is left is no longer than what there was.
pub length-split_lines :
    (bs start : Bytes) → length (split_lines start bs).1 ≤ length start + length bs
length-split_lines [] start = unfold split_lines in omega (arith, length-backwards start [])
length-split_lines (c ∷ []) start =
    unfold split_lines in omega (arith, length-backwards (c ∷ start) [])
length-split_lines (c ∷ d ∷ bs) start = elim (Bool-cases (c == 0)) [
  | inl nul ↦
      rw (split_at_nul start c d bs nul) (omega (arith, length-backwards start (c ∷ d ∷ bs)))
  | inr byte ↦ elim (Bool-cases (is_end c d)) [
    | inl end ↦ rw (split_at_end start c d bs byte end) (omega (arith, length-split_lines bs []))
    | inr on ↦
        rw (split_within start c d bs byte on)
          (omega (arith, length-split_lines (d ∷ bs) (c ∷ start)))
  ]
]

abbrev pub received : Incoming → Bytes
received (available bs) = bs
received _ = []

pub length-recv : (n : ℕ) (incoming : Incoming) → length (received (recv n incoming)) ≤ n
unfolding recv
length-recv zero (available bs) = omega arith
length-recv (suc n) (available bs) = length-take (suc n) bs
length-recv zero closed = omega arith
length-recv (suc n) closed = omega arith
length-recv zero failed = omega arith
length-recv (suc n) failed = omega arith
length-recv zero would_block = omega arith
length-recv (suc n) would_block = omega arith
