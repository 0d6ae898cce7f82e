-- ===== src/Stream/Block.antt =====
-- BlockBasedStream of sources/streams.h and sources/streams.cpp: reads, writes and resizes of any
-- range, made of reads and writes of blocks that a subclass provides.
pub mod Pieces
pub mod Range
pub mod Reads
pub mod Writes
pub mod Resizes
pub mod Contract
use securefs.Prelude.{
  ℕ, zero, suc, ◌+◌, ◌-◌, ◌*◌, ◌/◌, ◌%◌, ◌≤◌, ◌<◌, ◌^◌, ◌≡◌, ◌⊎◌, Bool, true, false, ◌&&◌, ◌||◌,
  not, List, [], ◌++◌, min, max, length, take, drop, replicate, ltb, leb, ◌==◌, u64, overlay,
  segment, if◌then◌else◌,
}
use securefs.Error.{Result, ok, stuck, ◌>>=◌}
use securefs.Stream.{StreamOps, Becomes, written, cut}

-- m_block_size, and the virtual functions that BlockBasedStream calls. A block is handed over as the
-- list of the bytes read; `read_block` of a block beyond the end hands over none.
pub record BlockOps (S : Type 0) : Type 0 where
  pub block_size : ℕ
  pub size : S → ℕ
  pub is_sparse : S → Bool
  pub read_block : S → ℕ → Result (List ℕ)
  pub write_block : S → ℕ → List ℕ → Result S
  pub adjust_logical_size : S → ℕ → Result S

-- `unset` is what a fresh buffer of one block holds.
module _ {S : Type 0} (o : BlockOps S) (unset : List ℕ) where
  open o use {block_size, size, is_sparse, read_block, write_block, adjust_logical_size}

  -- The private overload read_block(block_number, output, begin, end).
  unfoldable pub read_block_range : S → ℕ → ℕ → ℕ → Result (List ℕ)
  read_block_range s block_number begin end =
      if (begin == 0) && (end == block_size)
      then read_block s block_number
      else if leb end begin
      then ok []
      else do
        buffer ← read_block s block_number
        if leb (length buffer) begin
            then ok []
            else ok (take (min end (length buffer) - begin) (drop begin buffer))

  unfoldable pub read_then_write_block : S → ℕ → List ℕ → ℕ → ℕ → Result S
  read_then_write_block s block_number input begin end =
      if (begin == 0) && (end == block_size)
      then write_block s block_number (take block_size input)
      else if leb end begin
      then ok s
      else do
        old ← read_block s block_number
        let buffer = overlay (overlay unset 0 old) begin (take (end - begin) input)
        write_block s block_number (take (max (length old) end) buffer)

  -- The loop of `read`; each round but the last takes a byte at least.
  unfoldable pub read_loop : ℕ → S → ℕ → ℕ → Result (List ℕ)
  read_loop zero s offset n = if n == 0 then ok [] else stuck
  read_loop (suc fuel) s offset n = elim (n == 0) [
    | true ↦ ok []
    | false ↦ do
      let block_num = offset / block_size
      let start_of_block = block_num * block_size
      let begin = offset - start_of_block
      let end = min block_size (u64 (offset + n - start_of_block))
      chunk ← read_block_range s block_num begin end
      if ltb (length chunk) (end - begin) then ok chunk else do
        rest ← read_loop fuel s (u64 (offset + length chunk)) (n - length chunk)
        ok (chunk ++ rest)
  ]

  unfoldable pub read : S → ℕ → ℕ → Result (List ℕ)
  read s offset n = read_loop n s offset n

  -- The loop of `unchecked_write`; `input` is what the pointer has not passed.
  unfoldable pub write_loop : ℕ → S → List ℕ → ℕ → ℕ → Result S
  write_loop zero s input offset n = if n == 0 then ok s else stuck
  write_loop (suc fuel) s input offset n = elim (n == 0) [
    | true ↦ ok s
    | false ↦ do
      let block_num = offset / block_size
      let start_of_block = block_num * block_size
      let begin = offset - start_of_block
      let end = min block_size (u64 (offset + n - start_of_block))
      s' ← read_then_write_block s block_num input begin end
      let rc = end - begin
      write_loop fuel s' (drop rc input) (u64 (offset + rc)) (n - rc)
  ]

  unfoldable pub unchecked_write : S → List ℕ → ℕ → ℕ → Result S
  unchecked_write s input offset n = write_loop n s input offset n

  -- The loop of `zero_fill`.
  unfoldable pub zero_loop : ℕ → S → ℕ → ℕ → Result S
  zero_loop zero s offset finish = if ltb offset finish then stuck else ok s
  zero_loop (suc fuel) s offset finish = elim (ltb offset finish) [
    | false ↦ ok s
    | true ↦ do
      let block_num = offset / block_size
      let start_of_block = block_num * block_size
      let begin = offset - start_of_block
      let end = min block_size (finish - start_of_block)
      s' ← read_then_write_block s block_num (replicate block_size 0) begin end
      zero_loop fuel s' (u64 (offset + (end - begin))) finish
  ]

  unfoldable pub zero_fill : S → ℕ → ℕ → Result S
  zero_fill s offset finish = zero_loop (finish - offset) s offset finish

  -- The part of `unchecked_resize` for a smaller size: what is kept of the last block is written anew.
  unfoldable pub shrink_last_block : S → ℕ → Result S
  shrink_last_block s new_size =
      let residue = new_size % block_size in
      let block_num = new_size / block_size in
      if ltb 0 residue
      then (read_block s block_num >>= λ old.
          write_block s block_num (take residue (overlay (replicate block_size 0) 0 old)))
      else ok s

  -- The part for a larger size: zeros up to the new size, or to the end of a block if the rest may
  -- be a hole.
  unfoldable pub fill_gap : S → ℕ → ℕ → Result S
  fill_gap s current_size new_size =
      let old_block_num = current_size / block_size in
      let new_block_num = new_size / block_size in
      if not (is_sparse s) || (old_block_num == new_block_num)
      then zero_fill s current_size new_size
      else zero_fill s current_size (u64 (old_block_num * block_size + block_size))

  unfoldable pub unchecked_resize : S → ℕ → ℕ → Result S
  unchecked_resize s current_size new_size =
      if new_size == current_size
      then ok s
      else if ltb new_size current_size
      then (shrink_last_block s new_size >>= λ s'. adjust_logical_size s' new_size)
      else (fill_gap s current_size new_size >>= λ s'. adjust_logical_size s' new_size)

  unfoldable pub write : S → List ℕ → ℕ → Result S
  write s input offset = do
    let current_size = size s
    s' ← if ltb current_size offset then unchecked_resize s current_size offset else ok s
    unchecked_write s' input offset (length input)

  unfoldable pub resize : S → ℕ → Result S
  resize s new_size = unchecked_resize s (size s) new_size

  -- A BlockBasedStream as a StreamBase.
  abbrev pub block_stream : StreamOps S
  block_stream = record {
    size = size;
    is_sparse = is_sparse;
    read = read;
    write = write;
    resize = resize;
  }

-- What a subclass owes. Its blocks are the blocks of a file of `size s` bytes, byte `i` of which is
-- `byte s i`. A write covers the block that it replaces, but for the last write before a shrink.
pub record BlockLaws {S : Type 0} (o : BlockOps S) : Type 1 where
  pub Valid : S → Type 0
  pub byte : S → ℕ → ℕ
  pub limit : ℕ
  pub limit_fits : limit < 2 ^ 64
  pub block_size_pos : 0 < o.block_size
  pub byte_beyond : (s : S) (i : ℕ) → Valid s → o.size s ≤ i → byte s i ≡ 0
  pub size_fits : (s : S) → Valid s → o.size s ≤ limit
  pub read_block_returns :
      (s : S) (n : ℕ)
      → Valid s
      → n * o.block_size < limit
      → o.read_block s n
        ≡ ok (segment (byte s) (n * o.block_size) (min o.block_size (o.size s - n * o.block_size)))
  pub write_block_returns :
      (s : S) (n : ℕ) (input : List ℕ)
      → Valid s
      → n * o.block_size ≤ o.size s
      → 0 < length input
      → length input ≤ o.block_size
      → min o.block_size (o.size s - n * o.block_size) ≤ length input
      → n * o.block_size + length input ≤ limit
      → Becomes Valid o.size byte
          (o.write_block s n input)
          (max (o.size s) (n * o.block_size + length input))
          (written (byte s) (n * o.block_size) input)
  pub cut_returns :
      (s : S) (new_size : ℕ)
      → Valid s
      → new_size < o.size s
      → new_size % o.block_size ≡ 0
      → Becomes Valid o.size byte
          (o.adjust_logical_size s new_size)
          new_size
          (cut (byte s) new_size)
  pub cut_block_returns :
      (s : S) (n : ℕ) (input : List ℕ)
      → Valid s
      → 0 < length input
      → length input < o.block_size
      → n * o.block_size + length input < o.size s
      → Becomes Valid o.size byte
          (o.write_block s n input >>= λ s'.
            o.adjust_logical_size s' (n * o.block_size + length input))
          (n * o.block_size + length input)
          (cut (written (byte s) (n * o.block_size) input) (n * o.block_size + length input))
  pub grow_returns :
      (s : S) (new_size : ℕ)
      → Valid s
      → o.size s ≤ new_size
      → new_size ≤ limit
      → (o.size s % o.block_size ≡ 0) ⊎ (o.size s ≡ new_size)
      → Becomes Valid o.size byte (o.adjust_logical_size s new_size) new_size (byte s)
