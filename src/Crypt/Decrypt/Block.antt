-- ===== src/Crypt/Decrypt/Block.antt =====
-- `fillBuffer` on a stream that the encrypter made: one block of the content, or the end.
use teldrive_fork.Base.{
  ℕ, ◌-◌, ◌≡◌, ◌≢◌, ap, ◌∙◌, leb, ◌==◌, List, [], take, drop, length, Option, none, some, arith,
  length-take, take_all, length_pos, false,
}
use teldrive_fork.Crypt.Size.{block_data_size, block_header_size, block_size}
use teldrive_fork.Crypt.Nonce.{increment}
use teldrive_fork.Crypt.Io.{Error, eof, Source, read_fill, contents}
use teldrive_fork.Crypt.Io.Fill.{read_fill-Fills, no_more-Failure}
use teldrive_fork.Crypt.Format.{Secretbox}
use teldrive_fork.Crypt.Format.Blocks.{body, first, body-nil, take-body_first, drop-body_first}
use teldrive_fork.Crypt.Decrypt.{Decrypter, open_block, fill_buffer}

module _ (box : Secretbox) where
  -- The reader behind the decrypter has the sealed blocks of `rest` left, and then its end.
  pub record Decrypts (fh : Decrypter) (rest : List ℕ) : Type 0 where
    pub blocks : contents fh.rc ≡ body box fh.nonce rest
    pub rc_end : fh.rc.end ≡ eof
    pub alive : fh.failure ≡ none

  -- The decrypter with the next block in its buffer.
  abbrev pub loaded : Decrypter → Source → List ℕ → Decrypter
  loaded fh rc m = record fh { rc = rc; buf = m; buf_index = 0; nonce = increment fh.nonce }

  open_block-sealed :
      (fh : Decrypter) (e : Option Error) (m : List ℕ)
      → m ≢ []
      → open_block box (box.seal fh.nonce m) e fh
        ≡ (none, record fh { buf = m; buf_index = 0; nonce = increment fh.nonce })
  unfolding open_block
  open_block-sealed fh e m h =
      let l = box.length-seal fh.nonce m in
      let p = length_pos m h in
      let nonempty : (length (box.seal fh.nonce m) == 0) ≡ false = ground arith in
      let long : leb (length (box.seal fh.nonce m)) block_header_size ≡ false = ground arith in
      rw (nonempty, long, box.unseal-seal fh.nonce m)
        (ap (λ t. (none, record fh { buf = t; buf_index = 0; nonce = increment fh.nonce }))
          (take_all (length (box.seal fh.nonce m) - block_header_size) m (omega arith)))

  -- With blocks left, the next one is loaded.
  pub fill_buffer-block :
      (fh : Decrypter) (rest : List ℕ)
      → Decrypts fh rest
      → rest ≢ []
      → (rc : Source) × (fill_buffer box fh ≡ (none, loaded fh rc (take block_data_size rest)))
        × Decrypts (loaded fh rc (take block_data_size rest)) (drop block_data_size rest)
  unfolding fill_buffer
  fill_buffer-block fh rest d h =
      let v = read_fill-Fills block_size fh.rc in
      let rc = (read_fill block_size fh.rc).2 in
      let e = (read_fill block_size fh.rc).1 in
      let bytes : (read_fill block_size fh.rc).0 ≡ first box fh.nonce rest =
        v.bytes ∙ ap (take block_size) d.blocks ∙ take-body_first box fh.nonce rest h in
      (
        rc,
        ap (λ b. open_block box b e (record fh { rc = rc })) bytes
            ∙ open_block-sealed (record fh { rc = rc }) e (take block_data_size rest)
                (λ z. absurd (
                  omega (arith, ap length z, length-take block_data_size rest, length_pos rest h))),
        record {
          blocks = v.left ∙ ap (drop block_size) d.blocks ∙ drop-body_first box fh.nonce rest;
          rc_end = v.same_end ∙ d.rc_end;
          alive = d.alive;
        },
      )

  -- With none left, the end of the stream is the answer.
  pub fill_buffer-end :
      (fh : Decrypter)
      → Decrypts fh []
      → (rc : Source) × (fill_buffer box fh ≡ (some eof, record fh { rc = rc }))
  unfolding fill_buffer open_block
  fill_buffer-end fh d =
      let v = read_fill-Fills block_size fh.rc in
      let rc = (read_fill block_size fh.rc).2 in
      let empty : contents fh.rc ≡ [] = d.blocks ∙ body-nil box fh.nonce in
      let bytes : (read_fill block_size fh.rc).0 ≡ [] = v.bytes ∙ ap (take block_size) empty in
      let ended : (read_fill block_size fh.rc).1 ≡ some eof =
        no_more-Failure block_size fh.rc _ (omega arith) empty v.failure ∙ ap some d.rc_end in
      (
        rc,
        cc (
          ap (λ b. open_block box b (read_fill block_size fh.rc).1 (record fh { rc = rc })) bytes,
          ended,
        ),
      )
