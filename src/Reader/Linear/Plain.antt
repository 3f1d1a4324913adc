-- ===== src/Reader/Linear/Plain.antt =====
-- The parts of a file that is not encrypted, read by the sequential chunk reader: the whole way from
-- a byte range of the file to its bytes.
use teldrive_fork.Base.{
  ℕ, ◌+◌, ◌-◌, ◌/◌, ◌≤◌, ◌<◌, ◌≡◌, refl, ◌∙◌, List, [], ◌∷◌, take, drop, length, get_or, concat,
  Option, none, some, false,
}
use teldrive_fork.Reader.Ranges.Parts.{Uniform}
use teldrive_fork.Reader.TgReader.{Error, eof, ok, ChunkSource, TgReader, new_tg_reader}
use teldrive_fork.Reader.TgReader.{read as tg_read}
use teldrive_fork.Reader.TgReader.Invariant.{Reads}
use teldrive_fork.Reader.TgReader.Stream.{pending, tg_read-Delivers, start-pending}
use teldrive_fork.Reader.TgReader.Stream.{
  Live as TgLive, Delivers as TgDelivers, part as tg_part, last as tg_last,
  start-Live as tg_start-Live,
}
use teldrive_fork.Reader.Linear.{Part, PartReader, LinearReader, new_linear_reader}
use teldrive_fork.Reader.Linear.Whole.{PartsOpen, Each, get_elem-Each, start_with-Gives}
use teldrive_fork.Reader.Linear.Stream.{PartStep, part, last, Serving, drain}

abbrev pub with_source :
    ChunkSource
    → List ℕ × Option Error × TgReader
    → List ℕ × Option Error × (ChunkSource × TgReader)
with_source src (bytes, e, r) = (bytes, e, (src, r))

-- `getPartReader` without encryption and with a concurrency below 2; `sources` gives the chunk
-- source for a part's id.
abbrev pub plain : (ℕ → ChunkSource) → PartReader
plain sources = record {
  State = ChunkSource × TgReader;
  open_part = λ p r. ok (sources p.id, new_tg_reader (sources p.id) r.start r.end);
  read_part = λ room s. with_source s.0 (tg_read s.0 room s.1);
  close_part = λ s. none;
}

-- A chunk reader with these bytes left.
pub record ServesPart (s : ChunkSource × TgReader) (bytes : List ℕ) : Type 0 where
  pub file : List ℕ
  pub reads : Reads s.0 file
  pub end : ℕ
  pub inside : end < length file
  pub left : ℕ
  pub live : TgLive s.0 file reads end inside left s.1
  pub rest : pending s.0 file reads end inside left s.1 ≡ bytes

part-PartStep :
    (src : ChunkSource) (file : List ℕ) (reads : Reads src file) (end : ℕ)
    (inside : end < length file) (room left : ℕ) (r : TgReader) (bytes : List ℕ)
    (out : List ℕ × Option Error × TgReader)
    → pending src file reads end inside left r ≡ bytes
    → TgDelivers src file reads end inside room left r out
    → PartStep ServesPart room bytes (with_source src out)
part-PartStep src file reads end inside room left r bytes (bs, e, r') p (tg_part left' x v b q) =
    rw x (
      part bs (pending src file reads end inside left' r') (src, r')
        (record {
          file = file;
          reads = reads;
          end = end;
          inside = inside;
          left = left';
          live = v;
          rest = refl;
        })
        (b ∙ p) q)
part-PartStep src file reads end inside room left r bytes (bs, e, r') p (tg_last x b) =
    rw (x, b, p) (last (src, r'))

pub plain_serving : (sources : ℕ → ChunkSource) → Serving (plain sources)
plain_serving sources = record {
  Serves = ServesPart;
  read_serves = λ room s bytes v.
      part-PartStep s.0 v.file v.reads v.end v.inside room v.left s.1 bytes _ v.rest
        (tg_read-Delivers s.0 v.file v.reads v.end v.inside room v.left s.1 v.live);
}

-- The parts are stored: each part's chunk source serves its content.
unfoldable pub Stored : (ℕ → ChunkSource) → List Part → List (List ℕ) → Type 0
unfolding Each
Stored sources parts files = Each (λ p x. Reads (sources p.id) x) parts files

plain-PartsOpen :
    (sources : ℕ → ChunkSource) (parts : List Part) (files : List (List ℕ))
    → Stored sources parts files
    → PartsOpen (plain sources) (plain_serving sources) parts files
unfolding plain_serving Stored
plain-PartsOpen sources parts files stored = record {
  open_lem = λ r there lo within.
      let (p, found, reads) =
        get_elem-Each (λ p x. Reads (sources p.id) x) parts files r.part_no stored there in
      let src = sources p.id in
      let file = get_or files r.part_no [] in
      (
        (src, new_tg_reader src r.start r.end),
        rw found refl,
        record {
          file = file;
          reads = reads;
          end = r.end;
          inside = within;
          left = (new_tg_reader src r.start r.end).total_parts;
          live = tg_start-Live src file reads r.end within r.start lo;
          rest = start-pending src file reads r.end within r.start lo;
        },
      );
}

-- A file that is not encrypted is stored in parts that, but for a shorter last one, have the first
-- part's size. The reader of a range inside the file can be made, and read to its end in any
-- portions it delivers exactly the bytes of the range, both ends included, and then io.EOF.
pub new_linear_reader-drain :
    (sources : ℕ → ChunkSource) (first : Part) (parts : List Part) (files : List (List ℕ))
    (f room start end : ℕ)
    → Stored sources (first ∷ parts) files
    → 0 < first.size
    → Uniform first.size files
    → 0 < room
    → start ≤ end
    → end < length (concat files)
    → end + 1 - start + (end / first.size + 1 - start / first.size) < f
    → (r : LinearReader (plain sources)) × (new_linear_reader
          (plain sources)
          false
          (first ∷ parts)
          start
          end
        ≡ ok r)
      × (drain (plain sources) f room r
          ≡ (take (end + 1 - start) (drop start (concat files)), some eof))
unfolding new_linear_reader
new_linear_reader-drain sources first parts files f room start end stored sized u p h k fuel =
    start_with-Gives (plain sources) (plain_serving sources) (first ∷ parts) files
      (plain-PartsOpen sources (first ∷ parts) files stored) first.size f room start end p sized u h
      k fuel
