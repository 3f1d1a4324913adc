-- ===== src/Services/Stream/Content.antt =====
-- pkg/services/file.go: the head of FilesStream announces the bytes that follow it.
use teldrive_fork.Base.{
  ℕ, ◌+◌, ◌-◌, ◌*◌, ◌/◌, ◌==◌, ◌≤◌, ◌<◌, ◌≡◌, ◌⊎◌, refl, ap, subst, ◌∙◌, inl, inr, List, [], ◌∷◌,
  take, drop, length, concat, some, false, Text, arith, Bool-cases, length-take, length-drop,
}
use mathlib.Core.Path.{ap₂}
use teldrive_fork.Base.Int.{ℤ, pos, ◌-ℤ◌, ◌+ℤ◌}
use teldrive_fork.HttpRange.{Range, Parsed, no_overlap, invalid, panicked, parse}
use teldrive_fork.HttpRange.{ok as parse_ok, err as parse_err}
use teldrive_fork.HttpRange.Bounds.{Within, Good, parse-Good}
use teldrive_fork.Reader.Ranges.Parts.{Uniform}
use teldrive_fork.Reader.TgReader.{eof, ok, ChunkSource}
use teldrive_fork.Reader.Linear.{Part, LinearReader, new_linear_reader}
use teldrive_fork.Reader.Linear.Stream.{drain}
use teldrive_fork.Reader.Linear.Plain.{plain, Stored, new_linear_reader-drain}
use teldrive_fork.Services.Stream.{
  Head, content, head_of, parsed_head, range_head, stream_head, has_zero,
}

-- A head with content announces a range inside the file, and its length.
abbrev pub Announces : ℕ → Head → Type 0
Announces size (content status start end len) =
    (s : ℕ) × (e : ℕ) × (start ≡ pos s)
    × (end ≡ pos e)
    × (s ≤ e)
    × (e < size)
    × (len ≡ pos (e + 1 - s))
    × ((status ≡ 206) ⊎ ((status ≡ 200) × (s ≡ 0) × (e + 1 ≡ size)))
Announces size _ = Unit

-- A range has no more parts than its last byte has bytes before it.
parts_few : (ps s e : ℕ) → 0 < ps → e / ps + 1 - s / ps ≤ e + 1
parts_few ps s e h = grind arith

count-pos : (s e : ℕ) → s ≤ e → pos e -ℤ pos s +ℤ pos 1 ≡ pos (e + 1 - s)
count-pos s e h = ground arith

partial-Announces :
    (size : ℕ) (r : Range) → Within size r → Announces size (head_of 206 r.start r.end)
partial-Announces size r (s, e, p, q, h, k) =
    (s, e, p, q, h, k, ap₂ (λ a b. b -ℤ a +ℤ pos 1) p q ∙ count-pos s e h, inl refl)

whole-Announces : (size : ℕ) → 0 < size → Announces size (head_of 200 (pos 0) (pos size -ℤ pos 1))
whole-Announces size h =
    let last : pos size -ℤ pos 1 ≡ pos (size - 1) = ground arith in
    (
      0,
      size - 1,
      refl,
      last,
      omega arith,
      omega arith,
      ap (λ b. b -ℤ pos 0 +ℤ pos 1) last ∙ count-pos 0 (size - 1) (omega arith),
      inr (refl, refl, omega arith),
    )

parsed-Announces : (size : ℕ) (p : Parsed) → Good size p → Announces size (parsed_head p)
parsed-Announces size (parse_err no_overlap) g = tt
parsed-Announces size (parse_err invalid) g = tt
parsed-Announces size panicked g = tt
parsed-Announces size (parse_ok []) g = tt
parsed-Announces size (parse_ok (r ∷ [])) (n, (w, t)) = partial-Announces size r w
parsed-Announces size (parse_ok (r ∷ (r' ∷ rs))) g = tt

range_head-Announces :
    (size : ℕ) (header : Text) → 0 < size → Announces size (range_head size header)
range_head-Announces size [] h = whole-Announces size h
range_head-Announces size (c ∷ header) h =
    parsed-Announces size (parse (c ∷ header) size) (parse-Good (c ∷ header) size)

-- For a file of a known size: whatever the Range header says, a head with content announces a
-- first and a last byte inside the file, the first not behind the last, and their number as the
-- length. The status is 206; or it is 200, and then the range is the whole file.
pub stream_head-Announces :
    (ids : List ℕ) (size : ℕ) (header : Text) → Announces size (stream_head ids (some size) header)
unfolding stream_head
stream_head-Announces ids size header = elim (Bool-cases (has_zero ids)) [
  | inl zero_id ↦ rw zero_id tt
  | inr good ↦ elim (Bool-cases (size == 0)) [
    | inl none_left ↦ rw (good, none_left) tt
    | inr some_left ↦ rw (good, some_left) (range_head-Announces size header (ground arith))
  ]
]

-- A file that is not encrypted is stored in parts that, but for a shorter last one, have the first
-- part's size, and its recorded size is that of its content. Whatever the Range header says, when
-- the head announces content, the reader of the announced range can be made with a concurrency
-- below 2, and read to its end in any portions it delivers exactly the announced bytes of the
-- content, as many as the announced length, and then io.EOF.
pub stream_head-drain :
    (sources : ℕ → ChunkSource) (first : Part) (parts : List Part) (files : List (List ℕ))
    (ids : List ℕ) (header : Text) (f room status : ℕ) (start end len : ℤ)
    → Stored sources (first ∷ parts) files
    → 0 < first.size
    → Uniform first.size files
    → 0 < room
    → length (concat files) * 2 + 2 ≤ f
    → stream_head ids (some (length (concat files))) header ≡ content status start end len
    → (s : ℕ) × (e : ℕ) × (start ≡ pos s)
      × (end ≡ pos e)
      × (r : LinearReader (plain sources)) × (new_linear_reader
            (plain sources)
            false
            (first ∷ parts)
            s
            e
          ≡ ok r)
      × (drain (plain sources) f room r ≡ (take (e + 1 - s) (drop s (concat files)), some eof))
      × (len ≡ pos (length (take (e + 1 - s) (drop s (concat files)))))
stream_head-drain sources first parts files ids header f room status start end len stored sized u p
      fuel h =
    let size = length (concat files) in
    let said : Announces size (content status start end len) =
      subst (Announces size) h (stream_head-Announces ids size header) in
    let (s, e, x, y, lo, hi, count, st) = said in
    let few = parts_few first.size s e sized in
    let (r, made, read) =
      new_linear_reader-drain sources first parts files f room s e stored sized u p lo hi
        (omega arith) in
    (
      s,
      e,
      x,
      y,
      r,
      made,
      read,
      count
          ∙ ap pos (
              let w : e + 1 - s ≡ length (take (e + 1 - s) (drop s (concat files))) = omega (
                arith,
                length-take (e + 1 - s) (drop s (concat files)),
                length-drop s (concat files),
              ) in
              w),
    )
