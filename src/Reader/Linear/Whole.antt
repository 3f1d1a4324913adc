-- ===== src/Reader/Linear/Whole.antt =====
-- internal/reader/reader.go: the reader of a byte range, over any reader of a part that keeps its
-- contract, from the range to its bytes.
use teldrive_fork.Base.{
  ℕ, zero, suc, ◌+◌, ◌-◌, ◌*◌, ◌/◌, ◌≤◌, ◌<◌, ◌≡◌, refl, sym, ap, subst, ◌∙◌, List, [], ◌∷◌, take,
  drop, length, get_elem?, get_or, concat, map, Option, some, arith, length-append, length-take,
  length-drop,
}
use teldrive_fork.Base.Int.{pos, ◌-ℤ◌}
use teldrive_fork.Reader.Ranges.{Range, calculate_part_byte_ranges}
use teldrive_fork.Reader.Ranges.Cover.{Consecutive, calculate_part_byte_ranges-cover}
use teldrive_fork.Reader.Ranges.Parts.{Uniform, part_bytes, all-parts}
use teldrive_fork.Reader.TgReader.{eof, ok}
use teldrive_fork.Reader.Linear.{Part, PartReader, LinearReader, open_range, start_with}
use teldrive_fork.Reader.Linear.Stream.{Serving, Opens, done, more, drain, drain_lem, start-Live}

-- A relation of each part to its content.
unfoldable pub Each : (Part → List ℕ → Type 0) → List Part → List (List ℕ) → Type 0
Each P [] [] = Unit
Each P [] (x ∷ xs) = ⊥
Each P (p ∷ ps) [] = ⊥
Each P (p ∷ ps) (x ∷ xs) = P p x × Each P ps xs

pub get_elem-Each :
    (P : Part → List ℕ → Type 0) (parts : List Part) (files : List (List ℕ)) (i : ℕ)
    → Each P parts files
    → i < length files
    → (p : Part) × (get_elem? parts i ≡ some p) × P p (get_or files i [])
unfolding Each
get_elem-Each P parts [] i s h = absurd (omega arith)
get_elem-Each P [] (x ∷ xs) i s h = absurd s
get_elem-Each P (p ∷ ps) (x ∷ xs) zero s h = (p, refl, s.0)
get_elem-Each P (p ∷ ps) (x ∷ xs) (suc i) s h = get_elem-Each P ps xs i s.1 (omega arith)

-- A byte of the whole file, in the part that holds it.
inside-part :
    (ps place e : ℕ) (files : List (List ℕ))
    → Uniform ps files
    → e < ps
    → place * ps + e < length (concat files)
    → (place < length files) × (e < length (get_or files place []))
inside-part ps place e [] u h k = absurd (omega arith)
inside-part ps zero e (x ∷ []) u h k = (omega arith, omega (arith, length-append x []))
inside-part ps zero e (x ∷ (y ∷ files)) u h k = (omega arith, omega (arith, u.0))
inside-part ps (suc place) e (x ∷ []) u h k = absurd (omega (arith, length-append x []))
inside-part ps (suc place) e (x ∷ (y ∷ files)) u h k =
    let (there, within) =
      inside-part ps place e (y ∷ files) u.1 h
        (omega (arith, length-append x (concat (y ∷ files)), u.0)) in
    (omega arith, within)

-- A range inside a part can be opened, and serves its bytes.
pub record PartsOpen (source : PartReader) (serving : Serving source) (parts : List Part)
    (files : List (List ℕ)) : Type 0 where
  pub open_lem :
      (r : Range)
      → r.part_no < length files
      → r.start ≤ r.end
      → r.end < length (get_or files r.part_no [])
      → (s : source.State) × (open_range source parts (some r) ≡ ok s)
        × serving.Serves s (part_bytes files r)

module _ (source : PartReader) (serving : Serving source) (parts : List Part)
    (files : List (List ℕ)) (opening : PartsOpen source serving parts files) where
  all-Opens :
      (ps end place : ℕ) (rs : List Range)
      → Uniform ps files
      → end < length (concat files)
      → Consecutive ps end place rs
      → Opens source serving parts rs (map (part_bytes files) rs)
  all-Opens ps end place [] u k c = done
  all-Opens ps end place (r ∷ rs) u k (a, lo, hi, e, c) =
      let (there, within) = inside-part ps r.part_no r.end files u hi (omega arith) in
      let (s, made, v) = opening.open_lem r there lo within in
      more r rs _ _ s made v (all-Opens ps end (place + 1) rs u k c)

length-ranges : {A : Type 0} (g : Range → List A) (rs : List Range) → length (map g rs) ≡ length rs
length-ranges g [] = refl
length-ranges g (r ∷ rs) = ap suc (length-ranges g rs)

distance : (start end : ℕ) → start ≤ end → pos (end + 1) -ℤ pos start ≡ pos (end + 1 - start)
distance start end h = ground arith

module _ (source : PartReader) (serving : Serving source) (parts : List Part)
    (files : List (List ℕ)) (opening : PartsOpen source serving parts files)
    (ps f room start end : ℕ) (p : 0 < room) where
  abbrev range : List ℕ
  range = take (end + 1 - start) (drop start (concat files))

  window : end < length (concat files) → length range ≡ end + 1 - start
  window k = omega (
    arith,
    length-take (end + 1 - start) (drop start (concat files)),
    length-drop start (concat files),
  )

  -- What the reader is made of gives the range.
  abbrev pub Gives : Option (List Range) → Type 0
  Gives rs =
      (r : LinearReader source) × (start_with source parts (pos (end + 1) -ℤ pos start) rs ≡ ok r)
      × (drain source f room r ≡ (range, some eof))

  from_ranges :
      (rs : List Range)
      → start ≤ end
      → end < length (concat files)
      → end + 1 - start + length rs < f
      → concat (map (part_bytes files) rs) ≡ range
      → Opens source serving parts rs (map (part_bytes files) rs)
      → Gives (some rs)
  from_ranges [] h k fuel bytes o = absurd (omega (arith, ap length bytes, window k))
  from_ranges (r ∷ rs) h k fuel bytes o =
      let now = part_bytes files r in
      let later = map (part_bytes files) rs in
      let total : length now + length (concat later) ≡ end + 1 - start =
        omega (arith, ap length bytes, window k, length-append now (concat later)) in
      let (made, e, live) =
        start-Live source serving parts r rs now later (pos (end + 1) -ℤ pos start) o
          (distance start end h ∙ ap pos (sym total)) in
      (
        made,
        e,
        drain_lem source serving f room made now later p live (
              omega (
                arith,
                total,
                length-append now (concat later),
                length-ranges (part_bytes files) rs,
              ))
            ∙ ap (λ t. (t, some eof)) bytes,
      )

  pub start_with-Gives :
      0 < ps
      → Uniform ps files
      → start ≤ end
      → end < length (concat files)
      → end + 1 - start + (end / ps + 1 - start / ps) < f
      → Gives (calculate_part_byte_ranges start end ps)
  start_with-Gives sized u h k fuel =
      let (rs, ranges, c, count, cover) =
        calculate_part_byte_ranges-cover start end ps (concat files) sized h in
      let (present, same) = all-parts ps end (start / ps) files rs u k c in
      subst Gives (sym ranges) (
        from_ranges rs h k (omega arith) (sym same ∙ cover)
          (all-Opens source serving parts files opening ps end (start / ps) rs u k c))
