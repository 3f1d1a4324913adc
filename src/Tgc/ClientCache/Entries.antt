-- ===== src/Tgc/ClientCache/Entries.antt =====
-- The cache's entries: one for a key, and one for a client.
use teldrive_fork.Base.{
  ℕ, ◌≡◌, refl, sym, subst, ap, ◌∙◌, ◌==◌, ==_iff, List, [], ◌∷◌, none, some, Bool, true, false,
  not, ◌&&◌, ◌||◌, Text, text_key, Bool-cases, inl, inr, arith,
}
use teldrive_fork.Tgc.ClientCache.{Client, Entry, lookup, remove, cached, idle_entries, is_idle}

unfoldable pub Distinct : List Entry → Type 0
Distinct [] = Unit
Distinct (e ∷ es) = (lookup e.key es ≡ none) × (cached e.id es ≡ false) × Distinct es

same-true : (a b : ℕ) → some a ≡ some b → (a == b) ≡ true
same-true a b h = let e : a ≡ b = cc h in ground arith

lookup_here :
    (key : Text) (e : Entry) (es : List Entry)
    → text_key.same e.key key ≡ true
    → lookup key (e ∷ es) ≡ some e.id
unfolding lookup
lookup_here key e es here = rw here refl

lookup_there :
    (key : Text) (e : Entry) (es : List Entry)
    → text_key.same e.key key ≡ false
    → lookup key (e ∷ es) ≡ lookup key es
unfolding lookup
lookup_there key e es there = rw there refl

pub lookup-cached :
    (key : Text) (id : ℕ) (es : List Entry) → lookup key es ≡ some id → cached id es ≡ true
unfolding lookup cached
lookup-cached key id [] h = absurd (ground arith)
lookup-cached key id (e ∷ es) h = elim (Bool-cases (text_key.same e.key key)) [
  | inl here ↦ rw (same-true e.id id (sym (lookup_here key e es here) ∙ h)) refl
  | inr there ↦
      let later = lookup-cached key id es (sym (lookup_there key e es there) ∙ h) in
      elim (Bool-cases (e.id == id)) [ inl x ↦ rw x refl | inr x ↦ rw (x, later) refl ]
]

-- Removing a key that is not there.
remove-none : (key : Text) (es : List Entry) → lookup key es ≡ none → remove key es ≡ es
unfolding remove
remove-none key [] h = refl
remove-none key (e ∷ es) h = elim (Bool-cases (text_key.same e.key key)) [
  | inl here ↦ absurd (ground (arith, sym (lookup_here key e es here) ∙ h))
  | inr there ↦ rw there (ap (◌∷◌ e) (remove-none key es (sym (lookup_there key e es there) ∙ h)))
]

pub false-true : false ≡ true → ⊥
false-true h = ground arith

-- The client `id` stood first.
first_out :
    (i id : ℕ) (rest first : Bool)
    → (i ≡ id → rest ≡ false)
    → (first ≡ true → i ≡ id)
    → rest ≡ ((first || rest) && not (i == id))
first_out i id true true a b = absurd (false-true (sym (a (b refl))))
first_out i id true false a b = elim (Bool-cases (i == id)) [
  | inl x ↦ absurd (false-true (sym (a ((==_iff i id).0 x))))
  | inr x ↦ rw x refl
]
first_out i id false true a b = let x : (i == id) ≡ true = (==_iff i id).1 (b refl) in rw x refl
first_out i id false false a b = refl

-- The client `id` stands behind another one.
later_out :
    (i id : ℕ) (rest first : Bool)
    → (first ≡ true → i ≡ id → ⊥)
    → (first || (rest && not (i == id))) ≡ ((first || rest) && not (i == id))
later_out i id rest true a = elim (Bool-cases (i == id)) [
  | inl x ↦ absurd (a refl ((==_iff i id).0 x))
  | inr x ↦ rw x refl
]
later_out i id rest false a = refl

-- Removing the key of a client takes out that client, and no other.
pub cached-remove :
    (key : Text) (id i : ℕ) (es : List Entry)
    → Distinct es
    → lookup key es ≡ some id
    → cached i (remove key es) ≡ (cached i es && not (i == id))
unfolding Distinct cached remove lookup
cached-remove key id i [] d h = absurd (ground arith)
cached-remove key id i (e ∷ es) d h = elim (Bool-cases (text_key.same e.key key)) [
  | inl here ↦
      let same_id : e.id ≡ id = let x = sym (lookup_here key e es here) ∙ h in cc x in
      let gone : lookup key es ≡ none =
        ap (λ k. lookup k es) (sym ((text_key.same_iff e.key key).0 here)) ∙ d.0 in
      rw (here, remove-none key es gone)
        (first_out i id (cached i es) (e.id == i)
          (λ x. ap (λ j. cached j es) (x ∙ sym same_id) ∙ d.1) (λ x. ground (arith, x, same_id)))
  | inr there ↦
      let found : lookup key es ≡ some id = sym (lookup_there key e es there) ∙ h in
      let in_rest = lookup-cached key id es found in
      rw there (
        ap (λ b. (e.id == i) || b) (cached-remove key id i es d.2 found)
        ∙ later_out i id (cached i es) (e.id == i) (λ x y.
          let z : e.id ≡ id = (==_iff e.id i).0 x ∙ y in
          false-true (sym d.1 ∙ ap (λ j. cached j es) z ∙ in_rest)))
]

pub lookup-remove :
    (key other : Text) (es : List Entry)
    → lookup other es ≡ none
    → lookup other (remove key es) ≡ none
unfolding lookup remove
lookup-remove key other [] h = refl
lookup-remove key other (e ∷ es) h = elim (Bool-cases (text_key.same e.key other)) [
  | inl hit ↦ absurd (ground (arith, sym (lookup_here other e es hit) ∙ h))
  | inr miss ↦
      let rest = lookup-remove key other es (sym (lookup_there other e es miss) ∙ h) in
      elim (Bool-cases (text_key.same e.key key)) [
        | inl here ↦ rw here rest
        | inr there ↦ rw there (lookup_there other e (remove key es) miss ∙ rest)
      ]
]

-- Neither of two tests holds.
neither : (a b : Bool) → (a || b) ≡ false → (a ≡ false) × (b ≡ false)
neither true b h = absurd (false-true (sym h))
neither false b h = (refl, h)

cached-remove-none :
    (key : Text) (i : ℕ) (es : List Entry) → cached i es ≡ false → cached i (remove key es) ≡ false
unfolding cached remove
cached-remove-none key i [] h = refl
cached-remove-none key i (e ∷ es) h =
    let (first, later) = neither (e.id == i) (cached i es) h in
    let rest = cached-remove-none key i es later in
    elim (Bool-cases (text_key.same e.key key)) [
      | inl here ↦ rw here rest
      | inr there ↦ rw (there, first) rest
    ]

pub remove-Distinct : (key : Text) (es : List Entry) → Distinct es → Distinct (remove key es)
unfolding Distinct remove
remove-Distinct key [] d = tt
remove-Distinct key (e ∷ es) (a, b, d) = elim (Bool-cases (text_key.same e.key key)) [
  | inl here ↦ rw here (remove-Distinct key es d)
  | inr there ↦
      rw there
        (lookup-remove key e.key es a, cached-remove-none key e.id es b, remove-Distinct key es d)
]

idle_case :
    (b u c k : Bool)
    → (u || not c) ≡ not k
    → (b ≡ true → c ≡ false)
    → ((b || u) || not (b || c)) ≡ not k
idle_case true true c k h f = h
idle_case true false true k h f = absurd (false-true (sym (f refl)))
idle_case true false false k h f = h
idle_case false u c k h f = h

kept_case :
    (b u c k : Bool)
    → (u || not c) ≡ not k
    → (b ≡ true → u ≡ false)
    → (u || not (b || c)) ≡ not (b || k)
kept_case true true c k h f = absurd (false-true (sym (f refl)))
kept_case true false c k h f = refl
kept_case false u c k h f = h

-- An entry that is not there is not among the idle or the other ones either.
pub cached-idle_none :
    (idle : Bool) (now : ℕ) (clients : ℕ → Client) (i : ℕ) (es : List Entry)
    → cached i es ≡ false
    → cached i (idle_entries idle now clients es) ≡ false
unfolding cached idle_entries
cached-idle_none idle now clients i [] h = refl
cached-idle_none true now clients i (e ∷ es) h =
    let (first, later) = neither (e.id == i) (cached i es) h in
    let rest = cached-idle_none true now clients i es later in
    elim (Bool-cases (is_idle now clients e)) [
      | inl old ↦ rw (old, first) rest
      | inr young ↦ rw young rest
    ]
cached-idle_none false now clients i (e ∷ es) h =
    let (first, later) = neither (e.id == i) (cached i es) h in
    let rest = cached-idle_none false now clients i es later in
    elim (Bool-cases (is_idle now clients e)) [
      | inl old ↦ rw old rest
      | inr young ↦ rw (young, first) rest
    ]

-- The clients outside the cache, after the idle ones have left it.
pub cached-idle_entries :
    (now : ℕ) (clients : ℕ → Client) (i : ℕ) (es : List Entry)
    → Distinct es
    → (cached i (idle_entries true now clients es) || not (cached i es))
      ≡ not (cached i (idle_entries false now clients es))
unfolding cached idle_entries Distinct
cached-idle_entries now clients i [] d = refl
cached-idle_entries now clients i (e ∷ es) d =
    let rest = cached-idle_entries now clients i es d.2 in
    let alone : (e.id == i) ≡ true → cached i es ≡ false =
      λ x. subst (λ j. cached j es ≡ false) ((==_iff e.id i).0 x) d.1 in
    elim (Bool-cases (is_idle now clients e)) [
      | inl old ↦ rw old (idle_case (e.id == i) _ (cached i es) _ rest alone)
      | inr young ↦ rw young (
          kept_case (e.id == i) _ (cached i es) _ rest
            (λ x. cached-idle_none true now clients i es (alone x)))
    ]

lookup-idle :
    (key : Text) (now : ℕ) (clients : ℕ → Client) (es : List Entry)
    → lookup key es ≡ none
    → lookup key (idle_entries false now clients es) ≡ none
unfolding idle_entries lookup
lookup-idle key now clients [] h = refl
lookup-idle key now clients (e ∷ es) h = elim (Bool-cases (text_key.same e.key key)) [
  | inl hit ↦ absurd (ground (arith, sym (lookup_here key e es hit) ∙ h))
  | inr miss ↦
      let rest = lookup-idle key now clients es (sym (lookup_there key e es miss) ∙ h) in
      elim (Bool-cases (is_idle now clients e)) [
        | inl old ↦ rw old rest
        | inr young ↦ rw young (lookup_there key e (idle_entries false now clients es) miss ∙ rest)
      ]
]

pub idle_entries-Distinct :
    (now : ℕ) (clients : ℕ → Client) (es : List Entry)
    → Distinct es
    → Distinct (idle_entries false now clients es)
unfolding Distinct idle_entries
idle_entries-Distinct now clients [] d = tt
idle_entries-Distinct now clients (e ∷ es) (a, b, d) = elim (Bool-cases (is_idle now clients e)) [
  | inl old ↦ rw old (idle_entries-Distinct now clients es d)
  | inr young ↦ rw young (
    lookup-idle e.key now clients es a,
    cached-idle_none false now clients e.id es b,
    idle_entries-Distinct now clients es d,
  )
]
