-- ===== src/Cells/Segment.antt =====
-- Lists that stand on the heap: the cells from one address up to another, in order.
use neu_cs5600_cmpsys.Base.{
  ℕ, ◌≡◌, ◌≢◌, refl, sym, ap, ◌∙◌, List, [], ◌∷◌, ◌++◌, Option, none, some, arith,
}
use neu_cs5600_cmpsys.Cells.{Cell, Heap, put, link}

-- `p` is none of the addresses.
abbrev pub IsNew : ℕ → List ℕ → Type 0
IsNew p [] = Unit
IsNew p (q ∷ qs) = (p ≢ q) × IsNew p qs

abbrev pub Distinct : List ℕ → Type 0
Distinct [] = Unit
Distinct (q ∷ qs) = IsNew q qs × Distinct qs

-- The last of a list of addresses that begins with `p`.
abbrev pub last : ℕ → List ℕ → ℕ
last p [] = p
last p (q ∷ qs) = last q qs

pub last-IsNew : (p q : ℕ) (qs : List ℕ) → IsNew p (q ∷ qs) → p ≢ last q qs
last-IsNew p q [] f = f.0
last-IsNew p q (r ∷ qs) f = last-IsNew p r qs f.1

pub IsNew-append : (p r : ℕ) (ps : List ℕ) → IsNew p ps → p ≢ r → IsNew p (ps ++ r ∷ [])
IsNew-append p r [] f n = (n, tt)
IsNew-append p r (q ∷ ps) f n = (f.0, IsNew-append p r ps f.1 n)

-- A new address behind distinct ones.
pub Distinct-append : (r : ℕ) (ps : List ℕ) → Distinct ps → IsNew r ps → Distinct (ps ++ r ∷ [])
Distinct-append r [] d f = (tt, tt)
Distinct-append r (q ∷ ps) d f =
    (IsNew-append q r ps d.0 (λ e. f.0 (sym e)), Distinct-append r ps d.1 f.1)

pub last-append : (p r : ℕ) (ps : List ℕ) → last p (ps ++ r ∷ []) ≡ r
last-append p r [] = refl
last-append p r (q ∷ ps) = last-append q r ps

module _ {A : Type 0} where
  -- From `from` the cells at `ps` hold `xs`, and the last one points to `to`.
  abbrev pub Segment : Heap A → Option ℕ → List ℕ → List A → Option ℕ → Type 0
  Segment h from [] [] to = from ≡ to
  Segment h from [] (x ∷ xs) to = ⊥
  Segment h from (p ∷ ps) [] to = ⊥
  Segment h from (p ∷ ps) (x ∷ xs) to =
      (n : Option ℕ) × (from ≡ some p)
      × (h p ≡ some (record { next = n; item = x }))
      × Segment h n ps xs to

  put_same : (h : Heap A) (p : ℕ) (c : Option (Cell A)) → put h p c p ≡ c
  put_same h p c = ground arith

  put_other : (h : Heap A) (p q : ℕ) (c : Option (Cell A)) → p ≢ q → put h p c q ≡ h q
  put_other h p q c n = ground arith

  pub link_at :
      (h : Heap A) (p : ℕ) (n : Option ℕ) (c : Cell A)
      → h p ≡ some c
      → link h p n ≡ some (put h p (some (record c { next = n })))
  unfolding link
  link_at h p n c e = rw (e, link) refl

  abbrev item_or : A → Option (Cell A) → A
  item_or x none = x
  item_or x (some c) = c.item

  -- A write at a new address leaves the segment.
  pub Segment-put :
      (h : Heap A) (p : ℕ) (c : Option (Cell A)) (from : Option ℕ) (ps : List ℕ) (xs : List A)
      (to : Option ℕ)
      → IsNew p ps
      → Segment h from ps xs to
      → Segment (put h p c) from ps xs to
  Segment-put h p c from [] [] to f s = s
  Segment-put h p c from [] (x ∷ xs) to f s = s
  Segment-put h p c from (q ∷ ps) [] to f s = s
  Segment-put h p c from (q ∷ ps) (x ∷ xs) to f s =
      (s.0, s.1, put_other h p q c f.0 ∙ s.2, Segment-put h p c s.0 ps xs to f.1 s.3)

  -- The last cell of a segment that is not empty.
  pub Segment-last :
      (h : Heap A) (from : Option ℕ) (p : ℕ) (ps : List ℕ) (xs : List A) (to : Option ℕ)
      → Segment h from (p ∷ ps) xs to
      → (y : A) × (h (last p ps) ≡ some (record { next = to; item = y }))
  Segment-last h from p ps [] to s = absurd s
  Segment-last h from p [] (x ∷ []) to s = (x, s.2 ∙ rw s.3 refl)
  Segment-last h from p [] (x ∷ y ∷ xs) to s = absurd s.3
  Segment-last h from p (q ∷ ps) (x ∷ xs) to s = Segment-last h s.0 q ps xs to s.3

  -- The segment after its last cell was linked to a cell at `r`.
  pub Segment-link :
      (h : Heap A) (from : Option ℕ) (p r : ℕ) (ps : List ℕ) (xs : List A) (to to' : Option ℕ)
      (y d : A)
      → Segment h from (p ∷ ps) xs to
      → Distinct (p ∷ ps)
      → IsNew r (p ∷ ps)
      → h r ≡ some (record { next = to'; item = d })
      → h (last p ps) ≡ some (record { next = to; item = y })
      → Segment
          (put h (last p ps) (some (record { next = some r; item = y })))
          from
          (p ∷ (ps ++ r ∷ []))
          (xs ++ d ∷ [])
          to'
  Segment-link h from p r ps [] to to' y d s ds new hr hl = absurd s
  Segment-link h from p r [] (x ∷ []) to to' y d s ds new hr hl = (
    some r,
    s.1,
    put_same h p _
        ∙ ap (λ (o : Option (Cell A)). some (record { next = some r; item = item_or x o }))
            (sym hl ∙ s.2),
    (to', refl, put_other h p r _ (λ e. new.0 (sym e)) ∙ hr, refl),
  )
  Segment-link h from p r [] (x ∷ z ∷ xs) to to' y d s ds new hr hl = absurd s.3
  Segment-link h from p r (q ∷ ps) (x ∷ xs) to to' y d s ds new hr hl = (
    s.0,
    s.1,
    put_other h (last q ps) p _ (λ e. last-IsNew p q ps ds.0 (sym e)) ∙ s.2,
    Segment-link h s.0 q r ps xs to to' y d s.3 ds.1 new.1 hr hl,
  )
