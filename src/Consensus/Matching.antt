-- ===== src/Consensus/Matching.antt =====
-- Logs that match: entries of the same term at the same index are the same, with all the entries
-- before them.
use maelstromdb.Base.{
  ℕ, zero, suc, ◌+◌, ◌≡◌, refl, sym, ap, ap₂, ◌∙◌, List, [], ◌∷◌, ◌++◌, Bool-cases, inl, inr, some,
  eqb_ℤ, eqb_ℤ-sound, take, drop, length, get_elem?, arith, append-nil, append_assoc,
}
use maelstromdb.Protos.{LogEntry}
use maelstromdb.Consensus.Merge.{overlay}

unfoldable pub AreMatching : List LogEntry → List LogEntry → Type 0
AreMatching xs ys =
    (i : ℕ) (x y : LogEntry)
    → get_elem? xs i ≡ some x
    → get_elem? ys i ≡ some y
    → x.term ≡ y.term
    → take (suc i) xs ≡ take (suc i) ys

-- Entries of the same term at the same index are the same.
AreAligned : List LogEntry → List LogEntry → Type 0
AreAligned xs ys =
    (i : ℕ) (x y : LogEntry)
    → get_elem? xs i ≡ some x
    → get_elem? ys i ≡ some y
    → x.term ≡ y.term
    → x ≡ y

get_elem?-take :
    (i : ℕ) (x : LogEntry) (xs : List LogEntry)
    → get_elem? xs i ≡ some x
    → get_elem? (take (suc i) xs) i ≡ some x
get_elem?-take i x [] h = cc
get_elem?-take zero x (y ∷ xs) h = h
get_elem?-take (suc i) x (y ∷ xs) h = get_elem?-take i x xs h

AreMatching-aligned : (xs ys : List LogEntry) → AreMatching xs ys → AreAligned xs ys
unfolding AreMatching AreAligned
AreMatching-aligned xs ys h i x y at_x at_y same =
    let e = h i x y at_x at_y same in
    let read_x = get_elem?-take i x xs at_x in
    let read_y = get_elem?-take i y ys at_y in cc (ap (λ l. get_elem? l i) e)

get_elem?-drop : (n i : ℕ) (xs : List LogEntry) → get_elem? (drop n xs) i ≡ get_elem? xs (n + i)
get_elem?-drop zero i xs = ap (get_elem? xs) (omega arith)
get_elem?-drop (suc n) i [] = refl
get_elem?-drop (suc n) i (x ∷ xs) =
    let next : suc (n + i) ≡ suc n + i = omega arith in
    get_elem?-drop n i xs ∙ ap (get_elem? (x ∷ xs)) next

AreAligned-drop :
    (n : ℕ) (xs ys : List LogEntry) → AreAligned xs ys → AreAligned (drop n xs) (drop n ys)
unfolding AreAligned
AreAligned-drop n xs ys h i x y at_x at_y same =
    h (n + i) x y (sym (get_elem?-drop n i xs) ∙ at_x) (sym (get_elem?-drop n i ys) ∙ at_y) same

-- The overlay of entries on aligned ones begins with the entries.
overlay-AreAligned :
    (es present : List LogEntry)
    → AreAligned es present
    → (rest : List LogEntry) × (overlay present es ≡ es ++ rest)
unfolding overlay AreAligned
overlay-AreAligned [] present h = (present, refl)
overlay-AreAligned (e ∷ es) [] h = ([], rw append-nil)
overlay-AreAligned (e ∷ es) (x ∷ present) h = elim (Bool-cases (eqb_ℤ x.term e.term)) [
  | inl same ↦
      let (rest, covered) = overlay-AreAligned es present (λ i. h (suc i)) in
      let alike = h zero e x refl refl (sym (eqb_ℤ-sound x.term e.term same)) in
      (rest, rw same (ap₂ ◌∷◌ (sym alike) covered))
  | inr other ↦ ([], rw other (rw append-nil))
]

pub take-drop : (n : ℕ) (xs : List LogEntry) → take n xs ++ drop n xs ≡ xs
take-drop zero xs = refl
take-drop (suc n) [] = refl
take-drop (suc n) (x ∷ xs) = ap (◌∷◌ x) (take-drop n xs)

take-prefix : (xs rest : List LogEntry) → take (length xs) (xs ++ rest) ≡ xs
take-prefix [] rest = refl
take-prefix (x ∷ xs) rest = ap (◌∷◌ x) (take-prefix xs rest)

-- A log that holds the first `n` entries of another, and then an overlay of the others on what is
-- aligned with them, begins with the other.
pub take-overlay :
    (n : ℕ) (xs ys : List LogEntry)
    → AreMatching xs ys
    → take n xs ≡ take n ys
    → take (length xs) (take n ys ++ overlay (drop n ys) (drop n xs)) ≡ xs
take-overlay n xs ys h same =
    let aligned = AreAligned-drop n xs ys (AreMatching-aligned xs ys h) in
    let (rest, covered) = overlay-AreAligned (drop n xs) (drop n ys) aligned in
    let whole : take n ys ++ (drop n xs ++ rest) ≡ xs ++ rest =
      ap (λ t. t ++ (drop n xs ++ rest)) (sym same)
      ∙ sym (append_assoc (take n xs) (drop n xs) rest)
      ∙ ap (λ t. t ++ rest) (take-drop n xs) in
    rw (covered, whole) (take-prefix xs rest)
