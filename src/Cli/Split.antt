-- ===== src/Cli/Split.antt =====
-- The comma separated lists of command_parser.cpp.
use maelstromdb.Base.{
  ℕ, ◌≡◌, ◌≢◌, ◌↔◌, refl, sym, ap, ◌∙◌, List, [], ◌∷◌, ◌++◌, false, eqb, eqb_iff, Text, Bool-cases,
  inl, inr, append_assoc, append-nil,
}
use maelstromdb.Cli.{read_fields, split_comma_separated}

-- The fields with a comma between each two.
unfoldable pub join : List Text → Text
join [] = []
join (field ∷ []) = field
join (field ∷ next ∷ fields) = field ++ b',' ∷ join (next ∷ fields)

abbrev pub NoComma : Text → Type 0
NoComma [] = Unit
NoComma (c ∷ cs) = (c ≢ b',') × NoComma cs

abbrev pub NoCommas : List Text → Type 0
NoCommas [] = Unit
NoCommas (field ∷ fields) = NoComma field × NoCommas fields

NoComma-snoc : (s : Text) (c : ℕ) → NoComma s → c ≢ b',' → NoComma (s ++ (c ∷ []))
NoComma-snoc [] c h other = (other, tt)
NoComma-snoc (d ∷ s) c (first, h) other = (first, NoComma-snoc s c h other)

abbrev Joined : Text → List Text → Type 0
Joined s fields = (join fields ≡ s) × (fields ≢ []) × NoCommas fields

join-comma :
    (curr : Text) (fields : List Text)
    → fields ≢ []
    → join (curr ∷ fields) ≡ curr ++ b',' ∷ join fields
unfolding join
join-comma curr [] h = absurd (h refl)
join-comma curr (field ∷ fields) h = refl

read_fields-Joined : (curr s : Text) → NoComma curr → Joined (curr ++ s) (read_fields curr s)
unfolding read_fields join
read_fields-Joined curr [] h = (rw append-nil, λ e. cc, (h, tt))
read_fields-Joined curr (c ∷ cs) h = elim (Bool-cases (eqb c b',')) [
  | inl comma ↦
      let (joined, some, none) = read_fields-Joined [] cs tt in
      rw comma (
        join-comma curr (read_fields [] cs) some
            ∙ rw joined (ap (λ d. curr ++ d ∷ cs) (sym ((eqb_iff c b',').0 comma))),
        λ e. cc,
        (h, none),
      )
  | inr other ↦
      let (joined, some, none) =
        read_fields-Joined (curr ++ (c ∷ [])) cs
          (NoComma-snoc curr c h (λ e. let same = (eqb_iff c b',').1 e in cc)) in
      rw other (joined ∙ append_assoc curr (c ∷ []) cs, some, none)
]

join-cons :
    (c : ℕ) (field : Text) (fields : List Text)
    → join ((c ∷ field) ∷ fields) ≡ c ∷ join (field ∷ fields)
unfolding join
join-cons c field [] = refl
join-cons c field (next ∷ fields) = refl

eqb-other : (c : ℕ) → c ≢ b',' → eqb c b',' ≡ false
eqb-other c other = elim (Bool-cases (eqb c b',')) [
  | inl same ↦ absurd (other ((eqb_iff c b',').0 same))
  | inr differs ↦ differs
]

read_fields-join :
    (curr field : Text) (fields : List Text)
    → NoComma field
    → NoCommas fields
    → read_fields curr (join (field ∷ fields)) ≡ (curr ++ field) ∷ fields
unfolding read_fields join
read_fields-join curr [] [] h hs = rw append-nil
read_fields-join curr [] (next ∷ fields) h (hn, hs) =
    rw append-nil (ap (λ t. curr ∷ t) (read_fields-join [] next fields hn hs))
read_fields-join curr (c ∷ field) fields (other, h) hs =
    rw (join-cons c field fields, eqb-other c other)
      (read_fields-join (curr ++ (c ∷ [])) field fields h hs
        ∙ ap (λ t. t ∷ fields) (append_assoc curr (c ∷ []) field))

-- A text splits into fields without commas, one at least, exactly where it is these fields with a
-- comma between each two.
pub split_comma_separated-join :
    (s field : Text) (fields : List Text)
    → NoComma field
    → NoCommas fields
    → (split_comma_separated s ≡ field ∷ fields) ↔ (s ≡ join (field ∷ fields))
unfolding split_comma_separated
split_comma_separated-join s field fields h hs = (
  λ e. sym (read_fields-Joined [] s tt).0 ∙ ap join e,
  λ e. rw e (read_fields-join [] field fields h hs),
)
