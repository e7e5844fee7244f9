-- ===== src/Consensus/Merge.antt =====
-- The merge of a request's entries into the log, in the handler of AppendEntries of
-- consensus_module.cpp.
use maelstromdb.Base.{
  ℕ, ◌+◌, ◌≤◌, ◌≡◌, refl, sym, ap, ◌∙◌, inl, inr, ℤ, ◌+ℤ◌, List, [], ◌∷◌, ◌++◌, append-nil,
  append_assoc, true, Bool-cases, Option, none, some, if◌then◌else◌, arith, eqb_ℤ, ltb_ℤ, length,
  take, get_elem?, length-append,
}
use maelstromdb.Base.Result.{ok}
use maelstromdb.Protos.{LogEntry}
use maelstromdb.Consensus.RaftLog
use maelstromdb.Consensus.Following.{find_conflict}

-- What the merge is to make of the log behind the previous index: the log's entries while their
-- terms are those of the request's, then the request's; the log's where the request has no more.
unfoldable pub overlay : List LogEntry → List LogEntry → List LogEntry
overlay present [] = present
overlay [] (e ∷ es) = e ∷ es
overlay (x ∷ present) (e ∷ es) =
    let rest = overlay present es in if eqb_ℤ x.term e.term then x ∷ rest else e ∷ es

-- The log without what a conflict removes.
unfoldable pub cut : Option ℤ → RaftLog.RaftLog → RaftLog.RaftLog
cut none l = l
cut (some i) l = RaftLog.truncate i l

pub pos_next : (n : ℕ) → (ℤ.pos n +ℤ ℤ.pos 1) ≡ ℤ.pos (n + 1)
unfolding ◌+ℤ◌
pos_next n = ground arith

-- The conflict, where there is one, is not before the index `i`.
unfoldable pub IsFrom : ℕ → Option ℤ → Type 0
IsFrom i none = Unit {0}
IsFrom i (some j) = (k : ℕ) × (j ≡ ℤ.pos k) × (i ≤ k)

IsFrom-weaken : (i : ℕ) (conflict : Option ℤ) → IsFrom (i + 1) conflict → IsFrom i conflict
unfolding IsFrom
IsFrom-weaken i none h = tt
IsFrom-weaken i (some j) (k, same, le) = (k, same, omega arith)

take-length : (xs ys : List LogEntry) → take (length xs) (xs ++ ys) ≡ xs
take-length [] ys = refl
take-length (x ∷ xs) ys = ap (◌∷◌ x) (take-length xs ys)

get_elem?-length :
    (xs : List LogEntry) (x : LogEntry) (ys : List LogEntry)
    → get_elem? (xs ++ x ∷ ys) (length xs) ≡ some x
get_elem?-length [] x ys = refl
get_elem?-length (y ∷ xs) x ys = get_elem?-length xs x ys

entry_of_get :
    (i : ℕ) (l : RaftLog.RaftLog) (x : LogEntry)
    → get_elem? l.log_entries i ≡ some x
    → RaftLog.entry (ℤ.pos i) l ≡ ok x
unfolding RaftLog.entry
entry_of_get i l x h = rw (RaftLog.entry, h) refl

find_conflict_at_end :
    (i : ℕ) (e : LogEntry) (es : List LogEntry) (l : RaftLog.RaftLog)
    → length l.log_entries ≡ i
    → find_conflict (ℤ.pos i) (e ∷ es) l ≡ ok (none, e ∷ es)
unfolding find_conflict RaftLog.size
find_conflict_at_end i e es l same = ground arith

find_conflict_step :
    (before present : List LogEntry) (x e : LogEntry) (es : List LogEntry) (l : RaftLog.RaftLog)
    → l.log_entries ≡ before ++ x ∷ present
    → find_conflict (ℤ.pos (length before)) (e ∷ es) l ≡ (
        if eqb_ℤ x.term e.term
        then find_conflict (ℤ.pos (length before + 1)) es l
        else ok (some (ℤ.pos (length before)), e ∷ es))
unfolding find_conflict RaftLog.size RaftLog.entry
find_conflict_step before present x e es l same =
    let inside : ltb_ℤ (ℤ.pos (length before)) (ℤ.pos (length l.log_entries)) ≡ true =
      rw same (rw (length-append before (x ∷ present)) (ground arith)) in
    let here : RaftLog.entry (ℤ.pos (length before)) l ≡ ok x =
      entry_of_get (length before) l x (rw same (get_elem?-length before x present)) in
    rw (inside, here, pos_next (length before)) refl

pub find_conflict-overlay :
    (before present es : List LogEntry) (l : RaftLog.RaftLog)
    → l.log_entries ≡ before ++ present
    → (conflict : Option ℤ) × (left : List LogEntry) × (find_conflict (ℤ.pos (length before)) es l
        ≡ ok (conflict, left))
      × (((cut conflict l).log_entries ++ left) ≡ before ++ overlay present es)
      × IsFrom (length before) conflict
unfolding find_conflict overlay cut IsFrom RaftLog.size RaftLog.entry RaftLog.truncate
find_conflict-overlay before present [] l same =
    (none, [], refl, append-nil l.log_entries ∙ same, tt)
find_conflict-overlay before [] (e ∷ es) l same = (
  none,
  e ∷ es,
  find_conflict_at_end (length before) e es l (rw same (rw (append-nil before) refl)),
  rw same (ap (λ xs. xs ++ e ∷ es) (append-nil before)),
  tt,
)
find_conflict-overlay before (x ∷ present) (e ∷ es) l same =
    let step = find_conflict_step before present x e es l same in
    elim (Bool-cases (eqb_ℤ x.term e.term)) [
      | inl agree ↦
          let (conflict, left, found, made, later) =
            find_conflict-overlay (before ++ x ∷ []) present es l
              (same ∙ sym (append_assoc before (x ∷ []) present)) in
          (
            conflict,
            left,
            rw (step, agree) (rw⁻¹ (length-append before (x ∷ [])) found),
            rw agree (made ∙ append_assoc before (x ∷ []) (overlay present es)),
            IsFrom-weaken (length before) conflict (rw⁻¹ (length-append before (x ∷ [])) later),
          )
      | inr differ ↦ (
        some (ℤ.pos (length before)),
        e ∷ es,
        rw (step, differ) refl,
        rw (differ, same) (ap (λ xs. xs ++ e ∷ es) (take-length before (x ∷ present))),
        (length before, refl, omega arith),
      )
    ]
