-- ===== src/Submission/Reads.antt =====
-- How cddb_parse_record of lib/cddb_cmd.c goes through lines one after the other.
use mathlib.Core.List.{append_assoc}
use libcddb.Base.{◌≡◌, refl, false, List, [], ◌∷◌, ◌++◌, Bytes, value}
use libcddb.Record as Rec
use libcddb.Record.Cases.{switch_line}
use libcddb.Record.Loop.{Left, after_line, read_lines}

-- The lines take the parser from one state to another, whatever is read behind them.
pub record Reads (ls : List Bytes) (p q : Rec.Parser) : Type 0 where
  pub goes_on :
      (rest w : List Bytes) (left : Left)
      → read_lines rest q ≡ value (w, left)
      → read_lines (ls ++ rest) p ≡ value (ls ++ w, left)

pub Reads-nil : (p : Rec.Parser) → Reads [] p p
Reads-nil p = record { goes_on = λ rest w left h. h }

pub Reads-line :
    (line : Bytes) (p q : Rec.Parser)
    → switch_line line p ≡ value (Rec.next q)
    → Rec.is_stop q.state ≡ false
    → Reads (line ∷ []) p q
unfolding read_lines
Reads-line line p q h s = record { goes_on = λ rest w left k. rw (h, after_line, s, k) refl }

pub Reads-append :
    (xs ys : List Bytes) (p q r : Rec.Parser) → Reads xs p q → Reads ys q r → Reads (xs ++ ys) p r
Reads-append xs ys p q r h k = record {
  goes_on = λ rest w left e.
      rw (append_assoc xs ys rest, append_assoc xs ys w)
        (h.goes_on (ys ++ rest) (ys ++ w) left (k.goes_on rest w left e));
}

pub Reads-same :
    {ls ls' : List Bytes} {p p' q q' : Rec.Parser}
    → ls ≡ ls'
    → p ≡ p'
    → q ≡ q'
    → Reads ls p q
    → Reads ls' p' q'
Reads-same e f g h = rw (← e, ← f, ← g) h

pub Reads-cons :
    (line : Bytes) (ls : List Bytes) (p q r : Rec.Parser)
    → switch_line line p ≡ value (Rec.next q)
    → Rec.is_stop q.state ≡ false
    → Reads ls q r
    → Reads (line ∷ ls) p r
Reads-cons line ls p q r h s k = Reads-append (line ∷ []) ls p q r (Reads-line line p q h s) k
