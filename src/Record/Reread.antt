-- ===== src/Record/Reread.antt =====
-- The end of cddb_parse_record and the copy of an entry in the cache, lib/cddb_cmd.c.
use libcddb.Net.Lines.{ArePlain}
use libcddb.Cache.Lines.{cached_lines, cached_lines-entry}
use libcddb.Cache.Side.{CacheSide, caches}
use libcddb.Base.{
  unlines, ◌∙◌, subst, bind-value, ℕ, suc, ◌<◌, length, Bool, Bool-cases, value-injective, sym, ap,
  if◌then◌else◌, ◌≡◌, ◌≢◌, ◌⊎◌, inl, inr, refl, arith, true, false, List, [], ◌∷◌, Bytes, Run,
  value, fault, ◌>>=◌,
}
use libcddb.Charset.{Iconv}
use libcddb.Disc.{Disc}
use libcddb.Errors.{invalid_response}
use libcddb.Record as Rec
use libcddb.Record.Loop.{
  Left, ended, missing, prepend, after_line, read_lines, Reading, finish, parser_start,
  parse_record,
}

-- What a line that was read did: it ended the loop, however the loop would have gone on, or the
-- loop went on at `q` and read `v`.
abbrev Ends : Bytes → Run Rec.Step → List Bytes → Left → Type 0
Ends line step w left =
    (w ≡ line ∷ [])
    × ((further : Rec.Parser → Run (List Bytes × Left))
        → (step >>= after_line line further) ≡ value (w, left))
    × ((q : Rec.Parser) → left ≡ ended q → Rec.is_stop q.state ≡ true)

abbrev GoesOn :
    Bytes → Run Rec.Step → (Rec.Parser → Run (List Bytes × Left)) → List Bytes → Left → Type 0
GoesOn line step further w left =
    (q : Rec.Parser) × (v : List Bytes) × (w ≡ line ∷ v)
    × (further q ≡ value (v, left))
    × ((later : Rec.Parser → Run (List Bytes × Left))
        → later q ≡ value (v, left)
        → (step >>= after_line line later) ≡ value (w, left))

read_on :
    (line : Bytes) (further : Rec.Parser → Run (List Bytes × Left)) (q : Rec.Parser)
    (found : Run (List Bytes × Left)) (w : List Bytes) (left : Left)
    → Rec.is_stop q.state ≡ false
    → further q ≡ found
    → (found >>= prepend line) ≡ value (w, left)
    → GoesOn line (value (Rec.next q)) further w left
read_on line further q fault w left s e h = absurd (grind arith)
read_on line further q (value (v, l)) w left s e h =
    (q, v, grind arith, grind arith, λ later k. rw (after_line, s, k) (grind arith))

after_line-cases :
    (line : Bytes) (further : Rec.Parser → Run (List Bytes × Left)) (step : Run Rec.Step)
    (w : List Bytes) (left : Left)
    → (step >>= after_line line further) ≡ value (w, left)
    → Ends line step w left ⊎ GoesOn line step further w left
after_line-cases line further fault w left h = absurd (grind arith)
after_line-cases line further (value (Rec.track_not_found p)) w left h =
    inl (grind arith, λ g. h, λ q e. grind arith)
after_line-cases line further (value (Rec.next p)) w left h =
    elim (Bool-cases (Rec.is_stop p.state)) [
      | inl s ↦
          let k = rw (after_line, s) at h in
          inl (grind arith, λ g. rw (after_line, s) k, λ q e. grind arith)
      | inr s ↦ inr (read_on line further p (further p) w left s refl (rw (after_line, s) at h))
    ]

-- The loop is only left by a break, or by the end of the stream, in STATE_STOP.
read_lines-stop :
    (lines w : List Bytes) (p q : Rec.Parser)
    → read_lines lines p ≡ value (w, ended q)
    → Rec.is_stop q.state ≡ true
unfolding read_lines
read_lines-stop [] w p q h = ground arith
read_lines-stop (line ∷ rest) w p q h =
    elim (after_line-cases line (read_lines rest) (Rec.Cases.switch_line line p) w (ended q) h) [
      | inl (_, _, stops) ↦ stops q refl
      | inr (q', v, _, later, _) ↦ read_lines-stop rest v q' q later
    ]

-- The lines that were read are read again in the same way.
read_lines-read_lines :
    (lines w : List Bytes) (p : Rec.Parser) (left : Left)
    → read_lines lines p ≡ value (w, left)
    → read_lines w p ≡ value (w, left)
unfolding read_lines
read_lines-read_lines [] w p left h = grind arith
read_lines-read_lines (line ∷ rest) w p left h =
    elim (after_line-cases line (read_lines rest) (Rec.Cases.switch_line line p) w left h) [
      | inl (e, ends, _) ↦ rw e (rw e at (ends (read_lines [])))
      | inr (q, v, e, later, on) ↦
          rw e (rw e at (on (read_lines v) (read_lines-read_lines rest v q left later)))
    ]

finish-errno :
    (cd : Iconv) (c : CacheSide) (w : Bytes) (left : Left)
    → ((q : Rec.Parser) → left ≡ ended q → Rec.is_stop q.state ≡ true)
    → ((finish cd c w left).errno ≢ invalid_response) × ((finish cd c w left).unlinked ≡ false)
unfolding finish
finish-errno cd c w (missing q) stops = ground arith
finish-errno cd c w (ended q) stops = rw (stops q refl) (ground arith)

read_and_finished :
    (cd : Iconv) (c : CacheSide) (lines : List Bytes) (disc : Disc) (r : Reading)
    → parse_record cd c lines disc ≡ value r
    → (w : List Bytes) × (left : Left) × (caching : Bool) × (caches c ≡ value caching)
      × (read_lines lines (parser_start disc) ≡ value (w, left))
      × (r ≡ finish cd c (if caching then unlines w else []) left)
unfolding parse_record
read_and_finished cd c lines disc r h =
    let (caching, k, h') = bind-value (caches c) _ r h in
    let ((w, left), e, f) = bind-value (read_lines lines (parser_start disc)) _ r h' in
    (w, left, caching, k, e, sym (value-injective _ r f))

-- Whatever the lines are, an entry is never refused as an invalid response, and no file is removed
-- from the cache.
pub parse_record-errno :
    (cd : Iconv) (c : CacheSide) (lines : List Bytes) (disc : Disc) (r : Reading)
    → parse_record cd c lines disc ≡ value r
    → (r.errno ≢ invalid_response) × (r.unlinked ≡ false)
parse_record-errno cd c lines disc r h =
    let (w, left, _, _, e, f) = read_and_finished cd c lines disc r h in
    rw f (finish-errno cd c _ left (λ q k. read_lines-stop lines w _ q (rw k at e)))

finish_again :
    (cd : Iconv) (c c' : CacheSide) (w : Bytes) (left : Left)
    → ((q : Rec.Parser) → left ≡ ended q → Rec.is_stop q.state ≡ true)
    → finish cd c' [] left ≡ record (finish cd c w left) { cached = [] }
unfolding finish
finish_again cd c c' w (missing q) stops = refl
finish_again cd c c' w (ended q) stops = rw (stops q refl)

finish-cached :
    (cd : Iconv) (c : CacheSide) (w : Bytes) (left : Left) → (finish cd c w left).cached ≡ w
unfolding finish
finish-cached cd c w (missing q) = refl
finish-cached cd c w (ended q) = ground arith

read_lines-plain :
    (buf_size : ℕ) (lines w : List Bytes) (p : Rec.Parser) (left : Left)
    → read_lines lines p ≡ value (w, left)
    → ArePlain buf_size lines
    → ArePlain buf_size w
unfolding read_lines
read_lines-plain buf_size [] w p left h plain =
    subst (ArePlain buf_size) (ap (λ (x : List Bytes × Left). x.0) (value-injective _ _ h)) tt
read_lines-plain buf_size (line ∷ rest) w p left h (plain, fits, others) =
    elim (after_line-cases line (read_lines rest) (Rec.Cases.switch_line line p) w left h) [
      | inl (e, _, _) ↦ subst (ArePlain buf_size) (sym e) (plain, fits, tt)
      | inr (q, v, e, later, _) ↦
          subst (ArePlain buf_size) (sym e)
            (plain, fits, read_lines-plain buf_size rest v q left later others)
    ]

module _ (cd : Iconv) (c c' : CacheSide) (lines : List Bytes) (disc : Disc) where
  again_from :
      (w : List Bytes) (text : Bytes) (left : Left)
      → c'.cache_read ≡ true
      → read_lines lines (parser_start disc) ≡ value (w, left)
      → parse_record cd c' w disc ≡ value (record (finish cd c text left) { cached = [] })
  unfolding parse_record
  again_from w text left k e =
      let again = read_lines-read_lines lines w (parser_start disc) left e in
      let stops : (q : Rec.Parser) → left ≡ ended q → Rec.is_stop q.state ≡ true =
        λ q i. read_lines-stop lines w (parser_start disc) q (rw i at e) in
      rw (caches, k, again)
        (ap value (finish_again cd c (record c' { cache_read = true }) text left stops))

  -- When an entry was copied to the cache while it was read, and its lines have no line terminator
  -- or NUL in them and fit the line buffer, the lines of that file are read with the same result,
  -- a failure included.
  pub parse_record-again :
      (r : Reading) (buf_size : ℕ)
      → caches c ≡ value true
      → c'.cache_read ≡ true
      → 1 < buf_size
      → ArePlain buf_size lines
      → parse_record cd c lines disc ≡ value r
      → parse_record cd c' (cached_lines (suc (length r.cached)) buf_size r.cached) disc
        ≡ value (record r { cached = [] })
  parse_record-again r buf_size k k' b plain h =
      let (w, left, caching, i, e, f) = read_and_finished cd c lines disc r h in
      let on : caching ≡ true = value-injective _ _ (sym i ∙ k) in
      let got : r ≡ finish cd c (unlines w) left =
        f ∙ ap (λ b. finish cd c (if b then unlines w else []) left) on in
      let file : r.cached ≡ unlines w =
        ap (λ (r : Reading). r.cached) got ∙ finish-cached cd c (unlines w) left in
      let again : cached_lines (suc (length r.cached)) buf_size r.cached ≡ w =
        ap (λ s. cached_lines (suc (length s)) buf_size s) file
        ∙ cached_lines-entry buf_size w b
            (read_lines-plain buf_size lines w (parser_start disc) left e plain) in
      ap (λ ls. parse_record cd c' ls disc) again
      ∙ again_from w (unlines w) left k' e
      ∙ ap (λ (r : Reading). value (record r { cached = [] })) (sym got)
