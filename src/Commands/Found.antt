-- ===== src/Commands/Found.antt =====
-- The result list of a query and the iteration over it, cddb_handle_response_list and
-- cddb_query_next of lib/cddb_cmd.c.
use mathlib.Core.List.{append_assoc}
use libcddb.Base.{
  eq_ℤ, minus_one, ◌⊎◌, inl, inr, ℕ, zero, suc, ◌+◌, ◌≡◌, refl, sym, ap, ◌∙◌, arith, length-append,
  true, false, length, map, ltb, ◌<◌, get_elem?, List, [], ◌∷◌, ◌++◌, some, Bytes, ℤ, pos, Run,
  value, ◌>>=◌, if◌then◌else◌,
}
use libcddb.Errors.{ok, disc_not_found}
use libcddb.Charset.{Iconv}
use libcddb.Disc.{Disc, disc_clone, disc_copy}
use libcddb.Record.{starts_with_dot}
use libcddb.Response.{get_response_code}
use libcddb.Commands.{Session, at, nowhere, set_errno}
use libcddb.Commands.Read.{Outcome}
use libcddb.Commands.Results.{
  list, parse_query_data, read_list, list_done, first_result, after_list, list_follows, list_reply,
  on_list_reply, on_list_answer, handle_response_list, query_next,
}

-- The lines of a result list and the discs that they describe.
pub data AreFound (cd : Iconv) (disc : Disc) : List Bytes → List Disc → Type 0 where
  no_more : AreFound cd disc [] []
  one_more :
      {line : Bytes} {lines : List Bytes} {d : Disc} {ds : List Disc}
      → starts_with_dot line ≡ false
      → parse_query_data cd (disc_clone disc) line ≡ (d, ok)
      → AreFound cd disc lines ds
      → AreFound cd disc (line ∷ lines) (d ∷ ds)

read_list-AreFound :
    (cd : Iconv) (disc : Disc) (dot : Bytes) (rest lines : List Bytes) (ds : List Disc)
    → starts_with_dot dot ≡ true
    → AreFound cd disc lines ds
    → read_list cd disc (lines ++ dot ∷ rest) ≡ (ds, rest, ok)
unfolding read_list
read_list-AreFound cd disc dot rest _ _ h no_more = rw h
read_list-AreFound cd disc dot rest _ _ h (one_more {lines = lines} {ds = ds} plain e more) =
    rw (read_list-AreFound cd disc dot rest lines ds h more, e, plain)

-- Calls of cddb_query_next, each onto the same disc, until one returns FALSE.
unfoldable pub results : ℕ → Session → Disc → Run (List Disc)
results zero s later = value []
results (suc n) s later = do
  o ← query_next s later
  let more = results n o.session later
  if o.result then (more >>= λ ds. value (o.disc ∷ ds)) else value []

pub query_next-more :
    (s : Session) (later d : Disc) (i : ℕ)
    → s.it ≡ at i
    → suc i < length s.query_data
    → get_elem? s.query_data (suc i) ≡ some d
    → query_next s later
      ≡ value (record {
        session = set_errno (record s { it = at (suc i) }) ok;
        disc = disc_copy later d;
        result = true;
      })
unfolding query_next
query_next-more s later d i at_i room e =
    let there : ltb i (length s.query_data) ≡ true = ground arith in
    let more : ltb (suc i) (length s.query_data) ≡ true = ground arith in
    rw (at_i, there, more, e) refl

pub query_next-last :
    (s : Session) (later : Disc) (i : ℕ)
    → s.it ≡ at i
    → length s.query_data ≡ suc i
    → query_next s later
      ≡ value (record {
        session = set_errno (record s { it = nowhere }) disc_not_found;
        disc = later;
        result = false;
      })
unfolding query_next
query_next-last s later i at_i e =
    let there : ltb i (length s.query_data) ≡ true = ground arith in
    let last : ltb (suc i) (length s.query_data) ≡ false = ground arith in
    rw (at_i, there, last) refl

get_elem?-second {ℓ} :
    {A : Type ℓ} (xs ys : List A) (x y : A)
    → get_elem? (xs ++ x ∷ y ∷ ys) (suc (length xs)) ≡ some y
get_elem?-second [] ys x y = refl
get_elem?-second (z ∷ xs) ys x y = get_elem?-second xs ys x y

pub results-rest :
    (s : Session) (later d : Disc) (before after : List Disc)
    → s.query_data ≡ before ++ d ∷ after
    → s.it ≡ at (length before)
    → results (suc (length after)) s later ≡ value (map (disc_copy later) after)
unfolding results
results-rest s later d before [] q i =
    rw
      (query_next-last s later (length before) i
        (ap length q ∙ length-append before (d ∷ []) ∙ omega arith))
      refl
results-rest s later d before (f ∷ after) q i =
    let size : length s.query_data ≡ length before + length (d ∷ f ∷ after) =
      ap length q ∙ length-append before (d ∷ f ∷ after) in
    let here : get_elem? s.query_data (suc (length before)) ≡ some f =
      ap (λ ds. get_elem? ds (suc (length before))) q ∙ get_elem?-second before after d f in
    let next = query_next-more s later f (length before) i (omega (arith, size)) here in
    let t : Session = set_errno (record s { it = at (suc (length before)) }) ok in
    let moved : t.it ≡ at (length (before ++ d ∷ [])) =
      ap at (sym (length-append before (d ∷ []) ∙ omega arith)) in
    let rest =
      results-rest t later f (before ++ d ∷ []) after
        (q ∙ sym (append_assoc before (d ∷ []) (f ∷ after))) moved in
    rw (next, rest) refl

-- The session when the answer to a query has come and the list of results is empty.
abbrev pub answered : Session → Bytes → List Bytes → Session
answered s answer lines = record s { lines = answer ∷ lines; query_data = [] }

list_done-value :
    (s : Session) (disc : Disc) (n : ℕ)
    → (o : Outcome ℤ) × (list_done s disc n ≡ value o)
      × (o.result ≡ pos n)
      × (o.disc ≡ disc)
      × (o.session.conn.errnum ≡ ok)
      × (o.session.lines ≡ s.lines)
      × (o.session.query_data ≡ s.query_data)
      × (o.session.it ≡ s.it)
unfolding list_done
list_done-value s disc n = (_, refl, refl, refl, refl, ground arith, ground arith, ground arith)

-- What cddb_query gives for a list of results.
abbrev pub Lists : Disc → Disc → Disc → List Disc → List Bytes → Run (Outcome ℤ) → Type 0
Lists disc later d ds rest run =
    (o : Outcome ℤ) × (run ≡ value o)
    × (o.result ≡ pos (suc (length ds)))
    × (o.disc ≡ disc_copy disc d)
    × (o.session.conn.errnum ≡ ok)
    × (o.session.lines ≡ rest)
    × (results (suc (length ds)) o.session later ≡ value (map (disc_copy later) ds))

first_result-Lists :
    (s : Session) (disc later d : Disc) (ds : List Disc)
    → Lists disc later d ds s.lines (first_result (record s { query_data = d ∷ ds }) disc)
unfolding first_result
first_result-Lists s disc later d ds =
    let first : Session = record s { query_data = d ∷ ds; it = at 0 } in
    let (o, e, result, found, errnum, lines, kept, it) =
      list_done-value first (disc_copy disc d) (suc (length ds)) in
    (o, e, result, found, errnum, lines, results-rest o.session later d [] ds kept it)

list_follows-Lists :
    (cd : Iconv) (s : Session) (disc later d : Disc) (dot : Bytes) (lines rest : List Bytes)
    (ds : List Disc)
    → AreFound cd disc lines (d ∷ ds)
    → starts_with_dot dot ≡ true
    → Lists disc later d ds rest
        (list_follows cd (record s { lines = lines ++ dot ∷ rest; query_data = [] }) disc)
unfolding list_follows after_list
list_follows-Lists cd s disc later d dot lines rest ds are h =
    rw (read_list-AreFound cd disc dot rest lines (d ∷ ds) h are)
      (first_result-Lists (record s { lines = rest }) disc later d ds)

list_reply-list : (code : ℕ) → (code ≡ 210) ⊎ (code ≡ 211) → list_reply (pos code) ≡ list
unfolding list_reply
list_reply-list code (inl e) = rw e refl
list_reply-list code (inr e) = rw e refl

answers : (code : ℕ) → (code ≡ 210) ⊎ (code ≡ 211) → eq_ℤ (pos code) minus_one ≡ false
answers code (inl e) = rw e refl
answers code (inr e) = rw e refl

-- A query that is answered by a list gives as many results as there are lines before the dot: the
-- first with the query, the others in order by cddb_query_next, which then returns FALSE.
pub handle_response_list-results :
    (cd : Iconv) (s : Session) (disc later : Disc) (answer dot msg : Bytes)
    (lines rest : List Bytes) (code : ℕ) (d : Disc) (ds : List Disc)
    → get_response_code s.conn.errnum (some answer)
      ≡ record { errno = ok; code = pos code; msg = msg }
    → (code ≡ 210) ⊎ (code ≡ 211)
    → AreFound cd disc lines (d ∷ ds)
    → starts_with_dot dot ≡ true
    → Lists disc later d ds rest
        (handle_response_list cd (answered s answer (lines ++ dot ∷ rest)) disc)
unfolding handle_response_list on_list_answer on_list_reply
handle_response_list-results cd s disc later answer dot msg lines rest code d ds reply follows are
      h =
    rw (reply, answers code follows, list_reply-list code follows)
      (list_follows-Lists cd (set_errno s ok) disc later d dot lines rest ds are h)
