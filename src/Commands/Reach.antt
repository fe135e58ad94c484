-- ===== src/Commands/Reach.antt =====
-- Calls of the library one after another on one connection: the list of results and its iterator,
-- lib/cddb_cmd.c.
use libcddb.Base.{
  ◌≢◌, minus_one, ℕ, suc, ◌<◌, ◌≡◌, ◌⊎◌, inl, inr, refl, sym, ap, subst, ◌∙◌, arith, Bool-cases,
  ltb, is_null, or_empty, ◌&&◌, length, get_elem?-some, Bool, false, Bytes, ℤ, pos, value, fault,
  value-injective,
}
use libcddb.Errors.{data_missing, disc_not_found}
use libcddb.Charset.{Iconv}
use libcddb.Category.{Category}
use libcddb.Cache.{Files, QueryCache}
use libcddb.Disc.{Disc}
use libcddb.Conn.Connect.{Network}
use libcddb.Commands.{Session, Cursor, nowhere, at, freed, results_of, flush_results, set_errno}
use libcddb.Commands.Send.{album as album_command}
use libcddb.Commands.Read.{Store, Outcome, read, is_cache_only}
use libcddb.Commands.Results.{query_next}
use libcddb.Commands.Query.{query, album}
use libcddb.Commands.Write.{Written, write}
use libcddb.Commands.Freed.{KeepsIt, query-it, ask-it, leaves-it}
use libcddb.Commands.Placed.{IsPlaced, flushed-ne-at, length_pos, at-lt, search-IsPlaced}
use libcddb.Commands.SearchPage.{search}
use libcddb.Commands.Found.{query_next-more, query_next-last}
use libcddb.Commands.Kept.{read-Keeps}
use libcddb.Commands.Kept.Submit.{write-Keeps}

-- A call that returns. cddb_album_next and cddb_search_next are cddb_query_next.
pub data Step (s : Session) : Session → Type 0 where
  queried :
      {t : Session} (cd : Iconv) (net : Network) (files : Files) (cache cache' : QueryCache)
      (disc : Disc) (o : Outcome ℤ)
      → query cd net files cache s disc ≡ value (cache', o)
      → o.session ≡ t
      → Step s t
  asked_album :
      {t : Session} (cd : Iconv) (net : Network) (disc : Disc) (o : Outcome ℤ)
      → album cd net s disc ≡ value o
      → o.session ≡ t
      → Step s t
  went_on :
      {t : Session} (disc : Disc) (o : Outcome Bool)
      → query_next s disc ≡ value o
      → o.session ≡ t
      → Step s t
  searched :
      {t : Session} (net : Network) (own : Session) (disc : Disc) (str : Bytes)
      → (search net s own disc str).session ≡ t
      → Step s t
  read_one :
      {t : Session} (cd : Iconv) (net : Network) (store : Store) (disc : Disc) (o : Outcome Bool)
      → read cd net store s disc ≡ value o
      → o.session ≡ t
      → Step s t
  wrote :
      {t : Session} (cd : Iconv) (net : Network) (store : Store) (can_mkdir : Category → Bool)
      (buf : Bytes) (disc : Disc) (o : Written)
      → write cd net store can_mkdir buf s disc ≡ value o
      → o.0.session ≡ t
      → Step s t

-- What flushes the list leaves the iterator on a freed element when it stood on an element, or on a
-- freed one already, and is not set to a first result.
abbrev pub LeftBehind : Session → Session → Type 0 → Type 0
LeftBehind t u before = (u.it ≢ at 0) × (((i : ℕ) × (t.it ≡ at i)) ⊎ before)

-- Queries, albums and searches flush the list; the other calls leave it.
abbrev pub StaleAfter : {t u : Session} → Step t u → Type 0 → Type 0
StaleAfter {t} {u} (queried cd net files cache cache' disc o h e) before = LeftBehind t u before
StaleAfter {t} {u} (asked_album cd net disc o h e) before = LeftBehind t u before
StaleAfter {t} {u} (searched net own disc str e) before = LeftBehind t u before
StaleAfter (went_on disc o h e) before = before
StaleAfter (read_one cd net store disc o h e) before = before
StaleAfter (wrote cd net store can_mkdir buf disc o h e) before = before

pub data Reach (s : Session) : Session → Type 0 where
  here : Reach s s
  later : {t u : Session} → Reach s t → Step t u → Reach s u

-- The list was flushed under the iterator, and it was not set since, as the calls tell.
abbrev pub IsStale : {s t : Session} → Reach s t → Type 0
IsStale here = ⊥
IsStale (later r step) = StaleAfter step (IsStale r)

KeepsIt-IsPlaced :
    (s : Session) (o : Outcome ℤ) → KeepsIt (flush_results s) o → IsPlaced (results_of o.session)
KeepsIt-IsPlaced s o (inl kept) i e = absurd (flushed-ne-at s i (sym kept ∙ e))
KeepsIt-IsPlaced s o (inr (first, more)) i e =
    at-lt 0 i (length o.session.query_data) (length_pos o.session.query_data more) (sym first ∙ e)

-- The iterator stands on no freed element, nor behind the list.
abbrev pub Stands : Session → Type 0
Stands s = IsPlaced (results_of s) × (s.it ≢ freed)

-- From an element of the list the iterator goes to the next one or to NULL.
pub query_next-from :
    (s : Session) (disc : Disc) (i : ℕ)
    → s.it ≡ at i
    → i < length s.query_data
    → (o : Outcome Bool) × (query_next s disc ≡ value o) × Stands o.session
query_next-from s disc i e h = elim (Bool-cases (ltb (suc i) (length s.query_data))) [
  | inl more ↦
      let room : suc i < length s.query_data = ground (arith, more) in
      let (d, there) = get_elem?-some s.query_data (suc i) room in
      (
        _,
        query_next-more s disc d i e room there,
        (λ j k. at-lt (suc i) j _ room k, λ k. absurd (ground (arith, k))),
      )
  | inr last ↦
      let end : length s.query_data ≡ suc i = ground (arith, last) in
      (
        _,
        query_next-last s disc i e end,
        (λ j k. absurd (ground (arith, k)), λ k. absurd (ground (arith, k))),
      )
]

pub query_next-nowhere :
    (s : Session) (disc : Disc)
    → s.it ≡ nowhere
    → (o : Outcome Bool) × (query_next s disc ≡ value o) × Stands o.session
unfolding query_next
query_next-nowhere s disc e =
    let left : Session = set_errno (record s { it = nowhere }) disc_not_found in
    (
      record { session = left; disc = disc; result = false },
      rw e refl,
      (λ j k. absurd (ground (arith, k)), λ k. absurd (ground (arith, k))),
    )

pub query_next-freed : (s : Session) (disc : Disc) → s.it ≡ freed → query_next s disc ≡ fault
unfolding query_next
query_next-freed s disc e = rw e refl

-- Where the iterator can stand.
pub Cursor-cases : (it : Cursor) → (it ≡ nowhere) ⊎ ((i : ℕ) × (it ≡ at i)) ⊎ (it ≡ freed)
Cursor-cases nowhere = inl refl
Cursor-cases (at i) = inr (inl (i, refl))
Cursor-cases freed = inr (inr refl)

pub query_next-Stands :
    (s : Session) (disc : Disc) (o : Outcome Bool)
    → IsPlaced (results_of s)
    → query_next s disc ≡ value o
    → Stands o.session
query_next-Stands s disc o placed h = elim (Cursor-cases s.it) [
  | inl e ↦
      let (q, k, p) = query_next-nowhere s disc e in
      subst (λ (q : Outcome Bool). Stands q.session) (value-injective q o (sym k ∙ h)) p
  | inr (inl (i, e)) ↦
      let (q, k, p) = query_next-from s disc i e (placed i e) in
      subst (λ (q : Outcome Bool). Stands q.session) (value-injective q o (sym k ∙ h)) p
  | inr (inr e) ↦ absurd (let f = sym (query_next-freed s disc e) ∙ h in grind arith)
]

pub album-it :
    (cd : Iconv) (net : Network) (s : Session) (disc : Disc) (o : Outcome ℤ)
    → album cd net s disc ≡ value o
    → KeepsIt (flush_results s) o
unfolding album
album-it cd net s disc o h =
    let t = flush_results s in
    elim (Bool-cases (is_null disc.title && is_null disc.artist)) [
      | inl e ↦ leaves-it (set_errno t data_missing) t disc minus_one o refl (rw e at h)
      | inr e ↦ elim (Bool-cases (is_cache_only t.conn.use_cache)) [
        | inl f ↦ leaves-it (set_errno t disc_not_found) t disc (pos 0) o refl (rw (e, f) at h)
        | inr f ↦
            ask-it cd net (album_command (or_empty disc.artist) (or_empty disc.title)) t disc o
              (rw (e, f) at h)
      ]
    ]

Step-IsPlaced : {s t : Session} → Step s t → IsPlaced (results_of s) → IsPlaced (results_of t)
Step-IsPlaced {s} (queried cd net files cache cache' disc o h e) placed =
    subst (λ (t : Session). IsPlaced (results_of t)) e
      (KeepsIt-IsPlaced s o (query-it cd net files cache cache' s disc o h))
Step-IsPlaced {s} (asked_album cd net disc o h e) placed =
    subst (λ (t : Session). IsPlaced (results_of t)) e
      (KeepsIt-IsPlaced s o (album-it cd net s disc o h))
Step-IsPlaced {s} (went_on disc o h e) placed =
    subst (λ (t : Session). IsPlaced (results_of t)) e (query_next-Stands s disc o placed h).0
Step-IsPlaced {s} (searched net own disc str e) placed =
    subst (λ (t : Session). IsPlaced (results_of t)) e (search-IsPlaced net s own disc str)
Step-IsPlaced {s} (read_one cd net store disc o h e) placed =
    subst IsPlaced (sym (read-Keeps cd net store s disc o h) ∙ ap results_of e) placed
Step-IsPlaced {s} (wrote cd net store can_mkdir buf disc o h e) placed =
    subst IsPlaced (sym (write-Keeps cd net store can_mkdir buf s disc o h) ∙ ap results_of e)
      placed

-- The iterator stands on no element of the list but one that is there.
pub Reach-IsPlaced : {s t : Session} → IsPlaced (results_of s) → Reach s t → IsPlaced (results_of t)
Reach-IsPlaced placed here = placed
Reach-IsPlaced placed (later r step) = Step-IsPlaced step (Reach-IsPlaced placed r)
