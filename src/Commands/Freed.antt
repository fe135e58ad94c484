-- ===== src/Commands/Freed.antt =====
-- The iterator of the result list between two queries, lib/cddb_cmd.c.
use libcddb.Base.{
  ℕ, ◌≡◌, ◌≢◌, ◌⊎◌, inl, inr, refl, sym, ap, ◌∙◌, arith, ◌==◌, ◌||◌, Bool-cases, Run-cases,
  value-injective, List, [], ◌∷◌, ◌++◌, Bytes, ℤ, pos, Run, value, fault, eq_ℤ, minus_one,
}
use libcddb.Errors.{is_ok, disc_not_found, data_missing, ErrorCode}
use libcddb.Charset.{Iconv}
use libcddb.Cache.{Queried, Files, QueryCache, cache_query}
use libcddb.Disc.{Disc}
use libcddb.Disc.Discid.{calc_discid}
use libcddb.Conn.Connect.{Network, connect}
use libcddb.Commands.{Cursor, set_errno, Session, at, freed, flush_results}
use libcddb.Commands.Send.{Command, send_cmd}
use libcddb.Response.{Answer}
use libcddb.Commands.Iterator.{send_cmd-results}
use libcddb.Commands.Read.{Outcome, answer_of, leaves, is_cache_only}
use libcddb.Commands.Results.{
  after_list, ListReply, exact, list, none_found, hung_up, refused_with, list_reply, on_list_reply,
  on_list_answer, first_result, list_follows, exact_match, list_done, handle_response_list,
  query_next,
}
use libcddb.Commands.Query.{with_table, offset_list, query, query_online, after_cache, ask}

-- The iterator is left alone, or it stands on the first result of a list.
abbrev pub KeepsIt {ℓ} : {A : Type ℓ} → Session → Outcome A → Type 0
KeepsIt s o = (o.session.it ≡ s.it) ⊎ ((o.session.it ≡ at 0) × (o.session.query_data ≢ []))

list_done-it :
    (s : Session) (disc : Disc) (n : ℕ) (o : Outcome ℤ)
    → list_done s disc n ≡ value o
    → o.session.it ≡ s.it
unfolding list_done
list_done-it s disc n o h = ground (arith, h)

first_result-it :
    (s : Session) (disc : Disc) (ds : List Disc) (o : Outcome ℤ)
    → s.query_data ≡ ds
    → first_result s disc ≡ value o
    → KeepsIt s o
unfolding first_result list_done
first_result-it s disc [] o e h = ground (arith, h, e)
first_result-it s disc (d ∷ ds) o e h = ground (arith, h, e)

exact_match-it :
    (cd : Iconv) (s : Session) (disc : Disc) (msg : Bytes) (o : Outcome ℤ)
    → exact_match cd s disc msg ≡ value o
    → o.session.it ≡ s.it
unfolding exact_match list_done
exact_match-it cd s disc msg o h = ground (arith, h)

send_cmd-it : (s : Session) (cmd : Command) → (send_cmd s cmd).0.it ≡ s.it
send_cmd-it s cmd = ap (λ (r : List Disc × Cursor). r.1) (send_cmd-results s cmd)

after_list-it :
    (s : Session) (disc : Disc) (found : List Disc × List Bytes × ErrorCode) (o : Outcome ℤ)
    → after_list s disc found ≡ value o
    → KeepsIt s o
unfolding after_list
after_list-it s disc (discs, left, errno) o h = elim (Bool-cases (is_ok errno)) [
  | inl e ↦
      first_result-it (record s { query_data = s.query_data ++ discs; lines = left }) disc _ o refl
        (rw e at h)
  | inr e ↦ ground (arith, h, e)
]

on_list_reply-it :
    (cd : Iconv) (s : Session) (disc : Disc) (msg : Bytes) (reply : ListReply) (o : Outcome ℤ)
    → on_list_reply cd s disc msg reply ≡ value o
    → KeepsIt s o
unfolding on_list_reply list_follows
on_list_reply-it cd s disc msg exact o h = inl (exact_match-it cd s disc msg o h)
on_list_reply-it cd s disc msg list o h = after_list-it s disc _ o h
on_list_reply-it cd s disc msg none_found o h = inl (list_done-it s disc 0 o h)
on_list_reply-it cd s disc msg hung_up o h = ground (arith, h)
on_list_reply-it cd s disc msg (refused_with errno) o h = ground (arith, h)

on_list_answer-it :
    (cd : Iconv) (disc : Disc) (s : Session) (a : Answer) (o : Outcome ℤ)
    → on_list_answer cd disc (s, a) ≡ value o
    → KeepsIt s o
unfolding on_list_answer
on_list_answer-it cd disc s a o h = elim (Bool-cases (eq_ℤ a.code minus_one)) [
  | inl e ↦ let h = rw e at h in ground (arith, h)
  | inr e ↦ on_list_reply-it cd s disc a.msg (list_reply a.code) o (rw e at h)
]

answer_of-it : (s : Session) → (answer_of s).0.it ≡ s.it
answer_of-it s = ground arith

handle_response_list-it :
    (cd : Iconv) (s : Session) (disc : Disc) (o : Outcome ℤ)
    → handle_response_list cd s disc ≡ value o
    → KeepsIt s o
unfolding handle_response_list
handle_response_list-it cd s disc o h =
    rw (answer_of-it s) at (on_list_answer-it cd disc (answer_of s).0 (answer_of s).1 o h)

pub leaves-it {ℓ} :
    {A : Type ℓ} (s t : Session) (disc : Disc) (a : A) (o : Outcome A)
    → s.it ≡ t.it
    → leaves s disc a ≡ value o
    → KeepsIt t o
leaves-it s t disc a o e h = inl (ap (λ o. o.session.it) (sym (value-injective _ o h)) ∙ e)

-- What follows a connection and a command.
pub ask-it :
    (cd : Iconv) (net : Network) (cmd : Command) (s : Session) (disc : Disc) (o : Outcome ℤ)
    → ask cd net cmd s disc ≡ value o
    → KeepsIt s o
unfolding ask
ask-it cd net cmd s disc o h =
    let connected : Session = record s { conn = (connect net s.conn).0 } in
    let sent = send_cmd connected cmd in
    elim (Bool-cases (connect net s.conn).1) [
      | inr e ↦ leaves-it connected s disc minus_one o refl (rw e at h)
      | inl e ↦ elim (Bool-cases sent.1) [
        | inr f ↦ leaves-it sent.0 s disc minus_one o (send_cmd-it connected cmd) (rw (e, f) at h)
        | inl f ↦
            rw (send_cmd-it connected cmd) at
              (handle_response_list-it cd sent.0 disc o (rw (e, f) at h))
      ]
    ]

query_online-it :
    (cd : Iconv) (net : Network) (s : Session) (disc : Disc) (o : Outcome ℤ)
    → query_online cd net s disc ≡ value o
    → KeepsIt s o
unfolding query_online
query_online-it cd net s disc o h =
    let offsets = offset_list s.conn.buf_size 0 [] disc.tracks in
    elim (Bool-cases (is_ok offsets.2)) [
      | inl e ↦ ask-it cd net _ s _ o (rw e at h)
      | inr e ↦ leaves-it (set_errno s offsets.2) s _ minus_one o refl (rw e at h)
    ]

with_table-value :
    (cache t : QueryCache) (r : Run (Outcome ℤ)) (o : Outcome ℤ)
    → with_table cache r ≡ value (t, o)
    → r ≡ value o
with_table-value cache t fault o h = absurd (grind arith)
with_table-value cache t (value a) o h = ap (λ p. value p.1) (value-injective (cache, a) (t, o) h)

after_cache-it :
    (cd : Iconv) (net : Network) (s : Session) (q : Queried) (t : QueryCache) (o : Outcome ℤ)
    → after_cache cd net s q ≡ value (t, o)
    → KeepsIt s o
unfolding after_cache
after_cache-it cd net s q t o h =
    let k = with_table-value q.cache t _ o h in
    elim (Bool-cases q.found) [
      | inl e ↦ leaves-it (set_errno s q.errno) s q.disc (pos 1) o refl (rw e at k)
      | inr e ↦ elim (Bool-cases (is_cache_only s.conn.use_cache)) [
        | inl f ↦ leaves-it (set_errno s disc_not_found) s q.disc (pos 0) o refl (rw (e, f) at k)
        | inr f ↦ query_online-it cd net (set_errno s q.errno) q.disc o (rw (e, f) at k)
      ]
    ]

pub query-it :
    (cd : Iconv) (net : Network) (files : Files) (cache t : QueryCache) (s : Session) (disc : Disc)
    (o : Outcome ℤ)
    → query cd net files cache s disc ≡ value (t, o)
    → KeepsIt (flush_results s) o
unfolding query
query-it cd net files cache t s disc o h =
    let s' = flush_results s in
    let d = calc_discid disc in
    let lacks = d.discid == 0 || d.length == 0 || d.track_cnt == 0 in
    elim (Bool-cases lacks) [
      | inl e ↦
          leaves-it (set_errno s' data_missing) s' d minus_one o refl
            (with_table-value cache t _ o (rw e at h))
      | inr e ↦ elim (Run-cases (cache_query files s'.conn.use_cache cache d s'.conn.errnum)) [
        | inl f ↦ absurd (let h = rw (e, f) at h in grind arith)
        | inr (q, f) ↦ after_cache-it cd net s' q t o (rw (e, f) at h)
      ]
    ]

-- When the iterator stood on a result and the next query gives none, cddb_query_next reads an
-- element that the query has freed.
pub query-query_next :
    (cd : Iconv) (net : Network) (files : Files) (cache t : QueryCache) (s : Session)
    (disc later : Disc) (i : ℕ) (o : Outcome ℤ)
    → s.it ≡ at i
    → query cd net files cache s disc ≡ value (t, o)
    → o.session.query_data ≡ []
    → query_next o.session later ≡ fault
unfolding query_next flush_results
query-query_next cd net files cache t s disc later i o e h empty =
    elim (query-it cd net files cache t s disc o h) [
      | inl kept ↦ let f : o.session.it ≡ freed = kept ∙ rw e refl in rw f
      | inr found ↦ absurd (found.1 empty)
    ]
