-- ===== src/Commands/Stale.antt =====
-- When the iterator over the results stands on a freed element, lib/cddb_cmd.c.
use libcddb.Base.{◌≡◌, ◌↔◌, ◌⊎◌, inl, inr, sym, ap, subst, ◌∙◌, arith, Bool, ℤ, value, fault}
use libcddb.Disc.{Disc}
use libcddb.Commands.{dangling, Session, nowhere, at, freed, results_of, flush_results}
use libcddb.Commands.Read.{Outcome}
use libcddb.Commands.Results.{query_next}
use libcddb.Commands.Freed.{KeepsIt, query-it}
use libcddb.Commands.Placed.{search-it, IsPlaced}
use libcddb.Commands.Kept.{read-Keeps}
use libcddb.Commands.Kept.Submit.{write-Keeps}
use libcddb.Commands.Reach.{
  Step, queried, asked_album, went_on, searched, read_one, wrote, LeftBehind, StaleAfter, Reach,
  here, later, IsStale, query_next-from, query_next-nowhere, query_next-freed, Cursor-cases,
  query_next-Stands, album-it, Reach-IsPlaced,
}

-- A flush under the iterator, unless it is set to the first result.
LeftBehind-freed :
    (t u : Session) (before : Type 0)
    → (u.it ≡ dangling t.it) ⊎ (u.it ≡ at 0)
    → ((t.it ≡ freed) ↔ before)
    → (u.it ≡ freed) ↔ LeftBehind t u before
LeftBehind-freed t u before (inr first) h =
    (λ e. absurd (let f = sym first ∙ e in ground arith), λ l. absurd (l.0 first))
LeftBehind-freed t u before (inl kept) (to, from) = (
  λ e. (
    λ f. absurd (let g = sym e ∙ f in ground arith),
    elim (Cursor-cases t.it) [
      | inl k ↦ absurd (let g = sym e ∙ kept ∙ ap dangling k in ground arith)
      | inr (inl k) ↦ inl k
      | inr (inr k) ↦ inr (to k)
    ],
  ),
  λ l. elim l.1 [ inl (i, k) ↦ kept ∙ ap dangling k | inr b ↦ kept ∙ ap dangling (from b) ],
)

KeepsIt-dangling :
    (s : Session) (o : Outcome ℤ)
    → KeepsIt (flush_results s) o
    → (o.session.it ≡ dangling s.it) ⊎ (o.session.it ≡ at 0)
unfolding flush_results
KeepsIt-dangling s o (inl kept) = inl kept
KeepsIt-dangling s o (inr (first, _)) = inr first

-- After an iteration the iterator is on no freed element, and was on none before.
query_next-freed_iff :
    (s : Session) (disc : Disc) (o : Outcome Bool) (before : Type 0)
    → IsPlaced (results_of s)
    → query_next s disc ≡ value o
    → ((s.it ≡ freed) ↔ before)
    → (o.session.it ≡ freed) ↔ before
query_next-freed_iff s disc o before placed h (to, from) = (
  λ e. absurd ((query_next-Stands s disc o placed h).1 e),
  λ b. absurd (let f = sym (query_next-freed s disc (from b)) ∙ h in grind arith),
)

abbrev FreedIs : Type 0 → Session → Type 0
FreedIs p s = (s.it ≡ freed) ↔ p

-- The iterator alone decides, so calls that keep it change nothing.
FreedIs-kept :
    (p : Type 0) (s t : Session) → results_of t ≡ results_of s → FreedIs p s → FreedIs p t
FreedIs-kept p s t e = subst (λ it. (it ≡ freed) ↔ p) (sym (ap (λ r. r.1) e))

Step-freed :
    {s t : Session} (step : Step s t) (before : Type 0)
    → IsPlaced (results_of s)
    → FreedIs before s
    → FreedIs (StaleAfter step before) t
Step-freed {s} {t} (queried cd net files cache cache' disc o h e) before placed f =
    LeftBehind-freed s t before
      (subst (λ (t : Session). (t.it ≡ dangling s.it) ⊎ (t.it ≡ at 0)) e
        (KeepsIt-dangling s o (query-it cd net files cache cache' s disc o h)))
      f
Step-freed {s} {t} (asked_album cd net disc o h e) before placed f =
    LeftBehind-freed s t before
      (subst (λ (t : Session). (t.it ≡ dangling s.it) ⊎ (t.it ≡ at 0)) e
        (KeepsIt-dangling s o (album-it cd net s disc o h)))
      f
Step-freed {s} {t} (searched net own disc str e) before placed f =
    LeftBehind-freed s t before
      (subst (λ (t : Session). (t.it ≡ dangling s.it) ⊎ (t.it ≡ at 0)) e
        (search-it net s own disc str))
      f
Step-freed {s} (went_on disc o h e) before placed f =
    subst (FreedIs before) e (query_next-freed_iff s disc o before placed h f)
Step-freed {s} {t} (read_one cd net store disc o h e) before placed f =
    FreedIs-kept before s t (sym (ap results_of e) ∙ read-Keeps cd net store s disc o h) f
Step-freed {s} {t} (wrote cd net store can_mkdir buf disc o h e) before placed f =
    FreedIs-kept before s t
      (sym (ap results_of e) ∙ write-Keeps cd net store can_mkdir buf s disc o h) f

nowhere-IsPlaced : (s : Session) → s.it ≡ nowhere → IsPlaced (results_of s)
nowhere-IsPlaced s new i e = absurd (let f = sym new ∙ e in ground arith)

Reach-freed : {s t : Session} (r : Reach s t) → s.it ≡ nowhere → FreedIs (IsStale r) t
Reach-freed here new = (λ e. let f = sym new ∙ e in ground arith, λ b. absurd b)
Reach-freed {s} (later {t} r step) new =
    Step-freed step (IsStale r) (Reach-IsPlaced (nowhere-IsPlaced s new) r) (Reach-freed r new)

query_next_faults :
    (s : Session) (disc : Disc)
    → IsPlaced (results_of s)
    → (query_next s disc ≡ fault) ↔ (s.it ≡ freed)
query_next_faults s disc placed = (
  λ h. elim (Cursor-cases s.it) [
    | inl e ↦
        let (q, k, _) = query_next-nowhere s disc e in absurd (let f = sym k ∙ h in grind arith)
    | inr (inl (i, e)) ↦
        let (q, k, _) = query_next-from s disc i e (placed i e) in
        absurd (let f = sym k ∙ h in grind arith)
    | inr (inr e) ↦ e
  ],
  λ e. query_next-freed s disc e,
)

-- Whatever queries, album and text searches, reads, submissions and iterations that return came
-- before on a new connection, a call of cddb_query_next reads a freed element exactly when one of
-- the queries and searches began with the iterator on an element of the list and neither it nor
-- one after it set the iterator to a first result; an iterator on an element stands on one of the
-- list.
pub query_next-fault :
    (start s : Session) (disc : Disc)
    → start.it ≡ nowhere
    → (r : Reach start s) → ((query_next s disc ≡ fault) ↔ IsStale r) × IsPlaced (results_of s)
query_next-fault start s disc new r =
    let placed = Reach-IsPlaced (nowhere-IsPlaced start new) r in
    let faults = query_next_faults s disc placed in
    let freed_is = Reach-freed r new in
    ((λ h. freed_is.0 (faults.0 h), λ b. faults.1 (freed_is.1 b)), placed)
