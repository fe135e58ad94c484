-- ===== src/Commands/Placed.antt =====
-- Where the iterator of the list of results stands after cddb_search, lib/cddb_cmd.c.
use libcddb.Base.{
  ◌⊎◌, ℕ, ◌<◌, ◌≡◌, ◌≢◌, refl, arith, Bool, true, false, Bool-cases, inl, inr, length, List, [],
  ◌∷◌, Bytes,
}
use libcddb.Disc.{Disc}
use libcddb.Conn.Settings.{clone_proxy}
use libcddb.Conn.Connect.{Network, connect}
use libcddb.Commands.{dangling, Session, Cursor, nowhere, at, freed, results_of, flush_results}
use libcddb.Commands.SearchPage.{page_done, after_search, search}

-- An iterator that stands on an element stands on one of the list.
abbrev pub IsPlaced : List Disc × Cursor → Type 0
IsPlaced r = (i : ℕ) → r.1 ≡ at i → i < length r.0

dangling-ne-at : (it : Cursor) (i : ℕ) → dangling it ≢ at i
dangling-ne-at nowhere i = ground arith
dangling-ne-at (at j) i = ground arith
dangling-ne-at freed i = ground arith

pub flushed-ne-at : (s : Session) (i : ℕ) → (flush_results s).it ≢ at i
unfolding flush_results
flushed-ne-at s i = dangling-ne-at s.it i

pub length_pos {ℓ} : {A : Type ℓ} (xs : List A) → xs ≢ [] → 0 < length xs
length_pos [] h = absurd (h refl)
length_pos (x ∷ xs) h = omega arith

pub at-lt : (i j n : ℕ) → i < n → at i ≡ at j → j < n
at-lt i j n h e = ground arith

page_done-IsPlaced :
    (s t : Session) (disc : Disc) (ds : List Disc)
    → ((i : ℕ) → s.it ≢ at i)
    → IsPlaced (results_of (page_done s t disc ds).session)
unfolding page_done
page_done-IsPlaced s t disc [] h = λ i e. absurd (h i e)
page_done-IsPlaced s t disc (d ∷ ds) h = λ i e. at-lt 0 i _ (omega arith) e

after_search-IsPlaced :
    (s : Session) (disc : Disc) (sent : Session × Bool)
    → ((i : ℕ) → s.it ≢ at i)
    → IsPlaced (results_of (after_search s disc sent).session)
unfolding after_search
after_search-IsPlaced s disc (t, true) h = page_done-IsPlaced s _ disc _ h
after_search-IsPlaced s disc (t, false) h = λ i e. absurd (h i e)

pub search-IsPlaced :
    (net : Network) (s own : Session) (disc : Disc) (str : Bytes)
    → IsPlaced (results_of (search net s own disc str).session)
unfolding search
search-IsPlaced net s own disc str =
    let made = connect net (clone_proxy own.conn s.conn) in
    elim (Bool-cases made.1) [
      | inl e ↦ rw e (after_search-IsPlaced (flush_results s) disc _ (flushed-ne-at s))
      | inr e ↦ rw e (λ i k. absurd (flushed-ne-at s i k))
    ]

page_done-it :
    (s t : Session) (disc : Disc) (ds : List Disc)
    → ((page_done s t disc ds).session.it ≡ s.it) ⊎ ((page_done s t disc ds).session.it ≡ at 0)
unfolding page_done
page_done-it s t disc [] = inl refl
page_done-it s t disc (d ∷ ds) = inr refl

after_search-it :
    (s : Session) (disc : Disc) (sent : Session × Bool)
    → ((after_search s disc sent).session.it ≡ s.it)
      ⊎ ((after_search s disc sent).session.it ≡ at 0)
unfolding after_search
after_search-it s disc (t, true) = page_done-it s _ disc _
after_search-it s disc (t, false) = inl refl

-- The flush leaves the iterator, and only a first result sets it.
pub search-it :
    (net : Network) (s own : Session) (disc : Disc) (str : Bytes)
    → ((search net s own disc str).session.it ≡ dangling s.it)
      ⊎ ((search net s own disc str).session.it ≡ at 0)
unfolding search flush_results
search-it net s own disc str =
    let made = connect net (clone_proxy own.conn s.conn) in
    elim (Bool-cases made.1) [
      | inl e ↦ rw e (after_search-it (flush_results s) disc _)
      | inr e ↦ rw e (inl refl)
    ]
