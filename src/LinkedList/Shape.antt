-- ===== src/LinkedList/Shape.antt =====
-- What a linked list on the heap stands for, and that `list_append` adds to its end.
use libcddb.Base.{
  ℕ, suc, ◌+◌, ◌≤◌, ◌<◌, ◌≡◌, ◌≢◌, refl, ◌∙◌, arith, Option, none, some, List, [], ◌∷◌, ◌++◌,
  length, length-append, value, ◌>>=◌, ◌==◌, true, false,
}
use native.Mathlib.Nat.{le_refl}
use libcddb.LinkedList.{Ptr, Elem, Heap, LinkedList, list_new, list_append, link_last, update}

module _ {ℓ} {A : Type ℓ} where
  -- Address and item of each element, in order.
  abbrev pub head_ptr : List (ℕ × A) → Ptr
  head_ptr [] = none
  head_ptr ((a, x) ∷ cs) = some a

  abbrev pub last_ptr : Ptr → List (ℕ × A) → Ptr
  last_ptr p [] = p
  last_ptr p ((a, x) ∷ cs) = last_ptr (some a) cs

  -- From the element at `prev` on, `next` leads through the elements, and `prev` leads back. The
  -- addresses rise from `low` on and stay below `high`.
  abbrev pub Linked : (ℕ → Option (Elem A)) → Ptr → ℕ → ℕ → List (ℕ × A) → Type ℓ
  Linked cell prev low high [] = Unit
  Linked cell prev low high ((a, x) ∷ cs) =
      (cell a ≡ some (record { prev = prev; next = head_ptr cs; item = x }))
      × (low ≤ a)
      × (a < high)
      × Linked cell (some a) (suc a) high cs

  pub record IsList (h : Heap A) (l : LinkedList) (cs : List (ℕ × A)) : Type ℓ where
    pub linked : Linked h.cell none 0 h.fresh cs
    pub first : l.first ≡ head_ptr cs
    pub last : l.last ≡ last_ptr none cs
    pub cnt : l.cnt ≡ length cs

  abbrev pub items : List (ℕ × A) → List A
  items [] = []
  items ((a, x) ∷ cs) = x ∷ items cs

  pub IsList-new : (h : Heap A) → IsList h list_new []
  IsList-new h = record { linked = tt; first = refl; last = refl; cnt = refl }

  -- A change below the addresses of the chain, or above them, leaves it linked.
  pub Linked-update_below :
      (cell : ℕ → Option (Elem A)) (prev : Ptr) (low high b : ℕ) (e : Option (Elem A))
      (cs : List (ℕ × A))
      → b < low
      → Linked cell prev low high cs
      → Linked (update cell b e) prev low high cs
  Linked-update_below cell prev low high b e [] h s = tt
  Linked-update_below cell prev low high b e ((a, x) ∷ cs) h (c, lo, hi, s) =
      (ground arith, lo, hi, Linked-update_below cell (some a) (suc a) high b e cs (omega arith) s)

  pub Linked-update_above :
      (cell : ℕ → Option (Elem A)) (prev : Ptr) (low high b : ℕ) (e : Option (Elem A))
      (cs : List (ℕ × A))
      → high ≤ b
      → Linked cell prev low high cs
      → Linked (update cell b e) prev low high cs
  Linked-update_above cell prev low high b e [] h s = tt
  Linked-update_above cell prev low high b e ((a, x) ∷ cs) h (c, lo, hi, s) =
      (ground arith, lo, hi, Linked-update_above cell (some a) (suc a) high b e cs h s)

  last_ptr-snoc :
      (p : Ptr) (cs : List (ℕ × A)) (a : ℕ) (x : A) → some a ≡ last_ptr p (cs ++ (a, x) ∷ [])
  last_ptr-snoc p [] a x = refl
  last_ptr-snoc p ((b, y) ∷ cs) a x = last_ptr-snoc (some b) cs a x

  -- A result of `list_append`: a list with the item behind the others, and the same iterator.
  pub record Appended (h : Heap A) (l : LinkedList) (x : A) (cs : List (ℕ × A)) : Type ℓ where
    pub heap : Heap A
    pub list : LinkedList
    pub returned : list_append h l x ≡ value (heap, list)
    pub shape : IsList heap list (cs ++ (h.fresh, x) ∷ [])
    pub same_it : list.it ≡ l.it

  -- The heap that `list_append` leaves behind a last element `old` at `end`.
  abbrev joined : (ℕ → Option (Elem A)) → ℕ → Elem A → ℕ → A → ℕ → Option (Elem A)
  joined cell end old new x =
      update (update cell end (some (record old { next = some new }))) new
        (some (record { prev = some end; next = none; item = x }))

  joined-other :
      (cell : ℕ → Option (Elem A)) (end new a : ℕ) (old : Elem A) (x : A)
      → a ≢ end
      → a ≢ new
      → joined cell end old new x a ≡ cell a
  joined-other cell end new a old x e f = ground arith

  record Joins (cell : ℕ → Option (Elem A)) (prev : Ptr) (low high new : ℕ) (x : A)
      (cs : List (ℕ × A)) : Type ℓ where
    end : ℕ
    old : Elem A
    is_last : last_ptr prev cs ≡ some end
    is_old : cell end ≡ some old
    above : low ≤ end
    below : end < high
    linked : Linked (joined cell end old new x) prev low (suc new) (cs ++ (new, x) ∷ [])

  Linked-Joins :
      (cell : ℕ → Option (Elem A)) (prev : Ptr) (low high new a : ℕ) (x y : A) (cs : List (ℕ × A))
      → high ≤ new
      → Linked cell prev low high ((a, y) ∷ cs)
      → Joins cell prev low high new x ((a, y) ∷ cs)
  Linked-Joins cell prev low high new a x y [] h (c, lo, hi, s) = record {
    end = a;
    old = record { prev = prev; next = none; item = y };
    is_last = refl;
    is_old = c;
    above = lo;
    below = hi;
    linked = (ground arith, lo, omega arith, (ground arith, omega arith, omega arith, tt));
  }
  Linked-Joins cell prev low high new a x y ((b, z) ∷ cs) h (c, lo, hi, s) =
      let j = Linked-Joins cell (some a) (suc a) high new b x z cs h s in
      record {
        end = j.end;
        old = j.old;
        is_last = j.is_last;
        is_old = j.is_old;
        above = omega (arith, j.above);
        below = j.below;
        linked = (
          joined-other cell j.end new a j.old x (omega (arith, j.above)) (omega arith) ∙ c,
          lo,
          omega arith,
          j.linked,
        );
      }

  abbrev fresh_elem : A → Elem A
  fresh_elem x = record { prev = none; next = none; item = x }

  module _ (h : Heap A) (l : LinkedList) (x : A) where
    append_to_empty : l.cnt ≡ 0 → IsList h l [] → Appended h l x []
    unfolding list_append
    append_to_empty e v = record {
      heap = record {
        cell = update h.cell h.fresh (some (record { prev = none; next = none; item = x }));
        fresh = suc h.fresh;
      };
      list = record l { cnt = l.cnt + 1; first = some h.fresh; last = some h.fresh };
      returned = ground arith;
      shape = record {
        linked = (ground arith, omega arith, omega arith, tt);
        first = refl;
        last = refl;
        cnt = omega arith;
      };
      same_it = refl;
    }

    -- The computation of `link_last`, with the last element at hand.
    list_append-joined :
        (n end : ℕ) (old : Elem A)
        → l.cnt ≡ suc n
        → l.last ≡ some end
        → update h.cell h.fresh (some (fresh_elem x)) end ≡ some old
        → end < h.fresh
        → list_append h l x
          ≡ value (
            record {
              cell = joined (update h.cell h.fresh (some (fresh_elem x))) end old h.fresh x;
              fresh = suc h.fresh;
            },
            record l { cnt = l.cnt + 1; last = some h.fresh },
          )
    unfolding list_append
    list_append-joined n end old e f g below =
        let nonempty : (l.cnt == 0) ≡ false = ground arith in
        let other : (end == h.fresh) ≡ false = ground arith in
        let self : (h.fresh == h.fresh) ≡ true = ground arith in
        rw nonempty (rw (f, link_last) (rw (g, ◌>>=◌) (ground arith)))

  Linked-keep_fresh :
      (h : Heap A) (x : A) (cs : List (ℕ × A))
      → Linked h.cell none 0 h.fresh cs
      → Linked (update h.cell h.fresh (some (fresh_elem x))) none 0 h.fresh cs
  Linked-keep_fresh h x cs s =
      Linked-update_above h.cell none 0 h.fresh h.fresh (some (fresh_elem x)) cs (le_refl _) s

  -- The item goes to the end of the list, in an element of its own, and the iterator stays; no
  -- pointer that is followed is invalid.
  pub list_append-Appended :
      (h : Heap A) (l : LinkedList) (x : A) (cs : List (ℕ × A)) → IsList h l cs → Appended h l x cs
  list_append-Appended h l x [] v = append_to_empty h l x v.cnt v
  list_append-Appended h l x ((a, y) ∷ cs) v =
      let cell = update h.cell h.fresh (some (fresh_elem x)) in
      let kept = Linked-keep_fresh h x ((a, y) ∷ cs) v.linked in
      let j = Linked-Joins cell none 0 h.fresh h.fresh a x y cs (le_refl _) kept in
      record {
        heap = record { cell = joined cell j.end j.old h.fresh x; fresh = suc h.fresh };
        list = record l { cnt = l.cnt + 1; last = some h.fresh };
        returned =
            list_append-joined h l x (length cs) j.end j.old v.cnt (v.last ∙ j.is_last) j.is_old
              j.below;
        shape = record {
          linked = j.linked;
          first = v.first;
          last = last_ptr-snoc none ((a, y) ∷ cs) h.fresh x;
          cnt = omega (arith, v.cnt, length-append ((a, y) ∷ cs) ((h.fresh, x) ∷ []));
        };
        same_it = refl;
      }
