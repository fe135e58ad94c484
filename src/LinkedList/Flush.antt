-- ===== src/LinkedList/Flush.antt =====
-- `list_flush`: the elements are freed, the callback is given every item, and the iterator is
-- left where it was.
use libcddb.Base.{
  ℕ, zero, suc, ◌<◌, ◌≡◌, refl, ◌∙◌, arith, none, some, Option, List, [], ◌∷◌, length, value, fault,
  ◌>>=◌,
}
use libcddb.LinkedList.{
  Ptr, Elem, Heap, LinkedList, store, destroy_all, list_flush, list_next, next_of,
}
use libcddb.LinkedList.Shape.{head_ptr, Linked, IsList, items, Linked-update_below}
use libcddb.LinkedList.Access.{address_at}

module _ {ℓ} {A : Type ℓ} where
  abbrev pub Freed : (ℕ → Option (Elem A)) → List (ℕ × A) → Type ℓ
  Freed cell [] = Unit
  Freed cell ((a, x) ∷ cs) = (cell a ≡ none) × Freed cell cs

  record Destroys (h : Heap A) (low : ℕ) (cs : List (ℕ × A)) : Type ℓ where
    heap : Heap A
    returned : destroy_all (length cs) h (head_ptr cs) ≡ value (heap, items cs)
    freed : Freed heap.cell cs
    spared : (b : ℕ) → b < low → heap.cell b ≡ h.cell b

  destroy_all-Destroys :
      (h : Heap A) (prev : Ptr) (low high : ℕ) (cs : List (ℕ × A))
      → Linked h.cell prev low high cs
      → Destroys h low cs
  unfolding destroy_all
  destroy_all-Destroys h prev low high [] s = record {
    heap = h;
    returned = refl;
    freed = tt;
    spared = λ b k. refl;
  }
  destroy_all-Destroys h prev low high ((a, x) ∷ cs) (c, lo, hi, s) =
      let h' = store h a none in
      let d =
        destroy_all-Destroys h' (some a) (suc a) high cs
          (Linked-update_below h.cell (some a) (suc a) high a none cs (omega arith) s) in
      record {
        heap = d.heap;
        returned = rw (c, ◌>>=◌) (rw (d.returned, ◌>>=◌));
        freed = (d.spared a (omega arith) ∙ ground arith, d.freed);
        spared = λ b k. d.spared b (omega arith) ∙ ground arith;
      }

  Freed-address_at :
      (cell : ℕ → Option (Elem A)) (cs : List (ℕ × A)) (i : ℕ)
      → Freed cell cs
      → i < length cs
      → (a : ℕ) × (address_at cs i ≡ some a) × (cell a ≡ none)
  Freed-address_at cell [] i f k = elim k [ ]
  Freed-address_at cell ((a, x) ∷ cs) zero (f, fs) k = (a, refl, f)
  Freed-address_at cell ((a, x) ∷ cs) (suc i) (f, fs) k =
      Freed-address_at cell cs i fs (omega arith)

  pub record Flushes (h : Heap A) (l : LinkedList) (cs : List (ℕ × A)) : Type ℓ where
    pub heap : Heap A
    pub list : LinkedList
    pub returned : list_flush h l ≡ value (heap, list, items cs)
    pub empty : IsList heap list []
    pub freed : Freed heap.cell cs
    pub same_it : list.it ≡ l.it

  -- The flush ends, gives the callback each item once and in order, frees every element, and
  -- leaves an empty list with the iterator as it was.
  pub list_flush-Flushes :
      (h : Heap A) (l : LinkedList) (cs : List (ℕ × A)) → IsList h l cs → Flushes h l cs
  unfolding list_flush
  list_flush-Flushes h l cs v =
      let d = destroy_all-Destroys h none 0 h.fresh cs v.linked in
      record {
        heap = d.heap;
        list = record l { cnt = 0; first = none; last = none };
        returned = rw (v.cnt, v.first) (rw (d.returned, ◌>>=◌));
        empty = record { linked = tt; first = refl; last = refl; cnt = refl };
        freed = d.freed;
        same_it = refl;
      }

  -- A list that is flushed while its iterator stands on an element leaves the iterator dangling:
  -- the next `list_next` reads a freed element.
  list_next_after_flush :
      (h : Heap A) (l : LinkedList) (cs : List (ℕ × A)) (i : ℕ)
      → IsList h l cs
      → i < length cs
      → l.it ≡ address_at cs i
      → (list_flush h l >>= λ flushed. list_next flushed.0 flushed.1) ≡ fault
  unfolding list_next
  list_next_after_flush h l cs i v k e =
      let f = list_flush-Flushes h l cs v in
      let (a, at, gone) = Freed-address_at f.heap.cell cs i f.freed k in
      let stays : f.list.it ≡ some a = f.same_it ∙ e ∙ at in
      rw (f.returned, ◌>>=◌) (rw (stays, next_of) (rw (gone, ◌>>=◌)))
