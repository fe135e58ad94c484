-- ===== src/LinkedList/Access.antt =====
-- Access by position and iteration over a linked list.
use libcddb.Base.{
  ℕ, zero, suc, ◌<◌, ◌≡◌, refl, ap, arith, ltb, ℤ, pos, negsuc, none, some, Option, List, [], ◌∷◌,
  length, get_elem?, Run, value, ◌>>=◌,
}
use libcddb.Base.{Bool-cases, inl, inr, get_elem?-none, sym}
use libcddb.LinkedList.{
  Ptr, Heap, LinkedList, load, follow, list_get, list_first, list_next, next_of, element_data,
}
use libcddb.LinkedList.Shape.{head_ptr, Linked, IsList, items}

module _ {ℓ} {A : Type ℓ} where
  -- The address at a position; NULL behind the end.
  abbrev pub address_at : List (ℕ × A) → ℕ → Ptr
  address_at [] i = none
  address_at ((a, x) ∷ cs) zero = some a
  address_at ((a, x) ∷ cs) (suc i) = address_at cs i

  abbrev pub item_at : List (ℕ × A) → ℤ → Option A
  item_at cs (negsuc n) = none
  item_at cs (pos n) = get_elem? (items cs) n

  follow-address_at :
      (h : Heap A) (prev : Ptr) (low high n : ℕ) (cs : List (ℕ × A))
      → Linked h.cell prev low high cs
      → n < length cs
      → follow h n (head_ptr cs) ≡ value (address_at cs n)
  unfolding follow
  follow-address_at h prev low high n [] s k = elim k [ ]
  follow-address_at h prev low high zero ((a, x) ∷ cs) s k = refl
  follow-address_at h prev low high (suc n) ((a, x) ∷ cs) (c, _, _, s) k =
      rw (c, ◌>>=◌) (follow-address_at h (some a) (suc a) high n cs s (omega arith))

  data_at :
      (h : Heap A) (prev : Ptr) (low high n : ℕ) (cs : List (ℕ × A))
      → Linked h.cell prev low high cs
      → element_data h (address_at cs n) ≡ value (get_elem? (items cs) n)
  unfolding element_data
  data_at h prev low high n [] s = refl
  data_at h prev low high zero ((a, x) ∷ cs) (c, _, _, s) = rw (c, ◌>>=◌)
  data_at h prev low high (suc n) ((a, x) ∷ cs) (c, _, _, s) =
      data_at h (some a) (suc a) high n cs s

  length-items : (cs : List (ℕ × A)) → length (items cs) ≡ length cs
  length-items [] = refl
  length-items ((a, x) ∷ cs) = ap suc (length-items cs)

  -- The element that `list_get` finds holds the item at the position; outside the list, and at a
  -- negative position, there is none.
  list_get-item_at :
      (h : Heap A) (l : LinkedList) (cs : List (ℕ × A)) (idx : ℤ)
      → IsList h l cs
      → (list_get h l idx >>= element_data h) ≡ value (item_at cs idx)
  unfolding list_get element_data
  list_get-item_at h l cs (negsuc n) v = refl
  list_get-item_at h l cs (pos n) v = elim (Bool-cases (ltb n l.cnt)) [
    | inl inside ↦
        let found = follow-address_at h none 0 h.fresh n cs v.linked (ground (arith, v.cnt)) in
        rw inside (rw (v.first, found, ◌>>=◌) (data_at h none 0 h.fresh n cs v.linked))
    | inr outside ↦
        let nothing = get_elem?-none (items cs) n (ground (arith, v.cnt, length-items cs)) in
        rw outside (ap value (sym nothing))
  ]

  -- What a client sees that goes on from the iterator until it is NULL; `n` bounds the rounds.
  pub visit : ℕ → Heap A → LinkedList → Run (LinkedList × List A)
  visit zero h l = value (l, [])
  visit (suc n) h l = elim l.it [
    | none ↦ value (l, [])
    | some a ↦ do
      e ← load h (some a)
      l' ← list_next h l
      (last, rest) ← visit n h l'
      value (last, e.item ∷ rest)
  ]

  visit-items :
      (h : Heap A) (l : LinkedList) (prev : Ptr) (low high : ℕ) (cs : List (ℕ × A))
      → Linked h.cell prev low high cs
      → l.it ≡ head_ptr cs
      → visit (suc (length cs)) h l ≡ value (record l { it = none }, items cs)
  unfolding visit list_next
  visit-items h l prev low high [] s e = rw (e, visit) (ground arith)
  visit-items h l prev low high ((a, x) ∷ cs) (c, _, _, s) e =
      let later = visit-items h (record l { it = head_ptr cs }) (some a) (suc a) high cs s refl in
      let stepped : list_next h l ≡ value (record l { it = head_ptr cs }) =
        rw (e, next_of) (rw (c, ◌>>=◌)) in
      rw (e, visit) (rw (stepped, c, ◌>>=◌) (rw (later, ◌>>=◌)))

  -- The iteration from `list_first` on gives every item once, in order, and ends with NULL.
  pub visit-list_first :
      (h : Heap A) (l : LinkedList) (cs : List (ℕ × A))
      → IsList h l cs
      → visit (suc (length cs)) h (list_first l) ≡ value (record l { it = none }, items cs)
  visit-list_first h l cs v = visit-items h (list_first l) none 0 h.fresh cs v.linked v.first
