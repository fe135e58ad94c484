-- ===== src/LinkedList.antt =====
-- lib/ll.c: a doubly linked list on an explicit heap. An address is a number and NULL is `none`;
-- `calloc` takes a new address each time, and to follow a pointer to a freed element is a fault.
-- The list itself is not NULL, as it is for the lists that the connection makes.
pub mod Shape
pub mod Access
pub mod Flush
use libcddb.Base.{
  ℕ, zero, suc, ◌+◌, ◌==◌, ltb, if◌then◌else◌, ℤ, pos, negsuc, Option, none, some, List, [], ◌∷◌,
  Run, value, fault, ◌>>=◌,
}

abbrev pub Ptr : Type 0
Ptr = Option ℕ

pub record Elem {ℓ} (A : Type ℓ) : Type ℓ where
  pub prev : Ptr
  pub next : Ptr
  pub item : A

-- Addresses from `fresh` on have not been given out.
pub record Heap {ℓ} (A : Type ℓ) : Type ℓ where
  pub cell : ℕ → Option (Elem A)
  pub fresh : ℕ

pub record LinkedList : Type 0 where
  pub cnt : ℕ
  pub first : Ptr
  pub last : Ptr
  pub it : Ptr

abbrev pub list_new : LinkedList
list_new = record { cnt = 0; first = none; last = none; it = none }

abbrev pub list_size : LinkedList → ℕ
list_size l = l.cnt

-- The new iterator is the result.
abbrev pub list_first : LinkedList → LinkedList
list_first l = record l { it = l.first }

module _ {ℓ} {A : Type ℓ} where
  abbrev pub update : (ℕ → Option (Elem A)) → ℕ → Option (Elem A) → ℕ → Option (Elem A)
  update f a e b = if a == b then e else f b

  -- `*p`
  abbrev pub load : Heap A → Ptr → Run (Elem A)
  load h none = fault
  load h (some a) = elim (h.cell a) [ none ↦ fault | some e ↦ value e ]

  abbrev pub store : Heap A → ℕ → Option (Elem A) → Heap A
  store h a e = record h { cell = update h.cell a e }

  elem_construct : Heap A → A → Heap A × ℕ
  elem_construct h x = (
    record {
      cell = update h.cell h.fresh (some (record { prev = none; next = none; item = x }));
      fresh = suc h.fresh;
    },
    h.fresh,
  )

  -- `list->last->next = elem; elem->prev = list->last; list->last = elem;`
  link_last : Heap A → LinkedList → ℕ → Run (Heap A × LinkedList)
  link_last h l elem = elim l.last [
    | none ↦ fault
    | some end ↦ do
      old ← load h (some end)
      let h = store h end (some (record old { next = some elem }))
      new ← load h (some elem)
      value (store h elem (some (record new { prev = some end })), record l { last = some elem })
  ]

  unfoldable pub list_append : Heap A → LinkedList → A → Run (Heap A × LinkedList)
  unfolding elem_construct link_last
  list_append h l x =
      let (h, elem) = elem_construct h x in
      let l' : LinkedList = record l { cnt = l.cnt + 1 } in
      if l.cnt == 0
      then value (h, record l' { first = some elem; last = some elem })
      else link_last h l' elem

  unfoldable pub follow : Heap A → ℕ → Ptr → Run Ptr
  follow h zero p = value p
  follow h (suc n) p = do e ← load h p; follow h n e.next

  unfoldable pub list_get : Heap A → LinkedList → ℤ → Run Ptr
  unfolding follow
  list_get h l (negsuc n) = value none
  list_get h l (pos idx) = if ltb idx l.cnt then follow h idx l.first else value none

  -- `element_data`, at a pointer to an element.
  unfoldable pub element_data : Heap A → Ptr → Run (Option A)
  element_data h none = value none
  element_data h (some a) = do e ← load h (some a); value (some e.item)

  next_of : Heap A → LinkedList → Ptr → Run LinkedList
  next_of h l none = value l
  next_of h l (some a) = do e ← load h (some a); value (record l { it = e.next })

  unfoldable pub list_next : Heap A → LinkedList → Run LinkedList
  unfolding next_of
  list_next h l = next_of h l l.it

  -- `while (elem) { elem = elem_destroy(elem, list->free_data); }` with fuel: the items that the
  -- callback is given, in order, and the heap that is left.
  unfoldable pub destroy_all : ℕ → Heap A → Ptr → Run (Heap A × List A)
  destroy_all n h none = value (h, [])
  destroy_all zero h (some a) = fault
  destroy_all (suc n) h (some a) = do
    e ← load h (some a)
    (h', items) ← destroy_all n (store h a none) e.next
    value (h', e.item ∷ items)

  -- `list->it` is left as it was.
  unfoldable pub list_flush : Heap A → LinkedList → Run (Heap A × LinkedList × List A)
  unfolding destroy_all
  list_flush h l = do
    (h', items) ← destroy_all l.cnt h l.first
    value (h', record l { cnt = 0; first = none; last = none }, items)
