-- ===== src/Record/Valid.antt =====
-- A valid disc stays valid while an entry is read into it, lib/cddb_cmd.c, and no invalid pointer
-- is followed.
use libcddb.Base.{
  Bool, Bool-cases, eq_ℤ, if◌then◌else◌, inl, inr, Option-cases, ℕ, zero, suc, ◌≡◌, refl, sym, ◌∙◌,
  arith, true, false, List, [], ◌∷◌, Option, none, some, get_elem?, set, length-set, Bytes, Run,
  value, fault, ℤ,
}
use libcddb.Track.{
  Track, set_title as set_track_title, append_title as append_track_title,
  set_artist as set_track_artist, append_artist as append_track_artist,
  set_ext_data as set_track_ext, append_ext_data as append_track_ext,
}
use libcddb.Regex.{Titles, both, one}
use libcddb.Disc.{Disc, on_track}
use libcddb.Disc.Fields.{
  set_title, append_title, set_artist, append_artist, set_ext_data, append_ext_data,
}
use libcddb.Disc.Chain.{IsNumbered, IsValid, add_track-IsValid, get_track-pointer}
use libcddb.Record as Rec
use libcddb.Record.Texts as Texts

-- A change of a track that leaves its number.
abbrev KeepsNumber : (Option Track → Option Track) → Type 0
KeepsNumber f =
    (f none ≡ none) × ((t : Track) → (u : Track) × (f (some t) ≡ some u) × (u.num ≡ t.num))

IsNumbered-set :
    (n i : ℕ) (ts : List Track) (t u : Track)
    → get_elem? ts i ≡ some t
    → u.num ≡ t.num
    → IsNumbered n ts
    → IsNumbered n (set ts i u)
IsNumbered-set n i [] t u e k h = h
IsNumbered-set n zero (x ∷ ts) t u e k (h, hs) = (grind arith, hs)
IsNumbered-set n (suc i) (x ∷ ts) t u e k (h, hs) = (h, IsNumbered-set (suc n) i ts t u e k hs)

on_track-IsValid :
    (f : Option Track → Option Track) (disc : Disc) (i : ℕ)
    → KeepsNumber f
    → IsValid disc
    → IsValid (on_track f disc i)
on_track-IsValid f disc i (zeroed, keeps) v = elim (Option-cases (get_elem? disc.tracks i)) [
  | inl e ↦ rw (e, zeroed) v
  | inr (t, e) ↦
      let (u, g, k) = keeps t in
      rw (e, g)
        (record {
          counted = v.counted ∙ sym (length-set disc.tracks i u);
          in_order = IsNumbered-set 1 i disc.tracks t u e k v.in_order;
        })
]

-- No fault, and a valid disc.
abbrev pub Fine : Run Rec.Step → Type 0
Fine fault = ⊥
Fine (value (Rec.next q)) = IsValid q.disc
Fine (value (Rec.track_not_found q)) = IsValid q.disc

found_track-Fine :
    (f : Rec.Parser → ℕ → Rec.Parser) (state : Rec.State) (n : ℤ) (p : Rec.Parser)
    → ((i : ℕ) → IsValid (f p i).disc)
    → IsValid p.disc
    → (place : Option ℕ) → Fine (value (Rec.found_track f state n p place))
found_track-Fine f state n p keeps v none = v
found_track-Fine f state n p keeps v (some i) = keeps i

pub with_track-Fine :
    (f : Rec.Parser → ℕ → Rec.Parser) (state : Rec.State) (n : ℤ) (p : Rec.Parser)
    → ((i : ℕ) → IsValid (f p i).disc)
    → IsValid p.disc
    → Fine (Rec.with_track f state n p)
with_track-Fine f state n p keeps v =
    rw (get_track-pointer p.disc n v) (found_track-Fine f state n p keeps v _)

if-IsValid : (b : Bool) (d e : Disc) → IsValid d → IsValid e → IsValid (if b then d else e)
if-IsValid true d e v w = v
if-IsValid false d e v w = w

pub with_track_ext-IsValid :
    (text : Bytes) (n : ℤ) (p : Rec.Parser) (i : ℕ)
    → IsValid p.disc
    → IsValid (Texts.with_track_ext text n p i).disc
unfolding Texts.with_track_ext set_track_ext append_track_ext
with_track_ext-IsValid text n p i v =
    on_track-IsValid (λ t. append_track_ext t (Texts.ext_text text)) _ i
      (refl, λ t. (_, refl, refl))
      (if-IsValid (eq_ℤ n p.old_no) _ _ v
        (on_track-IsValid (λ t. set_track_ext t none) p.disc i (refl, λ t. (_, refl, refl)) v))

pub fresh_title-IsValid :
    (n : ℤ) (p : Rec.Parser) (i : ℕ) → IsValid p.disc → IsValid (Texts.fresh_title n p i).disc
unfolding Texts.fresh_title set_track_title set_track_artist
fresh_title-IsValid n p i v = elim (Bool-cases (eq_ℤ n p.old_no)) [
  | inl e ↦ rw e v
  | inr e ↦ rw e (
      on_track-IsValid (λ t. set_track_title (set_track_artist t none) none) p.disc i
        (refl, λ t. (_, refl, refl)) v)
]

pub add_track_title-IsValid :
    (titles : Titles) (p : Rec.Parser) (i : ℕ)
    → IsValid p.disc
    → IsValid (Texts.add_track_title titles p i).disc
unfolding Texts.add_track_title append_track_title append_track_artist
add_track_title-IsValid (one text) p i v =
    on_track-IsValid (λ t. append_track_title t (some text)) p.disc i (refl, λ t. (_, refl, refl)) v
add_track_title-IsValid (both artist title) p i v =
    on_track-IsValid
      (λ t.
        append_track_title (append_track_artist (Texts.title_to_artist t) (some artist))
          (some title))
      p.disc i (refl, λ t. (_, refl, refl)) v

pub add_offset-IsValid :
    (offset : ℤ) (p : Rec.Parser) (place : Option ℕ)
    → IsValid p.disc
    → IsValid (Texts.add_offset offset p place).disc
unfolding Texts.add_offset
add_offset-IsValid offset p none v = add_track-IsValid p.disc _ v
add_offset-IsValid offset p (some i) v =
    on_track-IsValid (Texts.set_offset offset) p.disc i (refl, λ t. (_, refl, refl)) v

pub with_track_title-IsValid :
    (titles : Titles) (n : ℤ) (p : Rec.Parser) (i : ℕ)
    → IsValid p.disc
    → IsValid (Texts.with_track_title titles n p i).disc
unfolding Texts.with_track_title
with_track_title-IsValid titles n p i v =
    add_track_title-IsValid titles _ i
      (fresh_title-IsValid n (record p { state = Rec.track_title; track_no = n }) i v)

-- The texts of the disc itself leave the chain alone.
pub with_disc_ext-IsValid :
    (text : Bytes) (p : Rec.Parser) → IsValid p.disc → IsValid (Texts.with_disc_ext text p).disc
unfolding Texts.with_disc_ext set_ext_data append_ext_data
with_disc_ext-IsValid text p v = elim (Bool-cases (Rec.is_no_multi p.multi_line)) [
  | inl e ↦ rw e (record { counted = v.counted; in_order = v.in_order })
  | inr e ↦ rw e (record { counted = v.counted; in_order = v.in_order })
]

pub fresh_disc_title-IsValid :
    (p : Rec.Parser) → IsValid p.disc → IsValid (Texts.fresh_disc_title p).disc
unfolding Texts.fresh_disc_title set_title set_artist
fresh_disc_title-IsValid p v = elim (Bool-cases (Rec.is_no_multi p.multi_line)) [
  | inl e ↦ rw e (record { counted = v.counted; in_order = v.in_order })
  | inr e ↦ rw e v
]

pub with_disc_title-IsValid :
    (titles : Titles) (p : Rec.Parser)
    → IsValid p.disc
    → IsValid (Texts.with_disc_title titles p).disc
unfolding Texts.with_disc_title append_title append_artist
with_disc_title-IsValid (both artist title) p v = record {
  counted = v.counted;
  in_order = v.in_order;
}
with_disc_title-IsValid (one text) p v = elim (Bool-cases (Rec.is_multi_title p.multi_line)) [
  | inl e ↦ rw e (record { counted = v.counted; in_order = v.in_order })
  | inr e ↦ rw e (record { counted = v.counted; in_order = v.in_order })
]
