-- ===== src/Commands/LinkShape.antt =====
-- What a link that cddb_search of lib/cddb_cmd.c finds looks like in its line, and the results of
-- the links, apart from the code.
use libcddb.Disc.Fields.{set_category_str}
use mathlib.Core.Option.{some-injective}
use libcddb.Base.{
  subst, ℕ, ◌≡◌, ◌≢◌, refl, ap, ◌∙◌, arith, ◌==◌, Bool, Bool-cases, Option, none, some,
  Option-cases, inl, inr, List, [], ◌∷◌, ◌++◌, Bytes, CString, codes,
}
use libcddb.Category.{find_name, named}
use libcddb.Regex.{◌>>=◌, literal}
use libcddb.Regex.Words.{is_alpha, is_xdigit, span, All}
use libcddb.Regex.Hex.{get_hex}
use libcddb.Disc.{Disc, disc_new}
use libcddb.Disc.Chain.{IsValid, disc_clone-same}
use libcddb.Commands.Links.{
  with_link_text, link_disc, LinkText, both, one, duplicate, Link, some_word, text_of, link_parts,
  link_at, text_search,
}

-- Behind what stands before the link: its address with the category and the disc ID, and then its
-- text.
abbrev pub IsLinkAt : Bytes → Bytes × Bytes × LinkText → Type 0
IsLinkAt s (category, discid, text) =
    (rest : Bytes) × (s
      ≡ codes "/freedb_search_fmt.php?cat="
        ++ (category ++ (codes "&id=" ++ (discid ++ (codes "\">" ++ rest)))))
    × ((category ≢ []) × All is_alpha category)
    × ((discid ≢ []) × All is_xdigit discid)
    × (text_of rest ≡ some text)

abbrev pub IsLinkIn : Bytes → Link → Type 0
IsLinkIn line m = (s : Bytes) × (line ≡ m.before ++ s) × IsLinkAt s (m.category, m.discid, m.text)

bind-some {ℓ ℓ'} :
    {A : Type ℓ} {B : Type ℓ'} (o : Option A) (f : A → Option B) (b : B)
    → (o >>= f) ≡ some b
    → (a : A) × (o ≡ some a) × (f a ≡ some b)
bind-some none f b h = absurd (grind arith)
bind-some (some a) f b h = (a, refl, h)

literal-append : (p s t : Bytes) → literal p s ≡ some t → s ≡ p ++ t
unfolding literal
literal-append [] s t h = some-injective _ _ h
literal-append (c ∷ p) [] t h = absurd (grind arith)
literal-append (c ∷ p) (d ∷ s) t h = elim (Bool-cases (c == d)) [
  | inl e ↦
      let k : literal p s ≡ some t = rw e at h in
      let same : d ≡ c = ground (arith, e) in rw (same, literal-append p s t k) refl
  | inr e ↦ absurd (let k : ◌≡◌ {A = Option Bytes} none (some t) = rw e at h in grind arith)
]

span-joined : (p : ℕ → Bool) (s : Bytes) → s ≡ (span p s).0 ++ (span p s).1
unfolding span
span-joined p [] = refl
span-joined p (c ∷ s) = elim (Bool-cases (p c)) [
  | inl e ↦ rw e (ap (◌∷◌ c) (span-joined p s))
  | inr e ↦ rw e refl
]

span-All : (p : ℕ → Bool) (s : Bytes) → All p (span p s).0
unfolding span
span-All p [] = tt
span-All p (c ∷ s) = elim (Bool-cases (p c)) [ inl e ↦ rw e (e, span-All p s) | inr e ↦ rw e tt ]

some_word-some : (x y a b : Bytes) → some_word (x, y) ≡ some (a, b) → (x ≡ a) × (y ≡ b) × (a ≢ [])
some_word-some [] y a b h = absurd (grind arith)
some_word-some (c ∷ x) y a b h =
    let e = some-injective _ _ h in
    (
      ap (λ (q : Bytes × Bytes). q.0) e,
      ap (λ (q : Bytes × Bytes). q.1) e,
      λ k. absurd (let f = ap (λ (q : Bytes × Bytes). q.0) e ∙ k in grind arith),
    )

-- A longest word of such bytes.
word-append :
    (p : ℕ → Bool) (s a b : Bytes)
    → some_word (span p s) ≡ some (a, b)
    → (s ≡ a ++ b) × (a ≢ []) × All p a
word-append p s a b h =
    let (e, f, some_byte) = some_word-some (span p s).0 (span p s).1 a b h in
    (
      span-joined p s ∙ ap (λ x. x ++ (span p s).1) e ∙ ap (λ y. a ++ y) f,
      some_byte,
      subst (All p) e (span-All p s),
    )

link_parts-IsLinkAt :
    (s : Bytes) (q : Bytes × Bytes × LinkText) → link_parts s ≡ some q → IsLinkAt s q
unfolding link_parts
link_parts-IsLinkAt s q h =
    let (s1, e1, h1) = bind-some (literal (codes "/freedb_search_fmt.php?cat=") s) _ q h in
    let ((category, s2), e2, h2) = bind-some (some_word (span is_alpha s1)) _ q h1 in
    let (s3, e3, h3) = bind-some (literal (codes "&id=") s2) _ q h2 in
    let ((discid, s4), e4, h4) = bind-some (some_word (span is_xdigit s3)) _ q h3 in
    let (s5, e5, h5) = bind-some (literal (codes "\">") s4) _ q h4 in
    let (text, e6, h6) = bind-some (text_of s5) _ q h5 in
    let (f2, some2, all2) = word-append is_alpha s1 category s2 e2 in
    let (f4, some4, all4) = word-append is_xdigit s3 discid s4 e4 in
    let joined : s
        ≡ codes "/freedb_search_fmt.php?cat="
          ++ (category ++ (codes "&id=" ++ (discid ++ (codes "\">" ++ s5)))) =
      literal-append (codes "/freedb_search_fmt.php?cat=") s s1 e1
      ∙ ap (λ t. codes "/freedb_search_fmt.php?cat=" ++ t)
          (f2
            ∙ ap (λ t. category ++ t)
                (literal-append (codes "&id=") s2 s3 e3
                  ∙ ap (λ t. codes "&id=" ++ t)
                      (f4 ∙ ap (λ t. discid ++ t) (literal-append (codes "\">") s4 s5 e5)))) in
    subst (IsLinkAt s) (some-injective _ _ h6) (s5, joined, (some2, all2), (some4, all4), e6)

link_at-IsLinkIn : (s : Bytes) (m : Link) → link_at s ≡ some m → IsLinkIn s m
unfolding link_at
link_at-IsLinkIn s m h = elim (Option-cases (link_parts s)) [
  | inl e ↦ absurd (let k = rw (link_at, e) at h in grind arith)
  | inr ((category, discid, text), e) ↦
      subst (IsLinkIn s) (some-injective _ _ (rw (link_at, e) at h))
        (s, refl, link_parts-IsLinkAt s (category, discid, text) e)
]

-- What the pattern finds is a link.
pub text_search-IsLinkIn : (line : Bytes) (m : Link) → text_search line ≡ some m → IsLinkIn line m
unfolding text_search
text_search-IsLinkIn [] m h = absurd (grind arith)
text_search-IsLinkIn (c ∷ line) m h = elim (Option-cases (text_search line)) [
  | inl e ↦ link_at-IsLinkIn (c ∷ line) m (rw e at h)
  | inr (later, e) ↦
      let (s, joined, shape) = text_search-IsLinkIn line later e in
      subst (IsLinkIn (c ∷ line)) (some-injective _ _ (rw e at h)) (s, ap (◌∷◌ c) joined, shape)
]

-- The artist and the title that a link gives: a duplicate has those of the result before it.
abbrev pub names_of : CString × CString → LinkText → CString × CString
names_of before (both artist title) = (some artist, some title)
names_of before (one text) = (some text, some text)
names_of before duplicate = before

abbrev pub described : Link → CString × CString → Disc
described m (artist, title) = record disc_new {
  genre = some m.category;
  category = find_name m.category named;
  discid = get_hex m.discid;
  artist = artist;
  title = title;
}

-- The results of links one after the other: new discs with what the links say.
unfoldable pub described_discs : CString × CString → List Link → List Disc
described_discs before [] = []
described_discs before (m ∷ ms) =
    let names = names_of before m.text in described m names ∷ described_discs names ms

described-IsValid : (m : Link) (names : CString × CString) → IsValid (described m names)
described-IsValid m names = record { counted = refl; in_order = tt }

with_link_text-described :
    (t : LinkText) (m : Link) (names : CString × CString)
    → with_link_text t (described m names) ≡ described m (names_of names t)
with_link_text-described (both artist title) m names = refl
with_link_text-described (one text) m names = refl
with_link_text-described duplicate m names = refl

-- A first link makes a new disc, and a later one a clone of the result before it.
link_disc-first : (m : Link) → link_disc none m ≡ described m (names_of (none, none) m.text)
unfolding link_disc
link_disc-first m = with_link_text-described m.text m (none, none)

link_disc-later :
    (l m : Link) (names : CString × CString)
    → link_disc (some (described l names)) m ≡ described m (names_of names m.text)
unfolding link_disc
link_disc-later l m names =
    ap
      (λ d.
        with_link_text m.text
          (record (set_category_str d m.category) { discid = get_hex m.discid }))
      (disc_clone-same (described l names) (described-IsValid l names))
    ∙ with_link_text-described m.text m names

-- What the code makes of links one after the other.
unfoldable pub discs_of : Option Disc → List Link → List Disc
discs_of aux [] = []
discs_of aux (m ∷ ms) = let disc = link_disc aux m in disc ∷ discs_of (some disc) ms

discs_of-after :
    (l : Link) (names : CString × CString) (ms : List Link)
    → discs_of (some (described l names)) ms ≡ described_discs names ms
unfolding discs_of described_discs
discs_of-after l names [] = refl
discs_of-after l names (m ∷ ms) =
    rw (link_disc-later l m names)
      (ap (◌∷◌ (described m (names_of names m.text))) (discs_of-after m (names_of names m.text) ms))

pub discs_of-described : (ms : List Link) → discs_of none ms ≡ described_discs (none, none) ms
unfolding discs_of described_discs
discs_of-described [] = refl
discs_of-described (m ∷ ms) = rw (link_disc-first m) (
    ap (◌∷◌ (described m (names_of (none, none) m.text)))
      (discs_of-after m (names_of (none, none) m.text) ms))
