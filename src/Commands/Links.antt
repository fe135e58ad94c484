-- ===== src/Commands/Links.antt =====
-- The results in a page of the text search: REGEX_TEXT_SEARCH of lib/cddb_regex.c and
-- cddb_parse_search_data of lib/cddb_cmd.c.
use mathlib.Core.Option.{some-injective}
use libcddb.Base.{
  ℕ, zero, suc, ◌+◌, ◌-◌, ◌<◌, ◌≡◌, ap, sym, arith, not, ◌==◌, if◌then◌else◌, Bool, true, false,
  length, drop, take, Option, none, some, Option-cases, inl, inr, List, [], ◌∷◌, ◌++◌, Bytes, codes,
}
use libcddb.Regex.{◌>>=◌, literal, is_digit, split_last}
use libcddb.Regex.Words.{is_alpha, is_xdigit, span}
use libcddb.Regex.Hex.{get_hex}
use libcddb.Disc.{Disc, disc_new, disc_clone}
use libcddb.Disc.Fields.{set_category_str}

-- The text of a link: artist and title, one text, or the number of a duplicate.
pub data LinkText : Type 0 where
  both : Bytes → Bytes → LinkText
  one : Bytes → LinkText
  duplicate : LinkText

-- The first group is what stands before the link.
pub record Link : Type 0 where
  pub before : Bytes
  pub category : Bytes
  pub discid : Bytes
  pub text : LinkText

-- Whether a text is somewhere in another.
unfoldable pub contains : Bytes → Bytes → Bool
contains text [] = false
contains text (c ∷ s) =
    let later = contains text s in elim (literal text (c ∷ s)) [ some rest ↦ true | none ↦ later ]

abbrev pub closing : Bytes
closing = codes "</a>"

-- `([^>]*>([[:digit:]]+)<.*)</a>`
abbrev pub digits_closed : Bytes × Bytes → Bool
digits_closed (d ∷ ds, c ∷ rest) = if c == b'<' then contains closing rest else false
digits_closed _ = false

abbrev pub behind_tag : Bytes × Bytes → Bool
behind_tag (tag, []) = false
behind_tag (tag, c ∷ rest) = digits_closed (span is_digit rest)

unfoldable pub is_duplicate : Bytes → Bool
is_duplicate s = behind_tag (span (λ c. not (c == b'>')) s)

abbrev pub but_last : Bytes → Bytes
but_last s = take (length s - 1) s

-- `([^<]+) / ([^<]+)` or else `([^<]+)`: the separator is the last one with a byte behind it.
unfoldable pub link_text : Bytes → LinkText
link_text s = elim (split_last (but_last s)) [
  | some (c ∷ artist, rest) ↦ both (c ∷ artist) (drop (length (c ∷ artist) + 3) s)
  | _ ↦ one s
]

abbrev pub closed_text : Bytes × Bytes → Option LinkText
closed_text ([], rest) = none
closed_text (c ∷ s, rest) = elim (literal closing rest) [
  | some _ ↦ some (link_text (c ∷ s))
  | none ↦ none
]

-- The alternatives of the text; where the last one matches too it is the longest.
unfoldable pub text_of : Bytes → Option LinkText
text_of s = if is_duplicate s then some duplicate else closed_text (span (λ c. not (c == b'<')) s)

abbrev pub some_word : Bytes × Bytes → Option (Bytes × Bytes)
some_word ([], rest) = none
some_word (c ∷ s, rest) = some (c ∷ s, rest)

-- The groups behind the first one: the category, the disc ID and the text.
unfoldable pub link_parts : Bytes → Option (Bytes × Bytes × LinkText)
link_parts s = do
  s ← literal (codes "/freedb_search_fmt.php?cat=") s
  (category, s) ← some_word (span is_alpha s)
  s ← literal (codes "&id=") s
  (discid, s) ← some_word (span is_xdigit s)
  s ← literal (codes "\">") s
  text ← text_of s
  some (category, discid, text)

-- A link at the start of a text.
unfoldable pub link_at : Bytes → Option Link
link_at s = elim (link_parts s) [
  | none ↦ none
  | some (category, discid, text) ↦
      some (record { before = []; category = category; discid = discid; text = text })
]

-- REGEX_TEXT_SEARCH: the last link, since the first group takes as much as it can.
unfoldable pub text_search : Bytes → Option Link
text_search [] = none
text_search (c ∷ s) = elim (text_search s) [
  | some m ↦ some (record m { before = c ∷ m.before })
  | none ↦ link_at (c ∷ s)
]

abbrev pub with_link_text : LinkText → Disc → Disc
with_link_text (both artist title) disc = record disc { artist = some artist; title = some title }
with_link_text (one text) disc = record disc { artist = some text; title = some text }
with_link_text duplicate disc = disc

abbrev pub base_disc : Option Disc → Disc
base_disc none = disc_new
base_disc (some disc) = disc_clone disc

-- The result of a link: a clone of the one before it with what the link says.
unfoldable pub link_disc : Option Disc → Link → Disc
unfolding set_category_str get_hex
link_disc aux m =
    with_link_text m.text
      (record (set_category_str (base_disc aux) m.category) { discid = get_hex m.discid })

-- The links of a line from the left, since what stands before a link is read first. There is fuel
-- for a link at each byte.
unfoldable pub line_links : ℕ → Option Disc → Bytes → Option Disc × List Disc
line_links zero aux line = (aux, [])
line_links (suc fuel) aux line = elim (text_search line) [
  | none ↦ (aux, [])
  | some m ↦
      let (earlier, discs) = line_links fuel aux m.before in
      let disc = link_disc earlier m in (some disc, discs ++ disc ∷ [])
]

unfoldable pub parse_search_data : Option Disc → Bytes → Option Disc × List Disc
parse_search_data aux line = line_links (length line) aux line

link_at-before : (s : Bytes) (m : Link) → link_at s ≡ some m → m.before ≡ []
unfolding link_at
link_at-before s m e = elim (Option-cases (link_parts s)) [
  | inl h ↦ absurd (let f = rw (link_at, h) at e in grind arith)
  | inr (parts, h) ↦ ap (λ k. k.before) (sym (some-injective _ _ (rw (link_at, h) at e)))
]

-- What stands before a link is shorter than the line.
pub text_search-before :
    (line : Bytes) (m : Link) → text_search line ≡ some m → length m.before < length line
unfolding text_search
text_search-before [] m e = absurd (grind arith)
text_search-before (c ∷ s) m e = elim (Option-cases (text_search s)) [
  | inl none_later ↦ omega (arith, ap length (link_at-before (c ∷ s) m (rw none_later at e)))
  | inr (later, found) ↦
      let same = some-injective _ _ (rw found at e) in
      omega (arith, text_search-before s later found, ap (λ k. length k.before) same)
]
