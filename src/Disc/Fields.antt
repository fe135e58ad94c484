-- ===== src/Disc/Fields.antt =====
-- The getters and setters of lib/cddb_disc.c. A disc pointer that may be NULL is an `Option Disc`.
use libcddb.Base.{ℕ, ℤ, pos, minus_one, Option, none, some, Bytes, CString, Run, value, fault}
use libcddb.Flags.{str_or_empty}
use libcddb.Category.{Category, invalid, named, category_name, find_name}
use libcddb.Track.{append_text}
use libcddb.Disc.{Disc}

get_discid : Option Disc → ℕ
get_discid (some disc) = disc.discid
get_discid none = 0

unfoldable pub set_discid : Option Disc → ℕ → Option Disc
set_discid none discid = none
set_discid (some disc) discid = some (record disc { discid = discid })

get_category : Option Disc → Category
get_category (some disc) = disc.category
get_category none = invalid

unfoldable pub set_category : Option Disc → Category → Option Disc
set_category none category = none
set_category (some disc) category = some (record disc { category = category })

-- The name of the category, read out of the array only where it lies in it.
unfoldable pub get_category_str : ℕ → Option Disc → Run CString
get_category_str flags none = value (str_or_empty flags none)
get_category_str flags (some disc) = elim (category_name disc.category) [
  | none ↦ fault
  | some name ↦ value (some name)
]

-- The text becomes the genre, and names the category if it is one of the known names.
unfoldable pub set_category_str : Disc → Bytes → Disc
set_category_str disc cat = record disc { genre = some cat; category = find_name cat named }

get_genre : ℕ → Option Disc → CString
get_genre flags none = str_or_empty flags none
get_genre flags (some disc) = str_or_empty flags disc.genre

-- `strdup(genre)` has no test for NULL, so the text is one.
unfoldable pub set_genre : Option Disc → Bytes → Option Disc
set_genre none genre = none
set_genre (some disc) genre = some (record disc { genre = some genre })

get_length : Option Disc → ℕ
get_length (some disc) = disc.length
get_length none = 0

unfoldable pub set_length : Option Disc → ℕ → Option Disc
set_length none length = none
set_length (some disc) length = some (record disc { length = length })

get_revision : Option Disc → ℕ
get_revision (some disc) = disc.revision
get_revision none = 0

unfoldable pub set_revision : Option Disc → ℕ → Option Disc
set_revision none revision = none
set_revision (some disc) revision = some (record disc { revision = revision })

get_year : Option Disc → ℕ
get_year (some disc) = disc.year
get_year none = 0

unfoldable pub set_year : Option Disc → ℕ → Option Disc
set_year none year = none
set_year (some disc) year = some (record disc { year = year })

get_track_count : Option Disc → ℤ
get_track_count (some disc) = pos disc.track_cnt
get_track_count none = minus_one

get_title : ℕ → Option Disc → CString
get_title flags none = str_or_empty flags none
get_title flags (some disc) = str_or_empty flags disc.title

unfoldable pub set_title : Option Disc → CString → Option Disc
set_title none title = none
set_title (some disc) title = some (record disc { title = title })

unfoldable pub append_title : Option Disc → CString → Option Disc
append_title none title = none
append_title (some disc) title = some (record disc { title = append_text disc.title title })

get_artist : ℕ → Option Disc → CString
get_artist flags none = str_or_empty flags none
get_artist flags (some disc) = str_or_empty flags disc.artist

unfoldable pub set_artist : Option Disc → CString → Option Disc
set_artist none artist = none
set_artist (some disc) artist = some (record disc { artist = artist })

unfoldable pub append_artist : Option Disc → CString → Option Disc
append_artist none artist = none
append_artist (some disc) artist = some (record disc { artist = append_text disc.artist artist })

get_ext_data : ℕ → Option Disc → CString
get_ext_data flags none = str_or_empty flags none
get_ext_data flags (some disc) = str_or_empty flags disc.ext_data

unfoldable pub set_ext_data : Option Disc → CString → Option Disc
set_ext_data none ext_data = none
set_ext_data (some disc) ext_data = some (record disc { ext_data = ext_data })

unfoldable pub append_ext_data : Option Disc → CString → Option Disc
append_ext_data none ext_data = none
append_ext_data (some disc) ext_data =
    some (record disc { ext_data = append_text disc.ext_data ext_data })
