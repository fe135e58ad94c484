-- ===== src/Commands/Offline.antt =====
-- A submission that only goes to the cache and the read that follows it: cddb_write and cddb_read
-- of lib/cddb_cmd.c on a connection without network access.
use libcddb.Commands.Answers.{bytes_of-append}
use libcddb.Base.{
  unlines, ◌<◌, ◌≡◌, ◌≢◌, refl, sym, ap, ◌∙◌, arith, ◌==◌, ◌&&◌, Bool, true, false, if◌then◌else◌,
  length, none, some, Bytes, value,
}
use libcddb.Errors.{ok}
use libcddb.Charset.{Iconv}
use libcddb.Category.{Category, index, invalid, last, same, category_name}
use libcddb.Cache.{cache_only}
use libcddb.Cache.Lines.{cached_lines-entry}
use libcddb.Disc.{Disc}
use libcddb.Disc.Convert.{disc_iconv}
use libcddb.Disc.Convert.RoundTrip.{disc_iconv-Converts}
use libcddb.Net.Lines.{ArePlain}
use libcddb.Submission.Lines.{entry_lines}
use libcddb.Submission.Written.{IsComplete, write_data-entry}
use libcddb.Submission.Reread.{asked_for, reread_disc, IsRereadable, parse_record-entry}
use libcddb.Conn.Connect.{Network}
use libcddb.Commands.{Session, set_errno}
use libcddb.Commands.Read.{name_of, Store, Outcome, cached_side, cache_read, not_cached, read}
use libcddb.Commands.Write.{
  has_default_email, lacks_data, lacking_track, cache_entry, create_entry, submit_online,
  on_lacking, checked_write, write,
}

-- The cache with one more file.
abbrev pub with_entry : Store → Disc → Bytes → Store
with_entry store disc text = record store {
  exists = λ c discid.
      if same c disc.category && discid == disc.discid then true else store.exists c discid;
  contents = λ c discid.
      if same c disc.category && discid == disc.discid then some text else store.contents c discid;
}

disc_iconv-discid :
    (cd : Iconv) (a b : Disc)
    → disc_iconv cd a ≡ (b, true)
    → (b.discid ≡ a.discid) × (b.category ≡ a.category)
unfolding disc_iconv
disc_iconv-discid none a b e = (ap (λ p. p.0.discid) (sym e), ap (λ p. p.0.category) (sym e))
disc_iconv-discid (some cd) a b e = let h = disc_iconv-Converts cd a b e in (h.discid, h.category)

-- The read of a file that is the entry of a disc.
cache_read-entry :
    (from : Iconv) (store : Store) (s : Session) (sent got : Disc)
    → s.conn.use_cache ≡ cache_only
    → IsRereadable sent
    → 1 < s.conn.buf_size
    → ArePlain s.conn.buf_size (entry_lines s.conn sent)
    → disc_iconv from (reread_disc sent) ≡ (got, true)
    → cache_read from (with_entry store sent (unlines (entry_lines s.conn sent))) s (asked_for sent)
      ≡ value (record { session = set_errno s ok; disc = got; result = true })
unfolding cache_read
cache_read-entry from store s sent got mode h b plain e =
    let here : (sent.discid == sent.discid) ≡ true = ground arith in
    let here' : (index sent.category == index sent.category) ≡ true = ground arith in
    let side = cached_side cache_only in
    rw
      (
        mode,
        here',
        here,
        cached_lines-entry s.conn.buf_size (entry_lines s.conn sent) b plain,
        parse_record-entry from side s.conn sent false h refl,
        e,
      )
      (ap
        (λ m. value (record {
          session = record s { conn = record s.conn { use_cache = m; errnum = ok } };
          disc = got;
          result = true;
        }))
        mode)

-- The submission: the entry becomes the file, and nothing is sent.
create_entry-cached :
    (net : Network) (store : Store) (can_mkdir : Category → Bool) (buf : Bytes) (s : Session)
    (sent : Disc) (name : Bytes)
    → s.conn.use_cache ≡ cache_only
    → IsComplete sent
    → IsRereadable sent
    → length (unlines (entry_lines s.conn sent)) < length buf
    → category_name sent.category ≡ some name
    → can_mkdir sent.category ≡ true
    → store.writable sent.category sent.discid ≡ true
    → create_entry net store can_mkdir buf s sent
      ≡ value (
        record { session = set_errno s ok; disc = record sent { iterator = none }; result = true },
        some (unlines (entry_lines s.conn sent)),
      )
unfolding create_entry cache_entry submit_online
create_entry-cached net store can_mkdir buf s sent name mode complete h room e dir open_file =
    let text = unlines (entry_lines s.conn sent) in
    let (left, _, w) = write_data-entry s.conn buf sent complete h.sized room in
    let named : name_of sent.category ≡ value name = rw (name_of, e) refl in
    rw (w, bytes_of-append text left) (simp (mode, named, dir, open_file) refl)

category_name-some : (c : Category) → c ≢ last → (name : Bytes) × (category_name c ≡ some name)
unfolding category_name
category_name-some last h = absurd (h refl)
category_name-some _ h = (_, refl)

-- The outcome of a command that succeeds.
abbrev pub succeeds : Session → Disc → Outcome Bool
succeeds s disc = record { session = set_errno s ok; disc = disc; result = true }

-- On a connection that only uses the cache, with an address of its own, a disc that lacks
-- nothing is converted, and the entry of the converted disc is to be read again: the disc has
-- an artist, a category of the array, at most 20 tracks in order, a length below 10^6, a
-- revision below 10^8, a year that is 0 or has four digits, offsets below 10^8, a title without
-- the separator " / ", and names of tracks that split into artist and title again. The entry is
-- shorter than the buffer, its lines have no NUL or line terminator in them and fit the line
-- buffer, and its file can be made. Then cddb_write returns TRUE with the error number OK, the
-- file is the entry, and nothing is sent; and the cddb_read of the category and the disc ID
-- that follows on the connection returns TRUE with the disc that the entry gives, converted
-- back where this conversion succeeds, and nothing is sent and no line of the server is read.
pub write-read :
    (to from : Iconv) (net : Network) (store : Store) (can_mkdir : Category → Bool) (buf : Bytes)
    (s : Session) (disc sent got : Disc)
    → s.conn.use_cache ≡ cache_only
    → has_default_email s.conn ≡ false
    → lacks_data disc ≡ false
    → lacking_track 0 disc.tracks ≡ none
    → disc_iconv to (record disc { iterator = none }) ≡ (sent, true)
    → IsComplete sent
    → IsRereadable sent
    → length (unlines (entry_lines s.conn sent)) < length buf
    → 1 < s.conn.buf_size
    → ArePlain s.conn.buf_size (entry_lines s.conn sent)
    → can_mkdir sent.category ≡ true
    → store.writable sent.category sent.discid ≡ true
    → disc_iconv from (reread_disc sent) ≡ (got, true)
    → (write to net store can_mkdir buf s disc
        ≡ value (
          succeeds s (record sent { iterator = none }),
          some (unlines (entry_lines s.conn sent)),
        ))
      × (read from net
            (with_entry store sent (unlines (entry_lines s.conn sent)))
            (set_errno s ok)
            (asked_for sent)
          ≡ value (succeeds s got))
unfolding write checked_write on_lacking read not_cached lacks_data
write-read to from net store can_mkdir buf s disc sent got mode email whole tracks conv complete h
      room b plain dir open_file back =
    let (name, e) = category_name-some sent.category complete.has_category in
    let (id, category) = disc_iconv-discid to _ sent conv in
    let has_id : (sent.discid == 0) ≡ false = ground (arith, whole, id) in
    let valid : same sent.category invalid ≡ false =
      ap (λ c. same c invalid) category ∙ ground (arith, whole) in
    (
      rw (email, whole, tracks, conv)
          (create_entry-cached net store can_mkdir buf s sent name mode complete h room e dir
            open_file),
      rw (valid, has_id, cache_read-entry from store (set_errno s ok) sent got mode h b plain back)
          refl,
    )
