-- ===== src/Submission/Cached.antt =====
-- An entry that was written into the cache is read from there: cddb_write_data, cddb_read_line and
-- cddb_parse_record of lib/cddb_cmd.c together.
use libcddb.Conn.{Conn}
use libcddb.Disc.{Disc}
