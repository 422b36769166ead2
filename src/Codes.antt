-- ===== src/Codes.antt =====
-- The codes of inserver.h: `INS_COM`, `INS_RET`, `DOS_COM`, and the requests to data object
-- servers (DOS) that incont.c writes.
use pado_fs.Base.{ℕ, List}

-- `INS_COM`
pub data InsCom : Type 0 where
  write truncate read_layout clone_to read_inode_meta read_inode_whole create_inode : InsCom
  create_open_inode delete_inode remove_dobj release_drain_lock read_dobj : InsCom
  backup_and_stop stageout_all get_inode_dobj unref : InsCom

-- `INS_RET`
pub data InsRet : Type 0 where
  server_busy queued success failed invalid_command invalid_ino invalid_dobject : InsRet
  internal_error invalid_range invalid_range_clone shared_base extent_exist base_cloned : InsRet
  dos_con_error dos_fail is_dlocked is_used is_deleted already_created ms_con_error : InsRet
  ino_full invalid_unref changed_mapping is_uptodate : InsRet

-- An `int` result: a code, or a code negated.
pub data Ret : Type 0 where
  code : InsRet → Ret
  minus : InsRet → Ret

-- A request to a DOS by its `DOS_COM`. The first number of `add_link`, `remove_link` and
-- `drain_do` is the host; the others go to the DOS of this host.
pub data Request : Type 0 where
  add_link : (host loid ino : ℕ) → Request
  remove_link : (host loid ino : ℕ) → Request
  move_shared_base : (loid ino : ℕ) → Request
  drain_shared : (loid : ℕ) → Request
  drain_do : (host loid : ℕ) → ℕ × List (ℕ × ℕ × ℕ) → Request
