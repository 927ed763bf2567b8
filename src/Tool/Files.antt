-- ===== src/Tool/Files.antt =====
-- swiyu-didtool/src/cmd/file.rs: where an updated log is written, in a file system whose writes succeed.
use swiyu_rs.Prelude.{
  ℕ, zero, suc, Bool, true, false, not, ◌&&◌, Option, none, some, ◌++◌, Result, ok, err, ◌>>=◌,
  guard, if◌then◌else◌,
}
use swiyu_rs.Prelude.Text.{Text, text}
use swiyu_rs.Prelude.Decimal.{decimal}
use swiyu_rs.KeyStore.Dir.{Dir, find, put, erase}

-- The errors, without that of a write that fails
pub data WriteLogError : Type 0 where
  log_exists : (path : Text) → WriteLogError
  pending_exhausted : (max : ℕ) → WriteLogError

abbrev pub max_pending_index : ℕ
max_pending_index = 9999

abbrev path_exists : Option Text → Bool
path_exists none = false
path_exists (some s) = true

-- What `write` and `rename` leave: the file of the name behind `.tmp` is gone.
unfoldable pub write_atomic : Dir Text → Text → Text → Dir Text
write_atomic files target content =
    let tmp = target ++ text ".tmp" in put (erase (put files tmp content) tmp) target content

-- The files, and the path that is written
unfoldable pub write_log :
    Dir Text
    → Text
    → (source_path out : Option Text) → (force : Bool)
    → Result WriteLogError (Dir Text × Option Text)
unfolding write_atomic
write_log files content source_path (some path) force = do
  _ ← guard (not (path_exists (find files path) && not force)) (log_exists path)
  ok (put files path content, some path)
write_log files content (some source) none force =
    ok (write_atomic files source content, some source)
write_log files content none none force = ok (files, none)

abbrev pub pending_name : ℕ → Text
pending_name n = text "did-pending-" ++ decimal n ++ text ".jsonl"

-- The rounds that are left, from `n` on
unfoldable pub pending_from : ℕ → ℕ → Dir Text → Text → Result WriteLogError (Dir Text × Text)
pending_from zero n files content = err (pending_exhausted max_pending_index)
pending_from (suc left) n files content =
    let rest = pending_from left (suc n) files content in
    if path_exists (find files (pending_name n))
    then rest
    else ok (put files (pending_name n) content, pending_name n)

unfoldable pub write_pending_log : Dir Text → Text → Result WriteLogError (Dir Text × Text)
unfolding pending_from
write_pending_log files content = pending_from max_pending_index 1 files content
