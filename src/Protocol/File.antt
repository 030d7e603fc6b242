-- ===== src/Protocol/File.antt =====
-- The files of a session: `*os.File` and the calls of it that the program makes, with what the
-- device answers as fields of the file.
use file_transfer_using_libp.Base.{
  ℕ, ◌-◌, Bool, true, false, Option, none, some, List, [], ◌++◌, length, take, leb, if◌then◌else◌,
  failed, Result, ok, err, Act,
}

pub record File : Type 0 where
  pub name : List ℕ  -- the name that `Stat` gives
  pub path : List ℕ
  pub content : List ℕ
  pub closed : Bool
  pub stats : Bool  -- whether `Stat` succeeds
  pub readable : Bool  -- whether `ReadAt` succeeds
  pub room : ℕ  -- how many bytes `Write` can still store
  pub flushes : Bool  -- whether `Close` succeeds

-- The file system: what `os.Create` and `os.OpenFile` give for a path.
pub record Disk : Type 0 where
  pub create : List ℕ → Option File
  pub open_file : List ℕ → Option File

-- A file that `os.Create` has just made or cut to nothing.
unfoldable pub created : List ℕ → File → File
created path f = record f { path = path; content = []; closed = false }

-- `Write`: what finds no room is lost.
unfoldable pub write_file : List ℕ → Act File (Unit {0})
write_file buf f =
    if f.closed
    then (err (failed "file already closed"), f)
    else (if leb (length buf) f.room
        then (ok tt, record f { content = f.content ++ buf; room = f.room - length buf })
        else (
          err (failed "no space left on device"),
          record f { content = f.content ++ take f.room buf; room = 0 },
        ))

-- `Close`.
unfoldable pub close_file : Act File (Unit {0})
close_file f =
    if f.closed
    then (err (failed "file already closed"), f)
    else (if f.flushes
        then (ok tt, record f { closed = true })
        else (err (failed "close"), record f { closed = true }))

abbrev pub keep_file : {A : Type 0} → Result A × File → Result A × Option File
keep_file (r, f) = (r, some f)

-- A call of a method on a file that may be nil, which is an error and no panic.
abbrev pub on_some_file : {A : Type 0} → Act File A → Option File → Result A × Option File
on_some_file m none = (err (failed "invalid argument"), none)
on_some_file m (some f) = keep_file (m f)
