-- ===== src/Parser/Archive.antt =====
-- The limits on what is read: `archiveLimits` of log-services/parser/parser/archive.go, and the loop of
-- `readTar` over the entries that an archive has.
pub mod Sources
pub mod Loops
pub mod Sizes
pub mod Bounds
pub mod Entries
use microservice_log_parser.Prelude.{
  ℕ, suc, ◌+◌, ◌≤◌, List, [], ◌∷◌, ◌++◌, Bool, true, false, Option, none, some, ltb, length, take,
  if◌then◌else◌,
}
use microservice_log_parser.Prelude.Int.{ℤ, pos, negsuc}
use microservice_log_parser.Prelude.Text.{Text}
use microservice_log_parser.Prelude.Result.{Result, ok, err, ◌>>=◌}
use microservice_log_parser.Parser.Model.{Error, bad_arguments, other, SourceFile}

abbrev pub max_file_size : ℕ
max_file_size = 67108864

abbrev pub max_files : ℕ
max_files = 1000

abbrev pub max_total_bytes : ℕ
max_total_bytes = 134217728

pub record ArchiveLimits : Type 0 where
  pub files : ℕ
  pub total : ℕ

abbrev pub no_files : ArchiveLimits
no_files = record { files = 0; total = 0 }

-- `if size < 0 { size = 0 }`
abbrev pub size_of : ℤ → ℕ
size_of (pos n) = n
size_of (negsuc n) = 0

unfoldable pub add_file : ℤ → ArchiveLimits → Result Error ArchiveLimits
add_file size l =
    if ltb max_file_size (size_of size)
    then err bad_arguments
    else if ltb max_files (l.files + 1)
    then err bad_arguments
    else if ltb max_total_bytes (l.total + size_of size)
    then err bad_arguments
    else ok (record { files = l.files + 1; total = l.total + size_of size })

-- What the loops see of an entry: whether the context is done by then, whether it is a directory, the
-- size that it declares, and what reading it yields, none for an error.
pub record Entry : Type 0 where
  pub name : Text
  pub cancelled : Bool
  pub is_dir : Bool
  pub size : ℤ
  pub content : Option Text

-- `io.ReadAll(io.LimitReader(r, limit+1))`, and the check of its length.
unfoldable pub read_up_to : ℕ → Option Text → Result Error Text
read_up_to limit none = err other
read_up_to limit (some content) =
    let read = take (suc limit) content in
    if ltb limit (length read) then err bad_arguments else ok read

-- What the loops keep: `files` and `limits`.
pub record Reading : Type 0 where
  pub sources : List SourceFile
  pub limits : ArchiveLimits

abbrev pub nothing_read : Reading
nothing_read = record { sources = []; limits = no_files }

-- A file that counts, with what reading it yields.
unfoldable pub keep_file : Text → ℤ → Result Error Text → Reading → Result Error Reading
unfolding add_file
keep_file name size content r = do
  limits ← add_file size r.limits
  read ← content
  ok (record {
    sources = r.sources ++ record { name = name; content = read } ∷ [];
    limits = limits;
  })

-- An entry that is a file, as `readTar` takes it.
unfoldable pub read_file : Entry → Reading → Result Error Reading
unfolding keep_file read_up_to
read_file e = keep_file e.name e.size (read_up_to max_file_size e.content)

unfoldable pub read_entry : Entry → Reading → Result Error Reading
unfolding read_file
read_entry e r = if e.cancelled then err other else if e.is_dir then ok r else read_file e r

-- The loop of `readTar`.
unfoldable pub read_entries : List Entry → Reading → Result Error Reading
unfolding read_entry
read_entries [] r = ok r
read_entries (e ∷ entries) r = do r' ← read_entry e r; read_entries entries r'
