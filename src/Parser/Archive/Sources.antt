-- ===== src/Parser/Archive/Sources.antt =====
-- `readSource` of log-services/parser/parser/archive.go and the readers of a directory, a file, and zip, tar
-- and gzip archives. What the system and the archive packages answer is a parameter, the record `Host`.
use microservice_log_parser.Prelude.{
  ℕ, List, [], ◌∷◌, Bool, true, false, ◌||◌, Option, none, some, ltb, length, take, ◌-◌,
  if◌then◌else◌,
}
use microservice_log_parser.Prelude.Eq.{◌==◌, nat_eq}
use microservice_log_parser.Prelude.Int.{pos}
use microservice_log_parser.Prelude.Text.{Text, codes, text_beq, text_eq, to_lower, has_suffix}
use microservice_log_parser.Prelude.Result.{Result, ok, err, ◌>>=◌}
use microservice_log_parser.Parser.Model.{Error, bad_arguments, not_found, other, SourceFile}
use microservice_log_parser.Parser.Paths.{split_path, relative_path, resolve_path}
use microservice_log_parser.Parser.Archive.{
  Entry, Reading, no_files, nothing_read, max_file_size, add_file, read_up_to, keep_file,
  read_entries,
}

-- What `os.Stat` tells of a path.
pub record FileInfo : Type 0 where
  pub name : Text
  pub is_dir : Bool
  pub size : ℕ

pub data Stat : Type 0 where
  absent : Stat
  unknown : Stat
  found : FileInfo → Stat

-- One call that `filepath.WalkDir` makes of its function: whether it passes an error, whether the
-- context is done by then, and what the entry tells; its size is none where `Info` fails.
pub record Visit : Type 0 where
  pub path : Text
  pub failed : Bool
  pub cancelled : Bool
  pub is_dir : Bool
  pub size : Option ℕ

-- An opened file of a zip archive: what reading it yields, and whether it closes without an error.
pub record ZipContent : Type 0 where
  pub read : Option Text
  pub closes : Bool

pub record ZipEntry : Type 0 where
  pub name : Text
  pub cancelled : Bool
  pub is_dir : Bool
  pub size : ℕ
  pub opened : Option ZipContent

-- A tar archive: its entries, whether the context is done after them, and whether it ends there or
-- the next header cannot be read.
pub record Tar : Type 0 where
  pub entries : List Entry
  pub cancelled : Bool
  pub ends : Bool

-- A gzip file: none where it is not opened, else what unpacking it yields.
pub record Gzip : Type 0 where
  pub cancelled : Bool
  pub opened : Option (Option Text)

pub record Host : Type 0 where
  pub stat : Text → Stat
  pub read : Text → Option Text
  pub walk : Text → List Visit
  pub zip : Text → Option (List ZipEntry)
  pub tar : Text → Bool → Option Tar
  pub gzip : Text → Gzip

last_name : List Text → Option Text
unfolding text_beq
last_name [] = none
last_name (s ∷ ss) = elim (last_name ss) [
  | some t ↦ some t
  | none ↦ if s == [] then none else some s
]

-- `filepath.Base`
unfoldable pub base_name : Text → Text
unfolding last_name split_path text_beq
base_name path = elim (last_name (split_path path)) [
  | some name ↦ name
  | none ↦ if path == [] then codes "." else codes "/"
]

-- `strings.TrimSuffix`
unfoldable pub trim_suffix : Text → Text → Text
unfolding has_suffix
trim_suffix text suffix =
    if has_suffix text suffix then take (length text - length suffix) text else text

-- The loops over what a directory or an archive has.
unfoldable pub steps :
    {E : Type 0} → (E → Reading → Result Error Reading) → List E → Reading → Result Error Reading
steps step [] r = ok r
steps step (e ∷ es) r = do r' ← step e r; steps step es r'

unfoldable pub read_zip_content : Option ZipContent → Result Error Text
unfolding read_up_to
read_zip_content none = err other
read_zip_content (some c) = elim c.read [
  | none ↦ err other
  | some content ↦ if c.closes then read_up_to max_file_size (some content) else err other
]

unfoldable pub read_zip_entry : ZipEntry → Reading → Result Error Reading
unfolding keep_file read_zip_content
read_zip_entry e r =
    if e.cancelled
    then err other
    else if e.is_dir
    then ok r
    else if ltb max_file_size e.size
    then err bad_arguments
    else keep_file e.name (pos e.size) (read_zip_content e.opened) r

-- What is read, once the loop is done.
abbrev pub sources_of : Result Error Reading → Result Error (List SourceFile)
sources_of read = do r ← read; ok r.sources

unfoldable pub read_tar_end : Tar → Reading → Result Error Reading
read_tar_end t r = if t.cancelled then err other else if t.ends then ok r else err other

module _ (host : Host) where
  unfoldable pub read_small_file : Text → Result Error Text
  read_small_file path = elim (host.stat path) [
    | absent ↦ err other
    | unknown ↦ err other
    | found info ↦
        if ltb max_file_size info.size
        then err bad_arguments
        else elim (host.read path) [ none ↦ err other | some content ↦ ok content ]
  ]

  -- The name is relative to the root, or the last part of the path where `filepath.Rel` fails.
  unfoldable pub name_in : Text → Text → Text
  unfolding relative_path base_name
  name_in root path = elim (relative_path root path) [ some rel ↦ rel | none ↦ base_name path ]

  unfoldable pub visit : Text → Visit → Reading → Result Error Reading
  unfolding keep_file read_small_file name_in
  visit root v r =
      if v.failed || v.cancelled then err other else if v.is_dir then ok r else elim v.size [
        | none ↦ err other
        | some size ↦ keep_file (name_in root v.path) (pos size) (read_small_file v.path) r
      ]

  unfoldable pub read_dir : Text → Result Error (List SourceFile)
  unfolding steps visit
  read_dir root = sources_of (steps (visit root) (host.walk root) nothing_read)

  unfoldable pub read_zip : Text → Result Error (List SourceFile)
  unfolding steps read_zip_entry
  read_zip path = elim (host.zip path) [
    | none ↦ err other
    | some entries ↦ sources_of (steps read_zip_entry entries nothing_read)
  ]

  unfoldable pub read_tar : Text → Bool → Result Error (List SourceFile)
  unfolding read_entries read_tar_end
  read_tar path gzipped = elim (host.tar path gzipped) [
    | none ↦ err other
    | some t ↦ sources_of (do r ← read_entries t.entries nothing_read; read_tar_end t r)
  ]

  unfoldable pub unpacked : Text → Option Text → Result Error (List SourceFile)
  unfolding read_up_to add_file base_name trim_suffix
  unpacked path content = do
    read ← read_up_to max_file_size content
    limits ← add_file (pos (length read)) no_files
    ok (record { name = trim_suffix (base_name path) (codes ".gz"); content = read } ∷ [])

  unfoldable pub read_gzip : Text → Result Error (List SourceFile)
  unfolding unpacked
  read_gzip path =
      if (host.gzip path).cancelled
      then err other
      else elim (host.gzip path).opened [ none ↦ err other | some content ↦ unpacked path content ]

  unfoldable pub read_one : Text → FileInfo → Result Error (List SourceFile)
  unfolding read_small_file
  read_one path info = do
    content ← read_small_file path
    ok (record { name = info.name; content = content } ∷ [])

  -- By the suffix of the name.
  unfoldable pub read_named : Text → FileInfo → Result Error (List SourceFile)
  unfolding read_zip read_tar read_gzip read_one has_suffix to_lower
  read_named path info =
      let name = to_lower info.name in
      if has_suffix name (codes ".zip")
      then read_zip path
      else if has_suffix name (codes ".tar")
      then read_tar path false
      else if has_suffix name (codes ".tar.gz") || has_suffix name (codes ".tgz")
      then read_tar path true
      else if has_suffix name (codes ".gz")
      then read_gzip path
      else read_one path info

  unfoldable pub read_source : Text → Result Error (List SourceFile)
  unfolding read_dir read_named
  read_source path = elim (host.stat path) [
    | absent ↦ err not_found
    | unknown ↦ err other
    | found info ↦ if info.is_dir then read_dir path else read_named path info
  ]

  -- What `Parse` has before it parses: the files of the path that the request resolves to.
  unfoldable pub source_of : Option Text → Text → Text → Result Error (List SourceFile)
  unfolding resolve_path read_source
  source_of working_dir data_dir requested = do
    path ← resolve_path working_dir data_dir requested
    read_source path
