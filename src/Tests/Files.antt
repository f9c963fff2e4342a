-- ===== src/Tests/Files.antt =====
-- A zip archive and a directory on a small host, and the keys of ports.
use microservice_log_parser.Prelude.{
  List, [], ◌∷◌, ◌≡◌, refl, sym, false, true, none, some, arith, if◌then◌else◌,
}
use microservice_log_parser.Prelude.Eq.{◌==◌}
use microservice_log_parser.Prelude.Text.{Text, codes, text_eq}
use microservice_log_parser.Prelude.Result.{ok, err}
use microservice_log_parser.Parser.Model.{SourceFile, bad_arguments}
use microservice_log_parser.Prelude.Int.{pos, negsuc}
use microservice_log_parser.Parser.Model.{Port}
use microservice_log_parser.Parser.Finalize.{itoa, port_key}
use microservice_log_parser.Parser.Finalize.Keys.{port_key-port_num}
use microservice_log_parser.Parser.Archive.Sources.{
  FileInfo, found, Host, ZipEntry, read_source, source_of,
}
use microservice_log_parser.Parser.Archive.Loops.{IsBounded}
use microservice_log_parser.Parser.Archive.Sizes.{IsSteady, read_source-IsBounded}

abbrev info : Text → FileInfo
info path = record { name = path; is_dir = path == codes "/data/logs"; size = 3 }

abbrev entry : ZipEntry
entry = record {
  name = codes "a.log";
  cancelled = false;
  is_dir = false;
  size = 1;
  opened = some (record { read = some (codes "x"); closes = true });
}

abbrev folder : ZipEntry
folder = record { name = codes "b/"; cancelled = false; is_dir = true; size = 0; opened = none }

abbrev large : ZipEntry
large = record {
  name = codes "c";
  cancelled = false;
  is_dir = false;
  size = 67108865;
  opened = none;
}

-- Every file has three bytes; the archive of this name is one of a file and a folder, any other has
-- a file that is too large.
abbrev host : Host
host = record {
  stat = λ path. found (info path);
  read = λ path. some (codes "abc");
  walk = λ root.
      record { path = root; failed = false; cancelled = false; is_dir = true; size = some 0 }
      ∷ record {
        path = codes "/data/logs/x/y.csv";
        failed = false;
        cancelled = false;
        is_dir = false;
        size = some 3;
      }
      ∷ [];
  zip = λ path.
      if path == codes "/data/a.ZIP" then some (entry ∷ folder ∷ []) else some (entry ∷ large ∷ []);
  tar = λ path gzipped. none;
  gzip = λ path. record { cancelled = false; opened = none };
}

reads_zip :
    source_of host none (codes "/data") (codes "a.ZIP")
    ≡ ok (record { name = codes "a.log"; content = codes "x" } ∷ [])
unfolding source_of
reads_zip = refl

refuses_large : source_of host none (codes "/data") (codes "b.zip") ≡ err bad_arguments
unfolding source_of
refuses_large = refl

-- A file of a directory is named by its path from there.
abbrev in_logs : List SourceFile
in_logs = record { name = codes "x/y.csv"; content = codes "abc" } ∷ []

reads_dir : read_source host (codes "/data/logs") ≡ ok in_logs
unfolding read_source
reads_dir = refl

host-IsSteady : IsSteady host
host-IsSteady path content file told reads =
    let same : codes "abc" ≡ content = cc reads in
    let is : info path ≡ file = cc told in rw (sym same, sym is) (omega arith)

read_source-IsBounded_example : IsBounded in_logs
read_source-IsBounded_example =
    read_source-IsBounded host host-IsSteady (codes "/data/logs") in_logs reads_dir

minus_120 : itoa (negsuc 119) ≡ codes "-120"
unfolding itoa
minus_120 = refl

abbrev port : Text → Port
port state = record {
  node_guid = codes "a";
  port_guid = codes "b";
  port_num = pos 12;
  lid = pos 0;
  local_port_num = pos 0;
  port_state = pos 0;
  port_phy_state = pos 0;
  link_width_active = pos 0;
  link_speed_active = pos 0;
  raw_json = state;
}

same_key : port_key (port (codes "x")) ≡ port_key (port (codes "y"))
unfolding port_key
same_key = refl

port_key-port_num_example : (port (codes "x")).port_num ≡ (port (codes "y")).port_num
port_key-port_num_example =
    port_key-port_num (port (codes "x")) (port (codes "y")) refl refl same_key
