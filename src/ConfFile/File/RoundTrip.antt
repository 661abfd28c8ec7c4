-- ===== src/ConfFile/File/RoundTrip.antt =====
-- conf_file.c: a file that was written is read back.
use daemonlib.Base.{ℕ, ◌≤◌, ◌≡◌, ◌≢◌, false, none, List, [], ◌∷◌, length}
use daemonlib.ConfFile.{ConfFileLine, raw, option, ConfFile, parse_line, write_line}
use daemonlib.ConfFile.Text.Escape.{IsString}
use daemonlib.ConfFile.File.{Reader}

-- The text of a line: no NUL, no newline and no carriage return.
abbrev pub IsLineText : List ℕ → Type 0
IsLineText [] = Unit {0}
IsLineText (c ∷ cs) = (c ≢ 0) × (c ≢ 10) × (c ≢ 13) × IsLineText cs

abbrev reader_of : ConfFile → List ℕ → ℕ → ℕ → Reader
reader_of ls buffer allocated n = record {
  lines = ls;
  buffer = buffer;
  allocated = allocated;
  skip = false;
  number = n;
  warnings = [];
}

-- A line fits into the largest buffer.
abbrev pub max_length : ℕ
max_length = 32766

-- A line that can be written: its text is that of one line, fits the buffer and is parsed to it.
abbrev pub IsLine : ConfFileLine → Type 0
IsLine l =
    IsLineText (write_line l)
    × (length (write_line l) ≤ max_length)
    × (parse_line (write_line l) ≡ (l, none))

abbrev pub AreLines : ConfFile → Type 0
AreLines [] = Unit {0}
AreLines (l ∷ ls) = IsLine l × AreLines ls

-- A line as it may stand in a file: an option with a name, both of bytes other than NUL, or one line
-- without an option. Its text fits the buffer.
abbrev pub IsWritable : ConfFileLine → Type 0
IsWritable (raw buffer) =
    IsLineText buffer × (length buffer ≤ max_length) × (parse_line buffer ≡ (raw buffer, none))
IsWritable (option n v) =
    (n ≢ []) × IsString n × IsString v × (length (write_line (option n v)) ≤ max_length)

abbrev pub AreWritable : ConfFile → Type 0
AreWritable [] = Unit {0}
AreWritable (l ∷ ls) = IsWritable l × AreWritable ls
