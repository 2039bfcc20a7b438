-- ===== src/Config.antt =====
-- src/config.cc and src/include/config.h: the loader of the configuration file, a subset of
-- YAML, into a flat table of dotted paths.
pub mod Laws
use hxrpc.Common.{
  ℕ, zero, suc, List, [], ◌∷◌, ◌++◌, Option, none, some, Bytes, codes, if◌then◌else◌, ◌==◌, leb,
  length, take, drop, is_empty, lookup, insert, bytes_eq, Expected, value, unexpected,
}
use hxrpc.TextUtils.{trim_copy, strip_quotes, count_indent, find_char}

-- The stack of open sections, an indent and a name each; the head is the innermost.
abbrev pub Sections : Type 0
Sections = List (ℕ × Bytes)

abbrev pub ConfigMap : Type 0
ConfigMap = List (Bytes × Bytes)

-- `while (!sections.empty() && sections.back().first >= indent) sections.pop_back();`
unfoldable pub pop_sections : ℕ → Sections → Sections
pop_sections indent [] = []
pop_sections indent ((i, name) ∷ rest) =
    if leb indent i then pop_sections indent rest else (i, name) ∷ rest

-- `if (!path.empty()) path.push_back('.');`
abbrev dotted : Bytes → Bytes
dotted [] = []
dotted (c ∷ cs) = (c ∷ cs) ++ b'.' ∷ []

-- The loop that joins the names of the sections, the outermost first.
unfoldable pub section_path : Sections → Bytes
section_path [] = []
section_path ((i, name) ∷ rest) = dotted (section_path rest) ++ name

-- The line up to a '#'.
unfoldable pub erase_comment : Bytes → Bytes
erase_comment line = elim (find_char b'#' line) [ none ↦ line | some n ↦ take n line ]

-- A key and a value under the sections that enclose the line.
store_entry : ℕ → Bytes → Bytes → Sections → ConfigMap → Sections × ConfigMap
store_entry indent key val sections config =
    if is_empty val
    then ((indent, key) ∷ sections, config)
    else (sections, insert (dotted (section_path sections) ++ key) val config)

-- ParseYamlLine
unfoldable pub parse_yaml_line : Bytes → Sections → ConfigMap → Sections × ConfigMap
unfolding erase_comment pop_sections section_path store_entry
parse_yaml_line raw sections config =
    let line = erase_comment raw in
    let trimmed = trim_copy line in
    if is_empty trimmed then (sections, config) else (elim (find_char b':' trimmed) [
      | none ↦ (sections, config)
      | some n ↦
          let indent = count_indent line in
          let key = strip_quotes (trim_copy (take n trimmed)) in
          let val = strip_quotes (trim_copy (drop (suc n) trimmed)) in
          store_entry indent key val (pop_sections indent sections) config
    ])

-- One std::fgets into the buffer of 1024 bytes: at most 1023 bytes, up to a newline, which is kept.
-- The line, and the bytes behind it.
unfoldable pub fgets : ℕ → Bytes → Bytes × Bytes
fgets zero bytes = ([], bytes)
fgets (suc n) [] = ([], [])
fgets (suc n) (c ∷ cs) =
    let (line, rest) = fgets n cs in if c == b'\n' then (c ∷ [], cs) else (c ∷ line, rest)

-- `std::string line(buffer)` ends at a NUL.
unfoldable pub c_str : Bytes → Bytes
c_str [] = []
c_str (c ∷ cs) = if c == 0 then [] else c ∷ c_str cs

-- The body of the loop over the lines.
unfoldable pub load_line : Bytes → Sections × ConfigMap → Sections × ConfigMap
unfolding c_str
load_line buffer (sections, config) =
    let line = c_str buffer in
    elim (trim_copy line) [
      | [] ↦ (sections, config)
      | c ∷ cs ↦ if c == b'#' then (sections, config) else parse_yaml_line line sections config
    ]

-- The loop, with a byte of fuel for every byte of the file.
unfoldable pub load_lines : ℕ → Bytes → Sections × ConfigMap → Sections × ConfigMap
load_lines zero file s = s
load_lines (suc fuel) [] s = s
load_lines (suc fuel) (c ∷ cs) s =
    let (line, rest) = fgets 1023 (c ∷ cs) in load_lines fuel rest (load_line line s)

-- hxrpcconfig::LoadConfigFile, of a file's bytes, or `none` if it cannot be opened.
unfoldable pub load_config_file : Option Bytes → Expected ConfigMap Bytes
unfolding load_lines load_line fgets
load_config_file none = unexpected (codes "failed to open config file")
load_config_file (some file) = value (load_lines (length file) file ([], [])).1

-- hxrpcconfig::Load
unfoldable pub load : Bytes → ConfigMap → Bytes
load key config = elim (lookup key config) [ none ↦ [] | some v ↦ v ]
