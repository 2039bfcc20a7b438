-- ===== src/TextUtils.antt =====
-- src/string_utils.cc and src/include/string_utils.h, and the two searches of std::string that
-- they and the parsers call.
pub mod Laws
use hxrpc.Common.{
  ℕ, zero, suc, ◌+◌, ◌-◌, Bool, ◌&&◌, ◌||◌, List, [], ◌∷◌, Option, none, some, Bytes, if◌then◌else◌,
  ◌==◌, leb, length, take, drop,
}

-- One of " \t\r\n".
unfoldable pub is_blank : ℕ → Bool
is_blank c = c == b' ' || c == b'\t' || c == b'\r' || c == b'\n'

-- `find_first_not_of(" \t\r\n")`; `none` is npos.
unfoldable pub find_first_not_blank : Bytes → Option ℕ
unfolding is_blank
find_first_not_blank [] = none
find_first_not_blank (c ∷ cs) =
    if is_blank c
    then (elim (find_first_not_blank cs) [ none ↦ none | some i ↦ some (suc i) ])
    else some 0

-- `find_last_not_of(" \t\r\n")`
unfoldable pub find_last_not_blank : Bytes → Option ℕ
unfolding is_blank
find_last_not_blank [] = none
find_last_not_blank (c ∷ cs) = elim (find_last_not_blank cs) [
  | none ↦ if is_blank c then none else some 0
  | some i ↦ some (suc i)
]

-- `value.substr(begin, end - begin + 1)`, where both searches found something.
between : Bytes → Option ℕ → Option ℕ → Bytes
between v none e = []
between v (some b) none = []
between v (some b) (some e) = take (e - b + 1) (drop b v)

-- TrimCopy
unfoldable pub trim_copy : Bytes → Bytes
unfolding between find_first_not_blank find_last_not_blank
trim_copy v = between v (find_first_not_blank v) (find_last_not_blank v)

-- `value.back()`, of a text with a front.
last_of : ℕ → Bytes → ℕ
last_of c [] = c
last_of c (d ∷ ds) = last_of d ds

-- StripQuotes
unfoldable pub strip_quotes : Bytes → Bytes
unfolding last_of
strip_quotes [] = []
strip_quotes (c ∷ cs) =
    if leb 2 (length (c ∷ cs))
      && ((c == b'"' && last_of c cs == b'"') || (c == 39 && last_of c cs == 39))
    then take (length (c ∷ cs) - 2) cs
    else c ∷ cs

-- CountIndent
unfoldable pub count_indent : Bytes → ℕ
count_indent [] = 0
count_indent (c ∷ cs) = if c == b' ' || c == b'\t' then suc (count_indent cs) else 0

-- `find(c)`
unfoldable pub find_char : ℕ → Bytes → Option ℕ
find_char d [] = none
find_char d (c ∷ cs) =
    if c == d then some 0 else (elim (find_char d cs) [ none ↦ none | some i ↦ some (suc i) ])

-- The loop of Split: `rest` is the text from the cursor on.
split_loop : ℕ → ℕ → Bytes → List Bytes
split_loop zero d rest = []
split_loop (suc fuel) d rest = elim (find_char d rest) [
  | none ↦ rest ∷ []
  | some n ↦ take n rest ∷ split_loop fuel d (drop (suc n) rest)
]

-- Split. Every round but the last takes a delimiter off, so one round more than there are bytes is
-- enough.
unfoldable pub split : Bytes → ℕ → List Bytes
unfolding split_loop find_char
split raw d = split_loop (suc (length raw)) d raw
