-- ===== src/Config/Laws.antt =====
-- src/config.cc: the section stack, and the loop over the lines.
use hxrpc.Common.{
  ℕ, zero, suc, ◌<◌, ◌≤◌, ◌≡◌, refl, [], ◌∷◌, Bytes, leb, length, is_empty, bytes_eq, arith,
  Option-cases, Bool-cases, inl, inr,
}
use hxrpc.Config.{
  Sections, ConfigMap, pop_sections, erase_comment, store_entry, parse_yaml_line, fgets, load_line,
  load_lines,
}
use hxrpc.TextUtils.{trim_copy, count_indent, find_char}

-- The sections that are open are indented ever deeper, the innermost below `indent`.
abbrev pub IsNestedBelow : ℕ → Sections → Type 0
IsNestedBelow indent [] = Unit {0}
IsNestedBelow indent ((i, name) ∷ rest) = (i < indent) × IsNestedBelow i rest

-- The stack is nested, whatever comes next.
abbrev pub IsNested : Sections → Type 0
IsNested [] = Unit {0}
IsNested ((i, name) ∷ rest) = IsNestedBelow i rest

IsNested-tail : (i : ℕ) (s : Sections) → IsNestedBelow i s → IsNested s
IsNested-tail i [] h = tt
IsNested-tail i ((j, name) ∷ rest) h = h.1

-- What pop_sections leaves encloses the line.
pop_sections-IsNestedBelow :
    (indent : ℕ) (s : Sections) → IsNested s → IsNestedBelow indent (pop_sections indent s)
unfolding pop_sections
pop_sections-IsNestedBelow indent [] h = tt
pop_sections-IsNestedBelow indent ((i, name) ∷ rest) h = elim (Bool-cases (leb indent i)) [
  | inl deep ↦
      rw (deep, pop_sections) (pop_sections-IsNestedBelow indent rest (IsNested-tail i rest h))
  | inr shallow ↦ rw (shallow, pop_sections) (ground arith, h)
]

store_entry-IsNested :
    (indent : ℕ) (key val : Bytes) (s : Sections) (config : ConfigMap)
    → IsNestedBelow indent s
    → IsNested (store_entry indent key val s config).0
unfolding store_entry
store_entry-IsNested indent key [] s config h = h
store_entry-IsNested indent key (c ∷ val) s config h = IsNested-tail indent s h

-- A line of the configuration keeps the open sections nested by their indents, if they are.
pub parse_yaml_line-IsNested :
    (line : Bytes) (s : Sections) (config : ConfigMap)
    → IsNested s
    → IsNested (parse_yaml_line line s config).0
unfolding parse_yaml_line
parse_yaml_line-IsNested raw s config h =
    let line = erase_comment raw in
    let trimmed = trim_copy line in
    elim (Bool-cases (is_empty trimmed)) [
      | inl blank ↦ rw (parse_yaml_line, blank) h
      | inr text ↦ elim (Option-cases (find_char b':' trimmed)) [
        | inl e ↦ rw (parse_yaml_line, text, e) h
        | inr (n, e) ↦
            rw (parse_yaml_line, text, e)
              (store_entry-IsNested (count_indent line) _ _ (pop_sections (count_indent line) s)
                config (pop_sections-IsNestedBelow (count_indent line) s h))
      ]
    ]

fgets_rest : (n : ℕ) (b : Bytes) → length (fgets n b).1 ≤ length b
unfolding fgets
fgets_rest zero b = omega arith
fgets_rest (suc n) [] = omega arith
fgets_rest (suc n) (c ∷ b) = ground (arith, fgets_rest n b)

fgets_progress : (n : ℕ) (c : ℕ) (b : Bytes) → length (fgets (suc n) (c ∷ b)).1 ≤ length b
unfolding fgets
fgets_progress n c b = ground (arith, fgets_rest n b)

load_lines_same :
    (m n : ℕ) (file : Bytes) (s : Sections × ConfigMap)
    → length file ≤ m
    → length file ≤ n
    → load_lines m file s ≡ load_lines n file s
unfolding load_lines
load_lines_same zero zero [] s h k = refl
load_lines_same zero (suc n) [] s h k = refl
load_lines_same (suc m) zero [] s h k = refl
load_lines_same (suc m) (suc n) [] s h k = refl
load_lines_same zero n (c ∷ file) s h k = absurd (omega arith)
load_lines_same (suc m) zero (c ∷ file) s h k = absurd (omega arith)
load_lines_same (suc m) (suc n) (c ∷ file) s h k =
    let shorter = fgets_progress 1022 c file in
    load_lines_same m n (fgets 1023 (c ∷ file)).1 (load_line (fgets 1023 (c ∷ file)).0 s)
      (omega arith) (omega arith)

-- The loop over the lines of a file has read all of it when its fuel, a round for every byte, is
-- used up: more fuel changes nothing.
pub load_lines_enough :
    (fuel : ℕ) (file : Bytes) (s : Sections × ConfigMap)
    → length file ≤ fuel
    → load_lines fuel file s ≡ load_lines (length file) file s
load_lines_enough fuel file s h = load_lines_same fuel (length file) file s h (omega arith)
