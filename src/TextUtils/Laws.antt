-- ===== src/TextUtils/Laws.antt =====
-- src/string_utils.cc: what trimming and splitting do to a text.
use hxrpc.Common.{
  ℕ, zero, suc, ◌+◌, ◌-◌, ◌<◌, ◌≡◌, ◌≢◌, refl, sym, ap, ◌∙◌, true, false, List, [], ◌∷◌, ◌++◌, none,
  some, Bytes, length, take, drop, arith, append_assoc, length-append, take-append, drop-append,
  Option-cases, inl, inr, ==_iff,
}
use hxrpc.TextUtils.{
  is_blank, find_first_not_blank, find_last_not_blank, between, trim_copy, find_char, split_loop,
  split,
}

-- Every byte is a blank.
abbrev pub Blanks : Bytes → Type 0
Blanks [] = Unit {0}
Blanks (c ∷ cs) = (is_blank c ≡ true) × Blanks cs

-- A text that begins and ends with a byte that is no blank.
pub record IsTrimmed (m : Bytes) : Type 0 where
  pub first : ℕ
  pub others : Bytes
  pub front : Bytes
  pub last : ℕ
  pub begins : m ≡ first ∷ others
  pub first_ink : is_blank first ≡ false
  pub ends : m ≡ front ++ (last ∷ [])
  pub last_ink : is_blank last ≡ false

first_behind :
    (l : Bytes) (c : ℕ) (r : Bytes)
    → Blanks l
    → is_blank c ≡ false
    → find_first_not_blank (l ++ (c ∷ r)) ≡ some (length l)
unfolding find_first_not_blank
first_behind [] c r h ink = rw ink
first_behind (x ∷ l) c r (b, h) ink = rw (b, first_behind l c r h ink)

no_last_ink : (r : Bytes) → Blanks r → find_last_not_blank r ≡ none
unfolding find_last_not_blank
no_last_ink [] h = refl
no_last_ink (x ∷ r) (b, h) = rw (no_last_ink r h, b)

last_behind :
    (a : Bytes) (z : ℕ) (r : Bytes)
    → Blanks r
    → is_blank z ≡ false
    → find_last_not_blank (a ++ (z ∷ r)) ≡ some (length a)
unfolding find_last_not_blank
last_behind [] z r h ink = rw (no_last_ink r h, ink)
last_behind (x ∷ a) z r h ink = rw (last_behind a z r h ink)

-- TrimCopy takes the blanks around a text off, and nothing of the text.
pub trim_copy-append :
    (l m r : Bytes) → Blanks l → Blanks r → IsTrimmed m → trim_copy (l ++ (m ++ r)) ≡ m
unfolding trim_copy between
trim_copy-append l m r hl hr t =
    let starts : l ++ (m ++ r) ≡ l ++ (t.first ∷ (t.others ++ r)) =
      ap (λ x. l ++ (x ++ r)) t.begins in
    let stops : l ++ (m ++ r) ≡ (l ++ t.front) ++ (t.last ∷ r) =
      ap (λ x. l ++ (x ++ r)) t.ends
      ∙ ap (◌++◌ l) (append_assoc t.front (t.last ∷ []) r)
      ∙ sym (append_assoc l t.front (t.last ∷ r)) in
    let b : find_first_not_blank (l ++ (m ++ r)) ≡ some (length l) =
      ap find_first_not_blank starts ∙ first_behind l t.first (t.others ++ r) hl t.first_ink in
    let e : find_last_not_blank (l ++ (m ++ r)) ≡ some (length (l ++ t.front)) =
      ap find_last_not_blank stops ∙ last_behind (l ++ t.front) t.last r hr t.last_ink in
    let size : length (l ++ t.front) - length l + 1 ≡ length m =
      omega
        (arith, length-append l t.front, ap length t.ends, length-append t.front (t.last ∷ [])) in
    rw (b, e, size, drop-append (length l) l (m ++ r) refl, take-append (length m) m r refl)

-- The parts of a text with the delimiter between them.
abbrev pub join_with : ℕ → List Bytes → Bytes
join_with d [] = []
join_with d (p ∷ []) = p
join_with d (p ∷ (q ∷ ps)) = p ++ (d ∷ join_with d (q ∷ ps))

find_char-parts :
    (d : ℕ) (b : Bytes) (n : ℕ)
    → find_char d b ≡ some n
    → (take n b ++ (d ∷ drop (suc n) b) ≡ b) × (length (drop (suc n) b) < length b)
unfolding find_char
find_char-parts d [] n e = absurd (cc)
find_char-parts d (c ∷ b) zero e = ground (arith, ==_iff c d)
find_char-parts d (c ∷ b) (suc n) e = ground (arith, find_char-parts d b n)

-- No part holds the delimiter.
abbrev pub AllLack : ℕ → List Bytes → Type 0
AllLack d [] = Unit {0}
AllLack d (p ∷ ps) = (find_char d p ≡ none) × AllLack d ps

find_char-take :
    (d : ℕ) (b : Bytes) (n : ℕ) → find_char d b ≡ some n → find_char d (take n b) ≡ none
unfolding find_char
find_char-take d [] n e = absurd (cc)
find_char-take d (c ∷ b) zero e = refl
find_char-take d (c ∷ b) (suc n) e = ground (arith, find_char-take d b n)

join_with-cons :
    (d : ℕ) (p : Bytes) (ps : List Bytes)
    → ps ≢ []
    → join_with d (p ∷ ps) ≡ p ++ (d ∷ join_with d ps)
join_with-cons d p [] h = absurd (h refl)
join_with-cons d p (q ∷ ps) h = refl

-- What splitting promises of the parts of a text.
record Parts (d : ℕ) (b : Bytes) (ps : List Bytes) : Type 0 where
  some_part : ps ≢ []
  joins : join_with d ps ≡ b
  lack : AllLack d ps

split_loop-Parts : (fuel d : ℕ) (b : Bytes) → length b < fuel → Parts d b (split_loop fuel d b)
unfolding split_loop
split_loop-Parts zero d b h = absurd (omega arith)
split_loop-Parts (suc fuel) d b h = elim (Option-cases (find_char d b)) [
  | inl e ↦ rw (e, split_loop) (record { some_part = λ x. cc; joins = refl; lack = (e, tt) })
  | inr (n, e) ↦
      let (whole, shorter) = find_char-parts d b n e in
      let later = split_loop-Parts fuel d (drop (suc n) b) (omega arith) in
      rw (e, split_loop)
        (record {
          some_part = λ x. cc;
          joins =
              join_with-cons d (take n b) (split_loop fuel d (drop (suc n) b)) later.some_part
              ∙ ap (λ x. take n b ++ (d ∷ x)) later.joins
              ∙ whole;
          lack = (find_char-take d b n e, later.lack);
        })
]

-- Split loses nothing and leaves no delimiter in a part: the parts with the delimiter between them
-- are the text.
pub join_with-split : (b : Bytes) (d : ℕ) → (join_with d (split b d) ≡ b) × AllLack d (split b d)
unfolding split
join_with-split b d =
    let p = split_loop-Parts (suc (length b)) d b (omega arith) in (p.joins, p.lack)
