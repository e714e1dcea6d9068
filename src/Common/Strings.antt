-- ===== src/Common/Strings.antt =====
-- The functions of Go's `strings` and `strconv` that the program uses. A text is the list of its code
-- points.
use Prim.Native.Nat.{ℕ, zero, suc, ◌+◌, ◌-◌, ◌*◌}
use mathlib.Core.Bool.{Bool, ◌&&◌, ◌||◌}
use mathlib.Core.List.{List, [], ◌∷◌, ◌++◌}
use mathlib.Core.Option.{Option, none, some}
use simple_block_chain.Common.Tests.{leb, ◌==◌, if◌then◌else◌}
use simple_block_chain.Common.Int.{ℤ, pos, negsuc, max_int}
use simple_block_chain.Common.Text.{Bytes}

abbrev pub push : ℕ → List Bytes → List Bytes
push c [] = (c ∷ []) ∷ []
push c (p ∷ ps) = (c ∷ p) ∷ ps

-- `strings.Split` at a separator of one character.
unfoldable pub split : ℕ → Bytes → List Bytes
split sep [] = [] ∷ []
split sep (c ∷ s) = let rest = split sep s in if c == sep then [] ∷ rest else push c rest

-- `strings.Join`
unfoldable pub join : ℕ → List Bytes → Bytes
join sep [] = []
join sep (p ∷ []) = p
join sep (p ∷ q ∷ ps) = p ++ sep ∷ join sep (q ∷ ps)

-- `unicode.IsSpace`
unfoldable pub is_space : ℕ → Bool
is_space c =
    (leb 9 c && leb c 13)
    || (c == 32)
    || (c == 133)
    || (c == 160)
    || (c == 5760)
    || (leb 8192 c && leb c 8202)
    || (c == 8232)
    || (c == 8233)
    || (c == 8239)
    || (c == 8287)
    || (c == 12288)

unfoldable pub trim_left : Bytes → Bytes
trim_left [] = []
trim_left (c ∷ s) = let rest = trim_left s in if is_space c then rest else c ∷ s

unfoldable pub trim_right : Bytes → Bytes
trim_right [] = []
trim_right (c ∷ s) = elim (trim_right s) [
  | [] ↦ if is_space c then [] else c ∷ []
  | d ∷ rest ↦ c ∷ d ∷ rest
]

-- `strings.TrimSpace`
unfoldable pub trim_space : Bytes → Bytes
unfolding trim_left trim_right
trim_space s = trim_right (trim_left s)

abbrev pub flush : Bytes → List Bytes
flush [] = []
flush (c ∷ w) = (c ∷ w) ∷ []

-- `w` is the word that is being read.
unfoldable pub fields_from : Bytes → Bytes → List Bytes
fields_from w [] = flush w
fields_from w (c ∷ s) =
    let closed = flush w ++ fields_from [] s in
    let longer = fields_from (w ++ c ∷ []) s in if is_space c then closed else longer

-- `strings.Fields`
unfoldable pub fields : Bytes → List Bytes
unfolding fields_from
fields s = fields_from [] s

-- The number that decimal digits spell behind `n`.
unfoldable pub scan_digits : ℕ → Bytes → Option ℕ
scan_digits n [] = some n
scan_digits n (c ∷ s) =
    let rest = scan_digits (n * 10 + (c - b'0')) s in
    if leb b'0' c && leb c b'9' then rest else none

unfoldable pub scan_number : Bytes → Option ℕ
unfolding scan_digits
scan_number [] = none
scan_number (c ∷ s) = scan_digits 0 (c ∷ s)

abbrev negated : ℕ → ℤ
negated zero = pos 0
negated (suc n) = negsuc n

-- A number that is read, if it is at most `bound`.
abbrev bounded : ℕ → (ℕ → ℤ) → Option ℕ → Option ℤ
bounded bound f none = none
bounded bound f (some n) = if leb n bound then some (f n) else none

-- `strconv.Atoi`: the errors are `none`.
unfoldable pub atoi : Bytes → Option ℤ
unfolding scan_number
atoi [] = none
atoi (c ∷ s) =
    if c == b'-'
    then bounded (suc max_int) negated (scan_number s)
    else if c == b'+'
    then bounded max_int pos (scan_number s)
    else bounded max_int pos (scan_number (c ∷ s))

-- `strings.HasPrefix`, with the rest of the text.
unfoldable pub cut_prefix : Bytes → Bytes → Option Bytes
cut_prefix [] s = some s
cut_prefix (p ∷ ps) [] = none
cut_prefix (p ∷ ps) (c ∷ s) = if p == c then cut_prefix ps s else none

-- `strings.Replace(s, old, new, 1)` where `old` is not empty.
unfoldable pub replace_once : Bytes → Bytes → Bytes → Bytes
unfolding cut_prefix
replace_once old new [] = []
replace_once old new (c ∷ s) =
    let later = c ∷ replace_once old new s in
    elim (cut_prefix old (c ∷ s)) [ none ↦ later | some rest ↦ new ++ rest ]
