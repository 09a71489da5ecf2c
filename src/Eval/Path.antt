-- ===== src/Eval/Path.antt =====
-- internal/eval/jsonpath.go: parsePath and parseBracket. The loop over the position is a scanner over the
-- bytes that are left, whose modes are the places between two reads of the code.
use flowbench.Base.{
  ℕ, zero, suc, false, ℤ, List, [], ◌∷◌, ◌++◌, Option, none, some, Bool, true, ◌||◌, ◌&&◌, ◌==◌,
  leb, atoi, if◌then◌else◌,
}
use flowbench.Span.{Text}

pub data Segment : Type 0 where
  key : Text → Segment
  index : ℤ → Segment

-- The errors of the parser, without their texts.
pub data PathError : Type 0 where
  no_dollar recursive_descent empty_key unexpected : PathError
  unterminated_key unclosed_key unterminated not_an_integer : PathError

pub data Parsed {ℓ} (A : Type ℓ) : Type ℓ where
  ok : A → Parsed A
  err : PathError → Parsed A

-- Between two segments; behind a dot; in a dotted key; behind a bracket; in a key quoted by `q`; behind
-- its closing quote; in an index.
pub data Mode : Type 0 where
  between dotted opened : Mode
  in_key closing in_index : Text → Mode
  in_quotes : (q : ℕ) → Text → Mode

unfoldable pub is_ident_byte : ℕ → Bool
is_ident_byte c =
    c == 95
    || (c == 45 || ((leb 97 c && leb c 122) || ((leb 65 c && leb c 90) || (leb 48 c && leb c 57))))

-- strings.TrimSpace: the spaces of Unicode, in UTF-8. First those of one byte, then those of three.
abbrev pub is_space : ℕ → Bool
is_space c = (leb 9 c && leb c 13) || c == 32

abbrev pub is_wide : ℕ → ℕ → ℕ → Bool
is_wide c d e =
    (c == 225 && (d == 154 && e == 128))
    || ((c == 226
          && (d == 128 && ((leb 128 e && leb e 138) || (e == 168 || (e == 169 || e == 175)))))
        || ((c == 226 && (d == 129 && e == 159)) || (c == 227 && (d == 128 && e == 128))))

abbrev pub wide_length : ℕ → Text → ℕ
wide_length c [] = 0
wide_length c (d ∷ []) = if c == 194 && (d == 133 || d == 160) then 2 else 0
wide_length c (d ∷ e ∷ cs) =
    if c == 194 && (d == 133 || d == 160) then 2 else if is_wide c d e then 3 else 0

-- The bytes of the space that the text starts with, 0 where it starts with none.
abbrev pub space_length : Text → ℕ
space_length [] = 0
space_length (c ∷ cs) = if is_space c then 1 else wide_length c cs

-- Behind the first `skip` bytes, the text without the spaces at its start, and whether it is spaces only.
abbrev pub trim_left : ℕ → Text → Text
trim_left skip [] = []
trim_left (suc skip) (c ∷ cs) = trim_left skip cs
trim_left zero (c ∷ cs) = elim (space_length (c ∷ cs)) [
  | zero ↦ c ∷ cs
  | suc skip ↦ trim_left skip cs
]

abbrev pub all_spaces : ℕ → Text → Bool
all_spaces skip [] = true
all_spaces (suc skip) (c ∷ cs) = all_spaces skip cs
all_spaces zero (c ∷ cs) = elim (space_length (c ∷ cs)) [
  | zero ↦ false
  | suc skip ↦ all_spaces skip cs
]

abbrev pub trim_right : Text → Text
trim_right [] = []
trim_right (c ∷ cs) = let rest = c ∷ trim_right cs in if all_spaces 0 (c ∷ cs) then [] else rest

abbrev pub trim_space : Text → Text
trim_space t = trim_right (trim_left 0 t)

-- What a byte leads to: another mode, with the segments that it ends, or an error.
pub data Move : Type 0 where
  go : Mode → List Segment → Move
  stop : PathError → Move

abbrev pub from_between : ℕ → List Segment → Move
from_between c done =
    if c == 46 then go dotted done else if c == 91 then go opened done else stop unexpected

abbrev pub of_index : Option ℤ → Move
of_index none = stop not_an_integer
of_index (some n) = go between (index n ∷ [])

unfoldable pub move : Mode → ℕ → Move
unfolding is_ident_byte
move between c = from_between c []
move dotted c =
    if c == 46
    then stop recursive_descent
    else if is_ident_byte c
    then go (in_key (c ∷ [])) []
    else stop empty_key
move (in_key k) c =
    if is_ident_byte c then go (in_key (k ++ c ∷ [])) [] else from_between c (key k ∷ [])
move opened c =
    if c == 39 || c == 34
    then go (in_quotes c []) []
    else if c == 93
    then of_index (atoi [])
    else go (in_index (c ∷ [])) []
move (in_quotes q k) c = if c == q then go (closing k) [] else go (in_quotes q (k ++ c ∷ [])) []
move (closing k) c = if c == 93 then go between (key k ∷ []) else stop unclosed_key
move (in_index t) c =
    if c == 93 then of_index (atoi (trim_space t)) else go (in_index (t ++ c ∷ [])) []

-- The end of the path.
unfoldable pub finish : Mode → Parsed (List Segment)
finish between = ok []
finish dotted = err empty_key
finish (in_key k) = ok (key k ∷ [])
finish opened = err unterminated
finish (in_quotes q k) = err unterminated_key
finish (closing k) = err unclosed_key
finish (in_index t) = err unterminated

abbrev pub behind : List Segment → Parsed (List Segment) → Parsed (List Segment)
behind done (ok segs) = ok (done ++ segs)
behind done (err e) = err e

unfoldable pub scan : Mode → Text → Parsed (List Segment)
unfolding move finish
scan m [] = finish m
scan m (c ∷ cs) = elim (move m c) [ go m' done ↦ behind done (scan m' cs) | stop e ↦ err e ]

unfoldable pub parse_path : Text → Parsed (List Segment)
unfolding scan
parse_path [] = err no_dollar
parse_path (c ∷ cs) = if c == 36 then scan between cs else err no_dollar
