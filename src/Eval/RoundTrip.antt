-- ===== src/Eval/RoundTrip.antt =====
-- internal/eval/jsonpath.go: a path that is written in its dotted form is read back.
use mathlib.Core.List.{append_assoc, append-nil}
use flowbench.Base.{
  if◌then◌else◌, zero, suc, false, ℕ, ◌≤◌, ℤ, pos, negsuc, List, [], ◌∷◌, ◌++◌, some, Bool, true,
  false, ◌&&◌, show_ℤ, atoi, atoi-show_ℤ, leb, ◌==◌, all_digits, show_ℤ-digits, ◌≡◌, refl, sym, ap,
  ◌∙◌, arith,
}
use flowbench.Span.{Text}
use flowbench.Eval.Path.{
  Segment, key, index, Parsed, ok, err, Mode, between, dotted, opened, in_key, in_index,
  is_ident_byte, space_length, all_spaces, trim_left, trim_right, trim_space, move, behind, scan,
  parse_path, of_index, go, stop,
}

both : (a b : Bool) → a && b ≡ true → (a ≡ true) × (b ≡ true)
both true b h = (refl, h)
both false b h = cc

not_bracket : (c : ℕ) (b : Bool) → leb 48 c && (leb c 57 && b) ≡ true → (c == 93) ≡ false
not_bracket c b h = ground (arith, h)

no_space :
    (c : ℕ) (cs : Text) (b : Bool) → leb 48 c && (leb c 57 && b) ≡ true → space_length (c ∷ cs) ≡ 0
no_space c [] b h = ground (arith, h)
no_space c (d ∷ []) b h = ground (arith, h)
no_space c (d ∷ e ∷ cs) b h = ground (arith, h)

others : (c : ℕ) (b : Bool) → leb 48 c && (leb c 57 && b) ≡ true → b ≡ true
others c b h = ground (arith, h)

-- `.key` and `[n]`, as a structural difference writes them.
abbrev pub show_segment : Segment → Text
show_segment (key k) = 46 ∷ k
show_segment (index n) = 91 ∷ (show_ℤ n ++ 93 ∷ [])

abbrev pub show_segments : List Segment → Text
show_segments [] = []
show_segments (s ∷ segs) = show_segment s ++ show_segments segs

abbrev pub show_path : List Segment → Text
show_path segs = 36 ∷ show_segments segs

-- A key of letters, digits, `_` and `-`, at least one of them; an index that an `int` holds and that is
-- not negative.
abbrev pub all_ident : Text → Bool
all_ident [] = true
all_ident (c ∷ cs) = is_ident_byte c && all_ident cs

abbrev pub Plain : Segment → Type 0
Plain (key []) = ⊥
Plain (key (c ∷ cs)) = all_ident (c ∷ cs) ≡ true
Plain (index (pos n)) = n ≤ 9223372036854775807
Plain (index n) = ⊥

abbrev pub AllPlain : List Segment → Type 0
AllPlain [] = Unit
AllPlain (s ∷ segs) = Plain s × AllPlain segs

behind-nil : (p : Parsed (List Segment)) → behind [] p ≡ p
behind-nil (ok segs) = refl
behind-nil (err e) = refl

scan-go :
    (m m' : Mode) (c : ℕ) (cs : Text) (done : List Segment)
    → move m c ≡ go m' done
    → scan m (c ∷ cs) ≡ behind done (scan m' cs)
unfolding scan
scan-go m m' c cs done h =
    ap (λ mv. elim mv [ go next segs ↦ behind segs (scan next cs) | stop e ↦ err e ]) h

move-in_key :
    (k : Text) (c : ℕ) → is_ident_byte c ≡ true → move (in_key k) c ≡ go (in_key (k ++ c ∷ [])) []
unfolding move
move-in_key k c h = rw h refl

move-in_index :
    (t : Text) (c : ℕ) → (c == 93) ≡ false → move (in_index t) c ≡ go (in_index (t ++ c ∷ [])) []
unfolding move
move-in_index t c h = rw h refl

scan-in_key :
    (k cs rest : Text)
    → all_ident cs ≡ true
    → scan (in_key k) (cs ++ rest) ≡ scan (in_key (k ++ cs)) rest
scan-in_key k [] rest h = ap (λ t. scan (in_key t) rest) (sym (append-nil k))
scan-in_key k (c ∷ cs) rest h =
    let (here, more) = both (is_ident_byte c) (all_ident cs) h in
    scan-go (in_key k) (in_key (k ++ c ∷ [])) c (cs ++ rest) [] (move-in_key k c here)
    ∙ behind-nil (scan (in_key (k ++ c ∷ [])) (cs ++ rest))
    ∙ scan-in_key (k ++ c ∷ []) cs rest more
    ∙ ap (λ t. scan (in_key t) rest) (append_assoc k (c ∷ []) cs)

-- A key ends where the next segment begins, or the path.
scan-key_end :
    (k : Text) (segs : List Segment)
    → scan (in_key k) (show_segments segs) ≡ behind (key k ∷ []) (scan between (show_segments segs))
unfolding scan
scan-key_end k [] = refl
scan-key_end k (key j ∷ segs) =
    ap (behind (key k ∷ [])) (sym (behind-nil (scan dotted (j ++ show_segments segs))))
scan-key_end k (index n ∷ segs) =
    ap (behind (key k ∷ []))
      (sym (behind-nil (scan opened ((show_ℤ n ++ 93 ∷ []) ++ show_segments segs))))

scan-in_index :
    (t cs rest : Text)
    → all_digits cs ≡ true
    → scan (in_index t) (cs ++ rest) ≡ scan (in_index (t ++ cs)) rest
scan-in_index t [] rest h = ap (λ u. scan (in_index u) rest) (sym (append-nil t))
scan-in_index t (c ∷ cs) rest h =
    scan-go (in_index t) (in_index (t ++ c ∷ [])) c (cs ++ rest) []
      (move-in_index t c (not_bracket c (all_digits cs) h))
    ∙ behind-nil (scan (in_index (t ++ c ∷ [])) (cs ++ rest))
    ∙ scan-in_index (t ++ c ∷ []) cs rest (others c (all_digits cs) h)
    ∙ ap (λ u. scan (in_index u) rest) (append_assoc t (c ∷ []) cs)

-- Digits have no space that is trimmed.
trim_right-digits : (t : Text) → all_digits t ≡ true → trim_right t ≡ t
trim_right-digits [] h = refl
trim_right-digits (c ∷ cs) h =
    ap
      (λ n.
        if (elim n [ zero ↦ false | suc skip ↦ all_spaces skip cs ]) then [] else c ∷ trim_right cs)
      (no_space c cs (all_digits cs) h)
    ∙ ap (λ t. c ∷ t) (trim_right-digits cs (others c (all_digits cs) h))

trim_space-digits : (t : Text) → all_digits t ≡ true → trim_space t ≡ t
trim_space-digits [] h = refl
trim_space-digits (c ∷ cs) h =
    ap (λ n. trim_right (elim n [ zero ↦ c ∷ cs | suc skip ↦ trim_left skip cs ]))
      (no_space c cs (all_digits cs) h)
    ∙ trim_right-digits (c ∷ cs) h

move-opened :
    (c : ℕ) (b : Bool)
    → leb 48 c && (leb c 57 && b) ≡ true
    → move opened c ≡ go (in_index (c ∷ [])) []
unfolding move
move-opened c b h = ground (arith, h)

move-index_end :
    (t : Text) (n : ℤ)
    → atoi (trim_space t) ≡ some n
    → move (in_index t) 93 ≡ go between (index n ∷ [])
unfolding move
move-index_end t n h = ap of_index h

scan-index :
    (n : ℕ) (rest : Text)
    → n ≤ 9223372036854775807
    → scan opened (show_ℤ (pos n) ++ (93 ∷ rest)) ≡ behind (index (pos n) ∷ []) (scan between rest)
scan-index n rest fits =
    let (c, cs, shown, digits) = show_ℤ-digits n in
    ap (λ t. scan opened (t ++ (93 ∷ rest))) shown
    ∙ scan-go opened (in_index (c ∷ [])) c (cs ++ (93 ∷ rest)) []
        (move-opened c (all_digits cs) digits)
    ∙ behind-nil _
    ∙ scan-in_index (c ∷ []) cs (93 ∷ rest) (others c (all_digits cs) digits)
    ∙ scan-go (in_index (c ∷ cs)) between 93 rest (index (pos n) ∷ []) (
        move-index_end (c ∷ cs) (pos n)
          (ap atoi (trim_space-digits (c ∷ cs) digits ∙ sym shown) ∙ atoi-show_ℤ n fits))

move-dotted : (c : ℕ) → is_ident_byte c ≡ true → move dotted c ≡ go (in_key (c ∷ [])) []
unfolding move is_ident_byte
move-dotted c h = ground (arith, h)

move-between_dot : move between 46 ≡ go dotted []
unfolding move
move-between_dot = refl

move-between_bracket : move between 91 ≡ go opened []
unfolding move
move-between_bracket = refl

scan-plain : (segs : List Segment) → AllPlain segs → scan between (show_segments segs) ≡ ok segs
unfolding scan
scan-plain [] h = refl
scan-plain (key [] ∷ segs) h = absurd h.0
scan-plain (key (c ∷ cs) ∷ segs) h =
    let (first, others) = both (is_ident_byte c) (all_ident cs) h.0 in
    scan-go between dotted 46 (c ∷ (cs ++ show_segments segs)) [] move-between_dot
    ∙ behind-nil _
    ∙ scan-go dotted (in_key (c ∷ [])) c (cs ++ show_segments segs) [] (move-dotted c first)
    ∙ behind-nil _
    ∙ scan-in_key (c ∷ []) cs (show_segments segs) others
    ∙ scan-key_end (c ∷ cs) segs
    ∙ ap (behind (key (c ∷ cs) ∷ [])) (scan-plain segs h.1)
scan-plain (index (pos n) ∷ segs) h =
    scan-go between opened 91 ((show_ℤ (pos n) ++ 93 ∷ []) ++ show_segments segs) []
      move-between_bracket
    ∙ behind-nil _
    ∙ ap (scan opened) (append_assoc (show_ℤ (pos n)) (93 ∷ []) (show_segments segs))
    ∙ scan-index n (show_segments segs) h.0
    ∙ ap (behind (index (pos n) ∷ [])) (scan-plain segs h.1)
scan-plain (index (negsuc n) ∷ segs) h = absurd h.0

-- A path that is written as a structural difference writes one is read as the segments that were written,
-- if each key is one or more letters, digits, `_` or `-` and no index is negative or past an int64.
pub parse_path-show_path :
    (segs : List Segment) → AllPlain segs → parse_path (show_path segs) ≡ ok segs
unfolding parse_path
parse_path-show_path segs h = scan-plain segs h
