-- ===== src/Asm/Lines/Tokens.antt =====
-- The lines that src/parser.c takes apart: a printed line of tokens, and what `parse_line` makes of it.
use mathlib.Core.List.{append_assoc, append-nil}
use bvgz_vm.Common.{
  ℕ, ◌+◌, ◌<◌, ◌≡◌, refl, ◌∙◌, ap, sym, Bool, true, false, ◌&&◌, ◌||◌, List, [], ◌∷◌, ◌++◌, ◌==◌,
  arith, length, All, length-append,
}
use bvgz_vm.Asm.{Env, Parse}
use bvgz_vm.Asm.Number.{isspace, skip_spaces}
use bvgz_vm.Asm.Arg.{at_end, starts_with}
use bvgz_vm.Asm.Instruction.{add_instn}
use bvgz_vm.Asm.Lines.{max_tokens, Scan, finish_line, scan_line, ParseFile, parse_line}

-- A character between tokens
abbrev pub IsSeparator : ℕ → Type 0
IsSeparator c = ((c == b';') ≡ false) × ((isspace c || c == b',') ≡ true)

-- A character of a token
abbrev pub IsTokenChar : ℕ → Type 0
IsTokenChar c = ((c == b';') ≡ false) × ((isspace c || c == b',') ≡ false) × ((c == b':') ≡ false)

-- A token with the separators in front of it
pub record Item : Type 0 where
  pub before : List ℕ
  pub token : List ℕ

abbrev pub NonEmpty : List ℕ → Type 0
NonEmpty [] = ⊥
NonEmpty (c ∷ cs) = Unit

abbrev pub IsItem : Item → Type 0
IsItem i = NonEmpty i.before × All IsSeparator i.before × NonEmpty i.token × All IsTokenChar i.token

abbrev pub items_text : List Item → List ℕ
items_text [] = []
items_text (i ∷ items) = i.before ++ (i.token ++ items_text items)

abbrev pub tokens_of : List Item → List (List ℕ)
tokens_of [] = []
tokens_of (i ∷ items) = i.token ∷ tokens_of items

-- What may stand behind the last token: separators, and a comment
pub data IsEnding : List ℕ → Type 0 where
  line_end : IsEnding []
  comment : (cs : List ℕ) → IsEnding (b';' ∷ cs)
  separator : {c : ℕ} {cs : List ℕ} → IsSeparator c → IsEnding cs → IsEnding (c ∷ cs)

abbrev scan : (tokens : List (List ℕ)) → (current : List ℕ) → (mark_token : Bool) → Parse → Scan
scan tokens current mark_token r = record {
  tokens = tokens;
  current = current;
  mark_token = mark_token;
  parse_instn = true;
  parse = r;
}

no_colon : (b c : Bool) → c ≡ false → (b && c) ≡ false
no_colon true c e = e
no_colon false c e = refl

token_rest :
    (env : Env) (cs rest : List ℕ) (ts : List (List ℕ)) (t : List ℕ) (r : Parse)
    → All IsTokenChar cs
    → scan_line env (cs ++ rest) (scan ts t false r)
      ≡ scan_line env rest (scan ts (t ++ cs) false r)
unfolding scan_line
token_rest env [] rest ts t r h =
    ap (λ u. scan_line env rest (scan ts u false r)) (sym (append-nil t))
token_rest env (c ∷ cs) rest ts t r h =
    rw (h.0.0, h.0.1, no_colon (length ts == 0) (c == b':') h.0.2)
      (token_rest env cs rest ts (t ++ c ∷ []) r h.1
        ∙ ap (λ u. scan_line env rest (scan ts u false r)) (append_assoc t (c ∷ []) cs))

separators :
    (env : Env) (cs rest : List ℕ) (ts : List (List ℕ)) (t : List ℕ) (r : Parse)
    → All IsSeparator cs
    → scan_line env (cs ++ rest) (scan ts t true r) ≡ scan_line env rest (scan ts t true r)
unfolding scan_line
separators env [] rest ts t r h = refl
separators env (c ∷ cs) rest ts t r h = rw (h.0.0, h.0.1) (separators env cs rest ts t r h.1)

first_char :
    (env : Env) (c : ℕ) (cs : List ℕ) (ts : List (List ℕ)) (t : List ℕ) (r : Parse)
    → IsTokenChar c
    → length ts + 1 < max_tokens
    → scan_line env (c ∷ cs) (scan ts t true r)
      ≡ scan_line env cs (scan (ts ++ t ∷ []) (c ∷ []) false r)
unfolding scan_line
first_char env c cs ts t r h k =
    rw (h.0, h.1, no_colon (length ts == 0) (c == b':') h.2) (ground arith)

-- A token is marked by what stands in front of it.
marked_token :
    (env : Env) (before token rest : List ℕ) (ts : List (List ℕ)) (t : List ℕ) (r : Parse)
    → NonEmpty before
    → All IsSeparator before
    → NonEmpty token
    → All IsTokenChar token
    → length ts + 1 < max_tokens
    → scan_line env (before ++ (token ++ rest)) (scan ts t false r)
      ≡ scan_line env rest (scan (ts ++ t ∷ []) token false r)
unfolding scan_line
marked_token env [] token rest ts t r hn hb ht hc k = absurd hn
marked_token env (b ∷ before) [] rest ts t r hn hb ht hc k = absurd ht
marked_token env (b ∷ before) (c ∷ token) rest ts t r hn hb ht hc k =
    rw (hb.0.0, hb.0.1)
      (separators env before (c ∷ token ++ rest) ts t r hb.1
        ∙ first_char env c (token ++ rest) ts t r hc.0 k
        ∙ token_rest env token rest (ts ++ t ∷ []) (c ∷ []) r hc.1)

read_items :
    (env : Env) (items : List Item) (rest : List ℕ) (ts : List (List ℕ)) (t : List ℕ) (r : Parse)
    → All IsItem items
    → length ts + length items < max_tokens
    → (last : List ℕ) × (init : List (List ℕ)) × (scan_line env
          (items_text items ++ rest)
          (scan ts t false r)
        ≡ scan_line env rest (scan init last false r))
      × (init ++ last ∷ [] ≡ (ts ++ t ∷ []) ++ tokens_of items)
read_items env [] rest ts t r h k = (t, ts, refl, sym (append-nil (ts ++ t ∷ [])))
read_items env (i ∷ items) rest ts t r h k =
    let step =
      marked_token env i.before i.token (items_text items ++ rest) ts t r h.0.0 h.0.1 h.0.2 h.0.3
        (omega arith) in
    let (last, init, read, same) =
      read_items env items rest (ts ++ t ∷ []) i.token r h.1
        (omega (arith, length-append ts (t ∷ []))) in
    (
      last,
      init,
      ap (λ u. scan_line env u (scan ts t false r)) (simp append_assoc) ∙ step ∙ read,
      same ∙ append_assoc (ts ++ t ∷ []) (i.token ∷ []) (tokens_of items),
    )

ending :
    (env : Env) (e : List ℕ) (ts : List (List ℕ)) (t : List ℕ) (m : Bool) (r : Parse)
    → IsEnding e
    → scan_line env e (scan ts t m r) ≡ finish_line env (scan ts t false r)
unfolding scan_line finish_line
ending env [] ts t m r line_end = refl
ending env (c ∷ cs) ts t m r (comment cs') = refl
ending env (c ∷ cs) ts t m r (separator h e) = rw (h.0, h.1) (ending env cs ts t true r e)

finished :
    (env : Env) (init tokens : List (List ℕ)) (last name : List ℕ) (r : Parse)
    → init ++ last ∷ [] ≡ name ∷ tokens
    → finish_line env (scan init last false r) ≡ add_instn env name tokens r
unfolding finish_line
finished env init tokens last name r e = rw e refl

leading_spaces :
    (lead : List ℕ) (c : ℕ) (cs : List ℕ)
    → All (λ d. isspace d ≡ true) lead
    → isspace c ≡ false
    → skip_spaces (lead ++ c ∷ cs) ≡ c ∷ cs
unfolding skip_spaces
leading_spaces [] c cs h e = rw e refl
leading_spaces (d ∷ lead) c cs h e = rw h.0 (leading_spaces lead c cs h.1 e)

-- The first character of a name starts neither a comment nor a directive.
abbrev pub IsName : List ℕ → Type 0
IsName [] = ⊥
IsName (c ∷ cs) = ((c == b'%') ≡ false) × All IsTokenChar (c ∷ cs)

scanned :
    (env : Env) (parse_file : ParseFile) (include_paths : List (List ℕ)) (line p : List ℕ)
    (r : Parse)
    → skip_spaces line ≡ p
    → (at_end p || starts_with b';' p) ≡ false
    → starts_with b'%' p ≡ false
    → parse_line env parse_file include_paths line r ≡ scan_line env p (scan [] [] false r)
unfolding parse_line
scanned env parse_file include_paths line p r e f g = rw (e, f, g) refl

-- A line of a name and up to three tokens more, each behind separators, adds the instruction of these
-- tokens, whatever spaces stand in front and whatever comment behind.
pub parse_line-tokens :
    (env : Env) (parse_file : ParseFile) (include_paths : List (List ℕ)) (lead name : List ℕ)
    (items : List Item) (rest : List ℕ) (r : Parse)
    → All (λ c. isspace c ≡ true) lead
    → IsName name
    → All IsItem items
    → length items < max_tokens
    → IsEnding rest
    → parse_line env parse_file include_paths (lead ++ (name ++ (items_text items ++ rest))) r
      ≡ add_instn env name (tokens_of items) r
parse_line-tokens env parse_file include_paths lead [] items rest r hl hn hi k e = absurd hn
parse_line-tokens env parse_file include_paths lead (c ∷ name) items rest r hl hn hi k e =
    let text = items_text items ++ rest in
    let (last, init, read, same) = read_items env items rest [] (c ∷ name) r hi (omega arith) in
    scanned env parse_file include_paths (lead ++ (c ∷ name ++ text)) (c ∷ name ++ text) r
      (leading_spaces lead c (name ++ text) hl (not_space c hn.1.0.1)) hn.1.0.0 hn.0
    ∙ token_rest env (c ∷ name) text [] [] r hn.1
    ∙ read
    ∙ ending env rest init last false r e
    ∙ finished env init (tokens_of items) last (c ∷ name) r same
  where
    not_space : (d : ℕ) → (isspace d || d == b',') ≡ false → isspace d ≡ false
    not_space d h = ground arith
