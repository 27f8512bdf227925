-- ===== src/Asm/Directive/Fuel.antt =====
-- The loop of `parse_preproc_data` of src/parser.c over the options of a directive ends: each round takes a
-- character, so that one more unit of fuel than there are characters is enough.
use mathlib.Core.Path.{subst}
use bvgz_vm.Common.{
  ◌||◌, ◌==◌, ◌∙◌, sym, ap, Bool-cases, inl, inr, ℕ, zero, suc, ◌+◌, ◌≤◌, ◌<◌, ◌≡◌, refl, Bool,
  true, false, List, [], ◌∷◌, Option, some, arith, length, if◌then◌else◌,
}
use bvgz_vm.Codegen.{◌>>=◌}
use bvgz_vm.Asm.Number.{isspace, skip_spaces}
use bvgz_vm.Asm.Arg.{at_end, starts_with, tail}
use bvgz_vm.Asm.Directive.{
  read_word, next_token, behind, Options, offset_option, size_option, data_options,
}

length-skip_spaces : (s : List ℕ) → length (skip_spaces s) ≤ length s
unfolding skip_spaces
length-skip_spaces [] = omega arith
length-skip_spaces (c ∷ cs) = ground (arith, length-skip_spaces cs)

length-read_word : (s : List ℕ) → length (read_word s).0 + length (read_word s).1 ≤ length s
unfolding read_word
length-read_word [] = omega arith
length-read_word (c ∷ cs) = ground (arith, length-read_word cs)

same_behind :
    (rest : List ℕ) (f g : List ℕ → Option Options)
    → ((s : List ℕ) → length s < length rest → f s ≡ g s)
    → (behind rest >>= f) ≡ (behind rest >>= g)
same_behind [] f g h = refl
same_behind (c ∷ cs) f g h = h cs (omega arith)

same_cond {ℓ} :
    {A : Type ℓ} (b : Bool) (x x' y y' : A)
    → x ≡ x'
    → y ≡ y'
    → (if b then x else y) ≡ (if b then x' else y')
same_cond true x x' y y' e f = e
same_cond false x x' y y' e f = f

shorter : (token s : List ℕ) → length s < length (next_token token).1 → length s < length token
shorter token s h = omega (arith, h, length-read_word (skip_spaces token), length-skip_spaces token)

data_options_fuel :
    (fuel fuel' : ℕ) (token : List ℕ) (o : Options)
    → length token < fuel
    → length token < fuel'
    → data_options fuel token o ≡ data_options fuel' token o
unfolding data_options
data_options_fuel zero fuel' token o h k = absurd (omega arith)
data_options_fuel (suc fuel) zero token o h k = absurd (omega arith)
data_options_fuel (suc fuel) (suc fuel') token o h k =
    let t = next_token token in
    same_cond (at_end t.0) (some o) (some o) _ _ refl (
      same_cond (starts_with b':' t.0) _ _ _ _
        (same_behind t.1 _ _ (λ s p.
          data_options_fuel fuel fuel' s (offset_option (tail t.0) o)
            (omega (arith, shorter token s p)) (omega (arith, shorter token s p))))
        (same_cond (starts_with b'/' t.0) _ _ _ _
          (same_behind t.1 _ _ (λ s p.
            data_options_fuel fuel fuel' s (size_option (tail t.0) o)
              (omega (arith, shorter token s p)) (omega (arith, shorter token s p))))
          refl))

-- A string is empty or ends with a character that `isspace` accepts, as a line with its newline does.
abbrev pub EndsInSpace : List ℕ → Type 0
EndsInSpace [] = Unit
EndsInSpace (c ∷ []) = isspace c ≡ true
EndsInSpace (c ∷ d ∷ cs) = EndsInSpace (d ∷ cs)

abbrev IsSome : {A : Type 0} → Option A → Type 0
IsSome {A} x = (a : A) × (x ≡ some a)

skip_spaces-EndsInSpace : (s : List ℕ) → EndsInSpace s → EndsInSpace (skip_spaces s)
unfolding skip_spaces
skip_spaces-EndsInSpace [] h = tt
skip_spaces-EndsInSpace (c ∷ []) h = rw h tt
skip_spaces-EndsInSpace (c ∷ d ∷ cs) h = elim (Bool-cases (isspace c)) [
  | inl e ↦ rw e (skip_spaces-EndsInSpace (d ∷ cs) h)
  | inr e ↦ rw e h
]

-- What stands behind a word: a character, and text that ends as the whole does.
record Behind (rest : List ℕ) : Type 0 where
  head : ℕ
  text : List ℕ
  split : rest ≡ head ∷ text
  ends : EndsInSpace text

read_word-Behind : (c : ℕ) (cs : List ℕ) → EndsInSpace (c ∷ cs) → Behind (read_word (c ∷ cs)).1
unfolding read_word
read_word-Behind c [] h = record { head = c; text = []; split = rw h refl; ends = tt }
read_word-Behind c (d ∷ cs) h = elim (Bool-cases (isspace c || c == b';')) [
  | inl e ↦ record { head = c; text = d ∷ cs; split = rw e refl; ends = h }
  | inr e ↦
      let k = read_word-Behind d cs h in
      record { head = k.head; text = k.text; split = rw e k.split; ends = k.ends }
]

cond-IsSome :
    {A : Type 0} (b : Bool) {x y : Option A} → IsSome x → IsSome y → IsSome (if b then x else y)
cond-IsSome true h k = h
cond-IsSome false h k = k

behind-IsSome :
    (rest : List ℕ) (k : Behind rest) (f : List ℕ → Option Options)
    → IsSome (f k.text)
    → IsSome (behind rest >>= f)
behind-IsSome rest k f (o, e) = (o, rw (k.split, e) refl)

data_options-IsSome :
    (fuel : ℕ) (token : List ℕ) (o : Options)
    → EndsInSpace token
    → length token < fuel
    → IsSome (data_options fuel token o)
unfolding data_options read_word
data_options-IsSome zero token o s h = absurd (omega arith)
data_options-IsSome (suc fuel) token o s h =
    go fuel token o h (λ s o e k. data_options-IsSome fuel s o e k) (skip_spaces token) refl
      (skip_spaces-EndsInSpace token s)
  where
    go :
        (fuel : ℕ) (token : List ℕ) (o : Options)
        → length token < suc fuel
        → ((s : List ℕ) (o : Options)
            → EndsInSpace s
            → length s < fuel
            → IsSome (data_options fuel s o))
        → (rest : List ℕ) → skip_spaces token ≡ rest
        → EndsInSpace rest
        → IsSome (data_options (suc fuel) token o)
    go fuel token o h later [] e k = (o, rw e refl)
    go fuel token o h later (c ∷ cs) e k =
        let b = subst (λ x. Behind (read_word x).1) (sym e) (read_word-Behind c cs k) in
        let t = next_token token in
        let less : length b.text < fuel =
          omega (arith, shorter token b.text (omega (arith, ap length b.split)), h) in
        cond-IsSome (at_end t.0) (o, refl)
          (cond-IsSome (starts_with b':' t.0)
            (behind-IsSome t.1 b _ (later b.text (offset_option (tail t.0) o) b.ends less))
            (cond-IsSome (starts_with b'/' t.0)
              (behind-IsSome t.1 b _ (later b.text (size_option (tail t.0) o) b.ends less))
              (_, refl)))

-- The loop over the options behind the data of a directive ends with a result, without a pointer that passes
-- the end of the text, where this is empty or ends with a space or a newline: it takes at most as
-- many rounds as the text has characters, and one more, and all larger amounts of fuel give the same.
pub data_options_ends :
    (token : List ℕ) (o : Options)
    → EndsInSpace token
    → (o' : Options) × ((fuel : ℕ) → length token < fuel → data_options fuel token o ≡ some o')
data_options_ends token o s =
    let (o', e) = data_options-IsSome (suc (length token)) token o s (omega arith) in
    (o', λ fuel h. data_options_fuel fuel (suc (length token)) token o h (omega arith) ∙ e)
