-- ===== src/Common/Letters.antt =====
-- Texts in one case: what upper-casing makes of a text in small letters.
use Prim.Native.Nat.{ℕ, ◌≤◌, compare, Ordering}
use Prim.Native.Char.{Char, code}
use Prim.Native.String.compare
use Prim.Native.String.{String, compare as compare_texts, then as and_then_compare}
use mathlib.Core.Path.{◌≡◌, refl, sym, ap, ap₂, ◌∙◌}
use mathlib.Core.Bool.{Bool, true, false, ◌||◌, ◌&&◌}
use native.Mathlib.Omega.{arith}
use text.Mathlib.Text.{is_eq}
use network_operations_platf.Common.Tests.{◌==◌, str_eq, if◌then◌else◌, Bool-cases}
use mathlib.Core.Logic.{inl, inr}
use network_operations_platf.Common.Text.{translate, capitals, smalls, map_text, lower, upper}

-- A text has a character.
has : String → ℕ → Bool
has String.[] x = false
has (String.◌∷◌ c s) x = code c == x || has s x

-- A translation takes the character `k` to `x`.
takes : String → String → ℕ → ℕ → Bool
takes String.[] to x k = false
takes (String.◌∷◌ f from) String.[] x k = false
takes (String.◌∷◌ f from) (String.◌∷◌ t to) x k = (code t == x && k == code f) || takes from to x k

translate-other :
    (from to : String) (c : Char) (x : ℕ)
    → (code c == x) ≡ false
    → has to x ≡ false
    → (code (translate from to c) == x) ≡ false
unfolding translate has
translate-other String.[] to c x n m = n
translate-other (String.◌∷◌ f from) String.[] c x n m = n
translate-other (String.◌∷◌ f from) (String.◌∷◌ t to) c x n m =
    let h : has to x ≡ false = ground (arith, m) in
    ground (arith, n, m, translate-other from to c x n h)

translate-taken :
    (from to : String) (c : Char) (x : ℕ)
    → (code (translate from to c) == x) ≡ true
    → (code c == x || takes from to x (code c)) ≡ true
unfolding translate takes
translate-taken String.[] to c x e = ground (arith, e)
translate-taken (String.◌∷◌ f from) String.[] c x e = ground (arith, e)
translate-taken (String.◌∷◌ f from) (String.◌∷◌ t to) c x e =
    ground (arith, e, translate-taken from to c x)

-- A translation says what becomes of `x`.
covers : String → String → ℕ → Bool
covers String.[] to x = false
covers (String.◌∷◌ f from) String.[] x = false
covers (String.◌∷◌ f from) (String.◌∷◌ t to) x = code f == x || covers from to x

translate-covered :
    (from to : String) (c : Char) (x : ℕ)
    → covers from to x ≡ true
    → has to x ≡ false
    → (code c == x) ≡ true
    → (code (translate from to c) == x) ≡ false
unfolding translate has covers
translate-covered String.[] to c x l m e = ground (arith, l)
translate-covered (String.◌∷◌ f from) String.[] c x l m e = ground (arith, l)
translate-covered (String.◌∷◌ f from) (String.◌∷◌ t to) c x l m e =
    let h : has to x ≡ false = ground (arith, m) in
    elim (Bool-cases (code c == code f)) [
      | inl y ↦ ground (arith, m, y)
      | inr n ↦
          let l' : covers from to x ≡ true = ground (arith, l, n, e) in
          ground (arith, n, translate-covered from to c x l' h e)
    ]

-- A translation takes `k` to `x`.
gives : String → String → ℕ → ℕ → Bool
gives String.[] to k x = false
gives (String.◌∷◌ f from) String.[] k x = false
gives (String.◌∷◌ f from) (String.◌∷◌ t to) k x =
    let rest = gives from to k x in if code f == k then code t == x else rest

translate-given :
    (from to : String) (c : Char) (k x : ℕ)
    → gives from to k x ≡ true
    → (code c == k) ≡ true
    → (code (translate from to c) == x) ≡ true
unfolding translate gives
translate-given String.[] to c k x g e = ground (arith, g)
translate-given (String.◌∷◌ f from) String.[] c k x g e = ground (arith, g)
translate-given (String.◌∷◌ f from) (String.◌∷◌ t to) c k x g e =
    elim (Bool-cases (code c == code f)) [
      | inl y ↦ ground (arith, g, e, y)
      | inr n ↦
          let g' : gives from to k x ≡ true = ground (arith, g, n, e) in
          ground (arith, n, translate-given from to c k x g' e)
    ]

translate-fixed :
    (from to : String) (c : Char) (x : ℕ)
    → has from x ≡ false
    → (code c == x) ≡ true
    → (code (translate from to c) == x) ≡ true
unfolding translate has
translate-fixed String.[] to c x h e = e
translate-fixed (String.◌∷◌ f from) String.[] c x h e = e
translate-fixed (String.◌∷◌ f from) (String.◌∷◌ t to) c x h e =
    let h' : has from x ≡ false = ground (arith, h) in
    ground (arith, h, e, translate-fixed from to c x h' e)

abbrev low : Char → Char
low = translate capitals smalls

abbrev up : Char → Char
up = translate smalls capitals

-- A small letter is not the capital `k`, and upper-cases to it only if it is `k + 32`.
module _ (k small : ℕ) (listed : covers capitals smalls k ≡ true) (absent : has smalls k ≡ false)
    (from_ : (n : ℕ) → takes smalls capitals k n ≡ true → (n == small) ≡ true) where
  letter : (c : Char) → (code (up (low c)) == k) ≡ true → (code (low c) == small) ≡ true
  letter c e =
      let d = translate capitals smalls c in
      let n : (code d == k) ≡ false = elim (Bool-cases (code c == k)) [
        | inl y ↦ translate-covered capitals smalls c k listed absent y
        | inr z ↦ translate-other capitals smalls c k z absent
      ] in
      let t = translate-taken smalls capitals d k e in
      let u : takes smalls capitals k (code d) ≡ true = ground (arith, n, t) in from_ (code d) u

-- What lower-cases to the letter `small` upper-cases to `k`.
module _ (k small : ℕ) (absent : has smalls k ≡ false)
    (given : gives smalls capitals small k ≡ true)
    (from_ : (n : ℕ) → takes capitals smalls small n ≡ true → (n == k) ≡ true) where
  capital : (c : Char) → (code (low c) == small) ≡ true → (code (up c) == k) ≡ true
  capital c e = elim (Bool-cases (code c == small)) [
    | inl y ↦ translate-given smalls capitals c small k given y
    | inr n ↦
        let t = translate-taken capitals smalls c small e in
        let u : takes capitals smalls small (code c) ≡ true = ground (arith, n, t) in
        translate-fixed smalls capitals c k absent (from_ (code c) u)
  ]

same_texts :
    (c d : Char) (s t : String)
    → str_eq (String.◌∷◌ c s) (String.◌∷◌ d t) ≡ (code c == code d && str_eq s t)
same_texts c d s t = ap is_eq (compare.cons-cons c d s t) ∙ go (compare (code c) (code d))
  where
    go :
        (o : Ordering)
        → is_eq (and_then_compare o (compare_texts s t))
          ≡ (elim o [ Ordering.eq ↦ true | _ ↦ false ] && str_eq s t)
    go Ordering.lt = refl
    go Ordering.eq = refl
    go Ordering.gt = refl

letter_H : (c : Char) → (code (up (low c)) == 72) ≡ true → (code (low c) == 104) ≡ true
letter_H =
    letter 72 104 (unfold covers in refl) (unfold has in refl)
      (λ n e. unfold takes in ground (arith, e))

letter_T : (c : Char) → (code (up (low c)) == 84) ≡ true → (code (low c) == 116) ≡ true
letter_T =
    letter 84 116 (unfold covers in refl) (unfold has in refl)
      (λ n e. unfold takes in ground (arith, e))

letter_P : (c : Char) → (code (up (low c)) == 80) ≡ true → (code (low c) == 112) ≡ true
letter_P =
    letter 80 112 (unfold covers in refl) (unfold has in refl)
      (λ n e. unfold takes in ground (arith, e))

capital_H : (c : Char) → (code (low c) == 104) ≡ true → (code (up c) == 72) ≡ true
capital_H =
    capital 72 104 (unfold has in refl) (unfold gives in refl)
      (λ n e. unfold takes in ground (arith, e))

capital_T : (c : Char) → (code (low c) == 116) ≡ true → (code (up c) == 84) ≡ true
capital_T =
    capital 84 116 (unfold has in refl) (unfold gives in refl)
      (λ n e. unfold takes in ground (arith, e))

capital_P : (c : Char) → (code (low c) == 112) ≡ true → (code (up c) == 80) ≡ true
capital_P =
    capital 80 112 (unfold has in refl) (unfold gives in refl)
      (λ n e. unfold takes in ground (arith, e))

-- What `f` turns into the first text, `g` turns into the second, letter by letter.
abbrev Fits : (f g : Char → Char) → String → String → Type 0
Fits f g String.[] String.[] = Unit
Fits f g String.[] (String.◌∷◌ d t) = ⊥
Fits f g (String.◌∷◌ c s) String.[] = ⊥
Fits f g (String.◌∷◌ c s) (String.◌∷◌ d t) =
    ((x : Char) → (code (f x) == code c) ≡ true → (code (g x) == code d) ≡ true) × Fits f g s t

fitting :
    (f g : Char → Char) (big small s : String)
    → Fits f g big small
    → str_eq (map_text f s) big ≡ true
    → str_eq (map_text g s) small ≡ true
unfolding map_text
fitting f g String.[] String.[] String.[] h e = e
fitting f g String.[] String.[] (String.◌∷◌ x s) h e =
    let no : str_eq (String.◌∷◌ (f x) (map_text f s)) "" ≡ false =
      ap is_eq (compare.cons-nil (f x) (map_text f s)) in
    ground (arith, no, e)
fitting f g String.[] (String.◌∷◌ d t) s h e = absurd h
fitting f g (String.◌∷◌ c big) String.[] s h e = absurd h
fitting f g (String.◌∷◌ c big) (String.◌∷◌ d small) String.[] h e =
    let no : str_eq "" (String.◌∷◌ c big) ≡ false = ap is_eq (compare.nil-cons c big) in
    ground (arith, no, e)
fitting f g (String.◌∷◌ c big) (String.◌∷◌ d small) (String.◌∷◌ x s) h e =
    let both = sym (same_texts (f x) c (map_text f s) big) ∙ e in
    let head : (code (f x) == code c) ≡ true = ground (arith, both) in
    let tail : str_eq (map_text f s) big ≡ true = ground (arith, both) in
    same_texts (g x) d (map_text g s) small
    ∙ ground (arith, h.0 x head, fitting f g big small s h.1 tail)

map_text-map_text :
    (f g : Char → Char) (s : String) → map_text f (map_text g s) ≡ map_text (λ c. f (g c)) s
unfolding map_text
map_text-map_text f g String.[] = refl
map_text-map_text f g (String.◌∷◌ c s) = ap (String.◌∷◌ (f (g c))) (map_text-map_text f g s)

-- A text whose small letters upper-case to `HTTP` is `http` in small letters.
pub lower_http :
    (s : String) → str_eq (upper (lower s)) "HTTP" ≡ true → str_eq (lower s) "http" ≡ true
unfolding lower upper
lower_http s e =
    fitting (λ c. up (low c)) low "HTTP" "http" s (letter_H, (letter_T, (letter_T, (letter_P, tt))))
      (sym (ap (λ t. str_eq t "HTTP") (map_text-map_text up low s)) ∙ e)

-- A text that is `http` in small letters upper-cases to `HTTP`.
pub upper_http : (s : String) → str_eq (lower s) "http" ≡ true → str_eq (upper s) "HTTP" ≡ true
unfolding lower upper
upper_http s e =
    fitting low up "http" "HTTP" s (capital_H, (capital_T, (capital_T, (capital_P, tt)))) e

capital_bound : (x : ℕ) → has capitals x ≡ true → x ≤ 90
unfolding has
capital_bound x e = ground (arith, e)

small_bound : (x : ℕ) → has smalls x ≡ true → 97 ≤ x
unfolding has
small_bound x e = ground (arith, e)

translate-absent :
    (from to : String) (c : Char) → has from (code c) ≡ false → translate from to c ≡ c
unfolding translate has
translate-absent String.[] to c h = refl
translate-absent (String.◌∷◌ f from) String.[] c h = refl
translate-absent (String.◌∷◌ f from) (String.◌∷◌ t to) c h =
    let h' : has from (code c) ≡ false = ground (arith, h) in
    let n : (code c == code f) ≡ false = ground (arith, h) in rw n (translate-absent from to c h')

low-IsLow : (c : Char) → has capitals (code (low c)) ≡ false
low-IsLow c = elim (Bool-cases (has capitals (code (low c)))) [
  | inr n ↦ n
  | inl y ↦
      let x = code (low c) in
      let none_small : has smalls x ≡ false = elim (Bool-cases (has smalls x)) [
        | inr n ↦ n
        | inl z ↦ ground (arith, capital_bound x y, small_bound x z)
      ] in
      let differs : (x == x) ≡ false = elim (Bool-cases (code c == x)) [
        | inl e ↦ translate-covered capitals smalls c x (unfold covers has in y) none_small e
        | inr n ↦ translate-other capitals smalls c x n none_small
      ] in
      ground (arith, differs)
]

map_text-low : (s : String) → map_text low (map_text low s) ≡ map_text low s
unfolding map_text
map_text-low String.[] = refl
map_text-low (String.◌∷◌ c s) =
    ap₂ String.◌∷◌ (translate-absent capitals smalls (low c) (low-IsLow c)) (map_text-low s)

-- Lower-casing twice is lower-casing once.
pub lower-lower : (s : String) → lower (lower s) ≡ lower s
unfolding lower
lower-lower s = map_text-low s
