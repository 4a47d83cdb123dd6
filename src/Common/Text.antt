-- ===== src/Common/Text.antt =====
-- The string methods that the source uses, over the native texts.
use Prim.Native.Char.{Char}
use Prim.Native.String.{String, [], ◌∷◌, ◌++◌, len, slice}
use mathlib.Core.Path.{◌≡◌, refl, sym, ap, ◌∙◌}
use mathlib.Core.Bool.{Bool, true, false, not, ◌&&◌, ◌||◌}
use native.Mathlib.Omega.{arith}
use mathlib.Core.Logic.{◌≢◌}
use text.Mathlib.TextEquality.{eq_iff}
use text.Mathlib.Text.{starts_with, ◌==◌}
use text.Mathlib.TextLemmas.{nil-append, cons-append, append-nil, nil≢cons}
use text.Mathlib.TextPositions.{starts_with-append, slice-append_right, len-append}
use codebase_be_nestjs.Common.Tests.{if◌then◌else◌}

infixl 65 ◌<>◌
abbrev pub ◌<>◌ : String → String → String
s <> t = s ++ t

-- The text behind a prefix.
abbrev pub drop_prefix : String → String → String
drop_prefix s p = slice s (len p) (len s)

pub drop_prefix-append : (p s : String) → drop_prefix (p <> s) p ≡ s
drop_prefix-append p s = rw (len-append p s) (slice-append_right p s)

-- `s.replace(p, r)` with a text for a pattern: the first occurrence only. The replacement has no
-- dollar sign.
unfoldable pub replace : String → String → String → String
replace [] p r = if p == "" then r else ""
replace (c ∷ s) p r =
    let rest = replace s p r in
    if starts_with (c ∷ s) p then r <> drop_prefix (c ∷ s) p else c ∷ rest

-- The text that a replacement stands for: `$$` is a dollar sign, `$&` what was matched, and $` and
-- $' are the texts before and behind it.
unfoldable pub expand : (before matched behind : String) → String → String
expand before matched behind [] = ""
expand before matched behind (c ∷ []) = c ∷ ""
expand before matched behind (c ∷ d ∷ s) =
    let kept = c ∷ expand before matched behind (d ∷ s) in
    let rest = expand before matched behind s in
    if c ∷ "" == "$"
    then (if d ∷ "" == "$"
        then "$" <> rest
        else if d ∷ "" == "&"
        then matched <> rest
        else if d ∷ "" == "`"
        then before <> rest
        else if d ∷ "" == "'"
        then behind <> rest
        else kept)
    else kept

-- `s.replace(p, r)` with any text for `r`, behind the text `before`.
unfoldable pub replace_expanded : (before s p r : String) → String
replace_expanded before [] p r = if p == "" then expand before p "" r else ""
replace_expanded before (c ∷ s) p r =
    let rest = replace_expanded (before <> (c ∷ "")) s p r in
    if starts_with (c ∷ s) p
    then expand before p (drop_prefix (c ∷ s) p) r <> drop_prefix (c ∷ s) p
    else c ∷ rest

-- No character is a dollar sign.
unfoldable pub has_no_dollar : String → Bool
has_no_dollar [] = true
has_no_dollar (c ∷ s) = let rest = has_no_dollar s in not (c ∷ "" == "$") && rest

expand-no_dollar :
    (before matched behind r : String) → has_no_dollar r ≡ true → expand before matched behind r ≡ r
unfolding expand has_no_dollar
expand-no_dollar before matched behind [] h = refl
expand-no_dollar before matched behind (c ∷ []) h = refl
expand-no_dollar before matched behind (c ∷ d ∷ s) h =
    let (plain, rest) = both (c ∷ "" == "$") (has_no_dollar (d ∷ s)) h in
    rw (plain, expand-no_dollar before matched behind (d ∷ s) rest) refl
  where
    both : (a b : Bool) → not a && b ≡ true → (a ≡ false) × (b ≡ true)
    both a b h = (ground (arith, h), ground (arith, h))

pub replace_expanded-replace :
    (before s p r : String) → has_no_dollar r ≡ true → replace_expanded before s p r ≡ replace s p r
unfolding replace_expanded replace
replace_expanded-replace before [] p r h = rw (expand-no_dollar before p "" r h) refl
replace_expanded-replace before (c ∷ s) p r h =
    rw
      (
        expand-no_dollar before p (drop_prefix (c ∷ s) p) r h,
        replace_expanded-replace (before <> (c ∷ "")) s p r h,
      )
      refl

-- The characters that a pattern of KEYS gives a meaning.
abbrev pub is_special : String → Bool
is_special c = c == "*" || (c == "?" || (c == "[" || c == "\\"))

-- Every character of the text stands for itself in a pattern.
unfoldable pub is_literal : String → Bool
is_literal [] = true
is_literal (c ∷ s) = let rest = is_literal s in not (is_special (c ∷ "")) && rest

pub is_literal-append :
    (s t : String) → is_literal s ≡ true → is_literal t ≡ true → is_literal (s <> t) ≡ true
unfolding is_literal
is_literal-append [] t h i = ap is_literal (nil-append t) ∙ i
is_literal-append (c ∷ s) t h i =
    ap is_literal (cons-append c s t)
    ∙ literal_cons (not (is_special (c ∷ ""))) (is_literal s) (is_literal (s <> t)) h
        λ e. is_literal-append s t e i
  where
    literal_cons : (a b d : Bool) → a && b ≡ true → (b ≡ true → d ≡ true) → a && d ≡ true
    literal_cons a b d h f = ground arith

-- A text whose characters are those of `lower` or those of `upper`, each at its place.
unfoldable pub is_any_case : String → String → String → Bool
is_any_case [] [] [] = true
is_any_case (c ∷ s) (l ∷ lower) (u ∷ upper) =
    let rest = is_any_case s lower upper in (c ∷ "" == l ∷ "" || c ∷ "" == u ∷ "") && rest
is_any_case _ _ _ = false

pub ==-false : (a b : String) → a ≢ b → (a == b) ≡ false
==-false a b h = ground (arith, eq_iff a b)

-- `p` does not begin inside `s` in the text `s <> tail`.
abbrev pub Avoids : String → String → String → Type 0
Avoids [] tail p = Unit {0}
Avoids (c ∷ s) tail p = (starts_with (c ∷ s <> tail) p ≡ false) × Avoids s tail p

replace_hit :
    (t p r : String) {c : Char} {u : String}
    → t ≡ c ∷ u
    → starts_with t p ≡ true
    → replace t p r ≡ r <> drop_prefix t p
unfolding replace
replace_hit [] p r e h = absurd (nil≢cons e)
replace_hit (d ∷ s) p r e h = rw h

replace_miss :
    (c : Char) (s p r : String)
    → starts_with (c ∷ s) p ≡ false
    → replace (c ∷ s) p r ≡ c ∷ replace s p r
unfolding replace
replace_miss c s p r h = rw h

-- Cutting off a prefix that is there.
pub replace-append_left : (c : Char) (p s r : String) → replace ((c ∷ p) <> s) (c ∷ p) r ≡ r <> s
replace-append_left c p s r =
    replace_hit ((c ∷ p) <> s) (c ∷ p) r (cons-append c p s) (starts_with-append (c ∷ p) s)
    ∙ ap (λ x. r <> x) (drop_prefix-append (c ∷ p) s)

-- The occurrence at the end, if there is none before.
pub replace-append_right :
    (s : String) (c : Char) (p r : String)
    → Avoids s (c ∷ p) (c ∷ p)
    → replace (s <> (c ∷ p)) (c ∷ p) r ≡ s <> r
replace-append_right [] c p r a =
    ap (λ x. replace x (c ∷ p) r) (nil-append (c ∷ p) ∙ sym (append-nil (c ∷ p)))
    ∙ replace-append_left c p [] r
    ∙ append-nil r
    ∙ sym (nil-append r)
replace-append_right (d ∷ s) c p r a =
    ap (λ x. replace x (c ∷ p) r) (cons-append d s (c ∷ p))
    ∙ replace_miss d (s <> (c ∷ p)) (c ∷ p) r (rw (cons-append d s (c ∷ p)) at a.0)
    ∙ ap (λ x. d ∷ x) (replace-append_right s c p r a.1)
    ∙ sym (cons-append d s r)
