-- ===== src/Tests/Routes.antt =====
-- A router of paths, and a request for a profile.
use Prim.Native.Char.{Char}
use Prim.Native.String.{[] as empty, ◌∷◌ as text_cons}
use text.Mathlib.TextLemmas.{append_assoc, append-nil, cons-append, nil-append}
use codebase_be_nestjs.Common.{
  String, ◌==◌, ◌≡◌, refl, sym, ap, ◌∙◌, Bool, true, false, not, ◌&&◌, Option, none, some, List, [],
  ◌∷◌, map, arith, if◌then◌else◌,
}
use codebase_be_nestjs.Common.Text.{◌<>◌}
use codebase_be_nestjs.Api.{
  Part, fixed, param, part_text, part_name, path_text, meets, occurs, safe_characters, is_safe,
  is_segment, are_segments, Router, matching, target_of,
}
use codebase_be_nestjs.Api.Dtos.{get, get_profile_dto}
use codebase_be_nestjs.Api.Controllers.{handlers, get_profile}
use codebase_be_nestjs.Api.Targets.{and-true, safe-ne}
use codebase_be_nestjs.Api.Dispatch.{matching-only}

abbrev prepend : Char → List String → List String
prepend c [] = text_cons c "" ∷ []
prepend c (p ∷ ps) = text_cons c p ∷ ps

-- The texts between slashes, up to a question mark.
unfoldable pieces : String → List String
pieces empty = "" ∷ []
pieces (text_cons c s) =
    let rest = pieces s in
    if text_cons c "" == "?"
    then "" ∷ []
    else if text_cons c "" == "/"
    then "" ∷ rest
    else prepend c rest

abbrev tail : List String → List String
tail [] = []
tail (p ∷ ps) = ps

abbrev parse : String → Part
parse empty = fixed ""
parse (text_cons c s) = if text_cons c "" == ":" then param s else fixed (text_cons c s)

abbrev is_plain : String → Bool
is_plain empty = true
is_plain (text_cons c s) =
    (not (text_cons c "" == "?") && not (text_cons c "" == "/")) && is_plain s

abbrev are_plain : List String → Bool
are_plain [] = true
are_plain (s ∷ ss) = is_plain s && are_plain ss

pieces-plain :
    (s t : String) (ps : List String)
    → is_plain s ≡ true
    → pieces t ≡ "" ∷ ps
    → pieces (s <> t) ≡ s ∷ ps
unfolding pieces
pieces-plain empty t ps h e = ap pieces (nil-append t) ∙ e
pieces-plain (text_cons c s) t ps h e =
    let (here, rest) = and-true _ (is_plain s) h in
    let (mark, slash) = and-true (not (text_cons c "" == "?")) _ here in
    ap pieces (cons-append c s t)
    ∙ rw (not-true _ mark, not-true _ slash, pieces-plain s t ps rest e) refl
  where
    not-true : (b : Bool) → not b ≡ true → b ≡ false
    not-true b h = ground (arith, h)

head-append : (c : Char) (x : String) → text_cons c "" <> x ≡ text_cons c x
head-append c x = cons-append c "" x ∙ ap (text_cons c) (nil-append x)

pieces-slash : (x : String) → pieces ("/" <> x) ≡ "" ∷ pieces x
unfolding pieces
pieces-slash x = ap pieces (head-append "/" x)

pieces-path :
    (segments : List String) (t : String)
    → are_plain segments ≡ true
    → pieces t ≡ "" ∷ []
    → pieces (path_text segments <> t) ≡ "" ∷ segments
pieces-path [] t h e = ap pieces (nil-append t) ∙ e
pieces-path (s ∷ ss) t h e =
    let (plain, rest) = and-true (is_plain s) (are_plain ss) h in
    let tail : String = path_text ss <> t in
    ap pieces (append_assoc ("/" <> s) (path_text ss) t ∙ append_assoc "/" s tail)
    ∙ pieces-slash (s <> tail)
    ∙ ap (λ ps. "" ∷ ps) (pieces-plain s tail ss plain (pieces-path ss t rest e))

safe-plain : (s : String) → is_safe s ≡ true → is_plain s ≡ true
safe-plain empty h = refl
safe-plain (text_cons c s) h =
    let (safe, rest) = and-true (occurs (text_cons c "") safe_characters) (is_safe s) h in
    rw
      (
        safe-ne "?" (text_cons c "") refl safe,
        safe-ne "/" (text_cons c "") refl safe,
        safe-plain s rest,
      )
      refl

segments-plain : (ss : List String) → are_segments ss ≡ true → are_plain ss ≡ true
segments-plain [] h = refl
segments-plain (s ∷ ss) h =
    let (segment, rest) = and-true (is_segment s) (are_segments ss) h in
    rw (safe-plain s (and-true (not (s == "")) (is_safe s) segment).1, segments-plain ss rest) refl

pieces-end : (t : String) → pieces (t <> "") ≡ pieces t
pieces-end t = ap pieces (append-nil t)

param_parse : (name : String) → parse (":" <> name) ≡ param name
param_parse name = ap parse (head-append ":" name)

-- A segment is a fixed part, and a name behind a colon is a parameter.
parse-part : (part : Part) → is_segment (part_name part) ≡ true → parse (part_text part) ≡ part
parse-part (param name) h = param_parse name
parse-part (fixed empty) h = refl
parse-part (fixed (text_cons c s)) h =
    let safe = (and-true _ (is_safe (text_cons c s)) h).1 in
    rw (safe-ne ":" (text_cons c "") refl (and-true _ (is_safe s) safe).0) refl

part-plain : (part : Part) → is_segment (part_name part) ≡ true → is_plain (part_text part) ≡ true
part-plain (fixed s) h = safe-plain s (and-true _ (is_safe s) h).1
part-plain (param name) h =
    ap is_plain (head-append ":" name) ∙ safe-plain name (and-true _ (is_safe name) h).1

parts-plain :
    (parts : List Part)
    → are_segments (map part_name parts) ≡ true
    → (are_plain (map part_text parts) ≡ true) × (map parse (map part_text parts) ≡ parts)
parts-plain [] h = (refl, refl)
parts-plain (p ∷ ps) h =
    let (segment, rest) = and-true (is_segment (part_name p)) (are_segments (map part_name ps)) h in
    let (plain, parsed) = parts-plain ps rest in
    (rw (part-plain p segment, plain) refl, rw (parse-part p segment, parsed) refl)

abbrev matched : String → String → Option (List (String × String))
matched pattern target = meets (map parse (tail (pieces pattern))) (tail (pieces target))

empty-pieces : pieces "" ≡ "" ∷ []
unfolding pieces
empty-pieces = refl

query-pieces : (q : String) → pieces ("?" <> q) ≡ "" ∷ []
unfolding pieces
query-pieces q = ap pieces (head-append "?" q)

path-pieces : (ss : List String) → are_plain ss ≡ true → pieces (path_text ss) ≡ "" ∷ ss
path-pieces ss h = sym (pieces-end (path_text ss)) ∙ pieces-path ss "" h empty-pieces

abbrev router : Router
router = record {
  matched = matched;
  path = λ parts segments names safe.
      let (plain, parsed) = parts-plain parts names in
      rw
        (
          path-pieces (map part_text parts) plain,
          path-pieces segments (segments-plain segments safe),
          parsed,
        )
        refl;
  query = λ pattern query segments safe.
      let plain = segments-plain segments safe in
      rw
        (pieces-path segments ("?" <> query) plain (query-pieces query), path-pieces segments plain)
        refl;
}

-- The request of fetch-test.service.ts.
matching-only_example :
    matching router handlers get (
      target_of get_profile_dto
        (some (("id", some "b0ce42dc-21a7-4ba1-8193-ab046c0380f1") ∷ []))
        none)
    ≡ (get_profile, ("id", "b0ce42dc-21a7-4ba1-8193-ab046c0380f1") ∷ []) ∷ []
matching-only_example =
    matching-only router get_profile_dto "b0ce42dc-21a7-4ba1-8193-ab046c0380f1" "page" "1" [] refl
