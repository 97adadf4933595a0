-- ===== src/Platform/Url.antt =====
-- Paths that are written as texts with an identifier in them, as in `/bookings/${id}/release`, and
-- what the server that gets them reads. Escapes with a percent sign are left as they are.
use Prim.Native.Char.{Char, code}
use Prim.Native.String.{[], ◌∷◌, ◌++◌ as ◌<>◌}
use text.Mathlib.TextLemmas.{nil-append, cons-append}
use billing_app_microservice.Prelude.{
  ℕ, String, Bool, true, not, ◌&&◌, ◌||◌, List, ◌≡◌, refl, arith, leb, nat_eq, if◌then◌else◌,
}
use mathlib.Core.List.{[], ◌∷◌}
use billing_app_microservice.Prelude.Js.{is_empty}

abbrev is_slash : Char → Bool
is_slash c = nat_eq (code c) 0x2f

-- `?` and `#` end the path.
abbrev is_end : Char → Bool
is_end c = nat_eq (code c) 0x3f || nat_eq (code c) 0x23

abbrev push : Char → List String → List String
push c [] = (c ∷ []) ∷ []
push c (p ∷ ps) = (c ∷ p) ∷ ps

-- The parts of a path between its slashes.
unfoldable pub parts : String → List String
parts [] = [] ∷ []
parts (c ∷ s) =
    let rest = parts s in
    if is_end c then [] ∷ [] else if is_slash c then [] ∷ rest else push c rest

abbrev between : Char → (lo hi : ℕ) → Bool
between c lo hi = leb lo (code c) && leb (code c) hi

-- Letters, digits, `-`, `_` and `~`.
abbrev is_plain : Char → Bool
is_plain c =
    between c 0x61 0x7a
    || between c 0x41 0x5a
    || between c 0x30 0x39
    || nat_eq (code c) 0x2d
    || nat_eq (code c) 0x5f
    || nat_eq (code c) 0x7e

unfoldable pub all_plain : String → Bool
all_plain [] = true
all_plain (c ∷ s) = is_plain c && all_plain s

-- A text that stands for itself as one part of a path, as a UUID does.
abbrev pub is_path_part : String → Bool
is_path_part s = not (is_empty s) && all_plain s

parts-all_plain : (s t : String) → all_plain s ≡ true → parts (s <> ("/" <> t)) ≡ s ∷ parts t
unfolding parts all_plain
parts-all_plain [] t h = rw (nil-append, cons-append, nil-append) refl
parts-all_plain (c ∷ s) t h =
    let ih : parts (s <> ("/" <> t)) ≡ s ∷ parts t = parts-all_plain s t (ground arith) in
    rw (cons-append, ih) (ground arith)

parts-last : (s : String) → all_plain s ≡ true → parts s ≡ s ∷ []
unfolding parts all_plain
parts-last [] h = refl
parts-last (c ∷ s) h =
    let ih : parts s ≡ s ∷ [] = parts-last s (ground arith) in rw ih (ground arith)

-- `${id}/last`
unfoldable pub path_with : (id last : String) → List String
path_with id last = parts (id <> ("/" <> last))

-- With an id that stands for itself, the path has the two parts that are meant.
pub path_with-parts :
    (id last : String)
    → is_path_part id ≡ true
    → all_plain last ≡ true
    → path_with id last ≡ id ∷ last ∷ []
unfolding path_with
path_with-parts id last h k =
    let head = parts-all_plain id last (ground arith) in rw (head, parts-last last k) refl

pub parts-id : (id : String) → is_path_part id ≡ true → parts id ≡ id ∷ []
parts-id id h = parts-last id (ground arith)
