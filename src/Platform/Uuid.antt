-- ===== src/Platform/Uuid.antt =====
-- The texts in which PostgreSQL gives out a UUID: lower case, with four hyphens. It reads other
-- spellings too, and takes them for the same value.
use Prim.Native.Char.{Char, code}
use Prim.Native.String.{[], ◌∷◌}
use billing_app_microservice.Prelude.{
  ℕ, String, Bool, true, false, ◌&&◌, ◌||◌, leb, nat_eq, if◌then◌else◌,
}

abbrev between : Char → (lo hi : ℕ) → Bool
between c lo hi = leb lo (code c) && leb (code c) hi

-- A digit, or one of the letters a to f.
abbrev is_hex : Char → Bool
is_hex c = between c 0x30 0x39 || between c 0x61 0x66

-- `x` in the shape stands for a hexadecimal digit.
unfoldable pub has_shape : (shape s : String) → Bool
has_shape [] [] = true
has_shape [] (c ∷ s) = false
has_shape (d ∷ p) [] = false
has_shape (d ∷ p) (c ∷ s) =
    (if nat_eq (code d) 0x78 then is_hex c else nat_eq (code c) (code d)) && has_shape p s

unfoldable pub is_uuid : String → Bool
is_uuid s = has_shape "xxxxxxxx-xxxx-xxxx-xxxx-xxxxxxxxxxxx" s
