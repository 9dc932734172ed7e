-- ===== src/Connections/Versions.antt =====
-- Versions of database servers: crates/app/src/features/connections/drivers/versions.rs.
pub mod Capabilities
pub mod Own
pub mod Parsing
pub mod Upgrade
use pairdbase.Common.{
  ℕ, ◌+◌, ◌-◌, ◌*◌, ◌^◌, Bool, not, ◌&&◌, ◌||◌, Option, none, some, List, [], ◌∷◌, ltb, leb, ◌==◌,
  if◌then◌else◌, take,
}
use pairdbase.Text.{Text, is_ascii_digit, split}

pub record ServerVersion : Type 0 where
  pub major : ℕ
  pub minor : ℕ
  pub patch : ℕ
  pub raw : Text

-- The number that digits write behind a number.
unfoldable pub value : ℕ → Text → ℕ
value n [] = n
value n (c ∷ t) = value (n * 10 + (c - b'0')) t

-- `str::parse::<u32>` on a text of digits: it fails on none and on a number of more than 32 bits.
unfoldable pub parse_u32 : Text → Option ℕ
unfolding value
parse_u32 [] = none
parse_u32 (c ∷ t) = let n = value 0 (c ∷ t) in if ltb n (2 ^ 32) then some n else none

abbrev pub or_skip : Option ℕ → List ℕ → List ℕ
or_skip none ns = ns
or_skip (some n) ns = n ∷ ns

-- The `filter_map` over the pieces.
unfoldable pub numbers : List Text → List ℕ
unfolding parse_u32
numbers [] = []
numbers (w ∷ ws) = or_skip (parse_u32 w) (numbers ws)

abbrev pub or_zero : Option ℕ → ℕ
or_zero none = 0
or_zero (some n) = n

-- `slice::get`.
unfoldable pub get_elem? : List ℕ → ℕ → Option ℕ
get_elem? [] k = none
get_elem? (n ∷ ns) k = if k == 0 then some n else get_elem? ns (k - 1)

unfoldable pub parse : Text → ServerVersion
unfolding numbers get_elem? split
parse raw =
    let nums = take 3 (numbers (split (λ c. not (is_ascii_digit c)) raw)) in
    record {
      major = or_zero (get_elem? nums 0);
      minor = or_zero (get_elem? nums 1);
      patch = or_zero (get_elem? nums 2);
      raw = raw;
    }

-- `(self.major, self.minor) >= (major, minor)`.
unfoldable pub at_least : ServerVersion → ℕ → ℕ → Bool
at_least v major minor = ltb major v.major || (v.major == major && leb minor v.minor)
