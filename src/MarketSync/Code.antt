-- ===== src/MarketSync/Code.antt =====
-- `_generate_code` of api/app/market_sync.py: the code of a new market.
use cpde_web.Prelude.{
  ℕ, zero, suc, ◌+◌, ◌/◌, ◌%◌, Bool, true, false, List, [], ◌∷◌, ◌++◌, ◌&&◌, ◌||◌, leb, ltb, ◌==◌,
  any, length, reverse, if◌then◌else◌,
}
use cpde_web.Prelude.Text.{Text, codes, text_beq, upper, strip}

-- `[A-Z0-9]`
abbrev is_code_char : ℕ → Bool
is_code_char c = (leb b'A' c && leb c b'Z') || (leb b'0' c && leb c b'9')

-- `re.sub(r"[^A-Z0-9]+", "_", s)`; the flag says that the run before is replaced already.
unfoldable pub slug : (in_run : Bool) → Text → Text
slug in_run [] = []
slug in_run (c ∷ s) =
    let inside = slug false s in
    let outside = slug true s in
    if is_code_char c then c ∷ inside else if in_run then outside else b'_' ∷ outside

unfoldable pub drop_underscores : Text → Text
drop_underscores [] = []
drop_underscores (c ∷ s) = if c == b'_' then drop_underscores s else c ∷ s

-- `s.strip("_")`
unfoldable pub strip_underscores : Text → Text
unfolding drop_underscores
strip_underscores s = reverse (drop_underscores (reverse (drop_underscores s)))

abbrev or_market : Text → Text
or_market [] = codes "MARKET"
or_market (c ∷ s) = c ∷ s

unfoldable pub base_code : (name : Text) → Text
unfolding slug strip_underscores
base_code name = or_market (strip_underscores (slug false (upper (strip name))))

-- The decimal text of a number; a number has no more digits than its value.
unfoldable pub digits_from : (fuel n : ℕ) → Text
digits_from zero n = []
digits_from (suc fuel) n =
    let front = digits_from fuel (n / 10) in
    if ltb n 10 then (48 + n) ∷ [] else front ++ (48 + n % 10) ∷ []

unfoldable pub digits : ℕ → Text
unfolding digits_from
digits n = digits_from (suc n) n

-- `f"{base}_{n}"`
unfoldable pub suffixed : (base : Text) → ℕ → Text
unfolding digits
suffixed base n = base ++ b'_' ∷ digits n

abbrev pub is_used : List Text → Text → Bool
is_used existing_codes code = any (text_beq code) existing_codes

-- The loop, from a code and the next suffix.
unfoldable pub next_free : (fuel : ℕ) → (base code : Text) → (n : ℕ) → List Text → Text
next_free zero base code n existing_codes = code
next_free (suc fuel) base code n existing_codes =
    let later = next_free fuel base (suffixed base n) (suc n) existing_codes in
    if is_used existing_codes code then later else code

-- Two rounds more than there are codes: one of the codes that they test is free.
unfoldable pub generate_code : (name : Text) → (existing_codes : List Text) → Text
unfolding base_code next_free
generate_code name existing_codes =
    next_free (suc (suc (length existing_codes))) (base_code name) (base_code name) 2 existing_codes
