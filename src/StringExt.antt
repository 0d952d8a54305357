-- ===== src/StringExt.antt =====
-- `Split`, `ToLower`, `ToUpper` and `Strip` of util/string_ext.hpp on a `std::string`, which is the
-- list of its bytes.
pub mod Split
pub mod Case
pub mod Both
pub mod CStrings
pub mod Fields
use high_dimensional_flow_re.Base.{
  ℕ, zero, suc, ◌+◌, ◌-◌, ◌&&◌, List, [], ◌∷◌, ◌++◌, ltb, leb, ◌==◌, if◌then◌else◌, length, get_or,
}
use high_dimensional_flow_re.Base.Files.{take, drop}

-- `str.substr(begin, n)`.
abbrev pub substr : List ℕ → ℕ → ℕ → List ℕ
substr str begin n = take n (drop begin str)

-- The loop from the index `i` on, where `ahead` is the rest of the string.
unfoldable pub split_from : List ℕ → ℕ → ℕ → ℕ → List ℕ → List (List ℕ)
split_from str separator begin i [] = substr str begin (i - begin) ∷ []
split_from str separator begin i (c ∷ ahead) =
    let next = split_from str separator (i + 1) (i + 1) ahead in
    let on = split_from str separator begin (i + 1) ahead in
    if c == separator then substr str begin (i - begin) ∷ next else on

unfoldable pub split : List ℕ → ℕ → List (List ℕ)
split str separator = split_from str separator 0 0 str

-- The bodies of the loops of `ToLower` and `ToUpper`, on one character.
pub lower : ℕ → ℕ
lower c = if leb c 90 && leb 65 c then c + 32 else c

pub upper : ℕ → ℕ
upper c = if leb c 122 && leb 97 c then c - 32 else c

pub to_lower : List ℕ → List ℕ
to_lower [] = []
to_lower (c ∷ str) = lower c ∷ to_lower str

pub to_upper : List ℕ → List ℕ
to_upper [] = []
to_upper (c ∷ str) = upper c ∷ to_upper str

-- `Split` at two separators: the fields of the groups. The first separator ends a group, the second
-- a field, and a character that is both ends a field. `buffer` holds the fields of the group so far.
pub split_both_from : List ℕ → ℕ → ℕ → ℕ → ℕ → List (List ℕ) → List ℕ → List (List (List ℕ))
split_both_from str sep_first sep_second begin i buffer [] =
    (buffer ++ (substr str begin (i - begin) ∷ [])) ∷ []
split_both_from str sep_first sep_second begin i buffer (c ∷ ahead) =
    let full = buffer ++ (substr str begin (i - begin) ∷ []) in
    let field = split_both_from str sep_first sep_second (i + 1) (i + 1) full ahead in
    let group = split_both_from str sep_first sep_second (i + 1) (i + 1) [] ahead in
    let on = split_both_from str sep_first sep_second begin (i + 1) buffer ahead in
    if c == sep_second then field else (if c == sep_first then full ∷ group else on)

pub split_both : List ℕ → ℕ → ℕ → List (List (List ℕ))
split_both str sep_first sep_second = split_both_from str sep_first sep_second 0 0 [] str

-- The loops of `Strip`: the first place without a space, and the end behind the last such place that
-- is not below `i`.
pub strip_left : ℕ → List ℕ → ℕ
strip_left i [] = i
strip_left i (c ∷ ahead) = let next = strip_left (i + 1) ahead in if c == 32 then next else i

pub strip_right : List ℕ → ℕ → ℕ → ℕ
strip_right str i zero = zero
strip_right str i (suc j) =
    let prev = strip_right str i j in if leb i j && get_or str j 0 == 32 then prev else suc j

pub strip : List ℕ → List ℕ
strip str =
    let i = strip_left 0 str in
    let end = strip_right str i (length str) in if ltb i end then substr str i (end - i) else []
