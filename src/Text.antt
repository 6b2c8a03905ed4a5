-- ===== src/Text.antt =====
-- The functions of Go's `strings` and `net` packages that the program applies to its texts:
-- TrimSpace, ToLower, HasPrefix, SplitHostPort and JoinHostPort. A text is a list of code points.
pub mod Trim
pub mod HostPort
use Prim.Native.Char.{code}
use Prim.Native.String.{String}
use task_discovery_service.Prelude.{
  ℕ, zero, suc, ◌+◌, ◌-◌, Bool, true, false, ◌&&◌, ◌||◌, Option, none, some, List, [], ◌∷◌, ◌++◌,
  Text, nat_beq, leb, ltb, if◌then◌else◌, any, take, drop, length, map,
}

-- The code points of a literal.
abbrev pub codes : String → Text
codes String.[] = []
codes (String.◌∷◌ c s) = code c ∷ codes s

-- unicode.IsSpace
unfoldable pub is_space : ℕ → Bool
is_space c =
    (leb 9 c && leb c 13)
    || nat_beq c 32
    || nat_beq c 0x85
    || nat_beq c 0xa0
    || nat_beq c 0x1680
    || (leb 0x2000 c && leb c 0x200a)
    || nat_beq c 0x2028
    || nat_beq c 0x2029
    || nat_beq c 0x202f
    || nat_beq c 0x205f
    || nat_beq c 0x3000

unfoldable pub trim_left : Text → Text
trim_left [] = []
trim_left (c ∷ s) = let rest = trim_left s in if is_space c then rest else c ∷ s

abbrev put_back : ℕ → Text → Text
put_back c [] = if is_space c then [] else c ∷ []
put_back c (d ∷ t) = c ∷ d ∷ t

unfoldable pub trim_right : Text → Text
trim_right [] = []
trim_right (c ∷ s) = put_back c (trim_right s)

-- strings.TrimSpace
unfoldable pub trim_space : Text → Text
unfolding trim_left trim_right
trim_space s = trim_right (trim_left s)

-- strings.ToLower, on the letters that become one of the program's literals: those from A to Z, the
-- dotted I and the Kelvin sign.
unfoldable pub to_lower : Text → Text
to_lower = map (λ c.
    if leb 65 c && leb c 90
    then c + 32
    else if nat_beq c 0x130
    then 105
    else if nat_beq c 0x212a
    then 107
    else c)

-- strings.ToUpper, on the letters that become one of the program's literals: those from a to z, the
-- dotless i and the long s.
unfoldable pub to_upper : Text → Text
to_upper = map (λ c.
    if leb 97 c && leb c 122
    then c - 32
    else if nat_beq c 0x131
    then 73
    else if nat_beq c 0x17f
    then 83
    else c)

unfoldable pub has_prefix : Text → Text → Bool
has_prefix s [] = true
has_prefix [] (d ∷ p) = false
has_prefix (c ∷ s) (d ∷ p) = nat_beq c d && has_prefix s p

-- strings.Contains
unfoldable pub contains_text : Text → Text → Bool
contains_text [] sub = has_prefix [] sub
contains_text (c ∷ s) sub = has_prefix (c ∷ s) sub || contains_text s sub

abbrev pub contains : ℕ → Text → Bool
contains c s = any (λ d. nat_beq d c) s

-- IndexByteString and LastIndexByteString
abbrev pub index : ℕ → Text → Option ℕ
index c [] = none
index c (d ∷ s) =
    let later = index c s in
    if nat_beq d c then some 0 else elim later [ none ↦ none | some i ↦ some (suc i) ]

abbrev pub last_index : ℕ → Text → Option ℕ
last_index c [] = none
last_index c (d ∷ s) = elim (last_index c s) [
  | some i ↦ some (suc i)
  | none ↦ if nat_beq d c then some 0 else none
]

-- The last checks of SplitHostPort: no bracket stands where none may.
unfoldable pub finish_split : Text → ℕ → Text → ℕ → ℕ → Option (Text × Text)
finish_split s i host j k =
    if contains b'[' (drop j s)
    then none
    else if contains b']' (drop k s)
    then none
    else some (host, drop (suc i) s)

split_bracketed : Text → ℕ → Option (Text × Text)
unfolding finish_split
split_bracketed s i = elim (index b']' s) [
  | none ↦ none
  | some end ↦
      if nat_beq (suc end) (length s)
      then none
      else if nat_beq (suc end) i
      then finish_split s i (drop 1 (take end s)) 1 (suc end)
      else none
]

split_plain : Text → ℕ → Option (Text × Text)
unfolding finish_split
split_plain s i =
    let host = take i s in if contains b':' host then none else finish_split s i host 0 0

-- net.SplitHostPort; `none` is an error, which no caller reads.
unfoldable pub split_host_port : Text → Option (Text × Text)
unfolding split_bracketed split_plain
split_host_port s = elim (last_index b':' s) [
  | none ↦ none
  | some i ↦ if has_prefix s (b'[' ∷ []) then split_bracketed s i else split_plain s i
]

-- net.JoinHostPort
unfoldable pub join_host_port : Text → Text → Text
join_host_port host port =
    if contains b':' host then b'[' ∷ (host ++ (b']' ∷ b':' ∷ port)) else host ++ (b':' ∷ port)
