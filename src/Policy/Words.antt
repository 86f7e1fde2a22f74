-- ===== src/Policy/Words.antt =====
-- The word sets of src/amlguard/policy/retrieval.py: `set(re.findall(r"[a-zA-ZÀ-ÿ0-9]+", s.lower()))`
-- over the code points of a text. `lower_code` lists every character that `str.lower` takes into the
-- class of the pattern; any other stays outside, as it does in the source.
use Prim.Native.Char.{code}
use amlguard_eu_ai_agent.Prelude.{
  ℕ, String, Bool, true, false, List, [], ◌∷◌, ◌++◌, ◌+◌, ◌&&◌, ◌||◌, not, leb, ◌=ℕ◌, if◌then◌else◌,
}

abbrev pub codes : String → List ℕ
codes String.[] = []
codes (String.◌∷◌ c s) = code c ∷ codes s

-- Capital letters of ASCII and Latin-1 move by 32; then Ÿ, İ (an i and a combining dot), ẞ, the
-- Kelvin and the Ångström sign.
unfoldable pub lower_code : ℕ → List ℕ
lower_code c =
    if leb b'A' c && leb c b'Z' || leb 0xC0 c && leb c 0xDE && not (c =ℕ 0xD7)
    then (c + 32) ∷ []
    else if c =ℕ 0x178
    then 0xFF ∷ []
    else if c =ℕ 0x130
    then b'i' ∷ 0x307 ∷ []
    else if c =ℕ 0x1E9E
    then 0xDF ∷ []
    else if c =ℕ 0x212A
    then b'k' ∷ []
    else if c =ℕ 0x212B
    then 0xE5 ∷ []
    else c ∷ []

unfoldable pub lower : List ℕ → List ℕ
unfolding lower_code
lower [] = []
lower (c ∷ cs) = lower_code c ++ lower cs

-- `[a-zA-ZÀ-ÿ0-9]`
abbrev pub is_word_code : ℕ → Bool
is_word_code c =
    leb b'a' c && leb c b'z'
    || leb b'A' c && leb c b'Z'
    || leb 0xC0 c && leb c 0xFF
    || leb b'0' c && leb c b'9'

abbrev flush : List ℕ → List (List ℕ) → List (List ℕ)
flush [] ws = ws
flush (c ∷ cs) ws = (c ∷ cs) ∷ ws

-- The word at the front, and the words behind it.
runs : List ℕ → List ℕ × List (List ℕ)
runs [] = ([], [])
runs (c ∷ cs) = let (w, ws) = runs cs in if is_word_code c then (c ∷ w, ws) else ([], flush w ws)

find_words : List ℕ → List (List ℕ)
unfolding runs
find_words cs = let (w, ws) = runs cs in flush w ws

-- The characters that `str.strip` takes off.
abbrev pub is_space : ℕ → Bool
is_space c =
    leb 9 c && leb c 13
    || leb 28 c && leb c 32
    || c =ℕ 0x85
    || c =ℕ 0xA0
    || c =ℕ 0x1680
    || leb 0x2000 c && leb c 0x200A
    || c =ℕ 0x2028
    || c =ℕ 0x2029
    || c =ℕ 0x202F
    || c =ℕ 0x205F
    || c =ℕ 0x3000

abbrev pub same_word : List ℕ → List ℕ → Bool
same_word [] [] = true
same_word (a ∷ as') (b ∷ bs) = a =ℕ b && same_word as' bs
same_word _ _ = false

abbrev pub contains_word : List (List ℕ) → List ℕ → Bool
contains_word [] w = false
contains_word (x ∷ xs) w = same_word x w || contains_word xs w

distinct : List (List ℕ) → List (List ℕ)
distinct [] = []
distinct (w ∷ ws) = let rest = distinct ws in if contains_word rest w then rest else w ∷ rest

unfoldable pub words : List ℕ → List (List ℕ)
unfolding lower find_words distinct
words cs = distinct (find_words (lower cs))

-- `" ".join(texts)`
abbrev pub join : List String → List ℕ
join [] = []
join (s ∷ []) = codes s
join (s ∷ t ∷ ts) = codes s ++ 32 ∷ join (t ∷ ts)

-- `len(tokens & haystack)`
unfoldable pub count_common : List (List ℕ) → List (List ℕ) → ℕ
count_common [] haystack = 0
count_common (t ∷ ts) haystack =
    let rest = count_common ts haystack in if contains_word haystack t then 1 + rest else rest
