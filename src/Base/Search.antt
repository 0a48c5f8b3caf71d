-- ===== src/Base/Search.antt =====
-- More of what the code uses of `strings`, on texts as bytes: searching, cutting into words and
-- trimming by a set of bytes.
use my_proxy.Base.{
  ℕ, suc, ◌+◌, Bool, ◌&&◌, ◌||◌, List, [], ◌∷◌, Option, none, some, Bytes, leb, ◌==◌, if◌then◌else◌,
}
use my_proxy.Base.Text.{has_prefix, is_space, contains_byte}

abbrev pub next_index : Option ℕ → Option ℕ
next_index none = none
next_index (some i) = some (suc i)

-- `strings.Index(s, sub)`, `none` for -1.
unfoldable pub index : Bytes → Bytes → Option ℕ
index [] sub = if has_prefix [] sub then some 0 else none
index (c ∷ s) sub =
    let rest = index s sub in if has_prefix (c ∷ s) sub then some 0 else next_index rest

-- `strings.Contains(s, sub)`.
unfoldable pub contains : Bytes → Bytes → Bool
contains [] sub = has_prefix [] sub
contains (c ∷ s) sub = has_prefix (c ∷ s) sub || contains s sub

-- A word in front of others, where it is not empty.
abbrev pub flush : Bytes → List Bytes → List Bytes
flush [] words = words
flush (c ∷ word) words = (c ∷ word) ∷ words

-- The start of a text up to the first separator, and the words behind.
unfoldable pub split_words : (ℕ → Bool) → Bytes → Bytes × List Bytes
split_words is_separator [] = ([], [])
split_words is_separator (c ∷ s) =
    let (word, words) = split_words is_separator s in
    if is_separator c then ([], flush word words) else (c ∷ word, words)

-- `strings.FieldsFunc(s, is_separator)`.
abbrev pub fields_func : (ℕ → Bool) → Bytes → List Bytes
fields_func is_separator s = flush (split_words is_separator s).0 (split_words is_separator s).1

-- `strings.Fields`.
abbrev pub fields : Bytes → List Bytes
fields s = fields_func is_space s

unfoldable pub trim_left_func : (ℕ → Bool) → Bytes → Bytes
trim_left_func cut [] = []
trim_left_func cut (c ∷ s) = let rest = trim_left_func cut s in if cut c then rest else c ∷ s

unfoldable pub trim_right_func : (ℕ → Bool) → Bytes → Bytes
trim_right_func cut [] = []
trim_right_func cut (c ∷ s) = elim (trim_right_func cut s) [
  | [] ↦ if cut c then [] else c ∷ []
  | d ∷ rest ↦ c ∷ d ∷ rest
]

-- `strings.Trim(s, cutset)`.
abbrev pub trim : Bytes → Bytes → Bytes
trim s cutset = trim_right_func (contains_byte cutset) (trim_left_func (contains_byte cutset) s)

-- `strings.TrimLeft(s, cutset)`.
abbrev pub trim_left_set : Bytes → Bytes → Bytes
trim_left_set s cutset = trim_left_func (contains_byte cutset) s

-- `strings.ToLower`.
unfoldable pub to_lower : Bytes → Bytes
to_lower [] = []
to_lower (c ∷ s) = (if leb b'A' c && leb c b'Z' then c + 32 else c) ∷ to_lower s

-- `strings.Split(s, ",")` by the byte that is given: there is always a first part.
unfoldable pub split_byte : ℕ → Bytes → Bytes × List Bytes
split_byte b [] = ([], [])
split_byte b (c ∷ s) =
    let (part, parts) = split_byte b s in if c == b then ([], part ∷ parts) else (c ∷ part, parts)

-- `strings.SplitN(s, "=", 2)` by the byte that is given, where it gives two parts.
unfoldable pub split_two : ℕ → Bytes → Option (Bytes × Bytes)
split_two b [] = none
split_two b (c ∷ s) =
    let rest = split_two b s in
    if c == b
    then some ([], s)
    else elim rest [ none ↦ none | some (key, value) ↦ some (c ∷ key, value) ]
