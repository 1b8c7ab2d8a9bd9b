-- ===== src/Kernel/Identifier.antt =====
-- The two regular expressions of boatstack/kernel/types.go that every identity has to match.
use Prim.Native.Char.{code}
use boatstack.Base.{ℕ, String, Bool, true, false, ◌&&◌, ◌||◌, leb, eqb, ◌≡◌, refl, arith}

-- [A-Za-z0-9]
abbrev is_alphanumeric : ℕ → Bool
is_alphanumeric c = leb b'A' c && leb c b'Z' || leb b'a' c && leb c b'z' || leb b'0' c && leb c b'9'

-- [A-Za-z0-9._-]
abbrev is_word : ℕ → Bool
is_word c = is_alphanumeric c || eqb c b'.' || eqb c b'_' || eqb c b'-'

-- ^[A-Za-z0-9._-]*$
all_words : String → Bool
all_words String.[] = true
all_words (String.◌∷◌ c s) = is_word (code c) && all_words s

-- semanticID: ^[A-Za-z0-9][A-Za-z0-9._-]*$
unfoldable pub semantic_id : String → Bool
unfolding all_words
semantic_id String.[] = false
semantic_id (String.◌∷◌ c s) = is_alphanumeric (code c) && all_words s

-- Whether the text is the rest of segments joined by slashes; `start` if a segment begins here.
segments : Bool → String → Bool
segments true String.[] = false
segments false String.[] = true
segments true (String.◌∷◌ c s) = is_alphanumeric (code c) && segments false s
segments false (String.◌∷◌ c s) =
    let slash = eqb (code c) b'/' in (slash || is_word (code c)) && segments slash s

-- qualifiedSemanticID: ^[A-Za-z0-9][A-Za-z0-9._-]*(?:/[A-Za-z0-9][A-Za-z0-9._-]*)*$
unfoldable pub qualified_semantic_id : String → Bool
unfolding segments
qualified_semantic_id s = segments true s

all_words-segments : (s : String) → all_words s ≡ true → segments false s ≡ true
unfolding all_words segments
all_words-segments String.[] h = refl
all_words-segments (String.◌∷◌ c s) h = ground (arith, all_words-segments s)

pub semantic_id-qualified : (s : String) → semantic_id s ≡ true → qualified_semantic_id s ≡ true
unfolding semantic_id qualified_semantic_id
semantic_id-qualified String.[] h = cc
semantic_id-qualified (String.◌∷◌ c s) h = ground (arith, all_words-segments s)
