-- ===== src/Lexer/Vocabulary.antt =====
-- The words of the language: keywords and annotations.
use three.Base.{
  ◌≡◌, refl, sym, ◌∙◌, Bool, true, false, not, ◌&&◌, List, [], ◌∷◌, some, if◌then◌else◌, Bool-cases,
  inl, inr, arith, Bytes, bytes_eq, bytes_eq_iff,
}
use three.Token.Kind.{TokenType, type_eq}
use three.Lexer.Keywords.{keyword_map, find_type}

-- Every entry passes a test.
abbrev every : (Bytes → TokenType → Bool) → List (Bytes × TokenType) → Bool
every test [] = true
every test ((key, type) ∷ map) = test key type && every test map

every_tail :
    (test : Bytes → TokenType → Bool) (key : Bytes) (t : TokenType) (map : List (Bytes × TokenType))
    → every test ((key, t) ∷ map) ≡ true
    → every test map ≡ true
every_tail test key t map h = ground arith

every_head :
    (test : Bytes → TokenType → Bool) (key word : Bytes) (t : TokenType)
    (map : List (Bytes × TokenType)) {type : TokenType}
    → every test ((key, t) ∷ map) ≡ true
    → key ≡ word
    → some t ≡ some type
    → test word type ≡ true
every_head test key word t map {type} h same found =
    let passed : test key t ≡ true = ground arith in
    let et : t ≡ type = cc in rw (← same, ← et) passed

find_type-every :
    (test : Bytes → TokenType → Bool) (word : Bytes) (map : List (Bytes × TokenType))
    {type : TokenType}
    → every test map ≡ true
    → find_type word map ≡ some type
    → test word type ≡ true
unfolding find_type
find_type-every test word [] h e = cc
find_type-every test word ((key, t) ∷ map) h e = elim (Bool-cases (bytes_eq key word)) [
  | inl same ↦ every_head test key word t map h ((bytes_eq_iff _ _).0 same) (rw same at e)
  | inr other ↦ find_type-every test word map (every_tail test key t map h) (rw other at e)
]

-- The word that stands for a type in a map.
abbrev word_of : TokenType → List (Bytes × TokenType) → Bytes
word_of type [] = []
word_of type ((key, t) ∷ map) = if type_eq t type then key else word_of type map

-- Two words of one type are one word.
find_type-injective :
    (map : List (Bytes × TokenType)) (v w : Bytes) (type : TokenType)
    → every (λ key t. bytes_eq (word_of t map) key) map ≡ true
    → find_type v map ≡ some type
    → find_type w map ≡ some type
    → v ≡ w
find_type-injective map v w type h ev ew =
    let test = λ (key : Bytes) (t : TokenType). bytes_eq (word_of t map) key in
    sym ((bytes_eq_iff _ _).0 (find_type-every test v map h ev))
    ∙ (bytes_eq_iff _ _).0 (find_type-every test w map h ew)

-- Two words that the keyword map gives one type are the same word.
pub keyword-injective :
    (v w : Bytes) (type : TokenType)
    → find_type v keyword_map ≡ some type
    → find_type w keyword_map ≡ some type
    → v ≡ w
keyword-injective v w type =
    find_type-injective keyword_map v w type (unfold bytes_eq type_eq in refl)

-- The annotations that `Token::isAnnotation` does not list.
abbrev pub is_unlisted : TokenType → Bool
is_unlisted TokenType.annotation_todo = true
is_unlisted TokenType.annotation_sensitive = true
is_unlisted TokenType.annotation_untrusted = true
is_unlisted _ = false

abbrev agree : Bool → Bool → Bool
agree a b = if a then b else not b
