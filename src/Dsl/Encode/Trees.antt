-- ===== src/Dsl/Encode/Trees.antt =====
-- The tokens of a well-formed text, as a tree, and the value that the text stands for.
use vanilla_rtb.Base.{ℕ, suc, List, [], ◌∷◌, ◌++◌, Text}
use vanilla_rtb.Dsl.Values.{
  TokenType, Token, Any, view, map_of, vector_of, Members, no_members, Items, no_items, item,
  map_insert, span,
}
use vanilla_rtb.Dsl.Encode.{Result, ok, ◌>>=◌, Casts, primitive_value}

-- Each node carries where it stands in the text.
mutual
  pub data TokenTree : Type 0 where
    primitive : ℕ → ℕ → TokenTree
    string : ℕ → ℕ → TokenTree
    object : ℕ → ℕ → TreeFields → TokenTree
    array : ℕ → ℕ → TreeElements → TokenTree

  pub data TreeFields : Type 0 where
    no_fields : TreeFields
    field : ℕ → ℕ → TokenTree → TreeFields → TreeFields

  pub data TreeElements : Type 0 where
    no_elements : TreeElements
    element : TokenTree → TreeElements → TreeElements

unfoldable pub count_fields : TreeFields → ℕ
count_fields no_fields = 0
count_fields (field s e v fs) = suc (count_fields fs)

unfoldable pub count_elements : TreeElements → ℕ
count_elements no_elements = 0
count_elements (element v vs) = suc (count_elements vs)

abbrev pub token : TokenType → ℕ → ℕ → ℕ → Token
token type start end size = record { type = type; start = start; end = end; size = size }

-- Parents stand before their children; the size of an object is its number of keys, and that of a key
-- is 1.
unfoldable mutual
  unfolding count_fields count_elements

  pub tokens : TokenTree → List Token
  tokens (primitive s e) = token TokenType.primitive s e 0 ∷ []
  tokens (string s e) = token TokenType.string s e 0 ∷ []
  tokens (object s e fs) = token TokenType.object s e (count_fields fs) ∷ field_tokens fs
  tokens (array s e vs) = token TokenType.array s e (count_elements vs) ∷ element_tokens vs

  pub field_tokens : TreeFields → List Token
  field_tokens no_fields = []
  field_tokens (field s e v fs) = token TokenType.string s e 1 ∷ (tokens v ++ field_tokens fs)

  pub element_tokens : TreeElements → List Token
  element_tokens no_elements = []
  element_tokens (element v vs) = tokens v ++ element_tokens vs

-- The map of named values, of which the first under a name counts.
abbrev pub Named : Type 0
Named = List (Text × Any)

unfoldable pub fill : Named → Members → Members
fill [] ms = ms
fill ((name, v) ∷ rest) ms = fill rest (map_insert name v ms)

module _ (casts : Casts) (js : Text) where
  -- The value of a tree, or the exception of its first bad primitive, in the order of the text.
  unfoldable mutual
    pub meaning : TokenTree → Result Any
    meaning (primitive s e) = primitive_value casts (span js s e)
    meaning (string s e) = ok (view (span js s e))
    meaning (object s e fs) = meaning_fields fs >>= λ named. ok (map_of (fill named no_members))
    meaning (array s e vs) = meaning_elements vs >>= λ xs. ok (vector_of xs)

    pub meaning_fields : TreeFields → Result Named
    meaning_fields no_fields = ok []
    meaning_fields (field s e v fs) =
        meaning v >>= λ a. meaning_fields fs >>= λ named. ok ((span js s e, a) ∷ named)

    pub meaning_elements : TreeElements → Result Items
    meaning_elements no_elements = ok no_items
    meaning_elements (element v vs) =
        meaning v >>= λ a. meaning_elements vs >>= λ xs. ok (item a xs)
