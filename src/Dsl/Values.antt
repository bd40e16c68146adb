-- ===== src/Dsl/Values.antt =====
-- rtb/DSL/encoders.hpp: the tokens that the walk reads and the `boost::any` that it fills.
use vanilla_rtb.Base.{ℕ, ◌-◌, Option, none, some, Bool, Text, ℤ, take, drop, text_eq, if◌then◌else◌}

-- jsmntype_t
pub data TokenType : Type 0 where
  undefined object array string primitive : TokenType

-- jsmntok_t
pub record Token : Type 0 where
  pub type : TokenType
  pub start : ℕ
  pub end : ℕ
  pub size : ℕ

-- What a `boost::any` holds here: nothing; a `double`, in millionths; an `int64_t`; a `bool`; a
-- `string_view`, by its characters; a `std::map` from views; a `std::vector`.
mutual
  pub data Any : Type 0 where
    empty : Any
    double : ℤ → Any
    int64 : ℤ → Any
    boolean : Bool → Any
    view : Text → Any
    map_of : Members → Any
    vector_of : Items → Any

  -- The map by its elements in the order of their insertion: nothing here depends on the order.
  pub data Members : Type 0 where
    no_members : Members
    member : Text → Any → Members → Members

  pub data Items : Type 0 where
    no_items : Items
    item : Any → Items → Items

-- std::map::find
unfoldable pub map_find : Text → Members → Option Any
map_find name no_members = none
map_find name (member k v ms) = if text_eq name k then some v else map_find name ms

abbrev pub add_last : Text → Any → Members → Members
add_last name v no_members = member name v no_members
add_last name v (member k w ms) = member k w (add_last name v ms)

-- std::map::insert: an element that is there stays.
unfoldable pub map_insert : Text → Any → Members → Members
map_insert name v ms = elim (map_find name ms) [ some _ ↦ ms | none ↦ add_last name v ms ]

-- The `push_back` of a value, if there is one.
unfoldable pub push_back : Any → Items → Items
push_back v no_items = item v no_items
push_back v (item w xs) = item w (push_back v xs)

-- The characters of `js` that a token stands for.
unfoldable pub span : Text → ℕ → ℕ → Text
span js start end = take (end - start) (drop start js)
