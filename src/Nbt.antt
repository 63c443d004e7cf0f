-- ===== src/Nbt.antt =====
-- The NBT format: src/nbt/nbt.go, over the streams of Proto/Wire. A string is the list of its bytes, a
-- number a bit pattern; the tags of a compound are a list of pairs in the order in which the code
-- visits the map.
pub mod ReadsBack
mod Tests
use chunkymonkey.Base.{ℕ, zero, suc, List, [], ◌∷◌, ◌++◌, ◌==◌, if◌then◌else◌, length}
use chunkymonkey.Base.Words.{lt16, lt32}
use chunkymonkey.Proto.Wire.{
  Bytes, Received, put_fields, put_array, read_or, read_with, read_array, invalid_tag_type,
  root_name, end_at_top, no_compound, panic, out_of_fuel, received, failed,
}
use chunkymonkey.Permission.{Name, same_name}

mutual
  pub data Tag : Type 0 where
    byte_tag : ℕ → Tag
    short_tag : ℕ → Tag
    int_tag : ℕ → Tag
    long_tag : ℕ → Tag
    float_tag : ℕ → Tag
    double_tag : ℕ → Tag
    byte_array_tag : List ℕ → Tag
    string_tag : List ℕ → Tag
    list_tag : ℕ → Tags → Tag
    compound_tag : Compound → Tag

  pub data Tags : Type 0 where
    no_tags : Tags
    tags : Tag → Tags → Tags

  pub data Compound : Type 0 where
    empty : Compound
    named : Name → Tag → Compound → Compound

abbrev pub type_of : Tag → ℕ
type_of (byte_tag v) = 1
type_of (short_tag v) = 2
type_of (int_tag v) = 3
type_of (long_tag v) = 4
type_of (float_tag v) = 5
type_of (double_tag v) = 6
type_of (byte_array_tag bs) = 7
type_of (string_tag s) = 8
type_of (list_tag t ts) = 9
type_of (compound_tag c) = 10

abbrev pub count : Tags → ℕ
count no_tags = 0
count (tags t ts) = suc (count ts)

unfoldable pub write_string : Name → Bytes
write_string s = put_fields ((2, length s) ∷ []) ++ put_array 1 s

unfoldable mutual
  pub write_tag : Tag → Bytes
  write_tag (byte_tag v) = put_fields ((1, v) ∷ [])
  write_tag (short_tag v) = put_fields ((2, v) ∷ [])
  write_tag (int_tag v) = put_fields ((4, v) ∷ [])
  write_tag (long_tag v) = put_fields ((8, v) ∷ [])
  write_tag (float_tag v) = put_fields ((4, v) ∷ [])
  write_tag (double_tag v) = put_fields ((8, v) ∷ [])
  write_tag (byte_array_tag bs) = put_fields ((4, length bs) ∷ []) ++ put_array 1 bs
  write_tag (string_tag s) = write_string s
  write_tag (list_tag t ts) = put_fields ((1, t) ∷ (4, count ts) ∷ []) ++ write_tags ts
  write_tag (compound_tag c) = write_compound c

  pub write_tags : Tags → Bytes
  write_tags no_tags = []
  write_tags (tags t ts) = write_tag t ++ write_tags ts

  pub write_compound : Compound → Bytes
  write_compound empty = put_fields ((1, 0) ∷ [])
  write_compound (named name t c) =
      put_fields ((1, type_of t) ∷ []) ++ (write_string name ++ (write_tag t ++ write_compound c))

-- The root has the empty name.
unfoldable pub write : Compound → Bytes
write c = put_fields ((1, 10) ∷ []) ++ (write_string [] ++ write_compound c)

-- A tag of the name is replaced.
unfoldable pub set_tag : Compound → Name → Tag → Compound
set_tag empty name tag = named name tag empty
set_tag (named n t c) name tag =
    if same_name name n then named n tag c else named n t (set_tag c name tag)

unfoldable pub read_string : (Name → Bytes → Received Compound) → Bytes → Received Compound
read_string k =
    read_with (2 ∷ []) (λ n. if lt16 n 0 then (λ rest. failed [] panic) else read_array 1 n k)

-- The fuel is one for each tag, row of tags and compound that is read. At the end of the stream a
-- compound ends: the error of reading the type is not returned, and the type is then that of the end.
unfoldable mutual
  pub read_tag : ℕ → ℕ → (Tag → Bytes → Received Compound) → Bytes → Received Compound
  read_tag zero t k = λ bs. failed [] out_of_fuel
  read_tag (suc fuel) t k =
      if t == 1
      then read_with (1 ∷ []) (λ v. k (byte_tag v))
      else if t == 2
      then read_with (2 ∷ []) (λ v. k (short_tag v))
      else if t == 3
      then read_with (4 ∷ []) (λ v. k (int_tag v))
      else if t == 4
      then read_with (8 ∷ []) (λ v. k (long_tag v))
      else if t == 5
      then read_with (4 ∷ []) (λ v. k (float_tag v))
      else if t == 6
      then read_with (8 ∷ []) (λ v. k (double_tag v))
      else if t == 7
      then read_with (4 ∷ []) (λ n.
        if lt32 n 0
        then (λ rest. failed [] panic)
        else read_array 1 n (λ bs. k (byte_array_tag bs)))
      else if t == 8
      then read_string (λ s. k (string_tag s))
      else if t == 9
      then read_with (1 ∷ 4 ∷ []) (λ type n.
        if lt32 n 0
        then (λ rest. failed [] panic)
        else read_tags fuel type n (λ ts. k (list_tag type ts)))
      else if t == 10
      then read_compound fuel empty (λ c. k (compound_tag c))
      else (λ rest. failed [] (invalid_tag_type t))

  pub read_tags : ℕ → ℕ → ℕ → (Tags → Bytes → Received Compound) → Bytes → Received Compound
  read_tags zero t n k = λ bs. failed [] out_of_fuel
  read_tags (suc fuel) t zero k = k no_tags
  read_tags (suc fuel) t (suc n) k =
      read_tag fuel t (λ tag. read_tags fuel t n (λ ts. k (tags tag ts)))

  pub read_compound :
      ℕ → Compound → (Compound → Bytes → Received Compound) → Bytes → Received Compound
  read_compound zero done k = λ bs. failed [] out_of_fuel
  read_compound (suc fuel) done k = read_or (k done []) (1 ∷ []) (λ t.
      if t == 0
      then k done
      else read_string
          (λ name. read_tag fuel t (λ tag. read_compound fuel (set_tag done name tag) k)))

abbrev pub as_root : Name → Tag → Bytes → Received Compound
as_root (b ∷ name) tag rest = failed [] root_name
as_root [] (compound_tag c) rest = received (c ∷ []) rest
as_root [] tag rest = failed [] no_compound

-- An end tag at the top, or an empty stream, is an error of its own.
unfoldable pub read : ℕ → Bytes → Received Compound
read fuel = read_or (failed [] end_at_top) (1 ∷ []) (λ t.
    if t == 0
    then (λ rest. failed [] end_at_top)
    else read_string (λ name. read_tag fuel t (as_root name)))
