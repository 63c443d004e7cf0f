-- ===== src/Nbt/Tests.antt =====
-- A compound with a short, and a list of two bytes.
use chunkymonkey.Base.{◌≡◌, refl, [], ◌∷◌, ◌++◌, arith}
use chunkymonkey.Proto.Wire.{
  put_be, put_fields, put_array, read_be_loop, read_or, read_array_or, invalid_tag_type, received,
  failed,
}
use chunkymonkey.Permission.{same_name}
use chunkymonkey.Nbt.{
  Compound, write_string, write_tag, write_tags, write_compound, write, set_tag, read_string,
  read_tag, read_compound, read, byte_tag, short_tag, list_tag, no_tags, tags, empty, named,
}
use chunkymonkey.Nbt.ReadsBack.{
  size, size_tags, size_compound, IsTag, AreTags, IsCompound, read-write,
}

abbrev saved : Compound
saved =
    named (83 ∷ []) (short_tag 258)
      (named (76 ∷ []) (list_tag 1 (tags (byte_tag 5) (tags (byte_tag 6) no_tags))) empty)

saved_bytes :
    write saved
    ≡ 10 ∷ 0 ∷ 0 ∷ 2 ∷ 0 ∷ 1 ∷ 83 ∷ 1 ∷ 2 ∷ 9 ∷ 0 ∷ 1 ∷ 76 ∷ 1 ∷ 0 ∷ 0 ∷ 0 ∷ 2 ∷ 5 ∷ 6 ∷ 0 ∷ []
unfolding write write_tag write_tags write_compound write_string put_fields put_be put_array
saved_bytes = refl

-- A compound that breaks off is read as if it had ended.
broken : read 5 (10 ∷ 0 ∷ 0 ∷ []) ≡ received (empty ∷ []) []
unfolding read read_string read_tag read_compound read_or read_be_loop read_array_or
broken = refl

bad_type : read 5 (11 ∷ 0 ∷ 0 ∷ []) ≡ failed [] (invalid_tag_type 11)
unfolding read read_string read_tag read_or read_be_loop read_array_or
bad_type = refl

-- Of two tags of one name the second stays.
replaced :
    set_tag (named (83 ∷ []) (byte_tag 1) empty) (83 ∷ []) (byte_tag 2)
    ≡ named (83 ∷ []) (byte_tag 2) empty
unfolding set_tag same_name
replaced = refl

saved-IsCompound : IsCompound empty saved
unfolding IsCompound IsTag AreTags same_name
saved-IsCompound = (
  (omega arith, (omega arith, tt)),
  omega arith,
  refl,
  (
    (omega arith, (omega arith, tt)),
    (omega arith, omega arith, (refl, omega arith, (refl, omega arith, tt))),
    refl,
    tt,
  ),
)

read-write_example : read 20 (write saved ++ (1 ∷ [])) ≡ received (saved ∷ []) (1 ∷ [])
unfolding size_compound size size_tags
read-write_example = read-write saved 20 (1 ∷ []) (omega arith) saved-IsCompound
