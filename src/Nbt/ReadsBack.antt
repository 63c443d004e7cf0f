-- ===== src/Nbt/ReadsBack.antt =====
-- NBT written by src/nbt/nbt.go is read back.
use chunkymonkey.Base.{
  ℕ, zero, suc, ◌+◌, ◌^◌, ◌≤◌, ◌<◌, ◌≡◌, refl, sym, ap, ◌∙◌, subst, inl, inr, Bool, true, false,
  List, [], ◌∷◌, ◌++◌, arith, ◌==◌, if◌then◌else◌, Bool-cases, ne→==, length, All,
}
use chunkymonkey.Base.Words.{lt16, lt32}
use chunkymonkey.Proto.Wire.{Bytes, Received, InRange, put_array, eof, end_at_top, received, failed}
use chunkymonkey.Proto.Wire.ReadsBack.{read_or-put, read_array_or-put, read_or-put_then}
use chunkymonkey.Permission.{Name, same_name}
use chunkymonkey.Nbt.{
  Tag, Tags, Compound, type_of, count, write_string, write_tag, write_tags, write_compound, write,
  set_tag, read_string, read_tag, read_tags, read_compound, as_root, read, byte_tag, short_tag,
  int_tag, long_tag, float_tag, double_tag, byte_array_tag, string_tag, list_tag, compound_tag,
  no_tags, tags, empty, named,
}
use mathlib.Core.List.{append_assoc}

-- The number of tags, rows and compounds.
unfoldable mutual
  pub size : Tag → ℕ
  size (list_tag t ts) = suc (size_tags ts)
  size (compound_tag c) = suc (size_compound c)
  size t = 1

  pub size_tags : Tags → ℕ
  size_tags no_tags = 1
  size_tags (tags t ts) = suc (size t + size_tags ts)

  pub size_compound : Compound → ℕ
  size_compound empty = 1
  size_compound (named name t c) = suc (size t + size_compound c)

abbrev IsBytes : List ℕ → Type 0
IsBytes bs = All (λ b. b < 256 ^ 1) bs

abbrev pub IsName : Name → Type 0
IsName name = (length name < 2 ^ 15) × IsBytes name

abbrev pub has_name : Name → Compound → Bool
has_name name empty = false
has_name name (named n t c) = if same_name name n then true else has_name name c

-- The compound with a tag behind the others.
abbrev pub behind : Compound → Compound → Compound
behind empty d = d
behind (named n t c) d = named n t (behind c d)

-- Values in their ranges, lists of one type, and compounds without two tags of a name.
unfoldable mutual
  pub IsTag : Tag → Type 0
  IsTag (byte_tag v) = v < 256
  IsTag (short_tag v) = v < 2 ^ 16
  IsTag (int_tag v) = v < 2 ^ 32
  IsTag (long_tag v) = v < 2 ^ 64
  IsTag (float_tag v) = v < 2 ^ 32
  IsTag (double_tag v) = v < 2 ^ 64
  IsTag (byte_array_tag bs) = (length bs < 2 ^ 31) × IsBytes bs
  IsTag (string_tag s) = IsName s
  IsTag (list_tag t ts) = (t < 256) × (count ts < 2 ^ 31) × AreTags t ts
  IsTag (compound_tag c) = IsCompound empty c

  pub AreTags : ℕ → Tags → Type 0
  AreTags t no_tags = Unit
  AreTags t (tags tag ts) = (type_of tag ≡ t) × IsTag tag × AreTags t ts

  pub IsCompound : Compound → Compound → Type 0
  IsCompound done empty = Unit
  IsCompound done (named name t c) =
      IsName name
      × IsTag t
      × (has_name name done ≡ false)
      × IsCompound (behind done (named name t empty)) c

set_tag-behind :
    (done : Compound) (name : Name) (t : Tag)
    → has_name name done ≡ false
    → set_tag done name t ≡ behind done (named name t empty)
unfolding set_tag
set_tag-behind empty name t h = refl
set_tag-behind (named n u c) name t h = elim (Bool-cases (same_name name n)) [
  | inl same ↦
      absurd (not_both (sym h ∙ ap (λ (b : Bool). if b then true else has_name name c) same))
  | inr other ↦ rw other (
      ap (named n u) (
        set_tag-behind c name t
          (sym (ap (λ (b : Bool). if b then true else has_name name c) other) ∙ h)))
]
  where
    not_both : ¬ (false ≡ true)
    not_both e = cc

behind_assoc : (c d e : Compound) → behind (behind c d) e ≡ behind c (behind d e)
behind_assoc empty d e = refl
behind_assoc (named n t c) d e = ap (named n t) (behind_assoc c d e)

length_not_negative : (n : ℕ) → n < 2 ^ 15 → lt16 n 0 ≡ false
length_not_negative n h = ground arith

length_not_negative32 : (n : ℕ) → n < 2 ^ 31 → lt32 n 0 ≡ false
length_not_negative32 n h = ground arith

read_string-write :
    (s : Name) (k : Name → Bytes → Received Compound) (rest : Bytes)
    → IsName s
    → read_string k (write_string s ++ rest) ≡ k s rest
unfolding read_string write_string InRange
read_string-write s k rest h =
    read_or-put_then (failed [] eof) ((2, length s) ∷ []) _ (put_array 1 s) rest (omega arith)
    ∙ rw (length_not_negative (length s) h.0) (read_array_or-put (failed [] eof) 1 s k rest h.1)

behind_empty : (c : Compound) → behind c empty ≡ c
behind_empty empty = refl
behind_empty (named n t c) = ap (named n t) (behind_empty c)

type_of_cases : (t : Tag) → (0 < type_of t) × (type_of t < 256)
type_of_cases (byte_tag v) = (omega arith, omega arith)
type_of_cases (short_tag v) = (omega arith, omega arith)
type_of_cases (int_tag v) = (omega arith, omega arith)
type_of_cases (long_tag v) = (omega arith, omega arith)
type_of_cases (float_tag v) = (omega arith, omega arith)
type_of_cases (double_tag v) = (omega arith, omega arith)
type_of_cases (byte_array_tag bs) = (omega arith, omega arith)
type_of_cases (string_tag s) = (omega arith, omega arith)
type_of_cases (list_tag t ts) = (omega arith, omega arith)
type_of_cases (compound_tag c) = (omega arith, omega arith)

type_of-lt : (t : Tag) → InRange ((1, type_of t) ∷ [])
unfolding InRange
type_of-lt t = (type_of_cases t).1

type_of_not_end : (t : Tag) → (type_of t == 0) ≡ false
type_of_not_end t = ne→== (type_of t) 0 (λ e. omega (arith, e, (type_of_cases t).0))

size_pos : (t : Tag) → 0 < size t
unfolding size
size_pos (byte_tag v) = omega arith
size_pos (short_tag v) = omega arith
size_pos (int_tag v) = omega arith
size_pos (long_tag v) = omega arith
size_pos (float_tag v) = omega arith
size_pos (double_tag v) = omega arith
size_pos (byte_array_tag bs) = omega arith
size_pos (string_tag s) = omega arith
size_pos (list_tag t ts) = omega arith
size_pos (compound_tag c) = omega arith

mutual
  unfolding read_tag read_tags read_compound write_tag write_tags write_compound size size_tags
      size_compound IsTag AreTags IsCompound InRange

  read_tag-write :
      (t : Tag) (fuel : ℕ) (k : Tag → Bytes → Received Compound) (rest : Bytes)
      → size t ≤ fuel
      → IsTag t
      → read_tag fuel (type_of t) k (write_tag t ++ rest) ≡ k t rest
  read_tag-write t zero k rest le h = absurd (omega (arith, size_pos t))
  read_tag-write (byte_tag v) (suc fuel) k rest le h =
      read_or-put (failed [] eof) ((1, v) ∷ []) _ rest h
  read_tag-write (short_tag v) (suc fuel) k rest le h =
      read_or-put (failed [] eof) ((2, v) ∷ []) _ rest h
  read_tag-write (int_tag v) (suc fuel) k rest le h =
      read_or-put (failed [] eof) ((4, v) ∷ []) _ rest h
  read_tag-write (long_tag v) (suc fuel) k rest le h =
      read_or-put (failed [] eof) ((8, v) ∷ []) _ rest h
  read_tag-write (float_tag v) (suc fuel) k rest le h =
      read_or-put (failed [] eof) ((4, v) ∷ []) _ rest h
  read_tag-write (double_tag v) (suc fuel) k rest le h =
      read_or-put (failed [] eof) ((8, v) ∷ []) _ rest h
  read_tag-write (byte_array_tag bs) (suc fuel) k rest le h =
      read_or-put_then (failed [] eof) ((4, length bs) ∷ []) _ (put_array 1 bs) rest (omega arith)
      ∙ rw (length_not_negative32 (length bs) h.0)
          (read_array_or-put (failed [] eof) 1 bs (λ bs. k (byte_array_tag bs)) rest h.1)
  read_tag-write (string_tag s) (suc fuel) k rest le h =
      read_string-write s (λ s. k (string_tag s)) rest h
  read_tag-write (list_tag t ts) (suc fuel) k rest le h =
      read_or-put_then (failed [] eof) ((1, t) ∷ (4, count ts) ∷ []) _ (write_tags ts) rest
        (h.0, omega arith)
      ∙ rw (length_not_negative32 (count ts) h.1)
          (read_tags-write ts t fuel (λ ts. k (list_tag t ts)) rest (omega arith) h.2)
  read_tag-write (compound_tag c) (suc fuel) k rest le h =
      read_compound-write c empty fuel (λ c. k (compound_tag c)) rest (omega arith) h

  read_tags-write :
      (ts : Tags) (t fuel : ℕ) (k : Tags → Bytes → Received Compound) (rest : Bytes)
      → size_tags ts ≤ fuel
      → AreTags t ts
      → read_tags fuel t (count ts) k (write_tags ts ++ rest) ≡ k ts rest
  read_tags-write no_tags t zero k rest le h = absurd (omega arith)
  read_tags-write no_tags t (suc fuel) k rest le h = refl
  read_tags-write (tags tag ts) t zero k rest le h = absurd (omega arith)
  read_tags-write (tags tag ts) t (suc fuel) k rest le h =
      let one = λ (got : Tag). read_tags fuel (type_of tag) (count ts) (λ ts. k (tags got ts)) in
      ap
        (λ (u : ℕ).
          read_tags (suc fuel) u (suc (count ts)) k ((write_tag tag ++ write_tags ts) ++ rest))
        (sym h.0)
      ∙ ap (read_tag fuel (type_of tag) one) (append_assoc (write_tag tag) (write_tags ts) rest)
      ∙ read_tag-write tag fuel one (write_tags ts ++ rest) (omega arith) h.1
      ∙ read_tags-write ts (type_of tag) fuel (λ ts. k (tags tag ts)) rest (omega arith)
          (subst (λ (u : ℕ). AreTags u ts) (sym h.0) h.2)

  read_compound-write :
      (c done : Compound) (fuel : ℕ) (k : Compound → Bytes → Received Compound) (rest : Bytes)
      → size_compound c ≤ fuel
      → IsCompound done c
      → read_compound fuel done k (write_compound c ++ rest) ≡ k (behind done c) rest
  read_compound-write empty done zero k rest le h = absurd (omega arith)
  read_compound-write empty done (suc fuel) k rest le h =
      read_or-put (k done []) ((1, 0) ∷ []) _ rest (omega arith)
      ∙ ap (λ (c : Compound). k c rest) (sym (behind_empty done))
  read_compound-write (named name t c) done zero k rest le h = absurd (omega arith)
  read_compound-write (named name t c) done (suc fuel) k rest le h =
      let put = λ (got : Name) (tag : Tag). read_compound fuel (set_tag done got tag) k in
      read_or-put_then (k done []) ((1, type_of t) ∷ []) _
        (write_string name ++ (write_tag t ++ write_compound c)) rest (type_of-lt t)
      ∙ rw (type_of_not_end t) (
          ap (read_string (λ got. read_tag fuel (type_of t) (put got)))
            (append_assoc (write_string name) (write_tag t ++ write_compound c) rest)
          ∙ read_string-write name (λ got. read_tag fuel (type_of t) (put got))
              ((write_tag t ++ write_compound c) ++ rest) h.0
          ∙ ap (read_tag fuel (type_of t) (put name))
              (append_assoc (write_tag t) (write_compound c) rest)
          ∙ read_tag-write t fuel (put name) (write_compound c ++ rest) (omega arith) h.1
          ∙ ap (λ (d : Compound). read_compound fuel d k (write_compound c ++ rest))
              (set_tag-behind done name t h.2)
          ∙ read_compound-write c (behind done (named name t empty)) fuel k rest (omega arith) h.3
          ∙ ap (λ (d : Compound). k d rest) (behind_assoc done (named name t empty) c))

ten-InRange : InRange ((1, 10) ∷ [])
unfolding InRange
ten-InRange = omega arith

-- A compound that is written, with values in their ranges, lists of one type and no name twice, is read
-- back with its tags in the order in which they were written, and nothing of the stream after it is
-- read; fuel for every tag, row of tags and compound in it is enough.
pub read-write :
    (c : Compound) (fuel : ℕ) (rest : Bytes)
    → suc (size_compound c) ≤ fuel
    → IsCompound empty c
    → read fuel (write c ++ rest) ≡ received (c ∷ []) rest
unfolding read write write_tag size IsTag
read-write c fuel rest le h =
    read_or-put_then (failed [] end_at_top) ((1, 10) ∷ []) _ (write_string [] ++ write_compound c)
      rest ten-InRange
    ∙ ap (read_string (λ name. read_tag fuel 10 (as_root name)))
        (append_assoc (write_string []) (write_compound c) rest)
    ∙ read_string-write [] (λ name. read_tag fuel 10 (as_root name)) (write_compound c ++ rest)
        (omega arith, tt)
    ∙ read_tag-write (compound_tag c) fuel (as_root []) rest le h
