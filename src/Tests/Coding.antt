-- ===== src/Tests/Coding.antt =====
-- A concrete serialization with the laws that the store relies on: values are written in front of
-- a text, with unary numbers, and read back off it.
use m_agent.Base.{
  ℕ, zero, suc, String, ◌≡◌, refl, Bool, Option, none, some, List, [], ◌∷◌, ap, length, ◌==ℕ◌,
  if◌then◌else◌,
}
use m_agent.Run.Payload.{Bytes}
use Prim.Native.Char.{Char, char, code, IsLt}
use Prim.Native.Nat.{Ordering, compare}
use Prim.Native.String as Text

pub record Coder (A : Type 0) : Type 0 where
  pub write : A → String → String
  pub read : String → Option (A × String)
  pub read-write : (a : A) (rest : String) → read (write a rest) ≡ some (a, rest)

abbrev zero_mark : Char
zero_mark = char 48 tt

abbrev one_mark : Char
one_mark = char 49 tt

abbrev is_one : Char → Bool
is_one c = code c ==ℕ 49

abbrev and_then : {A B : Type 0} → Option A → (A → Option B) → Option B
and_then none f = none
and_then (some a) f = f a

abbrev write_number : ℕ → String → String
write_number zero rest = Text.◌∷◌ zero_mark rest
write_number (suc n) rest = Text.◌∷◌ one_mark (write_number n rest)

abbrev read_number : String → Option (ℕ × String)
read_number Text.[] = none
read_number (Text.◌∷◌ c s) =
    let more = read_number s in
    if is_one c then and_then more (λ (n, rest). some (suc n, rest)) else some (0, s)

pub read_number-write : (n : ℕ) (rest : String) → read_number (write_number n rest) ≡ some (n, rest)
read_number-write zero rest = refl
read_number-write (suc n) rest = rw (read_number-write n rest) refl

abbrev pub number : Coder ℕ
number = record { write = write_number; read = read_number; read-write = read_number-write }

abbrev write_text : String → String → String
write_text Text.[] rest = Text.◌∷◌ zero_mark rest
write_text (Text.◌∷◌ c s) rest = Text.◌∷◌ one_mark (Text.◌∷◌ c (write_text s rest))

abbrev read_text : String → Option (String × String)
read_text Text.[] = none
read_text (Text.◌∷◌ c Text.[]) = if is_one c then none else some (Text.[], Text.[])
read_text (Text.◌∷◌ c (Text.◌∷◌ d s)) =
    let more = read_text s in
    if is_one c
    then and_then more (λ (t, rest). some (Text.◌∷◌ d t, rest))
    else some (Text.[], Text.◌∷◌ d s)

pub read_text-write : (t rest : String) → read_text (write_text t rest) ≡ some (t, rest)
read_text-write Text.[] Text.[] = refl
read_text-write Text.[] (Text.◌∷◌ d s) = refl
read_text-write (Text.◌∷◌ c t) rest = rw (read_text-write t rest) refl

abbrev pub text : Coder String
text = record { write = write_text; read = read_text; read-write = read_text-write }

abbrev pub both : {A B : Type 0} → Coder A → Coder B → Coder (A × B)
both a b = record {
  write = λ (x, y) rest. a.write x (b.write y rest);
  read = λ s. and_then (a.read s) λ (x, s'). and_then (b.read s') λ (y, rest). some ((x, y), rest);
  read-write = λ (x, y) rest. rw (a.read-write x (b.write y rest), b.read-write y rest) refl;
}

-- Through another type that holds the same.
abbrev pub through :
    {A B : Type 0}
    → Coder B
    → (f : A → B) → (g : B → Option A) → ((a : A) → g (f a) ≡ some a)
    → Coder A
through b f g law = record {
  write = λ a rest. b.write (f a) rest;
  read = λ s. and_then (b.read s) λ (y, rest). and_then (g y) λ a. some (a, rest);
  read-write = λ a rest. rw (b.read-write (f a) rest, law a) refl;
}

-- The clauses of `IsScalar`, whose helpers are private.
abbrev Below : Ordering → Ordering → Type 0
Below Ordering.lt o = IsLt o
Below Ordering.eq _ = ⊥
Below Ordering.gt _ = ⊥

abbrev Scalar : Ordering → Ordering → Ordering → Type 0
Scalar Ordering.lt o q = Unit
Scalar Ordering.eq o q = Below o q
Scalar Ordering.gt o q = Below o q

abbrev to_below : (o q : Ordering) → Option (Below o q)
to_below Ordering.lt Ordering.lt = some tt
to_below Ordering.lt Ordering.eq = none
to_below Ordering.lt Ordering.gt = none
to_below Ordering.eq q = none
to_below Ordering.gt q = none

abbrev to_scalar : (m o q : Ordering) → Option (Scalar m o q)
to_scalar Ordering.lt o q = some tt
to_scalar Ordering.eq o q = to_below o q
to_scalar Ordering.gt o q = to_below o q

to_below-some : (o q : Ordering) (h : Below o q) → to_below o q ≡ some h
to_below-some Ordering.lt Ordering.lt h = refl
to_below-some Ordering.lt Ordering.eq h = absurd h
to_below-some Ordering.lt Ordering.gt h = absurd h
to_below-some Ordering.eq q h = absurd h
to_below-some Ordering.gt q h = absurd h

to_scalar-some : (m o q : Ordering) (h : Scalar m o q) → to_scalar m o q ≡ some h
to_scalar-some Ordering.lt o q h = refl
to_scalar-some Ordering.eq o q h = to_below-some o q h
to_scalar-some Ordering.gt o q h = to_below-some o q h

abbrev map_some : {A B : Type 0} → (A → B) → Option A → Option B
map_some f none = none
map_some f (some a) = some (f a)

-- A number as a character, where it is one.
abbrev to_char : ℕ → Option Char
to_char n = map_some (char n) (to_scalar (compare n 55296) (compare 57343 n) (compare n 1114112))

to_char-code : (c : Char) → to_char (code c) ≡ some c
to_char-code (char n h) =
    ap (map_some (char n))
      (to_scalar-some (compare n 55296) (compare 57343 n) (compare n 1114112) h)

-- One number for each character.
abbrev pub encode_text : String → Bytes
encode_text Text.[] = []
encode_text (Text.◌∷◌ c s) = code c ∷ encode_text s

abbrev pub decode_text : Bytes → Option String
decode_text [] = some Text.[]
decode_text (n ∷ ns) =
    let more = decode_text ns in and_then (to_char n) λ c. and_then more λ s. some (Text.◌∷◌ c s)

pub decode_text-encode : (s : String) → decode_text (encode_text s) ≡ some s
decode_text-encode Text.[] = refl
decode_text-encode (Text.◌∷◌ c s) = rw (to_char-code c, decode_text-encode s) refl

-- A list behind its length.
module _ {A : Type 0} (a : Coder A) where
  abbrev write_items : List A → String → String
  write_items [] rest = rest
  write_items (x ∷ xs) rest = a.write x (write_items xs rest)

  abbrev read_items : ℕ → String → Option (List A × String)
  read_items zero s = some ([], s)
  read_items (suc n) s =
      and_then (a.read s) λ (x, s'). and_then (read_items n s') λ (xs, rest). some (x ∷ xs, rest)

  pub read_items-write :
      (xs : List A) (rest : String) → read_items (length xs) (write_items xs rest) ≡ some (xs, rest)
  read_items-write [] rest = refl
  read_items-write (x ∷ xs) rest =
      rw (a.read-write x (write_items xs rest), read_items-write xs rest) refl

  abbrev pub items : Coder (List A)
  items = record {
    write = λ xs rest. write_number (length xs) (write_items xs rest);
    read = λ s. and_then (read_number s) λ (n, s'). read_items n s';
    read-write = λ xs rest.
        rw (read_number-write (length xs) (write_items xs rest), read_items-write xs rest) refl;
  }

abbrev of_option : {A : Type 0} → Option A → List A
of_option none = []
of_option (some a) = a ∷ []

abbrev to_option : {A : Type 0} → List A → Option (Option A)
to_option [] = some none
to_option (a ∷ []) = some (some a)
to_option (a ∷ b ∷ rest) = none

pub to_option-of_option : {A : Type 0} (o : Option A) → to_option (of_option o) ≡ some o
to_option-of_option none = refl
to_option-of_option (some a) = refl

abbrev pub optional : {A : Type 0} → Coder A → Coder (Option A)
optional a = through (items a) of_option to_option to_option-of_option
