-- ===== src/State/Store/Codec.antt =====
-- A concrete `json` for the tests: a text from which the fields that it was made of are read back.
use Prim.Native.Char.{Char, code}
use engineering_intelligence.Base.{
  false, true, ℕ, zero, suc, ◌==◌, ◌≡◌, refl, String, Option, none, some, List, [], ◌∷◌,
  if◌then◌else◌,
}
use engineering_intelligence.Base.Int.{pos, negsuc}
use engineering_intelligence.Base.Dict.{Dict}
use engineering_intelligence.State.Payload.{
  Json, text, number, decimal, integer, texts, arrays, mapping, null, boolean,
}

abbrev Parser {ℓ} : Type ℓ → Type ℓ
Parser A = String → Option (A × String)

infixl 5 ◌>>=◌
abbrev ◌>>=◌ {ℓ κ} :
    {A : Type ℓ} {B : Type κ} → Option (A × String) → (A → Parser B) → Option (B × String)
none >>= f = none
(some read) >>= f = f read.0 read.1

abbrev counted : Option (ℕ × String) → Option (ℕ × String)
counted none = none
counted (some read) = some (suc read.0, read.1)

abbrev put_number : ℕ → String → String
put_number zero rest = String.◌∷◌ "e" rest
put_number (suc n) rest = String.◌∷◌ "a" (put_number n rest)

abbrev get_number : Parser ℕ
get_number String.[] = none
get_number (String.◌∷◌ c s) =
    let more = counted (get_number s) in if code c == b'a' then more else some (zero, s)

get_number-put : (n : ℕ) (rest : String) → get_number (put_number n rest) ≡ some (n, rest)
get_number-put zero rest = refl
get_number-put (suc n) rest = rw (get_number-put n rest) refl

abbrev put_chars : String → String → String
put_chars String.[] rest = rest
put_chars (String.◌∷◌ c s) rest = String.◌∷◌ c (put_chars s rest)

abbrev size : String → ℕ
size String.[] = zero
size (String.◌∷◌ c s) = suc (size s)

abbrev cons : Char → String → Parser String
cons c s rest = some (String.◌∷◌ c s, rest)

abbrev get_chars : ℕ → Parser String
get_chars zero s = some (String.[], s)
get_chars (suc n) String.[] = none
get_chars (suc n) (String.◌∷◌ c s) = get_chars n s >>= cons c

get_chars-put : (s rest : String) → get_chars (size s) (put_chars s rest) ≡ some (s, rest)
get_chars-put String.[] rest = refl
get_chars-put (String.◌∷◌ c s) rest = rw (get_chars-put s rest) refl

abbrev put_text : String → String → String
put_text s rest = put_number (size s) (put_chars s rest)

abbrev get_text : Parser String
get_text s = get_number s >>= get_chars

get_text-put : (s rest : String) → get_text (put_text s rest) ≡ some (s, rest)
get_text-put s rest = rw (get_number-put (size s) (put_chars s rest), get_chars-put s rest) refl

module _ {ℓ} {A : Type ℓ} (put : A → String → String) (get : Parser A) where
  abbrev put_each : List A → String → String
  put_each [] rest = rest
  put_each (a ∷ l) rest = put a (put_each l rest)

  abbrev amount : List A → ℕ
  amount [] = zero
  amount (a ∷ l) = suc (amount l)

  abbrev get_each : ℕ → Parser (List A)
  get_each zero s = some ([], s)
  get_each (suc n) s = get s >>= (λ a s'. get_each n s' >>= (λ l s''. some (a ∷ l, s'')))

  abbrev put_list : List A → String → String
  put_list l rest = put_number (amount l) (put_each l rest)

  abbrev get_list : Parser (List A)
  get_list s = get_number s >>= get_each

  module _ (law : (a : A) (rest : String) → get (put a rest) ≡ some (a, rest)) where
    get_each-put :
        (l : List A) (rest : String) → get_each (amount l) (put_each l rest) ≡ some (l, rest)
    get_each-put [] rest = refl
    get_each-put (a ∷ l) rest = rw (law a (put_each l rest), get_each-put l rest) refl

    get_list-put : (l : List A) (rest : String) → get_list (put_list l rest) ≡ some (l, rest)
    get_list-put l rest = rw (get_number-put (amount l) (put_each l rest), get_each-put l rest) refl

  abbrev put_entry : (String × A) → String → String
  put_entry entry rest = put_text entry.0 (put entry.1 rest)

  abbrev get_entry : Parser (String × A)
  get_entry s = get_text s >>= (λ k s'. get s' >>= (λ a s''. some ((k, a), s'')))

  get_entry-put :
      ((a : A) (rest : String) → get (put a rest) ≡ some (a, rest))
      → (entry : String × A) (rest : String) → get_entry (put_entry entry rest) ≡ some (entry, rest)
  get_entry-put law entry rest = rw (get_text-put entry.0 (put entry.1 rest), law entry.1 rest) refl

abbrev put_json : Json → String → String
put_json (text s) rest = put_number 0 (put_text s rest)
put_json (number n) rest = put_number 1 (put_number n rest)
put_json (decimal n) rest = put_number 2 (put_number n rest)
put_json (texts l) rest = put_number 3 (put_list put_text get_text l rest)
put_json (mapping d) rest =
    put_number 4 (put_list (put_entry put_text get_text) (get_entry put_text get_text) d rest)
put_json null rest = put_number 5 rest
put_json (boolean false) rest = put_number 6 rest
put_json (boolean true) rest = put_number 7 rest
put_json (integer (pos n)) rest = put_number 8 (put_number n rest)
put_json (integer (negsuc n)) rest = put_number 9 (put_number n rest)
put_json (arrays l) rest =
    put_number 10 (put_list (put_list put_text get_text) (get_list put_text get_text) l rest)

abbrev wrapped {ℓ} : {A : Type ℓ} → (A → Json) → Option (A × String) → Option (Json × String)
wrapped make none = none
wrapped make (some read) = some (make read.0, read.1)

abbrev get_body : ℕ → Parser Json
get_body zero s = wrapped text (get_text s)
get_body (suc zero) s = wrapped number (get_number s)
get_body (suc (suc zero)) s = wrapped decimal (get_number s)
get_body (suc (suc (suc zero))) s = wrapped texts (get_list put_text get_text s)
get_body (suc (suc (suc (suc zero)))) s =
    wrapped mapping (get_list (put_entry put_text get_text) (get_entry put_text get_text) s)
get_body (suc (suc (suc (suc (suc zero))))) s = some (null, s)
get_body (suc (suc (suc (suc (suc (suc zero)))))) s = some (boolean false, s)
get_body (suc (suc (suc (suc (suc (suc (suc zero))))))) s = some (boolean true, s)
get_body (suc (suc (suc (suc (suc (suc (suc (suc zero)))))))) s =
    wrapped (λ n. integer (pos n)) (get_number s)
get_body (suc (suc (suc (suc (suc (suc (suc (suc (suc zero))))))))) s =
    wrapped (λ n. integer (negsuc n)) (get_number s)
get_body (suc (suc (suc (suc (suc (suc (suc (suc (suc (suc n)))))))))) s =
    wrapped arrays (get_list (put_list put_text get_text) (get_list put_text get_text) s)

abbrev get_json : Parser Json
get_json s = get_number s >>= get_body

get_json-put : (j : Json) (rest : String) → get_json (put_json j rest) ≡ some (j, rest)
get_json-put (text s) rest = rw (get_text-put s rest) refl
get_json-put (number n) rest = rw (get_number-put n rest) refl
get_json-put (decimal n) rest = rw (get_number-put n rest) refl
get_json-put (texts l) rest = rw (get_list-put put_text get_text get_text-put l rest) refl
get_json-put (mapping d) rest =
    rw
      (get_list-put (put_entry put_text get_text) (get_entry put_text get_text)
        (get_entry-put put_text get_text get_text-put) d rest)
      refl
get_json-put null rest = refl
get_json-put (boolean false) rest = refl
get_json-put (boolean true) rest = refl
get_json-put (integer (pos n)) rest = rw (get_number-put n rest) refl
get_json-put (integer (negsuc n)) rest = rw (get_number-put n rest) refl
get_json-put (arrays l) rest =
    rw
      (get_list-put (put_list put_text get_text) (get_list put_text get_text)
        (get_list-put put_text get_text get_text-put) l rest)
      refl

abbrev forget {ℓ} : {A : Type ℓ} → Option (A × String) → Option A
forget none = none
forget (some read) = some read.0

unfoldable pub dumps_fields : Dict Json → String
dumps_fields fields = put_list (put_entry put_json get_json) (get_entry put_json get_json) fields ""

unfoldable pub loads_fields : String → Option (Dict Json)
loads_fields s = forget (get_list (put_entry put_json get_json) (get_entry put_json get_json) s)

pub loads-dumps : (fields : Dict Json) → loads_fields (dumps_fields fields) ≡ some fields
unfolding loads_fields dumps_fields
loads-dumps fields =
    rw
      (get_list-put (put_entry put_json get_json) (get_entry put_json get_json)
        (get_entry-put put_json get_json get_json-put) fields "")
      refl
