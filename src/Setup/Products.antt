-- ===== src/Setup/Products.antt =====
-- `get_num_products` and `get_products`: the product file, as its text, or none if it cannot be opened.
use pe_exchange.Common.{
  false, ℕ, zero, suc, ◌-◌, Bool, true, false, List, [], ◌∷◌, ◌++◌, Option, none, some, ltb, leb,
  ◌==◌, ◌&&◌, ◌||◌, if◌then◌else◌, length, int_mod,
}
use pe_exchange.Common.Text.{Bytes}
use pe_exchange.Common.Scan.{is_digit, scan_int, int_ltb}
use pe_exchange.Pipes.Reading.{text_in}

-- isalnum, in the C locale
unfoldable pub is_alnum : ℕ → Bool
unfolding is_digit
is_alnum c = is_digit c || (leb b'A' c && leb c b'Z') || (leb b'a' c && leb c b'z')

-- The test for every character but the last, which is taken for the line's end. An empty text has the
-- length 0, and `strlen(line) - 1` is then no number that the loop reaches: it stops at the final zero.
unfoldable pub is_alphanumeric : Bytes → Bool
unfolding is_alnum
is_alphanumeric [] = false
is_alphanumeric (c ∷ []) = true
is_alphanumeric (c ∷ d ∷ line) = is_alnum c && is_alphanumeric (d ∷ line)

unfoldable pub is_num : Bytes → Bool
unfolding is_digit
is_num [] = false
is_num (c ∷ []) = true
is_num (c ∷ d ∷ line) = is_digit c && is_num (d ∷ line)

-- Up to `n` characters, no further than a line's end; the rest of the file.
unfoldable pub read_line : ℕ → Bytes → Bytes × Bytes
read_line zero file = ([], file)
read_line (suc n) [] = ([], [])
read_line (suc n) (c ∷ file) =
    let (line, rest) = read_line n file in if c == 10 then (c ∷ [], file) else (c ∷ line, rest)

-- fgets(line, MAX_LINE, file): none at the end of the file
unfoldable pub fgets : Bytes → Option (Bytes × Bytes)
unfolding read_line
fgets [] = none
fgets (c ∷ file) = some (read_line 49 (c ∷ file))

-- The int -1.
abbrev pub minus_one : ℕ
minus_one = int_mod - 1

-- Of an empty file, whose first line the source does not have, nothing is known; here it is refused.
-- A file that has been accepted may give -1 as well, by `atoi`.
unfoldable pub get_num_products : Option Bytes → ℕ
unfolding fgets is_num text_in
get_num_products none = minus_one
get_num_products (some file) = elim (fgets file) [
  | none ↦ minus_one
  | some (line, rest) ↦
      if is_num (text_in line)
      then (elim (scan_int (text_in line)) [ none ↦ 0 | some (n, _) ↦ n ])
      else minus_one
]

-- `line[strlen(line) - 1] = 0`
unfoldable pub cut_last : Bytes → Bytes
cut_last [] = []
cut_last (c ∷ []) = []
cut_last (c ∷ d ∷ line) = c ∷ cut_last (d ∷ line)

-- How the loop over the lines ends: with 0, and these names; with 1; or not, since its fuel has run
-- out.
pub data Lines : Type 0 where
  accepted : List Bytes → Lines
  refused : Lines
  out_of_fuel : Lines

-- The loop over the lines, on fuel. The text of a line ends at its zero.
unfoldable pub read_products : ℕ → Bytes → ℕ → List Bytes → Lines
unfolding fgets is_alphanumeric cut_last text_in
read_products zero file num_products found = out_of_fuel
read_products (suc fuel) file num_products found = elim (fgets file) [
  | none ↦ if int_ltb (length found) num_products then refused else accepted found
  | some (line, rest) ↦
      let text = text_in line in
      let found' = found ++ (cut_last text ∷ []) in
      let more = read_products fuel rest num_products found' in
      if ltb 17 (length text)
      then refused
      else if is_alphanumeric text
      then (if int_ltb num_products (length found') then refused else more)
      else refused
]

abbrev pub names_of : Lines → Option (List Bytes)
names_of (accepted names) = some names
names_of refused = none
names_of out_of_fuel = none

-- `none` is the result 1. Every line takes a character of the file.
unfoldable pub get_products : Option Bytes → ℕ → Option (List Bytes)
unfolding read_products
get_products none num_products = none
get_products (some file) num_products = elim (fgets file) [
  | none ↦ names_of (read_products 1 [] num_products [])
  | some (line, rest) ↦ names_of (read_products (suc (length rest)) rest num_products [])
]
