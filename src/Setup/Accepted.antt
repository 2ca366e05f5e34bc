-- ===== src/Setup/Accepted.antt =====
-- Which product names `get_products` lets through.
use pe_exchange.Common.{
  ℕ, zero, suc, ◌≤◌, ◌<◌, ◌≡◌, refl, ap, Bool, true, false, List, [], ◌∷◌, ◌++◌, some, ◌==◌, ltb,
  if◌then◌else◌, arith, subst, All, All-append, length, length-append, Bool-cases, inl, inr,
  int_max,
}
use pe_exchange.Common.Text.{Bytes}
use pe_exchange.Common.Scan.{int_ltb}
use pe_exchange.Pipes.Reading.{text_in}
use pe_exchange.Setup.Products.{
  is_alnum, is_alphanumeric, read_line, cut_last, Lines, accepted, refused, out_of_fuel, names_of,
  read_products, get_products,
}

-- A name that fits its array of 17 bytes with the final zero, of letters and digits only.
pub record IsName (name : Bytes) : Type 0 where
  pub fits : length name < 17
  pub characters : All (λ c. is_alnum c ≡ true) name

cut_last-characters :
    (line : Bytes) → is_alphanumeric line ≡ true → All (λ c. is_alnum c ≡ true) (cut_last line)
unfolding is_alphanumeric cut_last
cut_last-characters [] h = cc
cut_last-characters (c ∷ []) h = tt
cut_last-characters (c ∷ d ∷ line) h = ground (arith, cut_last-characters (d ∷ line))

length-cut_last : (line : Bytes) → length (cut_last line) ≤ length line
unfolding cut_last
length-cut_last [] = omega arith
length-cut_last (c ∷ []) = omega arith
length-cut_last (c ∷ d ∷ line) = omega (arith, length-cut_last (d ∷ line))

shorter-cut_last : (line : Bytes) → 0 < length line → suc (length (cut_last line)) ≤ length line
unfolding cut_last
shorter-cut_last [] h = omega arith
shorter-cut_last (c ∷ []) h = omega arith
shorter-cut_last (c ∷ d ∷ line) h = omega (arith, shorter-cut_last (d ∷ line))

cut_last-IsName :
    (line : Bytes)
    → ltb 17 (length line) ≡ false
    → is_alphanumeric line ≡ true
    → IsName (cut_last line)
unfolding cut_last
cut_last-IsName [] h a = record { fits = omega arith; characters = tt }
cut_last-IsName (c ∷ line) h a = record {
  fits = ground (arith, shorter-cut_last (c ∷ line));
  characters = cut_last-characters (c ∷ line) a;
}

-- Names enough and no more.
pub record IsNames (num_products : ℕ) (products : List Bytes) : Type 0 where
  pub number : length products ≡ num_products
  pub names : All IsName products

-- The tests of a round, taken one by one.
if_refused :
    (b : Bool) (r : Lines) {names : List Bytes}
    → (if b then refused else r) ≡ accepted names
    → (b ≡ false) × (r ≡ accepted names)
if_refused true r e = absurd cc
if_refused false r e = (refl, e)

if_let_through :
    (b : Bool) (r : Lines) {names : List Bytes}
    → (if b then r else refused) ≡ accepted names
    → (b ≡ true) × (r ≡ accepted names)
if_let_through true r e = (refl, e)
if_let_through false r e = absurd cc

names_of-accepted : (r : Lines) {names : List Bytes} → names_of r ≡ some names → r ≡ accepted names
names_of-accepted (accepted names) e = cc
names_of-accepted refused e = absurd cc
names_of-accepted out_of_fuel e = absurd cc

not_int_ltb : (a b : ℕ) → a < int_max → b < int_max → int_ltb a b ≡ false → b ≤ a
not_int_ltb a b h k e = ground arith

read_products-IsNames :
    (fuel : ℕ) (file : Bytes) (num_products : ℕ) (found : List Bytes) {names : List Bytes}
    → suc num_products < int_max
    → length found ≤ num_products
    → All IsName found
    → read_products fuel file num_products found ≡ accepted names
    → IsNames num_products names
unfolding read_products
read_products-IsNames zero file n found h l a e = cc
read_products-IsNames (suc fuel) [] n found {names = names} h l a e =
    let (enough, same) = if_refused (int_ltb (length found) n) (accepted found) e in
    let here : found ≡ names = cc in
    record {
      number =
          omega (
            arith,
            ap length here,
            not_int_ltb (length found) n (omega arith) (omega arith) enough,
          );
      names = subst (All IsName) here a;
    }
read_products-IsNames (suc fuel) (c ∷ file) n found h l a e =
    let line = text_in (read_line 49 (c ∷ file)).0 in
    let rest = (read_line 49 (c ∷ file)).1 in
    let found' = found ++ (cut_last line ∷ []) in
    let e1 = if_refused (ltb 17 (length line)) _ e in
    let e2 = if_let_through (is_alphanumeric line) _ e1.1 in
    let e3 = if_refused (int_ltb n (length found')) _ e2.1 in
    read_products-IsNames fuel rest n found' h
      (not_int_ltb n (length found') (omega arith)
        (omega (arith, length-append found (cut_last line ∷ []))) e3.0)
      (All-append IsName found (cut_last line ∷ []) a (cut_last-IsName line e1.0 e2.0, tt)) e3.1

-- If `get_products` accepts a file for a number of products more than one below 2^31, it has found
-- that many names, each of letters and digits only and short enough for its array with the final
-- zero.
pub get_products-IsNames :
    (file : Bytes) (num_products : ℕ) {names : List Bytes}
    → suc num_products < int_max
    → get_products (some file) num_products ≡ some names
    → IsNames num_products names
unfolding get_products
get_products-IsNames [] n h e =
    read_products-IsNames 1 [] n [] h (omega arith) tt
      (names_of-accepted (read_products 1 [] n []) e)
get_products-IsNames (c ∷ file) n h e =
    let rest = (read_line 49 (c ∷ file)).1 in
    read_products-IsNames (suc (length rest)) rest n [] h (omega arith) tt
      (names_of-accepted (read_products (suc (length rest)) rest n []) e)

read_line_shorter : (n : ℕ) (file : Bytes) → length (read_line n file).1 ≤ length file
unfolding read_line
read_line_shorter zero file = omega arith
read_line_shorter (suc n) [] = omega arith
read_line_shorter (suc n) (c ∷ file) = elim (Bool-cases (c == 10)) [
  | inl end ↦ simp end (omega arith)
  | inr more ↦ simp more (omega (arith, read_line_shorter n file))
]

read_line_cons : (n c : ℕ) (file : Bytes) → length (read_line (suc n) (c ∷ file)).1 ≤ length file
unfolding read_line
read_line_cons n c file = elim (Bool-cases (c == 10)) [
  | inl end ↦ simp end (omega arith)
  | inr more ↦ simp more (omega (arith, read_line_shorter n file))
]

-- One character is read at least.
lt-pred : {a b fuel : ℕ} → a ≤ b → suc b < suc fuel → a < fuel
lt-pred h k = omega arith

abbrev pub IsEnded : Lines → Type 0
IsEnded (accepted names) = Unit {0}
IsEnded refused = Unit {0}
IsEnded out_of_fuel = ⊥

-- The result of a round, from that of the rounds after it.
abbrev round : Bytes → ℕ → ℕ → Lines → Lines
round line total n r =
    if ltb 17 (length line)
    then refused
    else if is_alphanumeric line
    then (if int_ltb n total then refused else r)
    else refused

round-IsEnded :
    (line : Bytes) (total n : ℕ) (r : Lines) → IsEnded r → IsEnded (round line total n r)
round-IsEnded line total n r h = elim (Bool-cases (ltb 17 (length line))) [
  | inl long ↦ simp long tt
  | inr short ↦ elim (Bool-cases (is_alphanumeric line)) [
    | inr other ↦ simp (short, other) tt
    | inl good ↦ elim (Bool-cases (int_ltb n total)) [
      | inl many ↦ simp (short, good, many) tt
      | inr few ↦ simp (short, good, few) h
    ]
  ]
]

read_products-IsEnded :
    (fuel : ℕ) (file : Bytes) (num_products : ℕ) (found : List Bytes)
    → length file < fuel
    → IsEnded (read_products fuel file num_products found)
unfolding read_products
read_products-IsEnded zero file n found h = absurd (omega arith)
read_products-IsEnded (suc fuel) [] n found h = elim (Bool-cases (int_ltb (length found) n)) [
  | inl few ↦ simp few tt
  | inr enough ↦ simp enough tt
]
read_products-IsEnded (suc fuel) (c ∷ file) n found h =
    let line = text_in (read_line 49 (c ∷ file)).0 in
    let rest = (read_line 49 (c ∷ file)).1 in
    let found' = found ++ (cut_last line ∷ []) in
    round-IsEnded line (length found') n (read_products fuel rest n found')
      (read_products-IsEnded fuel rest n found' (lt-pred (read_line_cons 48 c file) h))

-- More fuel makes no difference.
read_products_same :
    (fuel fuel' : ℕ) (file : Bytes) (num_products : ℕ) (found : List Bytes)
    → length file < fuel
    → length file < fuel'
    → read_products fuel file num_products found ≡ read_products fuel' file num_products found
unfolding read_products
read_products_same zero fuel' file n found h k = absurd (omega arith)
read_products_same (suc fuel) zero file n found h k = absurd (omega arith)
read_products_same (suc fuel) (suc fuel') [] n found h k = refl
read_products_same (suc fuel) (suc fuel') (c ∷ file) n found h k =
    let line = text_in (read_line 49 (c ∷ file)).0 in
    let rest = (read_line 49 (c ∷ file)).1 in
    let found' = found ++ (cut_last line ∷ []) in
    ap (round line (length found') n) (
      read_products_same fuel fuel' rest n found' (lt-pred (read_line_cons 48 c file) h)
        (lt-pred (read_line_cons 48 c file) k))

-- With more fuel than the file has characters, the loop over its lines accepts or refuses the file
-- and does not run out of fuel, and it gives the same with any other such fuel.
pub read_products_ends :
    (fuel fuel' : ℕ) (file : Bytes) (num_products : ℕ) (found : List Bytes)
    → length file < fuel
    → length file < fuel'
    → IsEnded (read_products fuel file num_products found)
      × (read_products fuel file num_products found ≡ read_products fuel' file num_products found)
read_products_ends fuel fuel' file n found h k =
    (read_products-IsEnded fuel file n found h, read_products_same fuel fuel' file n found h k)
